-- ===== src/Lab/Etcd.antt =====
-- The etcd topology of the lab cluster.
use apple_pod_control.Prelude.{◌≡◌, refl, true, false, [], ◌∷◌, List, ℕ}
use apple_pod_control.Text.{
  text_eq, texts_eq, is_empty, fold_rune, equal_fold, lower_rune, to_lower, upper_rune, to_upper,
  is_space, trim_left, trim_right, trim_space, cut_prefix, has_prefix, trim_prefix, contains_text,
  split, join_texts, text_lt, insert_text, sort_texts, contains_string,
}
use apple_pod_control.Text.Numbers.{itoa, is_digit, parse_uint}
use apple_pod_control.Net.{
  parse_ipv4, ipv4_string, parse_prefix, masked, prefix_string, prefix_contains, parse_mac,
}
use apple_pod_control.Host.{
  is_not_found_error, is_not_exist_error, collision_of, is_done, without_cancel,
}
use apple_pod_control.Host.Action.{
  pure, raise, lift, attempt, wrapped, ask, raise_if, ◌>>=◌, run_command, context_err, now,
  with_timeout, wait,
}
use apple_pod_control.Ha.Names.{
  dns_label, ha_member_count, default_ha_node_name, ha_container_name, ha_volume_name,
  ha_network_name, member_by_id,
}
use apple_pod_control.Ha.Config.{
  ha_config_path, default_ha_config, last_ipv4_address, contains_number, usable_address, usable_mac,
  normalize_member,
}
use apple_pod_control.Ha.Config.ByteSize.{multiplier_of, parse_ha_byte_size, same_ha_byte_size}
use apple_pod_control.Ha.Config.Endpoint.{has_port, ha_proxy_endpoint}
use apple_pod_control.Ha.Config.Normalize.{
  sort_members, normalize_members, normalize_ha_config, load_ha_config,
}
use apple_pod_control.Ha.Etcd.{
  probe_ha_etcd_member, server_ids, other_ids, leader_count, peers_agree, sort_states,
  check_topology, validate_ha_etcd_topology, repair_target_server_id, check_voters, is_undeclared,
  validate_ha_etcd_repair_quorum,
}
use apple_pod_control.Ha.Etcd.LocalState.{
  prometheus_label, parse_ha_etcd_health, parse_ha_etcd_local_state,
}
use apple_pod_control.Ha.Etcd.ServerId.{
  hex_value, parse_hex, hex_char, format_hex, canonical_ha_etcd_server_id,
}
use apple_pod_control.Host.{History}
use apple_pod_control.Host.Action.{Res, ok, err}
use apple_pod_control.Ha.Types.{HaEtcdMemberTopology}
use apple_pod_control.Ha.Etcd.Topology.{
  OneCluster, validate_ha_etcd_topology-OneCluster, check_topology-OneCluster,
}
use apple_pod_control.Ha.Etcd.Declared.{is_undeclared-member_by_id}
use apple_pod_control.Ha.Names.{member_by_id}
use apple_pod_control.Ha.Etcd.{is_undeclared}
use apple_pod_control.Prelude.{◌==◌}
use apple_pod_control.Ha.Etcd.Voters.{Majority, check_voters-Majority}
use apple_pod_control.Text.{Text, text}
use apple_pod_control.Lab.{lab_host, lab_ctx, lab_config}

abbrev states_of : Res (List HaEtcdMemberTopology) → List HaEtcdMemberTopology
states_of (ok t) = t
states_of (err e) = []

abbrev pub lab_topology : List HaEtcdMemberTopology
lab_topology = states_of (validate_ha_etcd_topology lab_host lab_ctx lab_config []).0

abbrev pub lab_topology_history : History
lab_topology_history = (validate_ha_etcd_topology lab_host lab_ctx lab_config []).1

pub lab_probed :
    validate_ha_etcd_topology lab_host lab_ctx lab_config []
    ≡ (ok lab_topology, lab_topology_history)
unfolding lab_host text_eq texts_eq is_empty fold_rune equal_fold lower_rune to_lower upper_rune
    to_upper is_space trim_left trim_right trim_space cut_prefix has_prefix trim_prefix
    contains_text split join_texts text_lt insert_text sort_texts contains_string itoa is_digit
    parse_uint parse_ipv4 ipv4_string parse_prefix masked prefix_string prefix_contains parse_mac
    is_not_found_error is_not_exist_error collision_of is_done without_cancel pure raise lift
    attempt wrapped ask raise_if ◌>>=◌ run_command context_err now with_timeout wait dns_label
    ha_member_count default_ha_node_name ha_container_name ha_volume_name ha_network_name
    member_by_id ha_config_path default_ha_config last_ipv4_address contains_number usable_address
    usable_mac normalize_member multiplier_of parse_ha_byte_size same_ha_byte_size has_port
    ha_proxy_endpoint sort_members normalize_members normalize_ha_config load_ha_config
    probe_ha_etcd_member server_ids other_ids leader_count peers_agree sort_states check_topology
    validate_ha_etcd_topology repair_target_server_id check_voters is_undeclared
    validate_ha_etcd_repair_quorum prometheus_label parse_ha_etcd_health parse_ha_etcd_local_state
    hex_value parse_hex hex_char format_hex canonical_ha_etcd_server_id
lab_probed = refl

validate_ha_etcd_topology-OneCluster_example :
    (states : List HaEtcdMemberTopology) × OneCluster states × (lab_topology ≡ sort_states states)
validate_ha_etcd_topology-OneCluster_example =
    validate_ha_etcd_topology-OneCluster lab_host lab_ctx lab_config lab_topology []
      lab_topology_history lab_probed

lab_cluster : OneCluster lab_topology
unfolding lab_host text_eq texts_eq is_empty fold_rune equal_fold lower_rune to_lower upper_rune
    to_upper is_space trim_left trim_right trim_space cut_prefix has_prefix trim_prefix
    contains_text split join_texts text_lt insert_text sort_texts contains_string itoa is_digit
    parse_uint parse_ipv4 ipv4_string parse_prefix masked prefix_string prefix_contains parse_mac
    is_not_found_error is_not_exist_error collision_of is_done without_cancel pure raise lift
    attempt wrapped ask raise_if ◌>>=◌ run_command context_err now with_timeout wait dns_label
    ha_member_count default_ha_node_name ha_container_name ha_volume_name ha_network_name
    member_by_id ha_config_path default_ha_config last_ipv4_address contains_number usable_address
    usable_mac normalize_member multiplier_of parse_ha_byte_size same_ha_byte_size has_port
    ha_proxy_endpoint sort_members normalize_members normalize_ha_config load_ha_config
    probe_ha_etcd_member server_ids other_ids leader_count peers_agree sort_states check_topology
    validate_ha_etcd_topology repair_target_server_id check_voters is_undeclared
    validate_ha_etcd_repair_quorum prometheus_label parse_ha_etcd_health parse_ha_etcd_local_state
    hex_value parse_hex hex_char format_hex canonical_ha_etcd_server_id
lab_cluster = record {
  three = refl;
  distinct = (refl, (refl, (refl, tt)));
  agree = (refl, (refl, (refl, tt)));
  one_leader = refl;
}

check_topology-OneCluster_example : check_topology lab_topology ≡ ok (sort_states lab_topology)
check_topology-OneCluster_example = check_topology-OneCluster lab_topology lab_cluster

abbrev voter : ℕ → Text → Text → HaEtcdMemberTopology
voter id own peer = record {
  member_id = id;
  node_name = text "apc-lab";
  server_id = own;
  peer_server_ids = peer ∷ text "c3" ∷ [];
  health_success = true;
  has_leader = true;
  is_leader = false;
  is_learner = false;
}

abbrev left : HaEtcdMemberTopology
left = voter 1 (text "a1") (text "b2")

abbrev right : HaEtcdMemberTopology
right = voter 2 (text "b2") (text "a1")

check_voters-Majority_example :
    ((result : List HaEtcdMemberTopology)
      → check_voters left right ≡ ok result
      → (target : Text) × Majority left right target)
    × ((target : Text)
        → Majority left right target
        → check_voters left right ≡ ok (sort_states (left ∷ right ∷ [])))
check_voters-Majority_example = check_voters-Majority left right

-- The two voters are such a majority, and are accepted.
voters_accepted : check_voters left right ≡ ok (left ∷ right ∷ [])
unfolding text_eq texts_eq is_empty fold_rune equal_fold lower_rune to_lower upper_rune to_upper
    is_space trim_left trim_right trim_space cut_prefix has_prefix trim_prefix contains_text split
    join_texts text_lt insert_text sort_texts contains_string itoa is_digit parse_uint parse_ipv4
    ipv4_string parse_prefix masked prefix_string prefix_contains parse_mac is_not_found_error
    is_not_exist_error collision_of is_done without_cancel pure raise lift attempt wrapped ask
    raise_if ◌>>=◌ run_command context_err now with_timeout wait dns_label ha_member_count
    default_ha_node_name ha_container_name ha_volume_name ha_network_name member_by_id
    ha_config_path default_ha_config last_ipv4_address contains_number usable_address usable_mac
    normalize_member multiplier_of parse_ha_byte_size same_ha_byte_size has_port ha_proxy_endpoint
    sort_members normalize_members normalize_ha_config load_ha_config probe_ha_etcd_member
    server_ids other_ids leader_count peers_agree sort_states check_topology
    validate_ha_etcd_topology repair_target_server_id check_voters is_undeclared
    validate_ha_etcd_repair_quorum prometheus_label parse_ha_etcd_health parse_ha_etcd_local_state
    hex_value parse_hex hex_char format_hex canonical_ha_etcd_server_id
voters_accepted = refl

-- The identifier 7 is not declared.
is_undeclared-member_by_id_example : is_undeclared (member_by_id lab_config.members 7) ≡ (7 == 0)
is_undeclared-member_by_id_example = is_undeclared-member_by_id lab_config.members 7
