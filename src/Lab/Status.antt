-- ===== src/Lab/Status.antt =====
-- The status of the lab cluster.
use apple_pod_control.Prelude.{◌≡◌, ◌≤◌, ℕ, refl, true}
use apple_pod_control.Text.{
  text_eq, texts_eq, is_empty, fold_rune, equal_fold, lower_rune, to_lower, upper_rune, to_upper,
  is_space, trim_left, trim_right, trim_space, cut_prefix, has_prefix, trim_prefix, contains_text,
  split, join_texts, text_lt, insert_text, sort_texts, contains_string,
}
use apple_pod_control.Text.Numbers.{itoa, is_digit, parse_uint}
use apple_pod_control.Net.{
  parse_ipv4, ipv4_string, parse_prefix, masked, prefix_string, prefix_contains, parse_mac,
}
use apple_pod_control.Host.{
  is_not_found_error, is_not_exist_error, collision_of, is_done, without_cancel,
}
use apple_pod_control.Host.Action.{
  pure, raise, lift, attempt, wrapped, ask, raise_if, ◌>>=◌, run_command, context_err, now,
  with_timeout, wait,
}
use apple_pod_control.Ha.Names.{
  dns_label, ha_member_count, default_ha_node_name, ha_container_name, ha_volume_name,
  ha_network_name, member_by_id,
}
use apple_pod_control.Ha.Config.{
  ha_config_path, default_ha_config, last_ipv4_address, contains_number, usable_address, usable_mac,
  normalize_member,
}
use apple_pod_control.Ha.Config.ByteSize.{multiplier_of, parse_ha_byte_size, same_ha_byte_size}
use apple_pod_control.Ha.Config.Endpoint.{has_port, ha_proxy_endpoint}
use apple_pod_control.Ha.Config.Normalize.{
  sort_members, normalize_members, normalize_ha_config, load_ha_config,
}
use apple_pod_control.Ha.Inspect.{
  label_of, validate_ha_labels, ha_container_uses_legacy_init, validate_ha_container,
  validate_ha_volume, validate_ha_network, is_running, is_stopped,
}
use apple_pod_control.Ha.Inspect.Arguments.{
  join_host_port, api_endpoint, ha_init_arguments, legacy_ha_init_arguments,
  ha_server_run_arguments,
}
use apple_pod_control.Ha.Inspect.Query.{
  is_not_found, inspect_ha_container, inspect_ha_volume, inspect_ha_network, read_ha_member_node,
  node_document_ready,
}
use apple_pod_control.Ha.Preflight.{get_id, put_id, if_found, optional, preflight_ha}
use apple_pod_control.Ha.Status.{
  missing_member, status_member, add_member, status_ha, ha_member_state_by_id, pair_ready,
  all_ha_members_ready, other_ha_members_ready,
}
use apple_pod_control.Host.{History}
use apple_pod_control.Host.Action.{Res, ok, err}
use apple_pod_control.Ha.Types.{HaState, HaConfig}
use apple_pod_control.Ha.Status.Counts.{Reports, status_ha-Reports}
use apple_pod_control.Ha.Status.Loaded.{status_ha-quorum}
use apple_pod_control.Lab.{lab, lab_host, lab_ctx}
use apple_pod_control.Prelude.{[]}

abbrev nobody : HaState
nobody = record {
  name = [];
  network_name = [];
  subnet = [];
  kubeconfig = [];
  quorum = 0;
  ready_members = 0;
  healthy = true;
  members = [];
}

abbrev state_or : HaState → Res HaState → HaState
state_or s (ok t) = t
state_or s (err e) = s

abbrev pub lab_state : HaState
lab_state = state_or nobody (status_ha lab_host lab_ctx lab []).0

abbrev pub lab_status_history : History
lab_status_history = (status_ha lab_host lab_ctx lab []).1

pub lab_status : status_ha lab_host lab_ctx lab [] ≡ (ok lab_state, lab_status_history)
unfolding lab_host text_eq texts_eq is_empty fold_rune equal_fold lower_rune to_lower upper_rune
    to_upper is_space trim_left trim_right trim_space cut_prefix has_prefix trim_prefix
    contains_text split join_texts text_lt insert_text sort_texts contains_string itoa is_digit
    parse_uint parse_ipv4 ipv4_string parse_prefix masked prefix_string prefix_contains parse_mac
    is_not_found_error is_not_exist_error collision_of is_done without_cancel pure raise lift
    attempt wrapped ask raise_if ◌>>=◌ run_command context_err now with_timeout wait dns_label
    ha_member_count default_ha_node_name ha_container_name ha_volume_name ha_network_name
    member_by_id ha_config_path default_ha_config last_ipv4_address contains_number usable_address
    usable_mac normalize_member multiplier_of parse_ha_byte_size same_ha_byte_size has_port
    ha_proxy_endpoint sort_members normalize_members normalize_ha_config load_ha_config label_of
    validate_ha_labels ha_container_uses_legacy_init validate_ha_container validate_ha_volume
    validate_ha_network is_running is_stopped join_host_port api_endpoint ha_init_arguments
    legacy_ha_init_arguments ha_server_run_arguments is_not_found inspect_ha_container
    inspect_ha_volume inspect_ha_network read_ha_member_node node_document_ready get_id put_id
    if_found optional preflight_ha missing_member status_member add_member status_ha
    ha_member_state_by_id pair_ready all_ha_members_ready other_ha_members_ready
lab_status = refl

status_ha-Reports_example :
    (config : HaConfig) × (g : History) × (load_ha_config lab_host lab [] ≡ (ok config, g))
    × Reports config lab_state
status_ha-Reports_example =
    status_ha-Reports lab_host lab_ctx lab lab_state [] lab_status_history lab_status

status_ha-quorum_example :
    (all_ha_members_ready lab_state ≡ true
      → (id : ℕ) → 1 ≤ id
      → id ≤ 3
      → other_ha_members_ready lab_state id ≡ true)
    × ((id : ℕ) → other_ha_members_ready lab_state id ≡ true → lab_state.healthy ≡ true)
status_ha-quorum_example =
    status_ha-quorum lab_host lab_ctx lab lab_state [] lab_status_history lab_status

-- All three pairs of the lab are Ready.
lab_ready : all_ha_members_ready lab_state ≡ true
unfolding lab_host text_eq texts_eq is_empty fold_rune equal_fold lower_rune to_lower upper_rune
    to_upper is_space trim_left trim_right trim_space cut_prefix has_prefix trim_prefix
    contains_text split join_texts text_lt insert_text sort_texts contains_string itoa is_digit
    parse_uint parse_ipv4 ipv4_string parse_prefix masked prefix_string prefix_contains parse_mac
    is_not_found_error is_not_exist_error collision_of is_done without_cancel pure raise lift
    attempt wrapped ask raise_if ◌>>=◌ run_command context_err now with_timeout wait dns_label
    ha_member_count default_ha_node_name ha_container_name ha_volume_name ha_network_name
    member_by_id ha_config_path default_ha_config last_ipv4_address contains_number usable_address
    usable_mac normalize_member multiplier_of parse_ha_byte_size same_ha_byte_size has_port
    ha_proxy_endpoint sort_members normalize_members normalize_ha_config load_ha_config label_of
    validate_ha_labels ha_container_uses_legacy_init validate_ha_container validate_ha_volume
    validate_ha_network is_running is_stopped join_host_port api_endpoint ha_init_arguments
    legacy_ha_init_arguments ha_server_run_arguments is_not_found inspect_ha_container
    inspect_ha_volume inspect_ha_network read_ha_member_node node_document_ready get_id put_id
    if_found optional preflight_ha missing_member status_member add_member status_ha
    ha_member_state_by_id pair_ready all_ha_members_ready other_ha_members_ready
lab_ready = refl
