-- ===== src/Lab/Members.antt =====
-- Maintenance of the lab cluster's second member.
use apple_pod_control.Prelude.{◌≡◌, refl, [], ◌∷◌}
use apple_pod_control.Text.{
  text_eq, texts_eq, is_empty, fold_rune, equal_fold, lower_rune, to_lower, upper_rune, to_upper,
  is_space, trim_left, trim_right, trim_space, cut_prefix, has_prefix, trim_prefix, contains_text,
  split, join_texts, text_lt, insert_text, sort_texts, contains_string,
}
use apple_pod_control.Text.Numbers.{itoa, is_digit, parse_uint}
use apple_pod_control.Net.{
  parse_ipv4, ipv4_string, parse_prefix, masked, prefix_string, prefix_contains, parse_mac,
}
use apple_pod_control.Host.{
  is_not_found_error, is_not_exist_error, collision_of, is_done, without_cancel,
}
use apple_pod_control.Host.Action.{
  pure, raise, lift, attempt, wrapped, ask, raise_if, ◌>>=◌, run_command, context_err, now,
  with_timeout, wait,
}
use apple_pod_control.Ha.Names.{
  dns_label, ha_member_count, default_ha_node_name, ha_container_name, ha_volume_name,
  ha_network_name, member_by_id,
}
use apple_pod_control.Ha.Config.{
  ha_config_path, default_ha_config, last_ipv4_address, contains_number, usable_address, usable_mac,
  normalize_member,
}
use apple_pod_control.Ha.Config.ByteSize.{multiplier_of, parse_ha_byte_size, same_ha_byte_size}
use apple_pod_control.Ha.Config.Endpoint.{has_port, ha_proxy_endpoint}
use apple_pod_control.Ha.Config.Normalize.{
  sort_members, normalize_members, normalize_ha_config, load_ha_config,
}
use apple_pod_control.Ha.Inspect.{
  label_of, validate_ha_labels, ha_container_uses_legacy_init, validate_ha_container,
  validate_ha_volume, validate_ha_network, is_running, is_stopped,
}
use apple_pod_control.Ha.Inspect.Arguments.{
  join_host_port, api_endpoint, ha_init_arguments, legacy_ha_init_arguments,
  ha_server_run_arguments,
}
use apple_pod_control.Ha.Inspect.Query.{
  is_not_found, inspect_ha_container, inspect_ha_volume, inspect_ha_network, read_ha_member_node,
  node_document_ready,
}
use apple_pod_control.Ha.Preflight.{get_id, put_id, if_found, optional, preflight_ha}
use apple_pod_control.Ha.Status.{
  missing_member, status_member, add_member, status_ha, ha_member_state_by_id, pair_ready,
  all_ha_members_ready, other_ha_members_ready,
}
use apple_pod_control.Ha.Etcd.{
  probe_ha_etcd_member, server_ids, other_ids, leader_count, peers_agree, sort_states,
  check_topology, validate_ha_etcd_topology, repair_target_server_id, check_voters, is_undeclared,
  validate_ha_etcd_repair_quorum,
}
use apple_pod_control.Ha.Etcd.LocalState.{
  prometheus_label, parse_ha_etcd_health, parse_ha_etcd_local_state,
}
use apple_pod_control.Ha.Etcd.ServerId.{
  hex_value, parse_hex, hex_char, format_hex, canonical_ha_etcd_server_id,
}
use apple_pod_control.Host.Mutations.{mutations}
use apple_pod_control.Ha.Addresses.Peers.{validate_ha_peer_runtime_ip_reservations}
use apple_pod_control.Ha.Addresses.Envelope.{
  run_ha_bounded, wait_address, wait_ha_server_runtime_address, delete_exact_ha_server_envelope,
  run_attempts, run_ha_server_envelope,
}
use apple_pod_control.Ha.Members.{
  validate_ha_member_operation_input, load_ha_member_operation_locked, envelopes_present,
  preflight_ha_member_topology, keep_waiting, finish_wait, wait_ha_member_stopped,
  check_before_stop, stop_ha_member_locked,
}
use apple_pod_control.Host.{History, stop}
use apple_pod_control.Ha.Members.StopSafety.{StopEffect, stop_ha_member_locked-StopEffect}
use apple_pod_control.Lab.Config.{lab_normal}
use apple_pod_control.Lab.{lab, lab_host, lab_ctx, lab_config, second_member, server}
use apple_pod_control.Text.{text}
use apple_pod_control.Prelude.{some, ◌⊎◌}
use apple_pod_control.Host.{ran}
use apple_pod_control.Host.Emits.{Emits}
use apple_pod_control.Host.Own.{OnlyOwn, OwnOrIntent, IsRunOf}
use apple_pod_control.Ha.Members.Start.{start_ha_member_locked, reconcile_ha_member}
use apple_pod_control.Ha.Members.Start.Own.{
  start_ha_member_locked-OnlyOwn, reconcile_ha_member-OnlyOwn,
}
use apple_pod_control.Ha.Members.Start.Safety.{OthersReady, start_ha_member_locked-OthersReady}
use apple_pod_control.Ha.Members.Restart.{restart_ha_member_operation}
use apple_pod_control.Ha.Members.Restart.Own.{restart_ha_member_operation-OwnOrIntent}
use apple_pod_control.Ha.Members.Restart.Safety.{
  ReadyToRestart, restart_ha_member_operation-ReadyToRestart,
}

-- The lab with its second member stopped.
abbrev stopped_history : History
stopped_history = ran lab_ctx (stop (ha_container_name lab 2)) ∷ []

stop_ha_member_locked-StopEffect_example :
    StopEffect lab_host lab_ctx lab_config second_member []
      (stop_ha_member_locked lab_host lab_ctx lab_config second_member [])
stop_ha_member_locked-StopEffect_example =
    stop_ha_member_locked-StopEffect lab_host lab_ctx lab_config second_member []

start_ha_member_locked-OnlyOwn_example :
    Emits
      (OnlyOwn
        (IsRunOf (ha_container_name lab_config.name second_member.id))
        (ha_container_name lab_config.name second_member.id))
      (start_ha_member_locked lab_host lab_ctx lab_config second_member)
start_ha_member_locked-OnlyOwn_example =
    start_ha_member_locked-OnlyOwn lab_host lab_ctx lab_config second_member lab_normal

reconcile_ha_member-OnlyOwn_example :
    Emits
      (OnlyOwn
        (IsRunOf (ha_container_name lab_config.name second_member.id))
        (ha_container_name lab_config.name second_member.id))
      (reconcile_ha_member lab_host lab_ctx lab_config second_member
        (some (server second_member (text "stopped"))))
reconcile_ha_member-OnlyOwn_example =
    reconcile_ha_member-OnlyOwn lab_host lab_ctx lab_config second_member
      (some (server second_member (text "stopped"))) lab_normal

start_ha_member_locked-OthersReady_example :
    (mutations (start_ha_member_locked lab_host lab_ctx lab_config second_member stopped_history).1
      ≡ mutations stopped_history)
    ⊎ OthersReady lab_host lab_ctx lab_config second_member stopped_history
start_ha_member_locked-OthersReady_example =
    start_ha_member_locked-OthersReady lab_host lab_ctx lab_config second_member stopped_history

restart_ha_member_operation-OwnOrIntent_example :
    Emits
      (OwnOrIntent
        (IsRunOf (ha_container_name lab_config.name second_member.id))
        (ha_container_name lab_config.name second_member.id))
      (restart_ha_member_operation lab_host lab_ctx lab_ctx lab_config second_member
        180_000_000_000)
restart_ha_member_operation-OwnOrIntent_example =
    restart_ha_member_operation-OwnOrIntent lab_host lab_ctx lab_ctx lab_config second_member
      180_000_000_000 lab_normal

restart_ha_member_operation-ReadyToRestart_example :
    (mutations
        (restart_ha_member_operation lab_host lab_ctx lab_ctx lab_config second_member
          180_000_000_000 []).1
      ≡ [])
    ⊎ ReadyToRestart lab_host lab_ctx lab_config second_member []
unfolding mutations
restart_ha_member_operation-ReadyToRestart_example =
    restart_ha_member_operation-ReadyToRestart lab_host lab_ctx lab_ctx lab_config second_member
      180_000_000_000 []

-- In the lab, that stop goes through.
lab_stop :
    mutations (stop_ha_member_locked lab_host lab_ctx lab_config second_member []).1
    ≡ stop (ha_container_name lab 2) ∷ []
unfolding lab_host text_eq texts_eq is_empty fold_rune equal_fold lower_rune to_lower upper_rune
    to_upper is_space trim_left trim_right trim_space cut_prefix has_prefix trim_prefix
    contains_text split join_texts text_lt insert_text sort_texts contains_string itoa is_digit
    parse_uint parse_ipv4 ipv4_string parse_prefix masked prefix_string prefix_contains parse_mac
    is_not_found_error is_not_exist_error collision_of is_done without_cancel pure raise lift
    attempt wrapped ask raise_if ◌>>=◌ run_command context_err now with_timeout wait dns_label
    ha_member_count default_ha_node_name ha_container_name ha_volume_name ha_network_name
    member_by_id ha_config_path default_ha_config last_ipv4_address contains_number usable_address
    usable_mac normalize_member multiplier_of parse_ha_byte_size same_ha_byte_size has_port
    ha_proxy_endpoint sort_members normalize_members normalize_ha_config load_ha_config label_of
    validate_ha_labels ha_container_uses_legacy_init validate_ha_container validate_ha_volume
    validate_ha_network is_running is_stopped join_host_port api_endpoint ha_init_arguments
    legacy_ha_init_arguments ha_server_run_arguments is_not_found inspect_ha_container
    inspect_ha_volume inspect_ha_network read_ha_member_node node_document_ready get_id put_id
    if_found optional preflight_ha missing_member status_member add_member status_ha
    ha_member_state_by_id pair_ready all_ha_members_ready other_ha_members_ready
    probe_ha_etcd_member server_ids other_ids leader_count peers_agree sort_states check_topology
    validate_ha_etcd_topology repair_target_server_id check_voters is_undeclared
    validate_ha_etcd_repair_quorum prometheus_label parse_ha_etcd_health parse_ha_etcd_local_state
    hex_value parse_hex hex_char format_hex canonical_ha_etcd_server_id mutations run_ha_bounded
    validate_ha_peer_runtime_ip_reservations wait_address wait_ha_server_runtime_address
    delete_exact_ha_server_envelope run_attempts run_ha_server_envelope
    validate_ha_member_operation_input load_ha_member_operation_locked envelopes_present
    preflight_ha_member_topology keep_waiting finish_wait wait_ha_member_stopped check_before_stop
    stop_ha_member_locked
lab_stop = refl
