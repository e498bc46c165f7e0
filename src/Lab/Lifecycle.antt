-- ===== src/Lab/Lifecycle.antt =====
-- The lab cluster as a whole: its creation, its stop, its deletion, and the operation lock.
use apple_pod_control.Prelude.{◌≡◌, refl, true, false, []}
use apple_pod_control.Text.{
  text_eq, texts_eq, is_empty, fold_rune, equal_fold, lower_rune, to_lower, upper_rune, to_upper,
  is_space, trim_left, trim_right, trim_space, cut_prefix, has_prefix, trim_prefix, contains_text,
  split, join_texts, text_lt, insert_text, sort_texts, contains_string,
}
use apple_pod_control.Text.Numbers.{itoa, is_digit, parse_uint}
use apple_pod_control.Net.{
  parse_ipv4, ipv4_string, parse_prefix, masked, prefix_string, prefix_contains, parse_mac,
}
use apple_pod_control.Host.{
  is_not_found_error, is_not_exist_error, collision_of, is_done, without_cancel,
}
use apple_pod_control.Host.Action.{
  pure, raise, lift, attempt, wrapped, ask, raise_if, ◌>>=◌, run_command, context_err, now,
  with_timeout, wait,
}
use apple_pod_control.Ha.Names.{
  dns_label, ha_member_count, default_ha_node_name, ha_container_name, ha_volume_name,
  ha_network_name, member_by_id,
}
use apple_pod_control.Ha.Config.{
  cluster_file, ha_config_path, default_ha_config, last_ipv4_address, contains_number,
  usable_address, usable_mac, normalize_member,
}
use apple_pod_control.Ha.Config.ByteSize.{multiplier_of, parse_ha_byte_size, same_ha_byte_size}
use apple_pod_control.Ha.Config.Endpoint.{has_port, ha_proxy_endpoint}
use apple_pod_control.Ha.Config.Normalize.{
  sort_members, normalize_members, normalize_ha_config, load_ha_config,
}
use apple_pod_control.Ha.Inspect.{
  label_of, validate_ha_labels, ha_container_uses_legacy_init, validate_ha_container,
  validate_ha_volume, validate_ha_network, is_running, is_stopped,
}
use apple_pod_control.Ha.Inspect.Arguments.{
  join_host_port, api_endpoint, ha_init_arguments, legacy_ha_init_arguments,
  ha_server_run_arguments,
}
use apple_pod_control.Ha.Inspect.Query.{
  is_not_found, inspect_ha_container, inspect_ha_volume, inspect_ha_network, read_ha_member_node,
  node_document_ready,
}
use apple_pod_control.Ha.Preflight.{get_id, put_id, if_found, optional, preflight_ha}
use apple_pod_control.Ha.DesiredState.{
  default_ha_desired_state, sorted_ids, validate_ha_desired_state, load_ha_desired_state, sort_ids,
  stamped, save_ha_desired_state, ha_member_intentionally_stopped, remove_id, with_intent,
  set_ha_member_intent_locked, mark_ha_cluster_stopped_locked, mark_ha_cluster_running_locked,
}
use apple_pod_control.Ha.Addresses.Peers.{validate_ha_peer_runtime_ip_reservations}
use apple_pod_control.Ha.Addresses.Envelope.{
  run_ha_bounded, wait_address, wait_ha_server_runtime_address, delete_exact_ha_server_envelope,
  run_attempts, run_ha_server_envelope,
}
use apple_pod_control.Ha.Files.{
  change, check_ha_legacy_collision, ensure_ha_token, save_ha_config, same_ha_runtime_config,
  check_stored, remove_exact_files, read_kubeconfig, clear_current_cluster,
  remove_empty_cluster_directory,
}
use apple_pod_control.Ha.Lifecycle.Stop.{stop_ha_locked, stop_ha, delete_ha_locked, delete_ha}
use apple_pod_control.Host.{History}
use apple_pod_control.Host.Action.{ok}
use apple_pod_control.Ha.Members.{at_least}
use apple_pod_control.Ha.Members.Operation.{stop_member, start_member, restart_member}
use apple_pod_control.Ha.Members.Operation.Locked.{member_operations-LockedRun}
use apple_pod_control.Ha.Lock.Guarded.{LockedRun}
use apple_pod_control.Ha.Lifecycle.{start_ha}
use apple_pod_control.Ha.Lifecycle.Locked.{cluster_operations-LockedRun}
use apple_pod_control.Ha.Lifecycle.Stop.Effects.{
  Effects, stops, all_deletions, stop_ha_locked-Effects, delete_ha_locked-Effects,
}
use apple_pod_control.Lab.{lab, lab_host, lab_ctx}

member_operations-LockedRun_example :
    LockedRun lab_host lab [] (stop_member lab_host lab_ctx lab 2 (at_least 0) []).1
    × LockedRun lab_host lab [] (start_member lab_host lab_ctx lab 2 (at_least 0) []).1
    × LockedRun lab_host lab [] (restart_member lab_host lab_ctx lab 2 (at_least 0) []).1
member_operations-LockedRun_example =
    member_operations-LockedRun lab_host lab_ctx lab 2 (at_least 0) [] tt

cluster_operations-LockedRun_example :
    LockedRun lab_host lab [] (start_ha lab_host lab_ctx lab 0 []).1
    × LockedRun lab_host lab [] (stop_ha lab_host lab_ctx lab []).1
    × LockedRun lab_host lab [] (delete_ha lab_host lab_ctx lab true []).1
cluster_operations-LockedRun_example =
    cluster_operations-LockedRun lab_host lab_ctx lab 0 true [] tt

abbrev stopped_history : History
stopped_history = (stop_ha_locked lab_host lab_ctx lab []).1

lab_stops : stop_ha_locked lab_host lab_ctx lab [] ≡ (ok tt, stopped_history)
unfolding lab_host text_eq texts_eq is_empty fold_rune equal_fold lower_rune to_lower upper_rune
    to_upper is_space trim_left trim_right trim_space cut_prefix has_prefix trim_prefix
    contains_text split join_texts text_lt insert_text sort_texts contains_string itoa is_digit
    parse_uint parse_ipv4 ipv4_string parse_prefix masked prefix_string prefix_contains parse_mac
    is_not_found_error is_not_exist_error collision_of is_done without_cancel pure raise lift
    attempt wrapped ask raise_if ◌>>=◌ run_command context_err now with_timeout wait dns_label
    ha_member_count default_ha_node_name ha_container_name ha_volume_name ha_network_name
    member_by_id cluster_file ha_config_path default_ha_config last_ipv4_address contains_number
    usable_address usable_mac normalize_member multiplier_of parse_ha_byte_size same_ha_byte_size
    has_port ha_proxy_endpoint sort_members normalize_members normalize_ha_config load_ha_config
    label_of validate_ha_labels ha_container_uses_legacy_init validate_ha_container
    validate_ha_volume validate_ha_network is_running is_stopped join_host_port api_endpoint
    ha_init_arguments legacy_ha_init_arguments ha_server_run_arguments is_not_found
    inspect_ha_container inspect_ha_volume inspect_ha_network read_ha_member_node
    node_document_ready get_id put_id if_found optional preflight_ha default_ha_desired_state
    sorted_ids validate_ha_desired_state load_ha_desired_state sort_ids stamped
    save_ha_desired_state ha_member_intentionally_stopped remove_id with_intent
    set_ha_member_intent_locked mark_ha_cluster_stopped_locked mark_ha_cluster_running_locked
    run_ha_bounded validate_ha_peer_runtime_ip_reservations wait_address
    wait_ha_server_runtime_address delete_exact_ha_server_envelope run_attempts
    run_ha_server_envelope change check_ha_legacy_collision ensure_ha_token save_ha_config
    same_ha_runtime_config check_stored remove_exact_files read_kubeconfig clear_current_cluster
    remove_empty_cluster_directory stop_ha_locked stop_ha delete_ha_locked delete_ha
lab_stops = refl

stop_ha_locked-Effects_example : Effects lab_host lab stops [] stopped_history
stop_ha_locked-Effects_example =
    stop_ha_locked-Effects lab_host lab_ctx lab [] stopped_history lab_stops

abbrev deleted_history : History
deleted_history = (delete_ha_locked lab_host lab_ctx lab false []).1

lab_deletes : delete_ha_locked lab_host lab_ctx lab false [] ≡ (ok tt, deleted_history)
unfolding lab_host text_eq texts_eq is_empty fold_rune equal_fold lower_rune to_lower upper_rune
    to_upper is_space trim_left trim_right trim_space cut_prefix has_prefix trim_prefix
    contains_text split join_texts text_lt insert_text sort_texts contains_string itoa is_digit
    parse_uint parse_ipv4 ipv4_string parse_prefix masked prefix_string prefix_contains parse_mac
    is_not_found_error is_not_exist_error collision_of is_done without_cancel pure raise lift
    attempt wrapped ask raise_if ◌>>=◌ run_command context_err now with_timeout wait dns_label
    ha_member_count default_ha_node_name ha_container_name ha_volume_name ha_network_name
    member_by_id cluster_file ha_config_path default_ha_config last_ipv4_address contains_number
    usable_address usable_mac normalize_member multiplier_of parse_ha_byte_size same_ha_byte_size
    has_port ha_proxy_endpoint sort_members normalize_members normalize_ha_config load_ha_config
    label_of validate_ha_labels ha_container_uses_legacy_init validate_ha_container
    validate_ha_volume validate_ha_network is_running is_stopped join_host_port api_endpoint
    ha_init_arguments legacy_ha_init_arguments ha_server_run_arguments is_not_found
    inspect_ha_container inspect_ha_volume inspect_ha_network read_ha_member_node
    node_document_ready get_id put_id if_found optional preflight_ha default_ha_desired_state
    sorted_ids validate_ha_desired_state load_ha_desired_state sort_ids stamped
    save_ha_desired_state ha_member_intentionally_stopped remove_id with_intent
    set_ha_member_intent_locked mark_ha_cluster_stopped_locked mark_ha_cluster_running_locked
    run_ha_bounded validate_ha_peer_runtime_ip_reservations wait_address
    wait_ha_server_runtime_address delete_exact_ha_server_envelope run_attempts
    run_ha_server_envelope change check_ha_legacy_collision ensure_ha_token save_ha_config
    same_ha_runtime_config check_stored remove_exact_files read_kubeconfig clear_current_cluster
    remove_empty_cluster_directory stop_ha_locked stop_ha delete_ha_locked delete_ha
lab_deletes = refl

delete_ha_locked-Effects_example : Effects lab_host lab (all_deletions false) [] deleted_history
delete_ha_locked-Effects_example =
    delete_ha_locked-Effects lab_host lab_ctx lab false [] deleted_history lab_deletes
