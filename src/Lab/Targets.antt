-- ===== src/Lab/Targets.antt =====
-- The image import targets of the lab, and the rollback of its infrastructure.
use apple_pod_control.Prelude.{◌≡◌, refl, true, [], ◌∷◌, ◌++◌, List, if◌then◌else◌}
use apple_pod_control.Text.{
  text_eq, texts_eq, is_empty, fold_rune, equal_fold, lower_rune, to_lower, upper_rune, to_upper,
  is_space, trim_left, trim_right, trim_space, cut_prefix, has_prefix, trim_prefix, contains_text,
  split, join_texts, text_lt, insert_text, sort_texts, contains_string,
}
use apple_pod_control.Text.Numbers.{itoa, is_digit, parse_uint}
use apple_pod_control.Net.{
  parse_ipv4, ipv4_string, parse_prefix, masked, prefix_string, prefix_contains, parse_mac,
}
use apple_pod_control.Host.{
  is_not_found_error, is_not_exist_error, collision_of, is_done, without_cancel,
}
use apple_pod_control.Host.Action.{
  pure, raise, lift, attempt, wrapped, ask, raise_if, ◌>>=◌, run_command, context_err, now,
  with_timeout, wait,
}
use apple_pod_control.Ha.Names.{
  dns_label, ha_member_count, default_ha_node_name, ha_container_name, ha_volume_name,
  ha_network_name, member_by_id,
}
use apple_pod_control.Ha.Config.{
  ha_config_path, default_ha_config, last_ipv4_address, contains_number, usable_address, usable_mac,
  normalize_member,
}
use apple_pod_control.Ha.Config.ByteSize.{multiplier_of, parse_ha_byte_size, same_ha_byte_size}
use apple_pod_control.Ha.Config.Endpoint.{has_port, ha_proxy_endpoint}
use apple_pod_control.Ha.Config.Normalize.{
  sort_members, normalize_members, normalize_ha_config, load_ha_config,
}
use apple_pod_control.Ha.Inspect.{
  label_of, validate_ha_labels, ha_container_uses_legacy_init, validate_ha_container,
  validate_ha_volume, validate_ha_network, is_running, is_stopped,
}
use apple_pod_control.Ha.Inspect.Arguments.{
  join_host_port, api_endpoint, ha_init_arguments, legacy_ha_init_arguments,
  ha_server_run_arguments,
}
use apple_pod_control.Ha.Inspect.Query.{
  is_not_found, inspect_ha_container, inspect_ha_volume, inspect_ha_network, read_ha_member_node,
  node_document_ready,
}
use apple_pod_control.Ha.Preflight.{get_id, put_id, if_found, optional, preflight_ha}
use apple_pod_control.Ha.Members.Targets.{container_name, collect_targets, image_import_targets}
use apple_pod_control.Text.{Text, text}
use apple_pod_control.Host.{History, network_delete}
use apple_pod_control.Host.Action.{Res, ok}
use apple_pod_control.Host.Mutations.{mutations}
use apple_pod_control.Ha.Types.{HaConfig}
use apple_pod_control.Ha.Members.Targets.Running.{Targeted, image_import_targets-Targeted}
use apple_pod_control.Ha.Infrastructure.{rollback_ha_fresh_infrastructure}
use apple_pod_control.Ha.Infrastructure.Rollback.{
  volume_deletions, rollback_ha_fresh_infrastructure-deletions,
}
use apple_pod_control.Lab.{lab, lab_host, lab_ctx, lab_config}

abbrev lab_servers : List Text
lab_servers =
    text "apc-k3s-lab-server-1" ∷ text "apc-k3s-lab-server-2" ∷ text "apc-k3s-lab-server-3" ∷ []

abbrev targets_history : History
targets_history = (image_import_targets lab_host lab_ctx lab []).1

lab_targets : image_import_targets lab_host lab_ctx lab [] ≡ (ok lab_servers, targets_history)
unfolding lab_host text_eq texts_eq is_empty fold_rune equal_fold lower_rune to_lower upper_rune
    to_upper is_space trim_left trim_right trim_space cut_prefix has_prefix trim_prefix
    contains_text split join_texts text_lt insert_text sort_texts contains_string itoa is_digit
    parse_uint parse_ipv4 ipv4_string parse_prefix masked prefix_string prefix_contains parse_mac
    is_not_found_error is_not_exist_error collision_of is_done without_cancel pure raise lift
    attempt wrapped ask raise_if ◌>>=◌ run_command context_err now with_timeout wait dns_label
    ha_member_count default_ha_node_name ha_container_name ha_volume_name ha_network_name
    member_by_id ha_config_path default_ha_config last_ipv4_address contains_number usable_address
    usable_mac normalize_member multiplier_of parse_ha_byte_size same_ha_byte_size has_port
    ha_proxy_endpoint sort_members normalize_members normalize_ha_config load_ha_config label_of
    validate_ha_labels ha_container_uses_legacy_init validate_ha_container validate_ha_volume
    validate_ha_network is_running is_stopped join_host_port api_endpoint ha_init_arguments
    legacy_ha_init_arguments ha_server_run_arguments is_not_found inspect_ha_container
    inspect_ha_volume inspect_ha_network read_ha_member_node node_document_ready get_id put_id
    if_found optional preflight_ha container_name collect_targets image_import_targets
lab_targets = refl

image_import_targets-Targeted_example :
    (loaded : Res HaConfig) × (g : History) × (load_ha_config lab_host lab [] ≡ (loaded, g))
    × Targeted lab_host lab_ctx lab lab_servers loaded g
image_import_targets-Targeted_example =
    image_import_targets-Targeted lab_host lab_ctx lab lab_servers [] targets_history lab_targets

rollback_ha_fresh_infrastructure-deletions_example :
    mutations (rollback_ha_fresh_infrastructure lab_host lab_ctx lab_config (1 ∷ 2 ∷ []) true []).1
    ≡ (if true then network_delete lab_config.network_name ∷ [] else [])
      ++ (volume_deletions lab_config.name (1 ∷ 2 ∷ []) ++ mutations [])
rollback_ha_fresh_infrastructure-deletions_example =
    rollback_ha_fresh_infrastructure-deletions lab_host lab_ctx lab_config (1 ∷ 2 ∷ []) true []
