-- ===== src/Lab/Config.antt =====
-- The lab's configuration and its addresses.
use apple_pod_control.Prelude.{◌≡◌, refl, []}
use apple_pod_control.Text.{
  text_eq, texts_eq, is_empty, fold_rune, equal_fold, lower_rune, to_lower, upper_rune, to_upper,
  is_space, trim_left, trim_right, trim_space, cut_prefix, has_prefix, trim_prefix, contains_text,
  split, join_texts, text_lt, insert_text, sort_texts, contains_string,
}
use apple_pod_control.Text.Numbers.{itoa, is_digit, parse_uint}
use apple_pod_control.Net.{
  parse_ipv4, ipv4_string, parse_prefix, masked, prefix_string, prefix_contains, parse_mac,
}
use apple_pod_control.Host.{
  is_not_found_error, is_not_exist_error, collision_of, is_done, without_cancel,
}
use apple_pod_control.Host.Action.{
  pure, raise, lift, attempt, wrapped, ask, raise_if, ◌>>=◌, run_command, context_err, now,
  with_timeout, wait,
}
use apple_pod_control.Ha.Names.{
  dns_label, ha_member_count, default_ha_node_name, ha_container_name, ha_volume_name,
  ha_network_name, member_by_id,
}
use apple_pod_control.Ha.Config.{
  ha_config_path, default_ha_config, last_ipv4_address, contains_number, usable_address, usable_mac,
  normalize_member,
}
use apple_pod_control.Ha.Config.ByteSize.{multiplier_of, parse_ha_byte_size, same_ha_byte_size}
use apple_pod_control.Ha.Config.Endpoint.{has_port, ha_proxy_endpoint}
use apple_pod_control.Ha.Config.Normalize.{
  sort_members, normalize_members, normalize_ha_config, load_ha_config,
}
use apple_pod_control.Text.{text}
use apple_pod_control.Host.{History}
use apple_pod_control.Host.Action.{ok}
use apple_pod_control.Ha.Config.ByteSize.Bounds.{IsSize, parse_ha_byte_size-IsSize}
use apple_pod_control.Ha.Addresses.{ha_runtime_ip_collision_for_address}
use apple_pod_control.Ha.Addresses.Collisions.{Says, ha_runtime_ip_collision_for_address-Says}
use apple_pod_control.Lab.{lab, lab_host, lab_config, second_member}

abbrev loaded_history : History
loaded_history = (load_ha_config lab_host lab []).1

pub lab_normal : normalize_ha_config lab_host lab_config ≡ ok lab_config
unfolding lab_host text_eq texts_eq is_empty fold_rune equal_fold lower_rune to_lower upper_rune
    to_upper is_space trim_left trim_right trim_space cut_prefix has_prefix trim_prefix
    contains_text split join_texts text_lt insert_text sort_texts contains_string itoa is_digit
    parse_uint parse_ipv4 ipv4_string parse_prefix masked prefix_string prefix_contains parse_mac
    is_not_found_error is_not_exist_error collision_of is_done without_cancel pure raise lift
    attempt wrapped ask raise_if ◌>>=◌ run_command context_err now with_timeout wait dns_label
    ha_member_count default_ha_node_name ha_container_name ha_volume_name ha_network_name
    member_by_id ha_config_path default_ha_config last_ipv4_address contains_number usable_address
    usable_mac normalize_member multiplier_of parse_ha_byte_size same_ha_byte_size has_port
    ha_proxy_endpoint sort_members normalize_members normalize_ha_config load_ha_config
lab_normal = refl

parse_ha_byte_size-IsSize_example : IsSize (trim_space (to_upper (text "8G"))) 8_589_934_592
unfolding text_eq texts_eq is_empty fold_rune equal_fold lower_rune to_lower upper_rune to_upper
    is_space trim_left trim_right trim_space cut_prefix has_prefix trim_prefix contains_text split
    join_texts text_lt insert_text sort_texts contains_string itoa is_digit parse_uint parse_ipv4
    ipv4_string parse_prefix masked prefix_string prefix_contains parse_mac is_not_found_error
    is_not_exist_error collision_of is_done without_cancel pure raise lift attempt wrapped ask
    raise_if ◌>>=◌ run_command context_err now with_timeout wait dns_label ha_member_count
    default_ha_node_name ha_container_name ha_volume_name ha_network_name member_by_id
    ha_config_path default_ha_config last_ipv4_address contains_number usable_address usable_mac
    normalize_member multiplier_of parse_ha_byte_size same_ha_byte_size has_port ha_proxy_endpoint
    sort_members normalize_members normalize_ha_config load_ha_config
parse_ha_byte_size-IsSize_example = parse_ha_byte_size-IsSize (text "8G") 8_589_934_592 refl

-- The first member's stable address, as the second member's runtime address.
ha_runtime_ip_collision_for_address-Says_example :
    Says lab_config.members second_member
      (ipv4_string 3232260337)
      (ha_runtime_ip_collision_for_address lab_config second_member (text "192.168.96.241"))
unfolding text_eq texts_eq is_empty fold_rune equal_fold lower_rune to_lower upper_rune to_upper
    is_space trim_left trim_right trim_space cut_prefix has_prefix trim_prefix contains_text split
    join_texts text_lt insert_text sort_texts contains_string itoa is_digit parse_uint parse_ipv4
    ipv4_string parse_prefix masked prefix_string prefix_contains parse_mac is_not_found_error
    is_not_exist_error collision_of is_done without_cancel pure raise lift attempt wrapped ask
    raise_if ◌>>=◌ run_command context_err now with_timeout wait dns_label ha_member_count
    default_ha_node_name ha_container_name ha_volume_name ha_network_name member_by_id
    ha_config_path default_ha_config last_ipv4_address contains_number usable_address usable_mac
    normalize_member multiplier_of parse_ha_byte_size same_ha_byte_size has_port ha_proxy_endpoint
    sort_members normalize_members normalize_ha_config load_ha_config
ha_runtime_ip_collision_for_address-Says_example =
    ha_runtime_ip_collision_for_address-Says lab_config second_member (text "192.168.96.241")
      3232260337 refl
