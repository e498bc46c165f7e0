-- ===== src/Lab/Intent.antt =====
-- Operator intent in the lab.
use apple_pod_control.Prelude.{◌≡◌, refl, true, [], ◌∷◌, if◌then◌else◌, ◌==◌, ◌↔◌, ℕ, arith}
use apple_pod_control.Text.{
  text_eq, texts_eq, is_empty, fold_rune, equal_fold, lower_rune, to_lower, upper_rune, to_upper,
  is_space, trim_left, trim_right, trim_space, cut_prefix, has_prefix, trim_prefix, contains_text,
  split, join_texts, text_lt, insert_text, sort_texts, contains_string,
}
use apple_pod_control.Text.Numbers.{itoa, is_digit, parse_uint}
use apple_pod_control.Host.{
  is_not_found_error, is_not_exist_error, collision_of, is_done, without_cancel,
}
use apple_pod_control.Host.Action.{
  pure, raise, lift, attempt, wrapped, ask, raise_if, ◌>>=◌, run_command, context_err, now,
  with_timeout, wait,
}
use apple_pod_control.Ha.Names.{
  dns_label, ha_member_count, default_ha_node_name, ha_container_name, ha_volume_name,
  ha_network_name, member_by_id,
}
use apple_pod_control.Ha.Config.{
  ha_config_path, default_ha_config, last_ipv4_address, contains_number, usable_address, usable_mac,
  normalize_member,
}
use apple_pod_control.Ha.DesiredState.{
  default_ha_desired_state, sorted_ids, validate_ha_desired_state, load_ha_desired_state, sort_ids,
  stamped, save_ha_desired_state, ha_member_intentionally_stopped, remove_id, with_intent,
  set_ha_member_intent_locked, mark_ha_cluster_stopped_locked, mark_ha_cluster_running_locked,
}
use apple_pod_control.Text.{text_eq_refl}
use apple_pod_control.Host.{History, found, desired_written}
use apple_pod_control.Host.Action.{ok}
use apple_pod_control.Ha.Types.{HaDesiredState}
use apple_pod_control.Ha.DesiredState.Validity.{WellFormed, validate_ha_desired_state_iff}
use apple_pod_control.Ha.DesiredState.RoundTrip.{KeepsFiles, set_ha_member_intent_locked-load}
use apple_pod_control.Lab.{lab, lab_host, stored_file}

lab_file :
    (state : HaDesiredState) (h : History)
    → lab_host.desired_file state.cluster (desired_written state ∷ h) ≡ found state
unfolding lab_host stored_file
lab_file state h = rw (text_eq_refl state.cluster)

lab_KeepsFiles : KeepsFiles lab_host
unfolding lab_host
lab_KeepsFiles = record {
  reads_back = λ state h w. lab_file state h;
  time_forward = λ e h. omega arith;
}

abbrev before : HaDesiredState
before = default_ha_desired_state lab

abbrev history_of : {A : Type 0} → A × History → History
history_of (a, h) = h

abbrev loaded_history : History
loaded_history = history_of (load_ha_desired_state lab_host lab [])

abbrev saved_history : History
saved_history = history_of (set_ha_member_intent_locked lab_host lab 2 true [])

lab_loaded : load_ha_desired_state lab_host lab [] ≡ (ok before, loaded_history)
unfolding lab_host text_eq texts_eq is_empty fold_rune equal_fold lower_rune to_lower upper_rune
    to_upper is_space trim_left trim_right trim_space cut_prefix has_prefix trim_prefix
    contains_text split join_texts text_lt insert_text sort_texts contains_string itoa is_digit
    parse_uint is_not_found_error is_not_exist_error collision_of is_done without_cancel pure raise
    lift attempt wrapped ask raise_if ◌>>=◌ run_command context_err now with_timeout wait dns_label
    ha_member_count default_ha_node_name ha_container_name ha_volume_name ha_network_name
    member_by_id ha_config_path default_ha_config last_ipv4_address contains_number usable_address
    usable_mac normalize_member default_ha_desired_state sorted_ids validate_ha_desired_state
    load_ha_desired_state sort_ids stamped save_ha_desired_state ha_member_intentionally_stopped
    remove_id with_intent set_ha_member_intent_locked mark_ha_cluster_stopped_locked
    mark_ha_cluster_running_locked
lab_loaded = refl

lab_saved : set_ha_member_intent_locked lab_host lab 2 true [] ≡ (ok tt, saved_history)
unfolding lab_host text_eq texts_eq is_empty fold_rune equal_fold lower_rune to_lower upper_rune
    to_upper is_space trim_left trim_right trim_space cut_prefix has_prefix trim_prefix
    contains_text split join_texts text_lt insert_text sort_texts contains_string itoa is_digit
    parse_uint is_not_found_error is_not_exist_error collision_of is_done without_cancel pure raise
    lift attempt wrapped ask raise_if ◌>>=◌ run_command context_err now with_timeout wait dns_label
    ha_member_count default_ha_node_name ha_container_name ha_volume_name ha_network_name
    member_by_id ha_config_path default_ha_config last_ipv4_address contains_number usable_address
    usable_mac normalize_member default_ha_desired_state sorted_ids validate_ha_desired_state
    load_ha_desired_state sort_ids stamped save_ha_desired_state ha_member_intentionally_stopped
    remove_id with_intent set_ha_member_intent_locked mark_ha_cluster_stopped_locked
    mark_ha_cluster_running_locked
lab_saved = refl

set_ha_member_intent_locked-load_example :
    (after : HaDesiredState) × (h'' : History) × (load_ha_desired_state lab_host lab saved_history
      ≡ (ok after, h''))
    × ((j : ℕ)
        → ha_member_intentionally_stopped after j
          ≡ (if j == 2 then true else ha_member_intentionally_stopped before j))
set_ha_member_intent_locked-load_example =
    set_ha_member_intent_locked-load lab_host lab 2 true before [] loaded_history saved_history
      lab_KeepsFiles lab_loaded lab_saved

validate_ha_desired_state_iff_example :
    (validate_ha_desired_state 1000 (stamped 1000 before) lab ≡ ok tt)
    ↔ WellFormed 1000 (stamped 1000 before) lab
validate_ha_desired_state_iff_example = validate_ha_desired_state_iff 1000 (stamped 1000 before) lab
