-- ===== src/Ha/DesiredState/Queries.antt =====
-- What the changes of intent do besides writing it.
use apple_pod_control.Prelude.{ℕ, Bool}
use apple_pod_control.Text.{Text}
use apple_pod_control.Host.{
  Host, Event, File, missing, malformed, found, clock_read, desired_read, desired_written,
}
use apple_pod_control.Host.Action.{now}
use apple_pod_control.Host.Emits.{Emits, here, and_then}
use apple_pod_control.Ha.Types.{HaDesiredState}
use apple_pod_control.Ha.Queries.{query_rules}
use apple_pod_control.Ha.DesiredState.{
  stored_state, load_ha_desired_state, save_ha_desired_state, set_ha_member_intent_locked,
  mark_ha_cluster_stopped_locked, mark_ha_cluster_running_locked,
}

-- For any property that the reading of the clock and of the intent and its writing have.
module _ {P : Event → Type 0} (clock : P clock_read) (reads : (name : Text) → P (desired_read name))
    (writes : (state : HaDesiredState) → P (desired_written state)) where
  now-any : (host : Host) → Emits P (now host)
  unfolding now
  now-any host = record { at = λ h. and_then here clock }

  stored_state-any :
      (host : Host) (name : Text) (file : File HaDesiredState)
      → Emits P (stored_state host name file)
  unfolding stored_state
  stored_state-any host name missing = search query_rules
  stored_state-any host name malformed = search query_rules
  stored_state-any host name (found state) = search (query_rules, now-any) depth 8

  pub load_ha_desired_state-any :
      (host : Host) (name : Text) → Emits P (load_ha_desired_state host name)
  unfolding load_ha_desired_state
  load_ha_desired_state-any host name = search (query_rules, stored_state-any, reads) depth 8

  save_ha_desired_state-any :
      (host : Host) (state : HaDesiredState) → Emits P (save_ha_desired_state host state)
  unfolding save_ha_desired_state
  save_ha_desired_state-any host state = search (query_rules, now-any, writes) depth 12

  pub set_ha_member_intent_locked-any :
      (host : Host) (name : Text) (id : ℕ) (stop : Bool)
      → Emits P (set_ha_member_intent_locked host name id stop)
  unfolding set_ha_member_intent_locked
  set_ha_member_intent_locked-any host name id stop =
      search (query_rules, load_ha_desired_state-any, save_ha_desired_state-any) depth 8

  pub mark_ha_cluster_stopped_locked-any :
      (host : Host) (name : Text) → Emits P (mark_ha_cluster_stopped_locked host name)
  unfolding mark_ha_cluster_stopped_locked
  mark_ha_cluster_stopped_locked-any host name =
      search (query_rules, load_ha_desired_state-any, save_ha_desired_state-any) depth 8

  pub mark_ha_cluster_running_locked-any :
      (host : Host) (name : Text) → Emits P (mark_ha_cluster_running_locked host name)
  unfolding mark_ha_cluster_running_locked
  mark_ha_cluster_running_locked-any host name =
      search (query_rules, load_ha_desired_state-any, save_ha_desired_state-any) depth 8
