-- ===== src/Ha/Members/Start/Recursion.antt =====
-- The recursion of startHAMemberLocked and reconcileHAMember.
use std.Path.{fun_ext}
use apple_pod_control.Prelude.{
  ◌≡◌, refl, sym, ap, true, false, Option, none, some, Bool-cases, inl, inr, arith, map,
  if◌then◌else◌,
}
use apple_pod_control.Text.{Text, text, text_eq, text_eq_sound, equal_fold, fold_rune}
use apple_pod_control.Host.{Host, Context}
use apple_pod_control.Host.Action.{Action, pure, ◌>>=◌}
use apple_pod_control.Ha.Types.{HaMember, HaConfig, HaState, HaContainerInspect, Labels}
use apple_pod_control.Ha.Inspect.{is_running, is_stopped}
use apple_pod_control.Ha.Preflight.{HaPreflight, get_id}
use apple_pod_control.Ha.Status.{status_ha, all_ha_members_ready}
use apple_pod_control.Ha.Members.{preflight_ha_member_topology}
use apple_pod_control.Ha.Members.Start.{
  StartCall, reconcile_found, reconcile_labelled, reconcile_with, reconcile_offline, start_unready,
  start_step, unreached, start_ha_member_locked,
}

running_not_stopped :
    text_eq (map fold_rune (text "running")) (map fold_rune (text "stopped")) ≡ false
unfolding text_eq fold_rune
running_not_stopped = refl

-- A container is not both running and stopped.
pub stopped_not_running : (state : Text) → is_stopped state ≡ true → is_running state ≡ false
unfolding is_running is_stopped equal_fold
stopped_not_running state down = elim (Bool-cases (is_running state)) [
  | inr idle ↦ idle
  | inl up ↦
      let a = text_eq_sound (map fold_rune state) (map fold_rune (text "running")) up in
      ground (arith, running_not_stopped, down, sym a)
]

module _ (host : Host) (s t : StartCall) (ctx : Context) (config : HaConfig)
    (member : HaMember) where
  -- The call inside is reached for a running container only.
  reconcile_found-any :
      (r : HaContainerInspect)
      → is_running r.state ≡ false
      → reconcile_found host s ctx config member r ≡ reconcile_found host t ctx config member r
  unfolding reconcile_found
  reconcile_found-any r down = rw down refl

  reconcile_with-any :
      (r : HaContainerInspect) (labels : Option Labels)
      → is_running r.state ≡ false
      → reconcile_labelled host s ctx config member r labels
        ≡ reconcile_labelled host t ctx config member r labels
  unfolding reconcile_labelled
  reconcile_with-any r none down = refl
  reconcile_with-any r (some labels) down = reconcile_found-any r down

  reconcile_offline-any :
      (found : Option HaContainerInspect)
      → reconcile_offline host s ctx config member found
        ≡ reconcile_offline host t ctx config member found
  unfolding reconcile_offline reconcile_with
  reconcile_offline-any none = refl
  reconcile_offline-any (some r) = elim (Bool-cases (is_stopped r.state)) [
    | inl down ↦ rw (down, reconcile_with-any r r.labels (stopped_not_running r.state down)) refl
    | inr up ↦ rw up refl
  ]

  start_unready-any :
      (p : HaPreflight) (state : HaState)
      → start_unready host s ctx config member p state
        ≡ start_unready host t ctx config member p state
  unfolding start_unready
  start_unready-any p state = rw (reconcile_offline-any (get_id p.container_record member.id)) refl

  start_step-any : start_step host s ctx config member ≡ start_step host t ctx config member
  unfolding start_step
  start_step-any =
      let same : start_unready host s ctx config member ≡ start_unready host t ctx config member =
        fun_ext (λ p. fun_ext (λ state. start_unready-any p state)) in
      ap
        (λ (next : HaPreflight → HaState → Action HaState).
          preflight_ha_member_topology host ctx config member.id true >>= λ p.
          status_ha host ctx config.name >>= λ state.
          if all_ha_members_ready state then pure state else next p state)
        same

-- startHAMemberLocked is a solution of the recursion that it makes with reconcileHAMember: one more
-- call of it inside changes nothing, for any arguments and any history.
pub start_ha_member_locked-start_step :
    (host : Host) (ctx : Context) (config : HaConfig) (member : HaMember)
    → start_ha_member_locked host ctx config member
      ≡ start_step host (start_ha_member_locked host) ctx config member
unfolding start_ha_member_locked
start_ha_member_locked-start_step host ctx config member =
    start_step-any host unreached (start_ha_member_locked host) ctx config member
