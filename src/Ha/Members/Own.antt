-- ===== src/Ha/Members/Own.antt =====
-- Stopping a member touches no container but its own.
use apple_pod_control.Prelude.{refl, List, Option, none, some}
use apple_pod_control.Text.{Text}
use apple_pod_control.Host.{Host, Context, History, stop}
use apple_pod_control.Host.Action.{Res, ok, err}
use apple_pod_control.Host.Emits.{Emitted, here, Emitted-trans}
use apple_pod_control.Host.Own.{OnlyOwn, Emits-own}
use apple_pod_control.Ha.Types.{HaMember, HaConfig, HaState}
use apple_pod_control.Ha.Names.{ha_container_name}
use apple_pod_control.Ha.Addresses.Envelope.{run_ha_bounded}
use apple_pod_control.Ha.Addresses.Envelope.Own.{run_ha_bounded-OnlyOwn}
use apple_pod_control.Ha.Members.Queries.{check_before_stop-IsQuery, wait_ha_member_stopped-IsQuery}
use apple_pod_control.Ha.Members.{
  check_before_stop, after_stop_command, outcome_of_wait, stop_checked, stop_ha_member_locked,
}

module _ (R : List Text → Type 0) (host : Host) (ctx : Context) (config : HaConfig)
    (member : HaMember) where
  abbrev Own : History → History → Type 0
  Own h g = Emitted (OnlyOwn R (ha_container_name config.name member.id)) h g

  after_stop_command-Own :
      (r : Res (Unit {0})) (h : History) → Own h (after_stop_command host ctx config member r h).1
  unfolding after_stop_command outcome_of_wait
  after_stop_command-Own (err e) h = here
  after_stop_command-Own (ok u) h =
      (Emits-own _ _ (wait_ha_member_stopped-IsQuery host ctx config member)).at h

  stop_checked-Own :
      (r : Res (Option HaState)) (h : History) → Own h (stop_checked host ctx config member r h).1
  unfolding stop_checked
  stop_checked-Own (err e) h = here
  stop_checked-Own (ok (some state)) h = here
  stop_checked-Own (ok none) h =
      let command = stop (ha_container_name config.name member.id) in
      let (r, g) = run_ha_bounded host ctx "stop HA server member %d" command h in
      Emitted-trans
        ((run_ha_bounded-OnlyOwn _ host ctx "stop HA server member %d" command refl).at h)
        (after_stop_command-Own r g)

  pub stop_ha_member_locked-own :
      (h : History)
      → Emitted
          (OnlyOwn R (ha_container_name config.name member.id))
          h
          (stop_ha_member_locked host ctx config member h).1
  unfolding stop_ha_member_locked
  stop_ha_member_locked-own h =
      let (r, g) = check_before_stop host ctx config member h in
      Emitted-trans ((Emits-own _ _ (check_before_stop-IsQuery host ctx config member)).at h)
        (stop_checked-Own r g)
