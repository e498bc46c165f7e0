-- ===== src/Ha/Members/Restart/Own.antt =====
-- The maintenance operations touch no container but the member's own.
use apple_pod_control.Prelude.{◌≡◌, ℕ, Bool, true, false, List}
use apple_pod_control.Text.{Text}
use apple_pod_control.Host.{Host, Context, Error}
use apple_pod_control.Host.Action.{Res, ok, err, Action, with_timeout}
use apple_pod_control.Host.Emits.{Emits, Emits-bind, Emitted-trans}
use apple_pod_control.Host.Own.{OwnOrIntent, IsRunOf, Emits-own, Emits-intent, Emitted-intent}
use apple_pod_control.Ha.Types.{HaMember, HaConfig, HaState}
use apple_pod_control.Ha.Names.{ha_container_name}
use apple_pod_control.Ha.Config.Normalize.{normalize_ha_config}
use apple_pod_control.Ha.Inspect.Arguments.{ha_server_run_arguments}
use apple_pod_control.Ha.Inspect.Arguments.Named.{ha_server_run_arguments-IsRunOf}
use apple_pod_control.Ha.Queries.{query_rules, with_timeout-IsQuery}
use apple_pod_control.Ha.Status.{status_ha}
use apple_pod_control.Ha.Status.Queries.{status_ha-IsQuery}
use apple_pod_control.Ha.DesiredState.{set_ha_member_intent_locked}
use apple_pod_control.Ha.DesiredState.Queries.{set_ha_member_intent_locked-any}
use apple_pod_control.Ha.Members.{StopOutcome, stop_ha_member_locked, preflight_ha_member_topology}
use apple_pod_control.Ha.Members.Own.{stop_ha_member_locked-own}
use apple_pod_control.Ha.Members.Queries.{preflight_ha_member_topology-IsQuery}
use apple_pod_control.Ha.Members.Start.{start_ha_member_locked}
use apple_pod_control.Ha.Members.Start.Own.{start_ha_member_locked-own}
use apple_pod_control.Ha.Members.Restart.{
  recover_restart, finish_start, restart_stopped, check_before_restart, stop_and_start,
  restart_ha_member_operation,
}

module _ (R : List Text → Type 0) (host : Host) (config : HaConfig) (member : HaMember)
    (runs : R (ha_server_run_arguments host config member)) where
  abbrev Own : {A : Type 0} → Action A → Type 0
  Own m = Emits (OwnOrIntent R (ha_container_name config.name member.id)) m

  intent : (stopped : Bool) → Own (set_ha_member_intent_locked host config.name member.id stopped)
  intent stopped =
      set_ha_member_intent_locked-any tt (λ n. tt) (λ s. tt) host config.name member.id stopped

  start : (ctx : Context) → Own (start_ha_member_locked host ctx config member)
  start ctx = Emits-intent _ _ (start_ha_member_locked-own R host config member runs ctx)

  timed : (ctx : Context) (t : ℕ) → Own (with_timeout host ctx t)
  timed ctx t = Emits-intent _ _ (Emits-own _ _ (with_timeout-IsQuery host ctx t))

  recover_restart-Own :
      (base : Context) (t : ℕ) (e : Error) → Own (recover_restart host base config member t e)
  unfolding recover_restart
  recover_restart-Own base t e = search (query_rules, timed, start) depth 8

  finish_start-Own :
      (base : Context) (t : ℕ) (needed : Bool) (r : Res HaState)
      → Own (finish_start host base config member t needed r)
  unfolding finish_start
  finish_start-Own base t needed (ok state) = search query_rules
  finish_start-Own base t true (err e) = recover_restart-Own base t e
  finish_start-Own base t false (err e) = search query_rules

  restart_stopped-Own :
      (ctx base : Context) (t : ℕ) (outcome : StopOutcome)
      → Own (restart_stopped host ctx base config member t outcome)
  unfolding restart_stopped
  restart_stopped-Own ctx base t outcome = go outcome.result outcome.restart_needed
    where
      go :
          (r : Res HaState) (b : Bool)
          → Own (
              restart_stopped host ctx base config member t
                (record { result = r; restart_needed = b }))
      go (ok state) b = search (query_rules, start, finish_start-Own) depth 8
      go (err e) b = search (query_rules, recover_restart-Own) depth 8

  stop_and_start-Own :
      (ctx base : Context) (t : ℕ) → Own (stop_and_start host ctx base config member t)
  unfolding stop_and_start
  stop_and_start-Own ctx base t = record {
    at = λ h.
        let (outcome, g) = stop_ha_member_locked host ctx config member h in
        Emitted-trans (Emitted-intent _ h g (stop_ha_member_locked-own R host ctx config member h))
          ((restart_stopped-Own ctx base t outcome).at g);
  }

  surveyed :
      (ctx : Context) (id : ℕ) (allow : Bool)
      → Own (preflight_ha_member_topology host ctx config id allow)
  surveyed ctx id allow =
      Emits-intent _ _
        (Emits-own _ _ (preflight_ha_member_topology-IsQuery host ctx config id allow))

  reported : (ctx : Context) → Own (status_ha host ctx config.name)
  reported ctx = Emits-intent _ _ (Emits-own _ _ (status_ha-IsQuery host ctx config.name))

  check_before_restart-Own : (ctx : Context) → Own (check_before_restart host ctx config member)
  unfolding check_before_restart
  check_before_restart-Own ctx = search (query_rules, intent, surveyed, reported) depth 14

  pub restart_ha_member_operation-own :
      (ctx base : Context) (t : ℕ) → Own (restart_ha_member_operation host ctx base config member t)
  unfolding restart_ha_member_operation
  restart_ha_member_operation-own ctx base t =
      Emits-bind _ _ (check_before_restart-Own ctx) (λ u. stop_and_start-Own ctx base t)

-- Whatever restartHAMemberOperation does and returns, its recovery included, for a configuration that
-- normalizeHAConfig returns as it is, its commands other than looks are stops and deletions of that
-- member's own container, and runs whose argument --name is that container's name.
pub restart_ha_member_operation-OwnOrIntent :
    (host : Host) (ctx base : Context) (config : HaConfig) (member : HaMember) (t : ℕ)
    → normalize_ha_config host config ≡ ok config
    → let name = ha_container_name config.name member.id in
      Emits
        (OwnOrIntent (IsRunOf name) name)
        (restart_ha_member_operation host ctx base config member t)
restart_ha_member_operation-OwnOrIntent host ctx base config member t normal =
    restart_ha_member_operation-own (IsRunOf (ha_container_name config.name member.id)) host config
      member (ha_server_run_arguments-IsRunOf host config member normal) ctx base t
