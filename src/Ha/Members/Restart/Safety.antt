-- ===== src/Ha/Members/Restart/Safety.antt =====
-- When a restart changes the runtime.
use apple_pod_control.Prelude.{ℕ, ◌≡◌, ap, ◌∙◌, ◌⊎◌, inl, inr, true, false, arith}
use apple_pod_control.Host.{Host, Context, History}
use apple_pod_control.Host.Action.{Res, ok, raise_if-eq-ok, >>=-eq-ok, >>=-cases, wrapped-eq-ok}
use apple_pod_control.Host.Emits.{Emitted, Emits, Emits-Emitted}
use apple_pod_control.Host.Mutations.{IsQuiet, mutations, mutations-quiet, Emits-IsQuiet}
use apple_pod_control.Ha.Types.{HaMember, HaConfig, HaState}
use apple_pod_control.Ha.Queries.{query_rules}
use apple_pod_control.Ha.Status.{status_ha, all_ha_members_ready}
use apple_pod_control.Ha.Status.Queries.{status_ha-IsQuery}
use apple_pod_control.Ha.DesiredState.{set_ha_member_intent_locked}
use apple_pod_control.Ha.DesiredState.Queries.{set_ha_member_intent_locked-any}
use apple_pod_control.Ha.Members.{preflight_ha_member_topology}
use apple_pod_control.Ha.Members.Queries.{preflight_ha_member_topology-IsQuery}
use apple_pod_control.Ha.Members.Restart.{
  check_before_restart, stop_and_start, restart_ha_member_operation,
}

-- Intent that has been cleared, and then one status query in which all three pairs are Ready.
pub record ReadyToRestart (host : Host) (ctx : Context) (config : HaConfig) (member : HaMember)
    (h : History) : Type 0 where
  pub cleared : History
  pub clears : set_ha_member_intent_locked host config.name member.id false h ≡ (ok tt, cleared)
  pub before_status : History
  pub began : Emitted IsQuiet cleared before_status
  pub after_status : History
  pub state : HaState
  pub status : status_ha host ctx config.name before_status ≡ (ok state, after_status)
  pub ready : all_ha_members_ready state ≡ true

module _ (host : Host) (ctx : Context) (config : HaConfig) (member : HaMember) where
  surveyed : Emits IsQuiet (preflight_ha_member_topology host ctx config member.id false)
  surveyed = Emits-IsQuiet _ (preflight_ha_member_topology-IsQuery host ctx config member.id false)

  intent : Emits IsQuiet (set_ha_member_intent_locked host config.name member.id false)
  intent = set_ha_member_intent_locked-any tt (λ n. tt) (λ s. tt) host config.name member.id false

  reported : Emits IsQuiet (status_ha host ctx config.name)
  reported = Emits-IsQuiet _ (status_ha-IsQuery host ctx config.name)

  check_before_restart-IsQuiet : Emits IsQuiet (check_before_restart host ctx config member)
  unfolding check_before_restart
  check_before_restart-IsQuiet = search (query_rules, intent, surveyed, reported) depth 14

  check_before_restart-ready :
      (h g : History)
      → check_before_restart host ctx config member h ≡ (ok tt, g)
      → ReadyToRestart host ctx config member h
  unfolding check_before_restart
  check_before_restart-ready h g e =
      let (a, h1, e1, r1) = >>=-eq-ok _ _ h g tt e in
      let (p, h2, e2, r2) = >>=-eq-ok _ _ h1 g tt r1 in
      let (state, h3, e3, r3) = >>=-eq-ok _ _ h2 g tt r2 in
      let (is_ready, _) = raise_if-eq-ok _ _ h3 g r3 in
      record {
        cleared = h1;
        clears = wrapped-eq-ok _ _ a h h1 e1;
        before_status = h2;
        began = Emits-Emitted surveyed e2;
        after_status = h3;
        state = state;
        status = e3;
        ready = ground (arith, is_ready);
      }

-- A call of restartHAMemberOperation leaves the runtime as it was unless it had first cleared the member's stop
-- intent, and then, without a mutating command in between, a status had shown all three node/API pairs
-- Ready.
pub restart_ha_member_operation-ReadyToRestart :
    (host : Host) (ctx base : Context) (config : HaConfig) (member : HaMember) (t : ℕ) (h : History)
    → (mutations (restart_ha_member_operation host ctx base config member t h).1 ≡ mutations h)
      ⊎ ReadyToRestart host ctx config member h
unfolding restart_ha_member_operation
restart_ha_member_operation-ReadyToRestart host ctx base config member t h =
    elim (>>=-cases (check_before_restart host ctx config member)
      (λ u. stop_and_start host ctx base config member t) h) [
        | inl (e, g, run, ends) ↦ inl (
            ap (λ (x : Res HaState × History). mutations x.1) ends
            ∙ mutations-quiet
                (Emits-Emitted (check_before_restart-IsQuiet host ctx config member) run))
        | inr (u, g, run, goes) ↦ inr (check_before_restart-ready host ctx config member h g run)
      ]
