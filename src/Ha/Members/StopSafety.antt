-- ===== src/Ha/Members/StopSafety.antt =====
-- What a stop does to the runtime.
use apple_pod_control.Prelude.{
  ◌≡◌, refl, ◌∙◌, ap, true, false, Option, none, some, List, ◌∷◌, arith,
}
use apple_pod_control.Host.{Host, Context, History, stop}
use apple_pod_control.Host.Action.{Res, ok, err, ◌>>=◌, >>=-eq-ok}
use apple_pod_control.Host.Emits.{Emitted, Emits-Emitted}
use apple_pod_control.Host.Mutations.{IsQuery, mutations, mutations-Emits, mutations-Emitted}
use apple_pod_control.Ha.Types.{HaMember, HaConfig, HaMemberState, HaState, HaEtcdMemberTopology}
use apple_pod_control.Ha.Names.{ha_container_name}
use apple_pod_control.Ha.Status.{status_ha, all_ha_members_ready}
use apple_pod_control.Ha.Etcd.{validate_ha_etcd_topology}
use apple_pod_control.Ha.Preflight.{HaPreflight}
use apple_pod_control.Ha.Addresses.Envelope.{run_ha_bounded}
use apple_pod_control.Ha.Addresses.Envelope.Mutations.{run_ha_bounded-mutations}
use mathlib.Core.Path.{subst}
use apple_pod_control.Ha.Members.Queries.{
  preflight_ha_member_topology-IsQuery, check_before_stop-IsQuery, wait_ha_member_stopped-IsQuery,
}
use apple_pod_control.Ha.Members.{
  StopOutcome, offline_or_ready, require_state, confirm_etcd, check_before_stop, after_stop_command,
  stop_checked, stop_ha_member_locked,
}

-- One status query in which all three pairs are Ready, and then one exact etcd topology.
pub record ReadyToStop (host : Host) (ctx : Context) (config : HaConfig) (h : History)
    : Type 0 where
  pub before_status : History
  pub began : Emitted IsQuery h before_status
  pub after_status : History
  pub state : HaState
  pub status : status_ha host ctx config.name before_status ≡ (ok state, after_status)
  pub ready : all_ha_members_ready state ≡ true
  pub after_probe : History
  pub topology : List HaEtcdMemberTopology
  pub probed : validate_ha_etcd_topology host ctx config after_status ≡ (ok topology, after_probe)

offline_or_ready-none :
    (member : HaMember) (p : HaPreflight) (state : HaState) (target : HaMemberState)
    (h h' : History)
    → offline_or_ready member p state target h ≡ (ok none, h')
    → (all_ha_members_ready state ≡ true) × (h' ≡ h)
unfolding offline_or_ready ◌>>=◌
offline_or_ready-none member p state target h h' e = ground arith

require_state-ok :
    (m : Option HaMemberState) (t : HaMemberState) (h h' : History)
    → require_state m h ≡ (ok t, h')
    → h' ≡ h
unfolding require_state ◌>>=◌
require_state-ok none t h h' e = ground arith
require_state-ok (some m) t h h' e = ground arith

confirm_etcd-none :
    (host : Host) (ctx : Context) (config : HaConfig) (offline : Option HaState) (h h' : History)
    → confirm_etcd host ctx config offline h ≡ (ok none, h')
    → (offline ≡ none)
      × (topology : List HaEtcdMemberTopology) × (validate_ha_etcd_topology host ctx config h
          ≡ (ok topology, h'))
unfolding confirm_etcd ◌>>=◌
confirm_etcd-none host ctx config (some s) h h' e = ground arith
confirm_etcd-none host ctx config none h h' e =
    let (t, q) = go (validate_ha_etcd_topology host ctx config h) refl in (refl, t, q)
  where
    go :
        (p : Res (List HaEtcdMemberTopology) × History)
        → validate_ha_etcd_topology host ctx config h ≡ p
        → (topology : List HaEtcdMemberTopology) × (validate_ha_etcd_topology host ctx config h
            ≡ (ok topology, h'))
    go (ok t, g) q = (t, ground (arith, q, e))
    go (err x, g) q = ground (arith, q, e)

-- Checks that let the stop go on were made on Ready members and an exact topology.
pub check_before_stop-none :
    (host : Host) (ctx : Context) (config : HaConfig) (member : HaMember) (h h' : History)
    → check_before_stop host ctx config member h ≡ (ok none, h')
    → ReadyToStop host ctx config h
unfolding check_before_stop
check_before_stop-none host ctx config member h h' e =
    let (p, g, e1, r1) = >>=-eq-ok _ _ h h' none e in
    let (state, g2, e2, r2) = >>=-eq-ok _ _ g h' none r1 in
    let (target, g3, e3, r3) = >>=-eq-ok _ _ g2 h' none r2 in
    let (offline, g4, e4, r4) = >>=-eq-ok _ _ g3 h' none r3 in
    let (was_none, topology, probed) = confirm_etcd-none host ctx config offline g4 h' r4 in
    let ready =
      offline_or_ready-none member p state target g3 g4
        (subst (λ o. offline_or_ready member p state target g3 ≡ (ok o, g4)) was_none e4) in
    let same = require_state-ok _ target g2 g3 e3 in
    record {
      before_status = g;
      began =
          Emits-Emitted (preflight_ha_member_topology-IsQuery host ctx config member.id true) e1;
      after_status = g2;
      state = state;
      status = e2;
      ready = ready.0;
      after_probe = h';
      topology = topology;
      probed =
          subst (λ x. validate_ha_etcd_topology host ctx config x ≡ (ok topology, h'))
            (ready.1 ∙ same) probed;
    }

-- What a stop did: nothing to the runtime, or the one command, after the checks.
pub data StopEffect (host : Host) (ctx : Context) (config : HaConfig) (member : HaMember)
    (h : History) : StopOutcome × History → Type 0 where
  untouched :
      {o : StopOutcome} {h' : History}
      → mutations h' ≡ mutations h
      → o.restart_needed ≡ false
      → StopEffect host ctx config member h (o, h')
  stopped_one :
      {o : StopOutcome} {h' : History}
      → ReadyToStop host ctx config h
      → mutations h' ≡ stop (ha_container_name config.name member.id) ∷ mutations h
      → o.restart_needed ≡ true
      → StopEffect host ctx config member h (o, h')

after_stop_command-mutations :
    (host : Host) (ctx : Context) (config : HaConfig) (member : HaMember) (r : Res (Unit {0}))
    (h : History)
    → let (o, h') = after_stop_command host ctx config member r h in
      (mutations h' ≡ mutations h) × (o.restart_needed ≡ true)
unfolding after_stop_command
after_stop_command-mutations host ctx config member (err e) h = (refl, refl)
after_stop_command-mutations host ctx config member (ok u) h =
    (mutations-Emits _ h (wait_ha_member_stopped-IsQuery host ctx config member), refl)

stop_checked-StopEffect :
    (host : Host) (ctx : Context) (config : HaConfig) (member : HaMember) (r : Res (Option HaState))
    (h h' : History)
    → check_before_stop host ctx config member h ≡ (r, h')
    → StopEffect host ctx config member h (stop_checked host ctx config member r h')
unfolding stop_checked
stop_checked-StopEffect host ctx config member (err e) h h' c =
    untouched
      (mutations-Emitted (Emits-Emitted (check_before_stop-IsQuery host ctx config member) c)) refl
stop_checked-StopEffect host ctx config member (ok (some s)) h h' c =
    untouched
      (mutations-Emitted (Emits-Emitted (check_before_stop-IsQuery host ctx config member) c)) refl
stop_checked-StopEffect host ctx config member (ok none) h h' c =
    let command = stop (ha_container_name config.name member.id) in
    let (r, g) = run_ha_bounded host ctx "stop HA server member %d" command h' in
    let (same, needed) = after_stop_command-mutations host ctx config member r g in
    let looked =
      mutations-Emitted (Emits-Emitted (check_before_stop-IsQuery host ctx config member) c) in
    stopped_one (check_before_stop-none host ctx config member h h' c)
      (same
        ∙ (run_ha_bounded-mutations host ctx "stop HA server member %d" command h' refl
            ∙ ap (λ ms. command ∷ ms) looked))
      needed

-- stopHAMemberLocked either leaves the runtime as it was and reports that no restart is needed, or it
-- has issued exactly one mutating command, the stop of that member's own container, and reports that
-- a restart is needed. In the second case it had before, in this order, a status in which all three
-- node/API pairs were Ready, and a topology of all members that passed validateHAEtcdTopology.
pub stop_ha_member_locked-StopEffect :
    (host : Host) (ctx : Context) (config : HaConfig) (member : HaMember) (h : History)
    → StopEffect host ctx config member h (stop_ha_member_locked host ctx config member h)
unfolding stop_ha_member_locked
stop_ha_member_locked-StopEffect host ctx config member h =
    stop_checked-StopEffect host ctx config member _ h _ refl
