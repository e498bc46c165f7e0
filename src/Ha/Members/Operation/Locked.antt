-- ===== src/Ha/Members/Operation/Locked.antt =====
-- The member operations change something only while they hold the operation lock.
use apple_pod_control.Prelude.{ℕ, ◌≡◌, true, false, ◌∷◌, inl, inr}
use apple_pod_control.Prelude.{List}
use apple_pod_control.Text.{Text}
use apple_pod_control.Host.{
  Host, Context, Event, History, ran, probed_api, clock_read, context_polled, waited, config_read,
  desired_read, desired_written, token_read, path_checked, locked, stored,
}
use apple_pod_control.Host.Action.{Action, ok, now, ask, ◌>>=◌, >>=-eq-ok}
use apple_pod_control.Host.Emits.{
  Emits, here, and_then, Emitted-weaken, Emitted-trans, Emits-bind, Emits-wrapped, Emits-lift,
  Emits-raise_if, Emits-context_err,
}
use apple_pod_control.Host.Mutations.{IsQuery}
use apple_pod_control.Host.Own.{AnyRun, OwnOrIntent, Emits-intent, Emitted-intent}
use apple_pod_control.Ha.Types.{HaState, HaConfig, HaMember}
use apple_pod_control.Ha.Names.{ha_container_name}
use apple_pod_control.Ha.DesiredState.Queries.{set_ha_member_intent_locked-any}
use apple_pod_control.Ha.Queries.{
  query_rules, with_timeout-IsQuery, load_ha_config-IsQuery, now-IsQuery,
}
use apple_pod_control.Ha.Lock.Passive.{Passive, Emits-Passive, acquire-Passive}
use apple_pod_control.Ha.Lock.Guarded.{
  NoLock, Guarded, LockedRun, held, acquire-held, locked-LockedRun,
}
use apple_pod_control.Ha.Members.{Timeout, MemberOperation, load_ha_member_operation_locked}
use apple_pod_control.Ha.Members.Own.{stop_ha_member_locked-own}
use apple_pod_control.Ha.Members.Start.Own.{start_ha_member_locked-own}
use apple_pod_control.Ha.Members.Restart.{stop_ha_member, start_ha_member}
use apple_pod_control.Ha.Members.Restart.Own.{restart_ha_member_operation-own}
use apple_pod_control.Ha.Members.Operation.{
  lock_context, enter, operate, locked_operation, with_ha_member_operation, stop_member,
  start_member, restart_member,
}

own-NoLock : (R : List Text → Type 0) (name : Text) (e : Event) → OwnOrIntent R name e → NoLock e
own-NoLock R name (ran ctx c) q = tt
own-NoLock R name (desired_written s) q = tt
own-NoLock R name (probed_api m) q = tt
own-NoLock R name clock_read q = tt
own-NoLock R name context_polled q = tt
own-NoLock R name waited q = tt
own-NoLock R name (config_read t) q = tt
own-NoLock R name (desired_read t) q = tt
own-NoLock R name (token_read t) q = tt
own-NoLock R name (path_checked t) q = tt
own-NoLock R name (locked n s) q = absurd q
own-NoLock R name (stored c) q = tt

query-NoLock : (e : Event) → IsQuery e → NoLock e
query-NoLock (ran ctx c) q = tt
query-NoLock (desired_written s) q = tt
query-NoLock (probed_api m) q = tt
query-NoLock clock_read q = tt
query-NoLock context_polled q = tt
query-NoLock waited q = tt
query-NoLock (config_read t) q = tt
query-NoLock (desired_read t) q = tt
query-NoLock (token_read t) q = tt
query-NoLock (path_checked t) q = tt
query-NoLock (locked n s) q = absurd q
query-NoLock (stored c) q = tt

pub Emits-unlocked : {A : Type 0} (m : Action A) → Emits IsQuery m → Emits NoLock m
Emits-unlocked m q = record { at = λ h. Emitted-weaken query-NoLock (q.at h) }

pub own_unlocked :
    {A : Type 0} {R : List Text → Type 0} {name : Text} (m : Action A)
    → Emits (OwnOrIntent R name) m
    → Emits NoLock m
own_unlocked {R = R} {name = name} m q = record {
  at = λ h. Emitted-weaken (own-NoLock R name) (q.at h);
}

module _ (host : Host) (ctx : Context) (config : HaConfig) (member : HaMember) where
  stop_ha_member-NoLock : Emits NoLock (stop_ha_member host ctx config member)
  unfolding stop_ha_member
  stop_ha_member-NoLock =
      Emits-bind _ _
        (Emits-wrapped _ _
          (set_ha_member_intent_locked-any tt (λ n. tt) (λ s. tt) host config.name member.id true))
        (λ u. record {
          at = λ h.
              Emitted-weaken (own-NoLock AnyRun (ha_container_name config.name member.id))
                (Emitted-intent _ h _ (stop_ha_member_locked-own AnyRun host ctx config member h));
        })

  start_ha_member-NoLock : Emits NoLock (start_ha_member host ctx config member)
  unfolding start_ha_member
  start_ha_member-NoLock =
      Emits-bind _ _
        (Emits-wrapped _ _
          (set_ha_member_intent_locked-any tt (λ n. tt) (λ s. tt) host config.name member.id false))
        (λ u.
          own_unlocked _
            (Emits-intent _ _ (start_ha_member_locked-own AnyRun host config member tt ctx)))

load_ha_member_operation_locked-IsQuery :
    (host : Host) (name : Text) (id timeout : ℕ)
    → Emits IsQuery (load_ha_member_operation_locked host name id timeout)
unfolding load_ha_member_operation_locked
load_ha_member_operation_locked-IsQuery host name id timeout =
    search (query_rules, load_ha_config-IsQuery) depth 9

module _ (host : Host) (ctx : Context) (name : Text) (id : ℕ) (timeout : Timeout) where
  lock_context-IsQuery : (started t : ℕ) → Emits IsQuery (lock_context host ctx started t)
  unfolding lock_context
  lock_context-IsQuery started t = search (query_rules, with_timeout-IsQuery)

  enter-Passive : (started : ℕ) → Emits Passive (enter host ctx name id timeout started)
  unfolding enter
  enter-Passive started =
      let timed = λ (t : ℕ). Emits-Passive _ (lock_context-IsQuery started t) in
      Emits-bind _ _ (Emits-lift _)
        (λ u. Emits-bind _ _ (timed _) (λ lock_ctx. acquire-Passive host lock_ctx name))

  enter-held :
      (started : ℕ) (h g : History)
      → enter host ctx name id timeout started h ≡ (ok tt, g)
      → held host name g ≡ true
  unfolding enter
  enter-held started h g e =
      let (u, g1, e1, r1) = >>=-eq-ok _ _ h g tt e in
      let (lock_ctx, g2, e2, r2) = >>=-eq-ok _ _ g1 g tt r1 in
      acquire-held host name lock_ctx g2 g r2

  module _ (operation : Context → MemberOperation → Action HaState)
      (quiet : (c : Context) (l : MemberOperation) → Emits NoLock (operation c l)) where
    operate-NoLock :
        (started : ℕ) → Emits NoLock (operate host ctx name id timeout operation started)
    unfolding operate
    operate-NoLock started =
        let loads = Emits-unlocked _ (load_ha_member_operation_locked-IsQuery host name id _) in
        let clock = Emits-unlocked _ (now-IsQuery host) in
        Emits-bind _ _ loads (λ l. Emits-bind _ _ clock (λ at.
          Emits-bind _ _ (Emits-raise_if _ _) (λ u.
            Emits-bind _ _ (Emits-context_err host _ tt)
              (λ done. Emits-bind _ _ (Emits-raise_if _ _) (λ v. quiet _ l)))))

    with_ha_member_operation-LockedRun :
        (h : History)
        → Guarded host name h
        → LockedRun host name h (with_ha_member_operation host ctx name id timeout operation h).1
    unfolding with_ha_member_operation locked_operation now ask ◌>>=◌
    with_ha_member_operation-LockedRun h g =
        let started = host.clock h in
        let run =
          locked-LockedRun host name (enter host ctx name id timeout started)
            (operate host ctx name id timeout operation started) (clock_read ∷ h)
            (enter-Passive started) (enter-held started (clock_read ∷ h)) (operate-NoLock started)
            (inl tt, g) in
        record {
          guarded = run.guarded;
          given_back = elim run.given_back [
            | inl free ↦ inl free
            | inr s ↦ inr (Emitted-trans (and_then here tt) s)
          ];
        }

-- StopHAMember, StartHAMember and RestartHAMember, whatever they return: from a history in which
-- everything but queries and lock steps happened under the cluster's operation lock, each leads to such
-- a history; and then either the lock has been given back, or it was never taken and the operation has
-- done nothing but query and try to lock.
pub member_operations-LockedRun :
    (host : Host) (ctx : Context) (name : Text) (id : ℕ) (timeout : Timeout) (h : History)
    → Guarded host name h
    → LockedRun host name h (stop_member host ctx name id timeout h).1
      × LockedRun host name h (start_member host ctx name id timeout h).1
      × LockedRun host name h (restart_member host ctx name id timeout h).1
unfolding stop_member start_member restart_member
member_operations-LockedRun host ctx name id timeout h g = (
  with_ha_member_operation-LockedRun host ctx name id timeout _
      (λ c l. stop_ha_member-NoLock host c l.config l.member) h g,
  with_ha_member_operation-LockedRun host ctx name id timeout _
      (λ c l. start_ha_member-NoLock host c l.config l.member) h g,
  with_ha_member_operation-LockedRun host ctx name id timeout _
      (λ c l.
        own_unlocked _
          (restart_ha_member_operation-own AnyRun host l.config l.member tt c ctx l.timeout))
      h g,
)
