-- ===== src/Ha/DesiredState/RoundTrip.antt =====
-- A change of intent is what the next reader finds.
use mathlib.Core.Path.{subst}
use apple_pod_control.Prelude.{
  ℕ, ◌≤◌, ◌≡◌, sym, ap, ◌∙◌, Bool, false, ◌∷◌, arith, if◌then◌else◌, ◌==◌,
}
use apple_pod_control.Text.{Text}
use apple_pod_control.Host.{
  Host, History, Event, File, missing, malformed, found, clock_read, desired_read, desired_written,
}
use apple_pod_control.Host.Action.{ok, Action, ◌>>=◌, >>=-eq-ok, now, pure, pure-eq-ok, lift-eq-ok}
use apple_pod_control.Ha.Types.{HaDesiredState}
use apple_pod_control.Ha.Config.{ha_config_path}
use apple_pod_control.Ha.DesiredState.{
  default_ha_desired_state, stamped, with_intent, validate_ha_desired_state, stored_state,
  load_ha_desired_state, save_ha_desired_state, ha_member_intentionally_stopped,
  set_ha_member_intent_locked,
}
use apple_pod_control.Ha.DesiredState.Validity.{WellFormed, validate_ha_desired_state_iff}
use apple_pod_control.Ha.DesiredState.Intent.{
  before_write, save_ha_desired_state-ok, stamped-with_intent,
}

-- What the controller relies on: a file that was written is read back, and time does not run back.
pub record KeepsFiles (host : Host) : Type 0 where
  pub reads_back :
      (state : HaDesiredState) (h : History)
      → host.write_fails state h ≡ false
      → host.desired_file state.cluster (desired_written state ∷ h) ≡ found state
  pub time_forward : (e : Event) (h : History) → host.clock h ≤ host.clock (e ∷ h)

stored_state-cluster :
    (host : Host) (name : Text) (file : File HaDesiredState) (state : HaDesiredState)
    (h h' : History)
    → stored_state host name file h ≡ (ok state, h')
    → state.cluster ≡ name
unfolding stored_state default_ha_desired_state
stored_state-cluster host name missing state h h' e =
    ap (λ (s : HaDesiredState). s.cluster) (sym (pure-eq-ok _ state h h' e))
stored_state-cluster host name malformed state h h' e = unfold ◌>>=◌ in ground (arith, e)
stored_state-cluster host name (found s) state h h' e =
    let (at, g, e1, r1) = >>=-eq-ok _ _ h h' state e in
    let (u, g2, e2, r2) = >>=-eq-ok _ _ g h' state r1 in
    ap (λ (x : HaDesiredState). x.cluster) (sym (pure-eq-ok s state g2 h' r2))
    ∙ ((validate_ha_desired_state_iff at s name).0 (lift-eq-ok _ u g g2 e2)).of_cluster

-- The parts of a load that returned.
load-parts :
    (host : Host) (name : Text) (state : HaDesiredState) (h h' : History)
    → load_ha_desired_state host name h ≡ (ok state, h')
    → (path : Text) × (ha_config_path host name ≡ ok path) × (state.cluster ≡ name)
unfolding load_ha_desired_state
load-parts host name state h h' e =
    let (path, g, e1, r1) = >>=-eq-ok _ _ h h' state e in
    let (file, g2, e2, r2) = >>=-eq-ok _ _ g h' state r1 in
    (path, lift-eq-ok _ path h g e1, stored_state-cluster host name file state g2 h' r2)

load-found :
    (host : Host) (name path : Text) (state : HaDesiredState) (h : History)
    → ha_config_path host name ≡ ok path
    → host.desired_file name h ≡ found state
    → validate_ha_desired_state (host.clock (desired_read name ∷ h)) state name ≡ ok tt
    → load_ha_desired_state host name h ≡ (ok state, clock_read ∷ desired_read name ∷ h)
unfolding load_ha_desired_state stored_state ◌>>=◌ now
load-found host name path state h p f v = ground (arith, p, f, v)

WellFormed-later :
    (at later : ℕ) (state : HaDesiredState) (name : Text)
    → at ≤ later
    → WellFormed at state name
    → WellFormed later state name
WellFormed-later at later state name le w = record {
  version_known = w.version_known;
  kind_known = w.kind_known;
  of_cluster = w.of_cluster;
  state_known = w.state_known;
  one_at_most = w.one_at_most;
  in_range = w.in_range;
  has_time = w.has_time;
  not_ahead = omega (arith, w.not_ahead);
}

-- A save that returned, and the next load.
pub load-save :
    (host : Host) (path : Text) (state : HaDesiredState) (h h' : History)
    → KeepsFiles host
    → ha_config_path host state.cluster ≡ ok path
    → save_ha_desired_state host state h ≡ (ok tt, h')
    → (h'' : History) × (load_ha_desired_state host state.cluster h'
        ≡ (ok (stamped (host.clock h) state), h''))
unfolding stamped
load-save host path state h h' keeps p e =
    let s = stamped (host.clock h) state in
    let (valid, wrote, ends) = save_ha_desired_state-ok host state h h' e in
    let g : History = desired_written s ∷ before_write h in
    let time : host.clock (clock_read ∷ h) ≤ host.clock (desired_read state.cluster ∷ g) = omega (
      arith,
      keeps.time_forward clock_read (clock_read ∷ h),
      keeps.time_forward (desired_written s) (before_write h),
      keeps.time_forward (desired_read state.cluster) g,
    ) in
    let later = (validate_ha_desired_state_iff _ s state.cluster).1 (
      WellFormed-later _ _ s state.cluster time
        ((validate_ha_desired_state_iff _ s state.cluster).0 valid)) in
    (
      clock_read ∷ desired_read state.cluster ∷ g,
      subst
          (λ x.
            load_ha_desired_state host state.cluster x
            ≡ (ok s, clock_read ∷ desired_read state.cluster ∷ g))
          (sym ends)
          (load-found host state.cluster path s g p (keeps.reads_back s (before_write h) wrote)
            later),
    )

-- Two descriptions of one load.
same-result :
    (m : Action HaDesiredState) (a b : HaDesiredState) (k h g : History)
    → m k ≡ (ok a, h)
    → m k ≡ (ok b, g)
    → a ≡ b
unfolding pure
same-result m a b k h g e f = pure-eq-ok a b h g (sym e ∙ f)

-- After setHAMemberIntentLocked has returned without an error, a load returns a state in which that
-- member is intentionally stopped exactly if that was asked, and every other member exactly if it was
-- before. It is assumed that a written file is read back and that the clock does not run back.
pub set_ha_member_intent_locked-load :
    (host : Host) (name : Text) (id : ℕ) (stop : Bool) (before : HaDesiredState) (h g h' : History)
    → KeepsFiles host
    → load_ha_desired_state host name h ≡ (ok before, g)
    → set_ha_member_intent_locked host name id stop h ≡ (ok tt, h')
    → (after : HaDesiredState) × (h'' : History) × (load_ha_desired_state host name h'
        ≡ (ok after, h''))
      × ((j : ℕ)
          → ha_member_intentionally_stopped after j
            ≡ (if j == id then stop else ha_member_intentionally_stopped before j))
unfolding set_ha_member_intent_locked with_intent
set_ha_member_intent_locked-load host name id stop before h g h' keeps loaded e =
    let (state, g2, e1, r1) = >>=-eq-ok _ _ h h' tt e in
    let same : state ≡ before =
      same-result (load_ha_desired_state host name) state before h g2 g e1 loaded in
    let (path, p, c) = load-parts host name state h g2 e1 in
    let p' : ha_config_path host state.cluster ≡ ok path =
      subst (λ x. ha_config_path host x ≡ ok path) (sym c) p in
    let (h'', l) = load-save host path (with_intent id stop state) g2 h' keeps p' r1 in
    let after = stamped (host.clock g2) (with_intent id stop state) in
    (
      after,
      h'',
      subst (λ x. load_ha_desired_state host x h' ≡ (ok after, h'')) c l,
      λ j.
          subst
            (λ s.
              ha_member_intentionally_stopped after j
              ≡ (if j == id then stop else ha_member_intentionally_stopped s j))
            same (stamped-with_intent (host.clock g2) id stop state j),
    )
