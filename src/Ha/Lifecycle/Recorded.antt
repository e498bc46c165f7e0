-- ===== src/Ha/Lifecycle/Recorded.antt =====
-- The creation of a cluster records what it is about to do before it does it.
use apple_pod_control.Prelude.{ℕ, ◌≡◌, ap, Bool, false, arith, [], ◌∷◌}
use mathlib.Core.Path.{subst}
use apple_pod_control.Text.{Text}
use apple_pod_control.Host.{
  Host, Context, Error, Event, History, LocalChange, config_saved, stored, desired_written,
}
use apple_pod_control.Host.Action.{
  Res, ok, lift, ask, >>=-eq-ok, wrapped-eq-ok, now, raise_if, raise_if-eq-ok,
}
use apple_pod_control.Host.Emits.{
  Emits, Emitted, here, and_then, Emitted-trans, Emitted-weaken, Emits-Emitted, Emits-bind,
  Emits-wrapped, Emits-lift, Emits-raise_if,
}
use apple_pod_control.Host.Mutations.{IsQuery, IsQuiet}
use apple_pod_control.Ha.Types.{HaConfig, HaDesiredState}
use apple_pod_control.Ha.Queries.{query_rules, load_ha_config-IsQuery, now-IsQuery}
use apple_pod_control.Ha.Preflight.{HaPreflight}
use apple_pod_control.Ha.Preflight.Queries.{preflight_ha-IsQuery}
use apple_pod_control.Ha.DesiredState.{
  mark_ha_cluster_running_locked, save_ha_desired_state, stamped, running,
}
use apple_pod_control.Ha.DesiredState.Queries.{
  mark_ha_cluster_running_locked-any, load_ha_desired_state-any,
}
use apple_pod_control.Ha.Files.{change, ensure_ha_token, save_ha_config}
use apple_pod_control.Ha.Files.Changes.{
  check_ha_legacy_collision-IsQuery, check_stored-IsQuery, ensure_ha_token-any, save_ha_config-any,
}
use apple_pod_control.Ha.Lifecycle.{check_before_create, record_topology}

-- The event happened after the first history and before the second ended, when a condition held.
pub data Since (W : History → Type 0) (h : History) (e : Event) : History → Type 0 where
  newest : (g : History) → Emitted (λ x. Unit {0}) h g → W g → Since W h e (e ∷ g)
  earlier : (x : Event) (g : History) → Since W h e g → Since W h e (x ∷ g)

pub any_event : {P : Event → Type 0} {h g : History} → Emitted P h g → Emitted (λ x. Unit {0}) h g
any_event s = Emitted-weaken (λ e p. tt) s

pub Since-more :
    {P : Event → Type 0} {W : History → Type 0} {h g g' : History} {e : Event}
    → Since W h e g
    → Emitted P g g'
    → Since W h e g'
Since-more s here = s
Since-more s (and_then {h' = i} {e = x} more p) = earlier x i (Since-more s more)

Since-before :
    {P : Event → Type 0} {W : History → Type 0} {h h2 : History} {e : Event} {g : History}
    → Emitted P h h2
    → Since W h2 e g
    → Since W h e g
Since-before first (newest g s w) = newest g (Emitted-trans (any_event first) s) w
Since-before first (earlier x g s) = earlier x g (Since-before first s)

pub check_before_create-IsQuery :
    (host : Host) (ctx : Context) (config : HaConfig)
    → Emits IsQuery (check_before_create host ctx config)
unfolding check_before_create
check_before_create-IsQuery host ctx config =
    search
      (
        query_rules, check_ha_legacy_collision-IsQuery, check_stored-IsQuery,
        load_ha_config-IsQuery, preflight_ha-IsQuery,
      )
      depth 14

ok-injective : {A : Type 0} (a b : A) → ok a ≡ ok b → a ≡ b
ok-injective a b p = ground (arith, p)

ask-Since :
    {A : Type 0} (e : Event) (f : History → A) (a : A) (h g : History)
    → ask e f h ≡ (ok a, g)
    → Since (λ k. f k ≡ a) h e g
unfolding ask
ask-Since e f a h g p =
    subst (λ (k : History). Since (λ j. f j ≡ a) h e k) (ap (λ r. r.1) p)
      (newest h here (ok-injective (f h) a (ap (λ r. r.0) p)))

-- A question whose answer lets the action go on says that nothing failed.
accepted-Since :
    (e : Event) (f : History → Bool) (failed : Bool) (x : Error) (h g k : History)
    → ask e f h ≡ (ok failed, g)
    → raise_if failed x g ≡ (ok tt, k)
    → Since (λ j. f j ≡ false) h e k
accepted-Since e f failed x h g k asked went_on =
    let (fine, same) = raise_if-eq-ok failed x g k went_on in
    Since-more (subst (λ b. Since (λ j. f j ≡ b) h e g) fine (ask-Since e f failed h g asked))
      (Emits-Emitted (Emits-raise_if {P = λ y. Unit {0}} failed x) went_on)

any_lift :
    {A : Type 0} (r : Res A) (a : A) (h g : History)
    → lift r h ≡ (ok a, g)
    → Emitted (λ x. Unit {0}) h g
any_lift r a h g p = Emits-Emitted (Emits-lift r) p

-- An intent has been written with success, with its time.
abbrev pub Written : Host → History → ℕ → HaDesiredState → History → Type 0
Written host h at state g =
    Since (λ k. host.write_fails (stamped at state) k ≡ false) h
      (desired_written (stamped at state)) g

module _ (host : Host) (config : HaConfig) where
  running-IsQuiet : (name : Text) → Emits IsQuiet (mark_ha_cluster_running_locked host name)
  running-IsQuiet name = mark_ha_cluster_running_locked-any tt (λ n. tt) (λ s. tt) host name

  token-IsQuiet : (path : Text) (fresh : Bool) → Emits IsQuiet (ensure_ha_token host path fresh)
  token-IsQuiet path fresh =
      ensure_ha_token-any {P = IsQuiet} (λ c. tt) (λ t. tt) (λ t. tt) host path fresh

  saves-IsQuiet : Emits IsQuiet (save_ha_config host config)
  saves-IsQuiet = save_ha_config-any {P = IsQuiet} (λ c. tt) (λ t. tt) (λ t. tt) host config

  pub record_topology-IsQuiet : (p : HaPreflight) → Emits IsQuiet (record_topology host config p)
  unfolding record_topology
  record_topology-IsQuiet p =
      Emits-bind _ _ (token-IsQuiet _ _)
        (λ u. Emits-bind _ _ saves-IsQuiet (λ v. Emits-wrapped _ _ (running-IsQuiet config.name)))

  change-Since :
      (c : LocalChange) (x : Error) (h h' : History)
      → change host c x h ≡ (ok tt, h')
      → Since (λ k. host.change_fails c k ≡ false) h (stored c) h'
  unfolding change
  change-Since c x h h' e =
      let (failed, g, e1, r1) = >>=-eq-ok _ _ h h' tt e in accepted-Since _ _ failed x h g h' e1 r1

  save_ha_config-Since :
      (h h' : History)
      → save_ha_config host config h ≡ (ok tt, h')
      → Since
          (λ k. host.change_fails (config_saved config) k ≡ false)
          h
          (stored (config_saved config))
          h'
  unfolding save_ha_config
  save_ha_config-Since h h' e =
      let (path, g, e1, r1) = >>=-eq-ok _ _ h h' tt e in
      Since-before (any_lift _ path h g e1) (change-Since (config_saved config) _ g h' r1)

  save_state-Since :
      (state : HaDesiredState) (h h' : History)
      → save_ha_desired_state host state h ≡ (ok tt, h')
      → (at : ℕ) × Since
          (λ k. host.write_fails (stamped at state) k ≡ false)
          h
          (desired_written (stamped at state))
          h'
  unfolding save_ha_desired_state
  save_state-Since state h h' e =
      let (at, g1, e1, r1) = >>=-eq-ok _ _ h h' tt e in
      let (check_at, g2, e2, r2) = >>=-eq-ok _ _ g1 h' tt r1 in
      let (u, g3, e3, r3) = >>=-eq-ok _ _ g2 h' tt r2 in
      let (path, g4, e4, r4) = >>=-eq-ok _ _ g3 h' tt r3 in
      let (failed, g5, e5, r5) = >>=-eq-ok _ _ g4 h' tt r4 in
      (
        at,
        Since-before (Emitted-trans (any_now h g1 at e1) (any_now g1 g2 check_at e2)) (
            Since-before (Emitted-trans (any_lift _ u g2 g3 e3) (any_lift _ path g3 g4 e4))
              (accepted-Since _ _ failed _ g4 g5 h' e5 r5)),
      )
    where
      any_now : (g g' : History) (n : ℕ) → now host g ≡ (ok n, g') → Emitted (λ y. Unit {0}) g g'
      any_now g g' n p = any_event (Emits-Emitted (now-IsQuery host) p)

  running-Since :
      (h h' : History)
      → mark_ha_cluster_running_locked host config.name h ≡ (ok tt, h')
      → (before : HaDesiredState) × (at : ℕ) × Written host h at
          (record before { cluster_state = running; stopped_members = [] })
          h'
  unfolding mark_ha_cluster_running_locked
  running-Since h h' e =
      let (before, g, e1, r1) = >>=-eq-ok _ _ h h' tt e in
      let (at, s) = save_state-Since _ g h' r1 in
      (
        before,
        at,
        Since-before
            (Emits-Emitted
              (load_ha_desired_state-any {P = λ y. Unit {0}} tt (λ n. tt) (λ n. tt) host
                config.name)
              e1)
            s,
      )

-- What is on disk when the runtime is first changed.
pub record Recorded (host : Host) (config : HaConfig) (h g : History) : Type 0 where
  pub topology :
      Since
        (λ k. host.change_fails (config_saved config) k ≡ false)
        h
        (stored (config_saved config))
        g
  pub before : HaDesiredState
  pub at : ℕ
  pub intent : Written host h at (record before { cluster_state = running; stopped_members = [] }) g

pub Recorded-from :
    (host : Host) (config : HaConfig) (p : HaPreflight) (h g k : History)
    → Emitted IsQuiet h g
    → record_topology host config p g ≡ (ok tt, k)
    → Recorded host config h k
unfolding record_topology
Recorded-from host config p h g k first e =
    let (u, g1, e1, r1) = >>=-eq-ok _ _ g k tt e in
    let (v, g2, e2, r2) = >>=-eq-ok _ _ g1 k tt r1 in
    let marked = wrapped-eq-ok _ _ tt g2 k r2 in
    let (before, at, intent) = running-Since host config g2 k marked in
    let start = Emitted-trans first (Emits-Emitted (token-IsQuiet host config _ _) e1) in
    let saved = Emitted-trans start (Emits-Emitted (saves-IsQuiet host config) e2) in
    record {
      topology =
          Since-more (Since-before start (save_ha_config-Since host config g1 g2 e2))
            (Emits-Emitted (running-IsQuiet host config config.name) marked);
      before = before;
      at = at;
      intent = Since-before saved intent;
    }
