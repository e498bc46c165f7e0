-- ===== src/Ha/Lock/Guarded.antt =====
-- Who holds the operation lock: nothing is changed outside it, and it is always given back.
use mathlib.Core.Path.{subst}
use apple_pod_control.Prelude.{
  ℕ, zero, suc, ◌≡◌, refl, ap, ◌∙◌, Bool, true, false, ◌&&◌, [], ◌∷◌, arith, ◌⊎◌, inl, inr,
  if◌then◌else◌,
}
use apple_pod_control.Text.{Text, text_eq, text_eq_refl}
use apple_pod_control.Host.{
  Host, Error, Context, Event, History, try_lock, unlock, FlockAnswer, granted, busy, refused, ran,
  desired_written, stored, locked, probed_api, clock_read, context_polled, waited, config_read,
  desired_read, token_read, path_checked,
}
use apple_pod_control.Host.Action.{Res, ok, Action, pure, raise, ask, ◌>>=◌, >>=-eq-ok, >>=-cases}
use apple_pod_control.Host.Emits.{Emits, Emitted, here, and_then, Emits-Emitted}
use apple_pod_control.Ha.Lock.{
  close_with_error, after_flock, poll, poll_lock, acquire_ha_operation_lock, release, under_lock,
}
use apple_pod_control.Ha.Lock.Passive.{Passive, release-Passive}

abbrev is_granted : FlockAnswer → Bool
is_granted granted = true
is_granted _ = false

-- No step of a lock.
abbrev pub NoLock : Event → Type 0
NoLock (locked n s) = ⊥
NoLock e = Unit

module _ (host : Host) (name : Text) where
  -- Whether this process holds the cluster's lock: its newest attempt was granted, and no unlock
  -- followed.
  abbrev pub held : History → Bool
  held [] = false
  held (locked n try_lock ∷ h) =
      let before = held h in
      if text_eq n name && is_granted (host.flock name h) then true else before
  held (locked n unlock ∷ h) = let before = held h in if text_eq n name then false else before
  held (_ ∷ h) = held h

  -- Every other event happened while the lock was held.
  abbrev pub Guarded : History → Type 0
  Guarded [] = Unit
  Guarded (e ∷ h) = (Passive e ⊎ (held h ≡ true)) × Guarded h

  Passive-Guarded : {h h' : History} → Emitted Passive h h' → Guarded h → Guarded h'
  Passive-Guarded here g = g
  Passive-Guarded (and_then s p) g = (inl p, Passive-Guarded s g)

  held-NoLock : (e : Event) (h : History) → NoLock e → held (e ∷ h) ≡ held h
  held-NoLock (ran ctx c) h q = refl
  held-NoLock (desired_written s) h q = refl
  held-NoLock (probed_api m) h q = refl
  held-NoLock clock_read h q = refl
  held-NoLock context_polled h q = refl
  held-NoLock waited h q = refl
  held-NoLock (config_read t) h q = refl
  held-NoLock (desired_read t) h q = refl
  held-NoLock (token_read t) h q = refl
  held-NoLock (path_checked t) h q = refl
  held-NoLock (locked n s) h q = absurd q
  held-NoLock (stored c) h q = refl

  -- What runs under the lock, and does not touch it.
  working-Guarded :
      {h h' : History}
      → Emitted NoLock h h'
      → held h ≡ true
      → Guarded h
      → (held h' ≡ true) × Guarded h'
  working-Guarded here t g = (t, g)
  working-Guarded (and_then {h' = i} {e = e} s p) t g =
      let (t', g') = working-Guarded s t g in (held-NoLock e i p ∙ t', (inr t', g'))

  granted-held :
      (h : History) → host.flock name h ≡ granted → held (locked name try_lock ∷ h) ≡ true
  granted-held h e = rw (text_eq_refl name, e) refl

  closed_is_no_lock :
      (e : Error) (h h' : History) → ¬ (close_with_error {A = Unit {0}} host name e h ≡ (ok tt, h'))
  unfolding close_with_error raise
  closed_is_no_lock e h h' p =
      let (closed, g, e1, r1) = >>=-eq-ok _ _ h h' tt p in ground (arith, r1)

  -- The lock is held after an attempt that succeeded, or that was followed by one.
  after_flock-held :
      (again : Action Unit) (h g h' : History) (a : FlockAnswer)
      → ask (locked name try_lock) (host.flock name) h ≡ (ok a, g)
      → ((k : History) → again k ≡ (ok tt, h') → held h' ≡ true)
      → after_flock host name again a g ≡ (ok tt, h')
      → held h' ≡ true
  unfolding after_flock ask pure
  after_flock-held again h g h' granted asked later e =
      subst (λ k. held k ≡ true) (ap (λ (r : Res (Unit {0}) × History). r.1) e)
        (subst (λ k. held k ≡ true) (ap (λ (r : Res FlockAnswer × History). r.1) asked)
          (granted-held h (ground (arith, asked))))
  after_flock-held again h g h' busy asked later e = later g e
  after_flock-held again h g h' refused asked later e = absurd (closed_is_no_lock _ g h' e)

  poll-held : (ticks : ℕ) (h h' : History) → poll ticks host name h ≡ (ok tt, h') → held h' ≡ true
  unfolding poll
  poll-held zero h h' e =
      let (a, g, e1, r1) = >>=-eq-ok _ _ h h' tt e in
      after_flock-held _ h g h' a e1 (λ k p. absurd (closed_is_no_lock _ k h' p)) r1
  poll-held (suc ticks) h h' e =
      let (a, g, e1, r1) = >>=-eq-ok _ _ h h' tt e in
      after_flock-held _ h g h' a e1
        (λ k p. let (u, k2, e2, r2) = >>=-eq-ok _ _ k h' tt p in poll-held ticks k2 h' r2) r1

  pub acquire-held :
      (ctx : Context) (h h' : History)
      → acquire_ha_operation_lock host ctx name h ≡ (ok tt, h')
      → held h' ≡ true
  unfolding acquire_ha_operation_lock poll_lock
  acquire-held ctx h h' e =
      let (a1, g1, _, r1) = >>=-eq-ok _ _ h h' tt e in
      let (a2, g2, _, r2) = >>=-eq-ok _ _ g1 h' tt r1 in
      let (a3, g3, _, r3) = >>=-eq-ok _ _ g2 h' tt r2 in
      let (a4, g4, _, r4) = >>=-eq-ok _ _ g3 h' tt r3 in
      let (a5, g5, _, r5) = >>=-eq-ok _ _ g4 h' tt r4 in
      let (a6, g6, _, r6) = >>=-eq-ok _ _ g5 h' tt r5 in
      let (a7, g7, _, r7) = >>=-eq-ok _ _ g6 h' tt r6 in poll-held (host.ticks ctx g7) g7 h' r7

  release-held : (h : History) → held (release host name h).1 ≡ false
  unfolding release ◌>>=◌
  release-held h = rw (text_eq_refl name) refl

  -- An operation under the lock: all that it changes, it changes while the lock is held, and then the
  -- lock is given back.
  under_lock-Guarded :
      {A : Type 0} (operation : Action A) (h : History)
      → Emits NoLock operation
      → held h ≡ true
      → Guarded h
      → Guarded (under_lock host name operation h).1
        × (held (under_lock host name operation h).1 ≡ false)
  unfolding under_lock ◌>>=◌
  under_lock-Guarded operation h q t g =
      let (t', g') = working-Guarded (q.at h) t g in
      (
        Passive-Guarded ((release-Passive host name).at (operation h).1) g',
        release-held (operation h).1,
      )

  -- What a locked operation leaves: a guarded history, and the lock given back unless it was never taken
  -- and nothing was changed.
  pub record LockedRun (h h' : History) : Type 0 where
    pub guarded : Guarded h'
    pub given_back : (held h' ≡ false) ⊎ Emitted Passive h h'

  pub locked-LockedRun :
      {A : Type 0} (acquire : Action Unit) (operation : Action A) (h : History)
      → Emits Passive acquire
      → ((g : History) → acquire h ≡ (ok tt, g) → held g ≡ true)
      → Emits NoLock operation
      → Guarded h
      → LockedRun h ((acquire >>= λ _. under_lock host name operation) h).1
  locked-LockedRun acquire operation h passive taken q g =
      elim (>>=-cases acquire (λ _. under_lock host name operation) h) [
        | inl (x, k, e1, e2) ↦ rw (ap (λ (r : Res _ × History). r.1) e2) record {
          guarded = Passive-Guarded (Emits-Emitted passive e1) g;
          given_back = inr (Emits-Emitted passive e1);
        }
        | inr (u, k, e1, e2) ↦
            let (safe, free) =
              under_lock-Guarded operation k q (taken k e1)
                (Passive-Guarded (Emits-Emitted passive e1) g) in
            rw (ap (λ (r : Res _ × History). r.1) e2)
              record { guarded = safe; given_back = inl free }
      ]
