-- ===== src/Ha/DesiredState/Intent.antt =====
-- What a saved intent says of the members, and that it is read back.
use apple_pod_control.Prelude.{
  ℕ, ◌≡◌, refl, Bool, true, false, List, [], ◌∷◌, ◌++◌, arith, if◌then◌else◌, ◌==◌,
}
use apple_pod_control.Host.{Host, History, clock_read, desired_written}
use apple_pod_control.Host.Action.{ok, ◌>>=◌, now}
use apple_pod_control.Ha.Types.{HaDesiredState}
use apple_pod_control.Ha.DesiredState.{
  holds_id, insert_id, sort_ids, remove_id, stamped, with_intent, validate_ha_desired_state,
  save_ha_desired_state, ha_member_intentionally_stopped,
}

holds_id-insert :
    (n : ℕ) (ids : List ℕ) (j : ℕ)
    → holds_id (insert_id n ids) j ≡ (if n == j then true else holds_id ids j)
unfolding holds_id insert_id
holds_id-insert n [] j = ground arith
holds_id-insert n (m ∷ rest) j = ground (arith, holds_id-insert n rest j)

holds_id-sort : (ids : List ℕ) (j : ℕ) → holds_id (sort_ids ids) j ≡ holds_id ids j
unfolding holds_id sort_ids
holds_id-sort [] j = refl
holds_id-sort (n ∷ rest) j =
    ground (arith, holds_id-insert n (sort_ids rest) j, holds_id-sort rest j)

holds_id-append :
    (xs ys : List ℕ) (j : ℕ)
    → holds_id (xs ++ ys) j ≡ (if holds_id xs j then true else holds_id ys j)
unfolding holds_id
holds_id-append [] ys j = refl
holds_id-append (x ∷ xs) ys j = ground (arith, holds_id-append xs ys j)

holds_id-remove :
    (id : ℕ) (ids : List ℕ) (j : ℕ)
    → holds_id (remove_id id ids) j ≡ (if j == id then false else holds_id ids j)
unfolding holds_id remove_id
holds_id-remove id [] j = ground arith
holds_id-remove id (x ∷ rest) j = ground (arith, holds_id-remove id rest j)

-- What is stored for a change of one member's intent: that member is stopped as asked, and the
-- others as before.
pub stamped-with_intent :
    (at : ℕ) (id : ℕ) (stop : Bool) (state : HaDesiredState) (j : ℕ)
    → ha_member_intentionally_stopped (stamped at (with_intent id stop state)) j
      ≡ (if j == id then stop else ha_member_intentionally_stopped state j)
unfolding ha_member_intentionally_stopped stamped with_intent
stamped-with_intent at id true state j = ground (
  arith,
  holds_id-sort (remove_id id state.stopped_members ++ id ∷ []) j,
  holds_id-append (remove_id id state.stopped_members) (id ∷ []) j,
  holds_id-remove id state.stopped_members j,
)
stamped-with_intent at id false state j = ground (
  arith,
  holds_id-sort (remove_id id state.stopped_members ++ []) j,
  holds_id-append (remove_id id state.stopped_members) [] j,
  holds_id-remove id state.stopped_members j,
)

-- The events of a save up to its write.
abbrev pub before_write : History → History
before_write h = clock_read ∷ clock_read ∷ h

-- A save that returned has written the stamped state, which was valid.
pub save_ha_desired_state-ok :
    (host : Host) (state : HaDesiredState) (h h' : History)
    → save_ha_desired_state host state h ≡ (ok tt, h')
    → (validate_ha_desired_state
          (host.clock (clock_read ∷ h))
          (stamped (host.clock h) state)
          state.cluster
        ≡ ok tt)
      × (host.write_fails (stamped (host.clock h) state) (before_write h) ≡ false)
      × (h' ≡ desired_written (stamped (host.clock h) state) ∷ before_write h)
unfolding save_ha_desired_state ◌>>=◌ now
save_ha_desired_state-ok host state h h' e =
    (ground (arith, e), ground (arith, e), ground (arith, e))
