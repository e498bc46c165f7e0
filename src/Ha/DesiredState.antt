-- ===== src/Ha/DesiredState.antt =====
-- Operator intent (internal/cluster/ha_desired_state.go): validation, saving and the changes of it.
pub mod Intent
pub mod Validity
pub mod RoundTrip
pub mod Queries
use apple_pod_control.Prelude.{
  ℕ, ◌+◌, Bool, true, false, ◌&&◌, ◌||◌, not, Option, none, some, List, [], ◌∷◌, ◌++◌, ltb, leb,
  ◌==◌, if◌then◌else◌, length,
}
use apple_pod_control.Text.{Text, text, text_eq}
use apple_pod_control.Host.{
  Host, Error, fail, desired_read, desired_written, File, missing, malformed, found,
}
use apple_pod_control.Host.Action.{
  Res, ok, err, Action, pure, raise, lift, raise_if, ask, now, ◌>>=◌, ◌>>◌,
}
use apple_pod_control.Ha.Types.{HaDesiredState}
use apple_pod_control.Ha.Names.{ha_member_count}
use apple_pod_control.Ha.Config.{check, ha_config_path}

abbrev pub running : Text
running = text "Running"

abbrev pub stopped : Text
stopped = text "Stopped"

abbrev api_version_text : Text
api_version_text = text "apc.dev/v1alpha1"

abbrev kind_text : Text
kind_text = text "HADesiredState"

unfoldable pub default_ha_desired_state : Text → HaDesiredState
default_ha_desired_state name = record {
  api_version = api_version_text;
  kind = kind_text;
  cluster = name;
  cluster_state = running;
  stopped_members = [];
  updated_at = 0;
}

-- The loop over the stopped members: in range, and each above the one before.
unfoldable pub sorted_ids : ℕ → List ℕ → Bool
sorted_ids previous [] = true
sorted_ids previous (id ∷ rest) =
    not (ltb id 1 || ltb ha_member_count id || leb id previous) && sorted_ids id rest

-- validateHADesiredState, at the time `at`.
unfoldable pub validate_ha_desired_state : ℕ → HaDesiredState → Text → Res (Unit {0})
unfolding sorted_ids
validate_ha_desired_state at state name =
    check
      (not (text_eq state.api_version api_version_text)
        || not (text_eq state.kind kind_text)
        || not (text_eq state.cluster name))
      (fail "HA desired state identity does not match cluster %q")
      (check
        (not (text_eq state.cluster_state running) && not (text_eq state.cluster_state stopped))
        (fail "HA desired cluster state must be %q or %q")
        (check (ltb 1 (length state.stopped_members))
          (fail
            "HA desired state may intentionally stop at most one member while the cluster is running")
          (check (not (sorted_ids 0 state.stopped_members))
            (fail "HA desired stopped members must be unique sorted IDs 1, 2, or 3")
            (check (state.updated_at == 0 || ltb (at + 300_000_000_000) state.updated_at)
              (fail "HA desired state has an invalid update time") (ok tt)))))

stored_state : Host → Text → File HaDesiredState → Action HaDesiredState
stored_state host name missing = pure (default_ha_desired_state name)
stored_state host name malformed = raise (fail "decode HA desired state: %w")
stored_state host name (found state) = do
  at ← now host
  lift (validate_ha_desired_state at state name)
  pure state

unfoldable pub load_ha_desired_state : Host → Text → Action HaDesiredState
unfolding stored_state
load_ha_desired_state host name = do
  lift (ha_config_path host name)
  file ← ask (desired_read name) (host.desired_file name)
  stored_state host name file

insert_id : ℕ → List ℕ → List ℕ
insert_id n [] = n ∷ []
insert_id n (m ∷ rest) = if ltb m n then m ∷ insert_id n rest else n ∷ m ∷ rest

-- sort.Ints
unfoldable pub sort_ids : List ℕ → List ℕ
unfolding insert_id
sort_ids [] = []
sort_ids (n ∷ rest) = insert_id n (sort_ids rest)

-- What saveHADesiredState writes at the time `at`.
unfoldable pub stamped : ℕ → HaDesiredState → HaDesiredState
unfolding sort_ids
stamped at state = record state {
  api_version = api_version_text;
  kind = kind_text;
  updated_at = at;
  stopped_members = sort_ids state.stopped_members;
}

-- saveHADesiredState reads the clock for the stamp, and again for the validation.
unfoldable pub save_ha_desired_state : Host → HaDesiredState → Action (Unit {0})
unfolding stamped
save_ha_desired_state host state = do
  at ← now host
  check_at ← now host
  lift (validate_ha_desired_state check_at (stamped at state) state.cluster)
  lift (ha_config_path host state.cluster)
  failed ← ask (desired_written (stamped at state)) (host.write_fails (stamped at state))
  raise_if failed (fail "save HA desired state: %w")

holds_id : List ℕ → ℕ → Bool
holds_id [] id = false
holds_id (s ∷ rest) id = if s == id then true else holds_id rest id

unfoldable pub ha_member_intentionally_stopped : HaDesiredState → ℕ → Bool
unfolding holds_id
ha_member_intentionally_stopped state id = holds_id state.stopped_members id

-- The stopped members without one of them.
unfoldable pub remove_id : ℕ → List ℕ → List ℕ
remove_id id [] = []
remove_id id (candidate ∷ rest) =
    if candidate == id then remove_id id rest else candidate ∷ remove_id id rest

-- The state that setHAMemberIntentLocked saves.
unfoldable pub with_intent : ℕ → Bool → HaDesiredState → HaDesiredState
unfolding remove_id
with_intent id stop state = record state {
  stopped_members = remove_id id state.stopped_members ++ (if stop then id ∷ [] else []);
}

unfoldable pub set_ha_member_intent_locked : Host → Text → ℕ → Bool → Action (Unit {0})
unfolding with_intent
set_ha_member_intent_locked host name id stop = do
  state ← load_ha_desired_state host name
  save_ha_desired_state host (with_intent id stop state)

unfoldable pub mark_ha_cluster_stopped_locked : Host → Text → Action (Unit {0})
mark_ha_cluster_stopped_locked host name = do
  state ← load_ha_desired_state host name
  save_ha_desired_state host (record state { cluster_state = stopped })

unfoldable pub mark_ha_cluster_running_locked : Host → Text → Action (Unit {0})
mark_ha_cluster_running_locked host name = do
  state ← load_ha_desired_state host name
  save_ha_desired_state host (record state { cluster_state = running; stopped_members = [] })
