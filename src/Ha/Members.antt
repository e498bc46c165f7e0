-- ===== src/Ha/Members.antt =====
-- Quorum-safe maintenance of one member (internal/cluster/ha_members.go), with reconcileHAMember and
-- waitHAClusterReady of ha.go, and the image import targets of ha_targets.go.
pub mod Start
pub mod Restart
pub mod Targets
pub mod Queries
pub mod StopSafety
pub mod Own
pub mod Operation
use apple_pod_control.Prelude.{
  ℕ, zero, suc, ◌*◌, Bool, true, false, ◌&&◌, ◌||◌, not, Option, none, some, List, [], ◌∷◌, ◌==◌,
  if◌then◌else◌, length, ltb,
}
use apple_pod_control.Text.{Text}
use apple_pod_control.Host.{Host, Error, fail, wrap, context_error, Context, stop}
use apple_pod_control.Host.Action.{
  Res, ok, err, Action, pure, raise, lift, attempt, wrapped, raise_if, ◌>>=◌, ◌>>◌, context_err,
  wait,
}
use apple_pod_control.Host.{History}
use apple_pod_control.Ha.Types.{HaMember, HaConfig, HaMemberState, HaState, HaContainerInspect}
use apple_pod_control.Ha.Names.{ha_container_name, ha_member_count, member_by_id, dns_label}
use apple_pod_control.Ha.Config.{check}
use apple_pod_control.Ha.Config.Normalize.{load_ha_config}
use apple_pod_control.Ha.Inspect.{is_running, is_stopped}
use apple_pod_control.Ha.Preflight.{HaPreflight, IdMap, get_id, preflight_ha}
use apple_pod_control.Ha.Status.{
  status_ha, ha_member_state_by_id, all_ha_members_ready, other_ha_members_ready,
}
use apple_pod_control.Ha.Etcd.{validate_ha_etcd_topology, is_undeclared}
use apple_pod_control.Ha.Addresses.Envelope.{run_ha_bounded}

-- A timeout as an operator gives it, in nanoseconds.
pub data Timeout : Type 0 where
  negative : Timeout
  at_least : ℕ → Timeout

abbrev too_short : ℕ → Bool
too_short t = ltb 0 t && ltb t 1_000_000_000

check_timeout : Timeout → Res (Unit {0})
check_timeout negative = err (fail "HA member operation timeout must not be negative")
check_timeout (at_least t) =
    check (too_short t) (fail "HA member operation timeout must be at least 1s") (ok tt)

unfoldable pub validate_ha_member_operation_input : Text → ℕ → Timeout → Res (Unit {0})
unfolding check_timeout
validate_ha_member_operation_input name id timeout =
    check (not (dns_label name)) (fail "cluster name must be a lowercase DNS label") (
      check (ltb id 1 || ltb ha_member_count id) (fail "HA member ID must be 1, 2, or 3")
        (check_timeout timeout))

pub record MemberOperation : Type 0 where
  pub config : HaConfig
  pub member : HaMember
  pub timeout : ℕ

unfoldable pub load_ha_member_operation_locked : Host → Text → ℕ → ℕ → Action MemberOperation
load_ha_member_operation_locked host name id timeout = do
  config ← load_ha_config host name
  let member = member_by_id config.members id
  let effective = if timeout == 0 then config.startup_timeout else timeout
  raise_if (is_undeclared member) (fail "HA member %d is not declared by cluster %q")
  pure (record {
    config = record config { startup_timeout = effective };
    member = member;
    timeout = effective;
  })

-- The loop of preflightHAMemberTopology: every member but a missing target has its container.
unfoldable pub envelopes_present : List HaMember → IdMap HaContainerInspect → ℕ → Bool → Bool
envelopes_present [] records target_id allow_missing_target = true
envelopes_present (member ∷ rest) records target_id allow_missing_target =
    (elim (get_id records member.id) [
      | some r ↦ true
      | none ↦ allow_missing_target && member.id == target_id
    ])
    && envelopes_present rest records target_id allow_missing_target

unfoldable pub preflight_ha_member_topology :
    Host → Context → HaConfig → ℕ → Bool → Action HaPreflight
unfolding envelopes_present
preflight_ha_member_topology host ctx config target_id allow_missing_target = do
  preflight ← preflight_ha host ctx config false
  raise_if (not preflight.network_exists)
      (fail "HA member maintenance requires the exact APC-owned network %q")
  raise_if (not (length preflight.volume_exists == length config.members))
      (fail "HA member maintenance requires all three exact APC-owned member volumes; found %d")
  raise_if
      (not (
        envelopes_present config.members preflight.container_record target_id allow_missing_target))
      (fail "HA member maintenance requires exact APC-owned server envelope %q")
  pure preflight

-- The answer of one status query in a wait: `some` ends the wait.
judge_stopped : HaMember → HaState → Option HaMemberState → Option HaState
judge_stopped member state none = none
judge_stopped member state (some target) =
    if not (is_running target.runtime_state) && other_ha_members_ready state member.id
    then some state
    else none

-- An error ends a wait unless the context is done.
unfoldable pub keep_waiting : Host → Context → Error → Action (Option HaState)
keep_waiting host ctx e = do expired ← context_err host ctx; if expired then pure none else raise e

stopped_verdict : Host → Context → HaMember → Res HaState → Action (Option HaState)
unfolding judge_stopped keep_waiting
stopped_verdict host ctx member (ok state) =
    pure (judge_stopped member state (ha_member_state_by_id state.members member.id))
stopped_verdict host ctx member (err e) = keep_waiting host ctx e

unfoldable pub finish_wait : Option HaState → Action HaState → Action HaState
finish_wait (some state) again = pure state
finish_wait none again = wait >> again

look_stopped : Host → Context → HaConfig → HaMember → Action (Option HaState)
unfolding stopped_verdict
look_stopped host ctx config member = do
  result ← attempt (status_ha host ctx config.name)
  stopped_verdict host ctx member result

-- The loop of waitHAMemberStopped, for a select that takes its ticker so many times.
wait_stopped : ℕ → Host → Context → HaConfig → HaMember → Action HaState
unfolding look_stopped finish_wait
wait_stopped zero host ctx config member = do
  verdict ← look_stopped host ctx config member
  finish_wait verdict
      (raise (wrap "HA member %d did not stop with two Ready node/API pairs: %w" context_error))
wait_stopped (suc ticks) host ctx config member = do
  verdict ← look_stopped host ctx config member
  finish_wait verdict (wait_stopped ticks host ctx config member)

unfoldable pub wait_ha_member_stopped : Host → Context → HaConfig → HaMember → Action HaState
unfolding wait_stopped
wait_ha_member_stopped host ctx config member h =
    wait_stopped (host.ticks ctx h) host ctx config member h

-- What stopHAMemberLocked returns: a state or an error, and whether a stop may have been applied.
pub record StopOutcome : Type 0 where
  pub result : Res HaState
  pub restart_needed : Bool

abbrev is_offline : Option HaContainerInspect → Bool
is_offline none = true
is_offline (some r) = is_stopped r.state

-- What stopHAMemberLocked finds before its mutation: `some` is a member that is already offline.
offline_or_ready : HaMember → HaPreflight → HaState → HaMemberState → Action (Option HaState)
offline_or_ready member preflight state target =
    if is_offline (get_id preflight.container_record member.id)
    then (do
      raise_if (not (other_ha_members_ready state member.id)) (
          fail
            "HA member %d is already offline, but the other two node/API pairs are not both Ready")
      pure (some state))
    else (do
      raise_if (not (is_running target.runtime_state) || not (all_ha_members_ready state)) (
          fail
            "refusing to stop HA member %d: all three node/API pairs must be Ready before mutation (currently %d/3)")
      pure none)

require_state : Option HaMemberState → Action HaMemberState
require_state none = raise (fail "HA status did not include declared member %d")
require_state (some m) = pure m

confirm_etcd : Host → Context → HaConfig → Option HaState → Action (Option HaState)
confirm_etcd host ctx config (some state) = pure (some state)
confirm_etcd host ctx config none =
    wrapped "refusing to stop HA member %d without exact healthy embedded-etcd topology: %w"
      (validate_ha_etcd_topology host ctx config)
    >> pure none

unfoldable pub check_before_stop : Host → Context → HaConfig → HaMember → Action (Option HaState)
unfolding offline_or_ready require_state confirm_etcd
check_before_stop host ctx config member = do
  preflight ← preflight_ha_member_topology host ctx config member.id true
  state ← status_ha host ctx config.name
  target ← require_state (ha_member_state_by_id state.members member.id)
  offline ← offline_or_ready member preflight state target
  confirm_etcd host ctx config offline

outcome_of_wait : Res HaState × History → StopOutcome × History
outcome_of_wait (r, h) = (record { result = r; restart_needed = true }, h)

after_stop_command :
    Host → Context → HaConfig → HaMember → Res (Unit {0}) → History → StopOutcome × History
unfolding outcome_of_wait
after_stop_command host ctx config member (err e) h =
    (record { result = err e; restart_needed = true }, h)
after_stop_command host ctx config member (ok _) h =
    outcome_of_wait (wait_ha_member_stopped host ctx config member h)

stop_checked :
    Host → Context → HaConfig → HaMember → Res (Option HaState) → History → StopOutcome × History
unfolding after_stop_command
stop_checked host ctx config member (err e) h =
    (record { result = err e; restart_needed = false }, h)
stop_checked host ctx config member (ok (some state)) h =
    (record { result = ok state; restart_needed = false }, h)
stop_checked host ctx config member (ok none) h =
    let (r, h') =
      run_ha_bounded host ctx "stop HA server member %d"
        (stop (ha_container_name config.name member.id)) h in
    after_stop_command host ctx config member r h'

unfoldable pub stop_ha_member_locked :
    Host → Context → HaConfig → HaMember → History → StopOutcome × History
unfolding stop_checked
stop_ha_member_locked host ctx config member h =
    let (r, h') = check_before_stop host ctx config member h in
    stop_checked host ctx config member r h'
