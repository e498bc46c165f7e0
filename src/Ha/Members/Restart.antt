-- ===== src/Ha/Members/Restart.antt =====
-- The operations that run under the operation lock (internal/cluster/ha_members.go): the functions
-- handed to withHAMemberOperation, and restartHAMemberOperation.
pub mod Own
pub mod Safety
use apple_pod_control.Prelude.{ℕ, Bool, true, false, not, if◌then◌else◌, min}
use apple_pod_control.Host.{Host, Error, fail, wrap, join, Context, without_cancel}
use apple_pod_control.Host.Action.{
  Res, ok, err, Action, pure, raise, lift, attempt, wrapped, raise_if, ◌>>=◌, ◌>>◌, with_timeout,
}
use apple_pod_control.Ha.Types.{HaMember, HaConfig, HaState}
use apple_pod_control.Ha.Status.{status_ha, all_ha_members_ready}
use apple_pod_control.Ha.DesiredState.{set_ha_member_intent_locked}
use apple_pod_control.Ha.Members.{preflight_ha_member_topology, StopOutcome, stop_ha_member_locked}
use apple_pod_control.Ha.Members.Start.{start_ha_member_locked}

-- The function of StopHAMember: intent first, then the stop.
unfoldable pub stop_ha_member : Host → Context → HaConfig → HaMember → Action HaState
stop_ha_member host ctx config member = do
  wrapped "persist intentional stop for HA member %d: %w"
      (set_ha_member_intent_locked host config.name member.id true)
  λ h. let (outcome, h') = stop_ha_member_locked host ctx config member h in (outcome.result, h')

-- The function of StartHAMember.
unfoldable pub start_ha_member : Host → Context → HaConfig → HaMember → Action HaState
start_ha_member host ctx config member = do
  wrapped "clear intentional stop for HA member %d: %w"
      (set_ha_member_intent_locked host config.name member.id false)
  start_ha_member_locked host ctx config member

abbrev pub recovery_attempt_timeout : ℕ
recovery_attempt_timeout = 300_000_000_000

recovered_result : Error → Res HaState → Res HaState
recovered_result e (ok state) = err e
recovered_result e (err f) =
    err (join e (wrap "best-effort restart recovery for HA member %d failed: %w" f))

-- The deferred recovery: it starts the member again after an error that may have left it stopped, and
-- reports the first error in any case.
recover_restart : Host → Context → HaConfig → HaMember → ℕ → Error → Action HaState
unfolding recovered_result
recover_restart host recovery_base config member operation_timeout e = do
  recovery_ctx ←
      with_timeout host (without_cancel recovery_base)
        (min operation_timeout recovery_attempt_timeout)
  recovered ← attempt (start_ha_member_locked host recovery_ctx config member)
  lift (recovered_result e recovered)

-- What follows the second half of a restart.
finish_start : Host → Context → HaConfig → HaMember → ℕ → Bool → Res HaState → Action HaState
unfolding recover_restart
finish_start host recovery_base config member operation_timeout needed (ok state) = pure state
finish_start host recovery_base config member operation_timeout true (err e) =
    recover_restart host recovery_base config member operation_timeout e
finish_start host recovery_base config member operation_timeout false (err e) = raise e

-- What follows the stop of a restart.
restart_stopped : Host → Context → Context → HaConfig → HaMember → ℕ → StopOutcome → Action HaState
unfolding recover_restart finish_start
restart_stopped host ctx recovery_base config member operation_timeout outcome =
    elim outcome.result [
      | ok state ↦ do
        started ← attempt (start_ha_member_locked host ctx config member)
        finish_start host recovery_base config member operation_timeout outcome.restart_needed
            started
      | err e ↦
          if outcome.restart_needed
          then recover_restart host recovery_base config member operation_timeout e
          else raise e
    ]

-- The checks before the mutation.
unfoldable pub check_before_restart : Host → Context → HaConfig → HaMember → Action (Unit {0})
check_before_restart host ctx config member = do
  wrapped "clear intentional stop before restarting HA member %d: %w"
      (set_ha_member_intent_locked host config.name member.id false)
  preflight_ha_member_topology host ctx config member.id false
  state ← status_ha host ctx config.name
  raise_if (not (all_ha_members_ready state)) (
      fail
        "refusing to restart HA member %d: all three node/API pairs must be Ready before mutation (currently %d/3)")

stop_and_start : Host → Context → Context → HaConfig → HaMember → ℕ → Action HaState
unfolding restart_stopped
stop_and_start host ctx recovery_base config member operation_timeout h =
    let (outcome, h') = stop_ha_member_locked host ctx config member h in
    restart_stopped host ctx recovery_base config member operation_timeout outcome h'

unfoldable pub restart_ha_member_operation :
    Host → Context → Context → HaConfig → HaMember → ℕ → Action HaState
unfolding stop_and_start
restart_ha_member_operation host ctx recovery_base config member operation_timeout = do
  check_before_restart host ctx config member
  stop_and_start host ctx recovery_base config member operation_timeout
