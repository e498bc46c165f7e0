-- ===== src/Ha/Members/Operation.antt =====
-- withHAMemberOperation and the three operations of an operator on one member
-- (internal/cluster/ha_members.go): the operation lock, and a deadline that is measured from entry.
pub mod Locked
use apple_pod_control.Prelude.{
  ℕ, ◌+◌, Bool, true, false, Option, some, none, leb, ◌==◌, if◌then◌else◌,
}
use apple_pod_control.Text.{Text}
use apple_pod_control.Host.{Host, Context, fail, wrap, context_error, earliest}
use apple_pod_control.Host.Action.{
  Action, pure, lift, raise_if, ◌>>=◌, ◌>>◌, context_err, with_timeout, now,
}
use apple_pod_control.Ha.Types.{HaState}
use apple_pod_control.Ha.Lock.{acquire_ha_operation_lock, under_lock}
use apple_pod_control.Ha.Members.{
  Timeout, negative, at_least, validate_ha_member_operation_input, MemberOperation,
  load_ha_member_operation_locked,
}
use apple_pod_control.Ha.Members.Start.{start_ha_member_locked}
use apple_pod_control.Ha.Members.Restart.{
  stop_ha_member, start_ha_member, recovery_attempt_timeout, restart_ha_member_operation,
}

-- A validated timeout in nanoseconds; zero asks for the default.
nanoseconds : Timeout → ℕ
nanoseconds negative = 0
nanoseconds (at_least t) = t

-- context.WithDeadline
with_deadline : Context → ℕ → Context
with_deadline ctx deadline = record ctx { deadline = earliest ctx.deadline deadline }

lock_context : Host → Context → ℕ → ℕ → Action Context
unfolding with_deadline
lock_context host ctx started timeout =
    if timeout == 0
    then with_timeout host ctx recovery_attempt_timeout
    else pure (with_deadline ctx (started + timeout))

-- What comes before the lock, and the lock.
enter : Host → Context → Text → ℕ → Timeout → ℕ → Action Unit
unfolding lock_context nanoseconds
enter host ctx name id timeout started = do
  lift (validate_ha_member_operation_input name id timeout)
  lock_ctx ← lock_context host ctx started (nanoseconds timeout)
  acquire_ha_operation_lock host lock_ctx name

-- What runs under the lock.
operate :
    Host
    → Context
    → Text
    → ℕ
    → Timeout
    → (Context → MemberOperation → Action HaState)
    → ℕ
    → Action HaState
unfolding nanoseconds with_deadline
operate host ctx name id timeout operation started = do
  loaded ← load_ha_member_operation_locked host name id (nanoseconds timeout)
  at ← now host
  raise_if (leb (started + loaded.timeout) at) (
      wrap "HA member operation deadline elapsed while waiting for the operation lock: %w"
        context_error)
  done ← context_err host (with_deadline ctx (started + loaded.timeout))
  raise_if done (wrap "HA member operation deadline elapsed before mutation: %w" context_error)
  operation (with_deadline ctx (started + loaded.timeout)) loaded

locked_operation :
    Host
    → Context
    → Text
    → ℕ
    → Timeout
    → (Context → MemberOperation → Action HaState)
    → ℕ
    → Action HaState
unfolding enter operate
locked_operation host ctx name id timeout operation started =
    enter host ctx name id timeout started >>= λ _.
    under_lock host name (operate host ctx name id timeout operation started)

unfoldable pub with_ha_member_operation :
    Host
    → Context
    → Text
    → ℕ
    → Timeout
    → (Context → MemberOperation → Action HaState)
    → Action HaState
unfolding locked_operation
with_ha_member_operation host ctx name id timeout operation =
    now host >>= locked_operation host ctx name id timeout operation

-- StopHAMember
unfoldable pub stop_member : Host → Context → Text → ℕ → Timeout → Action HaState
stop_member host ctx name id timeout =
    with_ha_member_operation host ctx name id timeout
      λ operation_ctx loaded. stop_ha_member host operation_ctx loaded.config loaded.member

-- StartHAMember
unfoldable pub start_member : Host → Context → Text → ℕ → Timeout → Action HaState
start_member host ctx name id timeout =
    with_ha_member_operation host ctx name id timeout
      λ operation_ctx loaded. start_ha_member host operation_ctx loaded.config loaded.member

-- RestartHAMember: a recovery starts from the caller's context.
unfoldable pub restart_member : Host → Context → Text → ℕ → Timeout → Action HaState
restart_member host ctx name id timeout =
    with_ha_member_operation host ctx name id timeout λ operation_ctx loaded.
      restart_ha_member_operation host operation_ctx ctx loaded.config loaded.member loaded.timeout
