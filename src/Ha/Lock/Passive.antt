-- ===== src/Ha/Lock/Passive.antt =====
-- Taking and giving back the operation lock changes nothing but the lock
-- (internal/cluster/ha_lock.go).
use apple_pod_control.Prelude.{ℕ, zero, suc, String}
use apple_pod_control.Text.{Text}
use apple_pod_control.Host.{
  Host, Error, Context, Event, History, LockStep, FlockAnswer, granted, busy, refused, ran,
  desired_written, stored, locked, probed_api, clock_read, context_polled, waited, config_read,
  desired_read, token_read, path_checked,
}
use apple_pod_control.Host.Action.{Res, ok, err, Action, wait}
use apple_pod_control.Host.Emits.{Emits, here, Emitted-weaken, Emits-bind, Emits-ask}
use apple_pod_control.Host.Mutations.{IsQuery}
use apple_pod_control.Ha.Queries.{query_rules, wait-IsQuery}
use apple_pod_control.Ha.Lock.{
  lock_step, answered, look_at, secure_lock_directory, prepare_directory, close_with_error,
  verified, or_close, after_flock, poll, poll_lock, acquire_ha_operation_lock, release,
}

-- A query, or a step of the lock itself.
abbrev pub Passive : Event → Type 0
Passive (locked n s) = Unit
Passive e = IsQuery e

Passive-IsQuery : (e : Event) → IsQuery e → Passive e
Passive-IsQuery (ran ctx c) q = q
Passive-IsQuery (desired_written s) q = q
Passive-IsQuery (probed_api m) q = q
Passive-IsQuery clock_read q = q
Passive-IsQuery context_polled q = q
Passive-IsQuery waited q = q
Passive-IsQuery (config_read t) q = q
Passive-IsQuery (desired_read t) q = q
Passive-IsQuery (token_read t) q = q
Passive-IsQuery (path_checked t) q = q
Passive-IsQuery (locked n s) q = tt
Passive-IsQuery (stored c) q = q

pub Emits-Passive : {A : Type 0} (m : Action A) → Emits IsQuery m → Emits Passive m
Emits-Passive m q = record { at = λ h. Emitted-weaken Passive-IsQuery (q.at h) }

lock_step-Passive :
    (host : Host) (name : Text) (s : LockStep) (message : String)
    → Emits Passive (lock_step host name s message)
unfolding lock_step
lock_step-Passive host name s message = search query_rules

answered-Passive : {A : Type 0} (f : History → A) → Emits Passive (answered f)
unfolding answered
answered-Passive f = record { at = λ h. here }

prepare_directory-Passive :
    (host : Host) (name : Text) → Emits Passive (prepare_directory host name)
unfolding prepare_directory look_at secure_lock_directory
prepare_directory-Passive host name =
    search (query_rules, lock_step-Passive, answered-Passive) depth 9

verified-Passive : (host : Host) (name : Text) → Emits Passive (verified host name)
unfolding verified look_at
verified-Passive host name = search (query_rules, lock_step-Passive, answered-Passive) depth 9

close_with_error-Passive :
    {A : Type 0} (host : Host) (name : Text) (e : Error)
    → Emits Passive (close_with_error {A = A} host name e)
unfolding close_with_error
close_with_error-Passive host name e = search (query_rules, lock_step-Passive) depth 9

or_close-Passive :
    {A : Type 0} (host : Host) (name : Text) (r : Res A) → Emits Passive (or_close host name r)
unfolding or_close
or_close-Passive host name (ok a) = search query_rules
or_close-Passive host name (err e) = close_with_error-Passive host name e

after_flock-Passive :
    (host : Host) (name : Text) (again : Action Unit) (a : FlockAnswer)
    → Emits Passive again
    → Emits Passive (after_flock host name again a)
unfolding after_flock
after_flock-Passive host name again granted k = search query_rules
after_flock-Passive host name again busy k = k
after_flock-Passive host name again refused k = close_with_error-Passive host name _

poll-Passive : (ticks : ℕ) (host : Host) (name : Text) → Emits Passive (poll ticks host name)
unfolding poll
poll-Passive zero host name =
    search (query_rules, after_flock-Passive, close_with_error-Passive) depth 9
poll-Passive (suc ticks) host name =
    let again = poll-Passive ticks host name in
    let waits = Emits-Passive wait wait-IsQuery in
    Emits-bind _ _ (Emits-ask _ _ tt)
      (λ a. after_flock-Passive host name _ a (Emits-bind _ _ waits (λ _. again)))

poll_lock-Passive :
    (host : Host) (ctx : Context) (name : Text) → Emits Passive (poll_lock host ctx name)
unfolding poll_lock
poll_lock-Passive host ctx name = record {
  at = λ h. (poll-Passive (host.ticks ctx h) host name).at h;
}

pub acquire-Passive :
    (host : Host) (ctx : Context) (name : Text)
    → Emits Passive (acquire_ha_operation_lock host ctx name)
unfolding acquire_ha_operation_lock
acquire-Passive host ctx name =
    search
      (
        query_rules, prepare_directory-Passive, lock_step-Passive, verified-Passive,
        or_close-Passive, poll_lock-Passive,
      )
      depth 12

pub release-Passive : (host : Host) (name : Text) → Emits Passive (release host name)
unfolding release
release-Passive host name = search (query_rules, lock_step-Passive) depth 9
