-- ===== src/Ha/Lock.antt =====
-- The operation lock (internal/cluster/ha_lock.go), and what runs under it.
pub mod Passive
pub mod Guarded
use apple_pod_control.Prelude.{
  ℕ, zero, suc, Bool, true, false, ◌&&◌, ◌||◌, not, Option, none, some, List, [], ◌∷◌, ◌==◌,
  if◌then◌else◌, String,
}
use apple_pod_control.Text.{Text, text_eq}
use apple_pod_control.Host.{
  Host, Error, fail, wrap, join, context_error, Context, Event, History, LockStep, make_directory,
  inspect_directory, secure_directory, open_lock, stat_lock, inspect_path, try_lock, unlock,
  close_lock, FileInfo, FlockAnswer, granted, busy, refused, locked,
}
use apple_pod_control.Host.Action.{
  Res, ok, err, Action, pure, raise, lift, attempt, raise_if, ask, ◌>>=◌, ◌>>◌, context_err,
  with_timeout, wait, join_with,
}
use apple_pod_control.Ha.Config.{ha_config_path}

-- errors.Join of two results.
abbrev join_results : Res (Unit {0}) → Res (Unit {0}) → Res (Unit {0})
join_results (ok _) r = r
join_results (err e) (ok _) = err e
join_results (err e) (err f) = err (join e f)

-- A result after its lock has been released.
abbrev with_release : {A : Type 0} → Res A → Res (Unit {0}) → Res A
with_release r (ok _) = r
with_release (ok a) (err f) = err f
with_release (err e) (err f) = err (join e f)

abbrev joined_close : Error → Res (Unit {0}) → Error
joined_close e (ok _) = e
joined_close e (err f) = join e f

-- A step of the lock that may fail.
lock_step : Host → Text → LockStep → String → Action Unit
lock_step host name step message =
    ask (locked name step) (host.lock_step_fails name step) >>= λ failed.
    raise_if failed (fail message)

answered : {A : Type 0} → (History → A) → Action A
answered f h = (ok (f h), h)

-- A step that looks at a file, and may fail.
look_at : Host → Text → LockStep → String → (Text → History → FileInfo) → Action FileInfo
unfolding lock_step answered
look_at host name step message answer = lock_step host name step message >> answered (answer name)

bad_directory : FileInfo → Bool
bad_directory info = info.symlink || not info.directory || not info.owned

secure_lock_directory : Host → Text → FileInfo → Action Unit
unfolding lock_step
secure_lock_directory host name info =
    if info.shared
    then lock_step host name secure_directory "secure owned HA operation lock directory: %w"
    else pure tt

prepare_directory : Host → Text → Action Unit
unfolding lock_step look_at bad_directory secure_lock_directory
prepare_directory host name = do
  lock_step host name make_directory "create HA operation lock directory: %w"
  info ←
      look_at host name inspect_directory "inspect HA operation lock directory: %w"
        host.lock_directory
  raise_if (bad_directory info)
      (fail "HA operation lock directory must be a real directory owned by the current user")
  secure_lock_directory host name info

-- closeWithError: errors.Join(operationErr, file.Close())
close_with_error : {A : Type 0} → Host → Text → Error → Action A
unfolding lock_step
close_with_error host name e = do
  closed ← attempt (lock_step host name close_lock "close")
  raise (joined_close e closed)

bad_lock : FileInfo → FileInfo → Bool
bad_lock opened path =
    path.symlink
    || not opened.regular
    || not (opened.identity == path.identity)
    || not opened.owned
    || opened.shared

verified : Host → Text → Action Unit
unfolding look_at bad_lock
verified host name = do
  opened ← look_at host name stat_lock "inspect opened HA operation lock: %w" host.opened_lock
  path ← look_at host name inspect_path "inspect HA operation lock path: %w" host.lock_path
  raise_if (bad_lock opened path)
      (fail "HA operation lock must be one private regular file with mode 0600 or stricter")

-- `if err != nil { return closeWithError(err) }`
or_close : {A : Type 0} → Host → Text → Res A → Action A
unfolding close_with_error
or_close host name (ok a) = pure a
or_close host name (err e) = close_with_error host name e

-- One attempt at the lock, and the rest of the loop if another process has it.
after_flock : Host → Text → Action Unit → FlockAnswer → Action Unit
unfolding close_with_error
after_flock host name again granted = pure tt
after_flock host name again busy = again
after_flock host name again refused =
    close_with_error host name (fail "acquire HA operation lock: %w")

-- The loop, for a select that takes its ticker so many times.
poll : ℕ → Host → Text → Action Unit
unfolding after_flock close_with_error
poll zero host name =
    ask (locked name try_lock) (host.flock name)
    >>= after_flock host name (
        close_with_error host name (wrap "wait for HA cluster %q operation lock: %w" context_error))
poll (suc ticks) host name =
    ask (locked name try_lock) (host.flock name)
    >>= after_flock host name (wait >> poll ticks host name)

poll_lock : Host → Context → Text → Action Unit
unfolding poll
poll_lock host ctx name h = poll (host.ticks ctx h) host name h

unfoldable pub acquire_ha_operation_lock : Host → Context → Text → Action Unit
unfolding prepare_directory lock_step verified or_close poll_lock
acquire_ha_operation_lock host ctx name = do
  done ← context_err host ctx
  raise_if done (wrap "acquire HA operation lock: %w" context_error)
  lift (ha_config_path host name)
  prepare_directory host name
  lock_step host name open_lock "open HA operation lock: %w"
  checked ← attempt (verified host name)
  or_close host name checked
  poll_lock host ctx name

-- `lock.release()`
unfoldable pub release : Host → Text → Action Unit
unfolding lock_step
release host name = do
  unlocked ← attempt (lock_step host name unlock "release HA operation lock: %w")
  closed ← attempt (lock_step host name close_lock "close HA operation lock: %w")
  lift (join_results unlocked closed)

-- `defer func() { err = errors.Join(err, lock.release()) }()`
unfoldable pub under_lock : {A : Type 0} → Host → Text → Action A → Action A
unfolding release
under_lock host name operation = do
  result ← attempt operation
  released ← attempt (release host name)
  lift (with_release result released)

abbrev lifecycle_timeout : ℕ
lifecycle_timeout = 30_000_000_000

unfoldable pub acquire_ha_lifecycle_operation_lock : Host → Context → Text → Action Unit
acquire_ha_lifecycle_operation_lock host ctx name = do
  lock_ctx ← with_timeout host ctx lifecycle_timeout
  acquire_ha_operation_lock host lock_ctx name
