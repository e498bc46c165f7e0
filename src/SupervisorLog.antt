-- ===== src/SupervisorLog.antt =====
-- The bounded log of the unattended supervisors (internal/cluster/supervisor_log.go): the writer that
-- keeps the file below its maximum.
pub mod Bounds
pub mod Written
pub mod Acl
use apple_pod_control.Prelude.{
  ℕ, zero, suc, ◌+◌, ◌-◌, Bool, true, false, Option, none, some, List, [], ◌∷◌, ◌++◌, ltb, ◌==◌,
  if◌then◌else◌, length, take, drop,
}
use apple_pod_control.Text.{Text}

-- What a call of Write, of Truncate or of Close comes back with. `unfinished` stands for a loop that
-- has not come to an end.
pub data Verdict : Type 0 where
  finished : Verdict
  closed_file stat_failed truncate_failed seek_failed write_failed short_write close_failed :
      Verdict
  unfinished : Verdict

-- What the operating system answers to the calls on the file, in the order of the calls: `accepts` is
-- the number of bytes that a write takes.
pub record LogFile : Type 0 where
  pub stat_fails : ℕ → Bool
  pub truncate_fails : ℕ → Bool
  pub seek_fails : ℕ → Bool
  pub write_fails : ℕ → Bool
  pub sync_fails : ℕ → Bool
  pub close_fails : ℕ → Bool
  pub accepts : ℕ → ℕ → ℕ

-- The file: its bytes, and how many calls there have been.
pub record Disk : Type 0 where
  pub content : Text
  pub calls : ℕ

pub record BoundedSupervisorLog : Type 0 where
  pub has_file : Bool
  pub maximum : ℕ
  pub size : ℕ
  pub closed : Bool

pub record Sink : Type 0 where
  pub log : BoundedSupervisorLog
  pub disk : Disk

pub record Outcome : Type 0 where
  pub verdict : Verdict
  pub written : ℕ
  pub sink : Sink

outcome : Verdict → Sink → Outcome
outcome v s = record { verdict = v; written = 0; sink = s }

unfoldable pub called : Disk → Disk
called d = record d { calls = suc d.calls }

-- resetLocked: whether it succeeded, or which call failed.
unfoldable pub reset_locked : LogFile → Sink → Verdict × Sink
unfolding called
reset_locked os s =
    let truncated : Disk = record { content = []; calls = suc s.disk.calls } in
    if os.truncate_fails s.disk.calls
    then (truncate_failed, record s { disk = called s.disk })
    else if os.seek_fails truncated.calls
    then (seek_failed, record s { disk = called truncated })
    else (finished, record { log = record s.log { size = 0 }; disk = called truncated })

-- One write of all that is left: the file is opened for appending.
append : LogFile → Text → Sink → Sink
append os bytes s =
    let count = os.accepts s.disk.calls (length bytes) in
    record {
      log = record s.log { size = s.log.size + count };
      disk = record { content = s.disk.content ++ take count bytes; calls = suc s.disk.calls };
    }

-- The loop that writes, on fuel.
write_all : ℕ → LogFile → Text → Sink → Verdict × Sink
unfolding append
write_all fuel os [] s = (finished, s)
write_all zero os (b ∷ bytes) s = (unfinished, s)
write_all (suc fuel) os (b ∷ bytes) s =
    let count = os.accepts s.disk.calls (length (b ∷ bytes)) in
    let after = append os (b ∷ bytes) s in
    let again = write_all fuel os (drop count (b ∷ bytes)) after in
    if os.write_fails s.disk.calls
    then (write_failed, after)
    else if count == 0
    then (short_write, after)
    else again

-- The last bytes of an input that is longer than the file may be.
unfoldable pub last_bytes : ℕ → Text → Text
last_bytes n bytes = drop (length bytes - n) bytes

-- The bytes that Write writes, and whether it empties the file first.
unfoldable pub to_write : Sink → Text → Text
to_write s input =
    if ltb s.log.maximum (length input) then last_bytes s.log.maximum input else input

unfoldable pub must_reset : Sink → Text → Bool
must_reset s input =
    if ltb s.log.maximum (length input) then true else ltb s.log.maximum (s.log.size + length input)

is_finished : Verdict → Bool
is_finished finished = true
is_finished _ = false

-- What Write returns after the loop.
finish_write : Text → Verdict × Sink → Outcome
unfolding is_finished
finish_write input r = record {
  verdict = r.0;
  written = if is_finished r.0 then length input else 0;
  sink = r.1;
}

write_after : LogFile → Text → Text → Verdict × Sink → Outcome
unfolding finish_write write_all outcome is_finished
write_after os input bytes r =
    if is_finished r.0
    then finish_write input (write_all (length bytes) os bytes r.1)
    else outcome r.0 r.1

-- Write after a successful Stat.
write_sized : LogFile → Text → Sink → Outcome
unfolding write_after to_write must_reset
write_sized os input s =
    write_after os input (to_write s input)
      (if must_reset s input then reset_locked os s else (finished, s))

unfoldable pub sized : Sink → Sink
unfolding called
sized s = record { log = record s.log { size = length s.disk.content }; disk = called s.disk }

unfoldable pub write : LogFile → Sink → Text → Outcome
unfolding write_sized sized outcome called
write os s [] =
    if s.log.closed
    then outcome closed_file s
    else if s.log.has_file
    then outcome finished s
    else outcome closed_file s
write os s (b ∷ input) =
    if s.log.closed
    then outcome closed_file s
    else if s.log.has_file
    then (if os.stat_fails s.disk.calls
        then outcome stat_failed (record s { disk = called s.disk })
        else write_sized os (b ∷ input) (sized s))
    else outcome closed_file s

-- Close: both calls are made, and either may fail.
unfoldable pub close : LogFile → Sink → Outcome
unfolding outcome called
close os s =
    let shut = record s.log { closed = true } in
    if s.log.closed
    then outcome finished s
    else if s.log.has_file
    then (outcome
        (if os.sync_fails s.disk.calls
          then close_failed
          else if os.close_fails (suc s.disk.calls)
          then close_failed
          else finished)
        (record { log = record shut { has_file = false }; disk = called (called s.disk) }))
    else outcome finished (record s { log = shut })

-- The end of openSupervisorLog: the sink on a file that has passed every check.
unfoldable pub open_sink : LogFile → ℕ → Disk → Verdict × Sink
open_sink os maximum disk =
    let log : BoundedSupervisorLog = record {
      has_file = true;
      maximum = maximum;
      size = length disk.content;
      closed = false;
    } in
    let s : Sink = record { log = log; disk = disk } in
    if ltb maximum (length disk.content) then reset_locked os s else (finished, s)
