-- ===== src/SupervisorLog/Bounds.antt =====
-- The log never outgrows its maximum.
use apple_pod_control.Prelude.{
  ℕ, zero, suc, ◌+◌, ◌-◌, ◌≤◌, ◌≡◌, refl, sym, ap, ◌∙◌, false, List, [], ◌∷◌, arith, inl, inr,
  Bool-cases, length, take, drop, length-append, drop-take,
}
use apple_pod_control.Text.{Text}
use apple_pod_control.SupervisorLog.{
  Verdict, finished, unfinished, LogFile, Disk, Sink, outcome, called, reset_locked, append,
  write_all, last_bytes, to_write, must_reset, is_finished, finish_write, write_after, write_sized,
  sized, write, close, open_sink,
}

length-take-drop :
    {A : Type 0} (n : ℕ) (xs : List A) → length (take n xs) + length (drop n xs) ≡ length xs
length-take-drop n xs = sym (length-append (take n xs) (drop n xs)) ∙ ap length (drop-take n xs)

pub length-drop : {A : Type 0} (n : ℕ) (xs : List A) → length (drop n xs) ≡ length xs - n
length-drop zero xs = omega arith
length-drop (suc n) [] = omega arith
length-drop (suc n) (x ∷ xs) = omega (arith, length-drop n xs)

append-length :
    (os : LogFile) (bytes : Text) (s : Sink)
    → length (append os bytes s).disk.content
        + length (drop (os.accepts s.disk.calls (length bytes)) bytes)
      ≡ length s.disk.content + length bytes
unfolding append
append-length os bytes s =
    let count = os.accepts s.disk.calls (length bytes) in
    omega (arith, length-append s.disk.content (take count bytes), length-take-drop count bytes)

write_all-length :
    (fuel : ℕ) (os : LogFile) (bytes : Text) (s : Sink)
    → length (write_all fuel os bytes s).1.disk.content ≤ length s.disk.content + length bytes
unfolding write_all
write_all-length fuel os [] s = omega arith
write_all-length zero os (b ∷ bytes) s = omega arith
write_all-length (suc fuel) os (b ∷ bytes) s =
    let count = os.accepts s.disk.calls (length (b ∷ bytes)) in
    ground (
      arith,
      append-length os (b ∷ bytes) s,
      write_all-length fuel os (drop count (b ∷ bytes)) (append os (b ∷ bytes) s),
    )

write_all-maximum :
    (fuel : ℕ) (os : LogFile) (bytes : Text) (s : Sink)
    → (write_all fuel os bytes s).1.log.maximum ≡ s.log.maximum
unfolding write_all append
write_all-maximum fuel os [] s = refl
write_all-maximum zero os (b ∷ bytes) s = refl
write_all-maximum (suc fuel) os (b ∷ bytes) s =
    let count = os.accepts s.disk.calls (length (b ∷ bytes)) in
    ground (arith, write_all-maximum fuel os (drop count (b ∷ bytes)) (append os (b ∷ bytes) s))

-- The file fits, and the maximum is the one given.
abbrev pub Fits : ℕ → Sink → Type 0
Fits n s = (s.log.maximum ≡ n) × (length s.disk.content ≤ n)

reset-Fits : (os : LogFile) (n : ℕ) (s : Sink) → Fits n s → Fits n (reset_locked os s).1
unfolding reset_locked called
reset-Fits os n s f = ground (arith, f)

-- A reset that succeeds leaves an empty file.
reset_empties :
    (os : LogFile) (s : Sink)
    → (reset_locked os s).0 ≡ finished
    → length (reset_locked os s).1.disk.content ≡ 0
unfolding reset_locked called
reset_empties os s e = ground (arith, e)

write_after-Fits :
    (os : LogFile) (n : ℕ) (input bytes : Text) (r : Verdict × Sink)
    → Fits n r.1
    → (r.0 ≡ finished → length r.1.disk.content + length bytes ≤ n)
    → Fits n (write_after os input bytes r).sink
unfolding write_after finish_write outcome is_finished
write_after-Fits os n input bytes (finished, s) f room =
    let all = room refl in
    ground (
      arith,
      f,
      all,
      write_all-length (length bytes) os bytes s,
      write_all-maximum (length bytes) os bytes s,
    )
write_after-Fits os n input bytes (Verdict.closed_file, s) f room = f
write_after-Fits os n input bytes (Verdict.stat_failed, s) f room = f
write_after-Fits os n input bytes (Verdict.truncate_failed, s) f room = f
write_after-Fits os n input bytes (Verdict.seek_failed, s) f room = f
write_after-Fits os n input bytes (Verdict.write_failed, s) f room = f
write_after-Fits os n input bytes (Verdict.short_write, s) f room = f
write_after-Fits os n input bytes (Verdict.close_failed, s) f room = f
write_after-Fits os n input bytes (unfinished, s) f room = f

to_write-fits :
    (s : Sink) (input : Text)
    → (length (to_write s input) ≤ s.log.maximum)
      × (must_reset s input ≡ false → s.log.size + length (to_write s input) ≤ s.log.maximum)
unfolding to_write must_reset last_bytes
to_write-fits s input =
    let dropped = length-drop (length input - s.log.maximum) input in
    (ground (arith, dropped), λ e. ground (arith, e, dropped))

write_sized-Fits :
    (os : LogFile) (n : ℕ) (input : Text) (s : Sink)
    → s.log.size ≡ length s.disk.content
    → Fits n s
    → Fits n (write_sized os input s).sink
unfolding write_sized
write_sized-Fits os n input s sizes f =
    let (short, room) = to_write-fits s input in
    elim (Bool-cases (must_reset s input)) [
      | inl full ↦
          rw (full, write_sized)
            (write_after-Fits os n input (to_write s input) (reset_locked os s)
              (reset-Fits os n s f) (λ e. omega (arith, reset_empties os s e, short, f)))
      | inr free ↦
          rw (free, write_sized)
            (write_after-Fits os n input (to_write s input) (finished, s) f
              (λ e. omega (arith, room free, sizes, f)))
    ]

write-Fits :
    (os : LogFile) (n : ℕ) (s : Sink) (input : Text) → Fits n s → Fits n (write os s input).sink
unfolding write outcome called sized
write-Fits os n s [] f = ground (arith, f)
write-Fits os n s (b ∷ input) f =
    ground (arith, f, write_sized-Fits os n (b ∷ input) (sized s) refl f)

close-Fits : (os : LogFile) (n : ℕ) (s : Sink) → Fits n s → Fits n (close os s).sink
unfolding close outcome called
close-Fits os n s f = ground (arith, f)

-- What a supervisor does with its log.
pub data LogCall : Type 0 where
  writes : Text → LogCall
  closes : LogCall

abbrev pub after_calls : LogFile → List LogCall → Sink → Sink
after_calls os [] s = s
after_calls os (writes input ∷ rest) s = after_calls os rest (write os s input).sink
after_calls os (closes ∷ rest) s = after_calls os rest (close os s).sink

after_calls-Fits :
    (os : LogFile) (n : ℕ) (calls : List LogCall) (s : Sink)
    → Fits n s
    → Fits n (after_calls os calls s)
after_calls-Fits os n [] s f = f
after_calls-Fits os n (writes input ∷ rest) s f =
    after_calls-Fits os n rest (write os s input).sink (write-Fits os n s input f)
after_calls-Fits os n (closes ∷ rest) s f =
    after_calls-Fits os n rest (close os s).sink (close-Fits os n s f)

open_sink-Fits :
    (os : LogFile) (n : ℕ) (disk : Disk) (s : Sink) → open_sink os n disk ≡ (finished, s) → Fits n s
unfolding open_sink reset_locked called
open_sink-Fits os n disk s e = ground (arith, e)

-- A log that was opened with a maximum, whatever was in the file before, holds at most that many bytes
-- after any sequence of writes and closes, whichever of the calls on the file fail and however many
-- bytes each write takes.
pub log_stays_bounded :
    (os : LogFile) (n : ℕ) (disk : Disk) (s : Sink) (calls : List LogCall)
    → open_sink os n disk ≡ (finished, s)
    → length (after_calls os calls s).disk.content ≤ n
log_stays_bounded os n disk s calls e =
    (after_calls-Fits os n calls s (open_sink-Fits os n disk s e)).1
