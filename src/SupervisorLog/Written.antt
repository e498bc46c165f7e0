-- ===== src/SupervisorLog/Written.antt =====
-- What a write of the log leaves in the file, and that it comes to an end.
use mathlib.Core.List.{append_assoc, append-nil}
use apple_pod_control.Prelude.{
  ℕ, zero, suc, ◌+◌, ◌-◌, ◌≤◌, ◌<◌, ◌≡◌, ◌≢◌, sym, ap, ◌∙◌, true, false, [], ◌∷◌, ◌++◌, arith, inl,
  inr, Bool-cases, ◌==◌, if◌then◌else◌, length, take, drop, drop-take,
}
use apple_pod_control.Text.{Text}
use apple_pod_control.SupervisorLog.{
  finished, unfinished, LogFile, Sink, Outcome, outcome, called, reset_locked, append, write_all,
  to_write, must_reset, last_bytes, is_finished, finish_write, write_after, write_sized, sized,
  write,
}
use apple_pod_control.SupervisorLog.Bounds.{length-drop}

-- Each turn of the loop that goes on has written a byte, so the number of bytes is fuel enough.
write_all-ends :
    (fuel : ℕ) (os : LogFile) (bytes : Text) (s : Sink)
    → length bytes ≤ fuel
    → (write_all fuel os bytes s).0 ≢ unfinished
unfolding write_all
write_all-ends fuel os [] s enough = λ e. ground (arith, e)
write_all-ends zero os (b ∷ bytes) s enough = λ e. omega (arith, enough)
write_all-ends (suc fuel) os (b ∷ bytes) s enough =
    let count = os.accepts s.disk.calls (length (b ∷ bytes)) in
    elim (Bool-cases (count == 0)) [
      | inl stuck ↦ λ e. ground (arith, e, stuck)
      | inr some_written ↦
          let again =
            write_all-ends fuel os (drop count (b ∷ bytes)) (append os (b ∷ bytes) s)
              (ground (arith, enough, some_written, length-drop count (b ∷ bytes))) in
          λ e. ground (arith, e, some_written, again)
    ]

write_all-content :
    (fuel : ℕ) (os : LogFile) (bytes : Text) (s : Sink)
    → (write_all fuel os bytes s).0 ≡ finished
    → (write_all fuel os bytes s).1.disk.content ≡ s.disk.content ++ bytes
unfolding write_all append
write_all-content fuel os [] s e = sym (append-nil s.disk.content)
write_all-content zero os (b ∷ bytes) s e = ground (arith, e)
write_all-content (suc fuel) os (b ∷ bytes) s e =
    let count = os.accepts s.disk.calls (length (b ∷ bytes)) in
    let after = append os (b ∷ bytes) s in
    let all_appended : (write_all fuel os (drop count (b ∷ bytes)) after).0 ≡ finished
        → (write_all fuel os (drop count (b ∷ bytes)) after).1.disk.content
          ≡ s.disk.content ++ b ∷ bytes =
      λ f.
        write_all-content fuel os (drop count (b ∷ bytes)) after f
        ∙ (append_assoc s.disk.content (take count (b ∷ bytes)) (drop count (b ∷ bytes))
            ∙ ap (λ r. s.disk.content ++ r) (drop-take count (b ∷ bytes))) in
    ground (arith, e, all_appended)

reset-ends : (os : LogFile) (s : Sink) → (reset_locked os s).0 ≢ unfinished
unfolding reset_locked
reset-ends os s e = ground (arith, e)

-- The content that a write starts from: nothing if the file is emptied first.
abbrev pub kept : Sink → Text → Text
kept s input = if must_reset s input then [] else s.disk.content

write_sized-ends :
    (os : LogFile) (input : Text) (s : Sink) → (write_sized os input s).verdict ≢ unfinished
unfolding write_sized write_after finish_write outcome is_finished
write_sized-ends os input s e = ground (
  arith,
  e,
  reset-ends os s,
  write_all-ends (length (to_write s input)) os (to_write s input) (reset_locked os s).1
      (omega arith),
  write_all-ends (length (to_write s input)) os (to_write s input) s (omega arith),
)

reset-content :
    (os : LogFile) (s : Sink)
    → (reset_locked os s).0 ≡ finished
    → (reset_locked os s).1.disk.content ≡ []
unfolding reset_locked called
reset-content os s e = ground (arith, e)

write_sized-content :
    (os : LogFile) (input : Text) (s : Sink)
    → (write_sized os input s).verdict ≡ finished
    → ((write_sized os input s).written ≡ length input)
      × ((write_sized os input s).sink.disk.content ≡ kept s input ++ to_write s input)
unfolding write_sized write_after finish_write outcome is_finished
write_sized-content os input s e =
    let bytes = to_write s input in
    let cleared = (reset_locked os s).1 in
    let emptied : (reset_locked os s).0 ≡ finished
        → (write_all (length bytes) os bytes cleared).0 ≡ finished
        → (write_all (length bytes) os bytes cleared).1.disk.content ≡ bytes =
      λ f g.
        write_all-content (length bytes) os bytes cleared g
        ∙ ap (λ c. c ++ bytes) (reset-content os s f) in
    ground (arith, e, emptied, write_all-content (length bytes) os bytes s)

-- Write always comes back, with an error or with success: its loop ends.
pub write_comes_back :
    (os : LogFile) (s : Sink) (input : Text) → (write os s input).verdict ≢ unfinished
unfolding write outcome
write_comes_back os s [] e = ground (arith, e)
write_comes_back os s (b ∷ input) e = ground (arith, e, write_sized-ends os (b ∷ input) (sized s))

-- What a write that succeeds has left behind.
pub record Wrote (s : Sink) (input : Text) (o : Outcome) : Type 0 where
  pub all_counted : o.written ≡ length input
  pub still_open : (s.log.closed ≡ false) × (s.log.has_file ≡ true)
  pub appended :
      length s.disk.content + length input ≤ s.log.maximum
      → o.sink.disk.content ≡ s.disk.content ++ input
  pub restarted :
      length input ≤ s.log.maximum
      → s.log.maximum < length s.disk.content + length input
      → o.sink.disk.content ≡ input
  pub cut_off :
      s.log.maximum < length input → o.sink.disk.content ≡ drop (length input - s.log.maximum) input

-- A write of at least one byte that succeeds was made on a log that is open; it reports the whole input
-- as written; and it leaves in the file the old bytes followed by the input, or, if these are more bytes
-- than the maximum, only the input, or only the input's last bytes, as many as the maximum, if the input
-- alone is longer than that.
pub write-Wrote :
    (os : LogFile) (s : Sink) (b : ℕ) (input : Text)
    → (write os s (b ∷ input)).verdict ≡ finished
    → Wrote s (b ∷ input) (write os s (b ∷ input))
unfolding write outcome sized to_write must_reset last_bytes
write-Wrote os s b input e =
    let content = write_sized-content os (b ∷ input) (sized s) in
    record {
      all_counted = ground (arith, e, content);
      still_open = ground (arith, e);
      appended = λ fits. ground (arith, e, content, fits);
      restarted = λ fits full. ground (arith, e, content, fits, full);
      cut_off = λ long. ground (arith, e, content, long);
    }
