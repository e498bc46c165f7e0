-- ===== src/Launchd/Printed.antt =====
-- What an accepted output of `launchctl print` shows (internal/launchd/unattended.go).
use apple_pod_control.Prelude.{
  ℕ, zero, suc, ◌≡◌, refl, sym, ap, ◌∙◌, true, some, List, [], ◌∷◌, ◌++◌, map, arith, All, All-map,
}
use mathlib.Core.Path.{subst}
use apple_pod_control.Text.{
  Text, text, text_eq, text_eq_sound, text_eq_refl, texts_eq_sound, trim_space, split,
  contains_string,
}
use apple_pod_control.Host.Action.{Res, ok, err}
use apple_pod_control.Launchd.{
  ℤ, pos, negsuc, is_positive, atoi, LaunchdPrintRecord, Scan, read_lines, is_complete, start,
  finish_scan, parse_launchd_print, matches_arguments, validate_record,
  validate_running_launchd_service,
}
use apple_pod_control.Launchd.Scanned.{field_line, ReadRes, read_lines-Read, start-Read}

-- The lines of an output, without the space around them.
abbrev pub lines_of : Text → List Text
lines_of output = map trim_space (split 10 output)

-- The service's header, its state, its program, its process and each of its arguments are lines of an
-- output, and the program and the arguments are the expected ones.
pub record ShowsRunning (output service_target : Text) (expected : List Text) : Type 0 where
  pub header_line : contains_string (lines_of output) (service_target ++ text " = {") ≡ true
  pub state_line : contains_string (lines_of output) (text "state = running") ≡ true
  pub program_line :
      (program : Text) × (rest : List Text) × (expected ≡ program ∷ rest)
      × (contains_string (lines_of output) (field_line (text "program") program) ≡ true)
  pub pid_line :
      (digits : Text) × (n : ℕ) × (atoi digits ≡ some (pos (suc n)))
      × (contains_string (lines_of output) (field_line (text "pid") digits) ≡ true)
  pub argument_lines : All (λ a. contains_string (lines_of output) a ≡ true) expected

contains_all : (xs : List Text) → All (λ x. contains_string xs x ≡ true) xs
unfolding contains_string
contains_all [] = tt
contains_all (x ∷ xs) =
    (ground (arith, text_eq_refl x), All-map (λ y h. ground (arith, h)) xs (contains_all xs))

positive : (z : ℤ) → is_positive z ≡ true → (n : ℕ) × (z ≡ pos (suc n))
unfolding is_positive
positive (pos zero) e = ground (arith, e)
positive (pos (suc n)) e = (n, refl)
positive (negsuc n) e = ground (arith, e)

first_program :
    (r : LaunchdPrintRecord) (expected : List Text)
    → matches_arguments r expected ≡ true
    → (rest : List Text) × (expected ≡ r.program ∷ rest) × (expected ≡ r.arguments)
unfolding matches_arguments
first_program r [] e = ground (arith, e)
first_program r (program ∷ rest) e = (
  rest,
  ap (λ x. x ∷ rest) (sym (text_eq_sound r.program program (ground (arith, e)))),
  sym (texts_eq_sound r.arguments (program ∷ rest) (ground (arith, e))),
)

accepted-ShowsRunning :
    (output service_target : Text) (expected : List Text) (m : Res Scan)
    → ReadRes (service_target ++ text " = {") (λ l. contains_string (lines_of output) l ≡ true) m
    → validate_record expected (finish_scan m) ≡ ok tt
    → ShowsRunning output service_target expected
unfolding validate_record finish_scan is_complete field_line
accepted-ShowsRunning output service_target expected (err x) q e = ground (arith, e)
accepted-ShowsRunning output service_target expected (ok s) q e =
    let complete : is_complete s ≡ true = ground (arith, e) in
    let running : text_eq s.found.state (text "running") ≡ true = ground (arith, e, complete) in
    let alive : is_positive s.found.pid ≡ true = ground (arith, e, complete, running) in
    let same : matches_arguments s.found expected ≡ true =
      ground (arith, e, complete, running, alive) in
    let (n, is_pos) = positive s.found.pid alive in
    let (v, v_shown, v_read) = q.pid_shown (ground (arith, complete)) in
    let (rest, is_first, is_arguments) = first_program s.found expected same in
    record {
      header_line = q.header_shown (ground (arith, complete));
      state_line =
          subst
            (λ state. contains_string (lines_of output) (field_line (text "state") state) ≡ true)
            (text_eq_sound s.found.state (text "running") running)
            (q.state_shown (ground (arith, complete)));
      program_line = (s.found.program, rest, is_first, q.program_shown (ground (arith, complete)));
      pid_line = (v, n, v_read ∙ ap (λ z. some z) is_pos, v_shown);
      argument_lines = rw is_arguments q.arguments_shown;
    }

-- If an output of `launchctl print` is accepted for a service, then the service's header, the state
-- `running`, the expected program, a positive process identifier and every expected argument are lines
-- of it, up to the space around a line.
pub validate_running_launchd_service-ShowsRunning :
    (output service_target : Text) (expected : List Text)
    → validate_running_launchd_service output service_target expected ≡ ok tt
    → ShowsRunning output service_target expected
unfolding validate_running_launchd_service parse_launchd_print
validate_running_launchd_service-ShowsRunning output service_target expected e =
    let header = service_target ++ text " = {" in
    let P : Text → Type 0 = λ (l : Text). contains_string (lines_of output) l ≡ true in
    accepted-ShowsRunning output service_target expected (read_lines header (split 10 output) start)
      (read_lines-Read header P (split 10 output) start (contains_all (lines_of output))
        (start-Read header P))
      e
