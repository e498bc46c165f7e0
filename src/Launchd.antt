-- ===== src/Launchd.antt =====
-- Whether launchd runs the protected definition: the reading of `launchctl print`
-- (internal/launchd/unattended.go).
pub mod Scanned
pub mod Printed
use apple_pod_control.Prelude.{
  ℕ, zero, suc, Bool, true, false, ◌&&◌, ◌||◌, not, Option, none, some, List, [], ◌∷◌, ◌++◌, map,
  leb, ◌==◌, if◌then◌else◌,
}
use apple_pod_control.Text.{
  Text, text, text_eq, texts_eq, is_empty, trim_space, split, cut_prefix, contains_string,
}
use apple_pod_control.Text.Numbers.{parse_uint}
use apple_pod_control.Host.{fail}
use apple_pod_control.Host.Action.{Res, ok, err}

pub data ℤ : Type 0 where
  pos : ℕ → ℤ
  negsuc : ℕ → ℤ

up : ℤ → ℤ
up (pos n) = pos (suc n)
up (negsuc zero) = pos 0
up (negsuc (suc n)) = negsuc n

down : ℤ → ℤ
down (pos zero) = negsuc 0
down (pos (suc n)) = pos n
down (negsuc n) = negsuc (suc n)

is_at : ℕ → ℤ → Bool
is_at n (pos m) = n == m
is_at n (negsuc m) = false

is_positive : ℤ → Bool
is_positive (pos zero) = false
is_positive (pos (suc n)) = true
is_positive (negsuc n) = false

abbrev negated : ℕ → ℤ
negated zero = pos 0
negated (suc n) = negsuc n

signed : (ℕ → ℤ) → ℕ → Option ℕ → Option ℤ
signed sign limit none = none
signed sign limit (some n) = if leb n limit then some (sign n) else none

-- strconv.Atoi
unfoldable pub atoi : Text → Option ℤ
unfolding signed
atoi [] = none
atoi (c ∷ s) =
    if c == b'-'
    then signed negated 9_223_372_036_854_775_808 (parse_uint s)
    else if c == b'+'
    then signed pos 9_223_372_036_854_775_807 (parse_uint s)
    else signed pos 9_223_372_036_854_775_807 (parse_uint (c ∷ s))

-- strings.Cut s sep, for a separator that is not empty
cut : Text → Text → Option (Text × Text)
cut [] sep = none
cut (c ∷ s) sep =
    let rest = cut s sep in
    elim (cut_prefix sep (c ∷ s)) [
      | some after ↦ some ([], after)
      | none ↦ elim rest [ none ↦ none | some t ↦ some (c ∷ t.0, t.1) ]
    ]

-- What stands before a suffix: strings.HasSuffix and strings.TrimSuffix.
cut_suffix : Text → Text → Option Text
cut_suffix [] suffix = if is_empty suffix then some [] else none
cut_suffix (c ∷ s) suffix =
    let rest = cut_suffix s suffix in
    if text_eq (c ∷ s) suffix then some [] else elim rest [ none ↦ none | some t ↦ some (c ∷ t) ]

pub record LaunchdPrintRecord : Type 0 where
  pub state : Text
  pub program : Text
  pub pid : ℤ
  pub last_exit : Text
  pub arguments : List Text

-- The variables of parseLaunchdPrint's loop; `seen` lists the keys of the map.
pub record Scan : Type 0 where
  pub depth : ℤ
  pub seen_header : Bool
  pub in_arguments : Bool
  pub seen : List Text
  pub found : LaunchdPrintRecord

is_field : Text → Bool
is_field key =
    text_eq key (text "state")
    || text_eq key (text "program")
    || text_eq key (text "pid")
    || text_eq key (text "last exit code")

with_pid : Scan → Option ℤ → Res Scan
with_pid s none = err (fail "launchctl pid is invalid")
with_pid s (some pid) = ok (record s { found = record s.found { pid = pid } })

-- The switch over the key.
set_field : Scan → Text → Text → Res Scan
unfolding with_pid
set_field s key value =
    if text_eq key (text "state")
    then ok (record s { found = record s.found { state = value } })
    else if text_eq key (text "program")
    then ok (record s { found = record s.found { program = value } })
    else if text_eq key (text "pid")
    then with_pid s (atoi value)
    else ok (record s { found = record s.found { last_exit = value } })

-- A line of the service's own block.
read_field : Scan → Option (Text × Text) → Res Scan
unfolding is_field set_field
read_field s none = ok s
read_field s (some (key, value)) =
    if not (is_field key)
    then ok s
    else if contains_string s.seen key
    then err (fail "launchctl output contains duplicate %s")
    else set_field (record s { seen = key ∷ s.seen }) key value

-- A line that opens a block.
open_block : Scan → Text → Res Scan
unfolding is_at up
open_block s key =
    if is_at 1 s.depth && text_eq key (text "arguments")
    then (if contains_string s.seen key
        then err (fail "launchctl output contains duplicate arguments")
        else ok (record s { depth = up s.depth; in_arguments = true; seen = key ∷ s.seen }))
    else ok (record s { depth = up s.depth })

-- A line that opens no block, after the header and outside the arguments.
read_plain : Scan → Text → Res Scan
unfolding read_field cut
read_plain s line =
    if text_eq line (text "}")
    then ok (record s { depth = down s.depth })
    else if not (is_at 1 s.depth)
    then ok s
    else read_field s (cut line (text " = "))

read_other : Scan → Text → Option Text → Res Scan
unfolding open_block read_plain
read_other s line none = read_plain s line
read_other s line (some key) = open_block s key

read_argument : Scan → Text → Res Scan
unfolding down
read_argument s line =
    if text_eq line (text "}")
    then ok (record s { in_arguments = false; depth = down s.depth })
    else ok (record s { found = record s.found { arguments = s.found.arguments ++ line ∷ [] } })

-- The body of the loop, for a trimmed line.
read_line : Text → Scan → Text → Res Scan
unfolding read_argument read_other cut_suffix
read_line header s line =
    if is_empty line
    then ok s
    else if not s.seen_header
    then (if text_eq line header
        then ok (record s { seen_header = true; depth = pos 1 })
        else err (fail "launchctl output does not identify %s"))
    else if s.in_arguments
    then read_argument s line
    else read_other s line (cut_suffix line (text " = {"))

pub read_lines : Text → List Text → Scan → Res Scan
unfolding read_line
read_lines header [] s = ok s
read_lines header (raw_line ∷ rest) s = elim (read_line header s (trim_space raw_line)) [
  | ok t ↦ read_lines header rest t
  | err e ↦ err e
]

is_complete : Scan → Bool
unfolding is_at
is_complete s =
    s.seen_header
    && is_at 0 s.depth
    && not s.in_arguments
    && contains_string s.seen (text "state")
    && contains_string s.seen (text "program")
    && contains_string s.seen (text "pid")
    && contains_string s.seen (text "arguments")

abbrev pub start : Scan
start = record {
  depth = pos 0;
  seen_header = false;
  in_arguments = false;
  seen = [];
  found = record { state = []; program = []; pid = negsuc 0; last_exit = []; arguments = [] };
}

finish_scan : Res Scan → Res LaunchdPrintRecord
unfolding is_complete
finish_scan (err e) = err e
finish_scan (ok s) =
    if is_complete s then ok s.found else err (fail "launchctl output is incomplete or malformed")

-- 10 is the newline.
parse_launchd_print : Text → Text → Res LaunchdPrintRecord
unfolding finish_scan read_lines
parse_launchd_print output service_target =
    finish_scan (read_lines (service_target ++ text " = {") (split 10 output) start)

-- What is asked of the record; the loop over the arguments is the equality of two lists of one length.
matches_arguments : LaunchdPrintRecord → List Text → Bool
matches_arguments r [] = false
matches_arguments r (program ∷ rest) =
    text_eq r.program program && texts_eq r.arguments (program ∷ rest)

validate_record : List Text → Res LaunchdPrintRecord → Res (Unit {0})
unfolding matches_arguments is_positive
validate_record expected (err e) = err e
validate_record expected (ok r) =
    if text_eq r.state (text "running") && is_positive r.pid
    then (if matches_arguments r expected
        then ok tt
        else err
            (fail "launchd program or wrapper arguments do not match the protected definition"))
    else err (fail "launchd state must be running with a positive pid")

unfoldable pub validate_running_launchd_service : Text → Text → List Text → Res (Unit {0})
unfolding validate_record parse_launchd_print
validate_running_launchd_service output service_target expected =
    validate_record expected (parse_launchd_print output service_target)
