-- ===== src/SupervisorLog/Acl.antt =====
-- The access control lists of the paths of the supervisors' logs, as `ls -lde` prints them
-- (internal/cluster/supervisor_log.go).
use apple_pod_control.Prelude.{
  ℕ, ◌≡◌, ◌≢◌, ◌↔◌, inl, inr, refl, ap, Bool, true, false, Option, none, some, List, [], ◌∷◌, ◌++◌,
  arith, leb, ◌==◌, if◌then◌else◌, All, Bool-cases,
}
use apple_pod_control.Text.{Text, text, is_empty, trim_space, contains_text, split}
use apple_pod_control.Text.Numbers.{parse_uint}
use apple_pod_control.Host.{fail}
use apple_pod_control.Host.Action.{Res, ok, err}

-- The part before the first colon and the part after it: strings.Cut.
unfoldable cut_colon : Text → Option (Text × Text)
cut_colon [] = none
cut_colon (c ∷ s) =
    let rest = cut_colon s in
    if c == b':' then some ([], s) else elim rest [ none ↦ none | some t ↦ some (c ∷ t.0, t.1) ]

unfoldable within : Option ℕ → ℕ → Bool
within none limit = false
within (some n) limit = leb n limit

-- Whether strconv.Atoi accepts a text: a sign or none, digits, and a value of 64 bits.
unfoldable pub is_integer : Text → Bool
unfolding within
is_integer [] = false
is_integer (c ∷ s) =
    if c == b'-'
    then within (parse_uint s) 9_223_372_036_854_775_808
    else if c == b'+'
    then within (parse_uint s) 9_223_372_036_854_775_807
    else within (parse_uint (c ∷ s)) 9_223_372_036_854_775_807

-- The end of the loop's body: what an entry grants.
unfoldable check_grant : Text → Res (Unit {0})
check_grant line =
    if contains_text line (text " allow ")
    then err (fail "allow grant is forbidden")
    else if contains_text line (text " deny ")
    then ok tt
    else err (fail "ls returned an unknown ACL entry")

unfoldable check_index : Text → Option (Text × Text) → Res (Unit {0})
unfolding is_integer check_grant
check_index line none = err (fail "ls returned a malformed ACL entry")
check_index line (some (entry, rest)) =
    if is_integer entry then check_grant line else err (fail "ls returned a malformed ACL index")

-- The body of the loop, for a trimmed line.
unfoldable check_entry : Text → Res (Unit {0})
unfolding check_index cut_colon
check_entry line = if is_empty line then ok tt else check_index line (cut_colon line)

unfoldable check_entries : List Text → Res (Unit {0})
unfolding check_entry
check_entries [] = ok tt
check_entries (raw_line ∷ raw_lines) =
    let rest = check_entries raw_lines in
    elim (check_entry (trim_space raw_line)) [ ok u ↦ rest | err e ↦ err e ]

-- len(bytes.Fields(line)) == 0 says that there is nothing but space in a line.
unfoldable check_lines : List Text → Res (Unit {0})
unfolding check_entries
check_lines [] = err (fail "ls returned malformed output")
check_lines (first ∷ rest) =
    if is_empty (trim_space first)
    then err (fail "ls returned malformed output")
    else check_entries rest

-- 10 is the newline.
unfoldable pub reject_supervisor_acl_grants : Text → Res (Unit {0})
unfolding check_lines
reject_supervisor_acl_grants output = check_lines (split 10 output)

-- A line that denies something or says nothing: a whole number, a colon that is the first one, and a
-- text with " deny " and without " allow ".
pub data Harmless : Text → Type 0 where
  blank : Harmless []
  denies :
      (index rest : Text)
      → All (λ c. c ≢ b':') index
      → is_integer index ≡ true
      → contains_text (index ++ b':' ∷ rest) (text " allow ") ≡ false
      → contains_text (index ++ b':' ∷ rest) (text " deny ") ≡ true
      → Harmless (index ++ b':' ∷ rest)

-- A heading that is not blank, and harmless lines after it.
pub OnlyDenials : List Text → Type 0
OnlyDenials [] = ⊥
OnlyDenials (first ∷ rest) =
    (is_empty (trim_space first) ≡ false) × All (λ raw_line. Harmless (trim_space raw_line)) rest

-- What the two parts have to be for the whole.
abbrev Parts : Text → Option (Text × Text) → Type 0
Parts line none = Unit
Parts line (some (a, b)) = (line ≡ a ++ b':' ∷ b) × All (λ c. c ≢ b':') a

Parts-more :
    (c : ℕ) (s : Text) (rest : Option (Text × Text))
    → (c == b':') ≡ false
    → Parts s rest
    → Parts (c ∷ s) (elim rest [ none ↦ none | some t ↦ some (c ∷ t.0, t.1) ])
Parts-more c s none other parts = tt
Parts-more c s (some (a, b)) other (e, clear) =
    (ap (λ r. c ∷ r) e, (λ same. ground (arith, other, same), clear))

cut_colon-Parts : (line : Text) → Parts line (cut_colon line)
unfolding cut_colon
cut_colon-Parts [] = tt
cut_colon-Parts (c ∷ s) = elim (Bool-cases (c == b':')) [
  | inl colon ↦ rw colon (ground (arith, colon), tt)
  | inr other ↦ rw other (Parts-more c s (cut_colon s) other (cut_colon-Parts s))
]

cut_colon_complete : (a b : Text) → All (λ c. c ≢ b':') a → cut_colon (a ++ b':' ∷ b) ≡ some (a, b)
unfolding cut_colon
cut_colon_complete [] b clear = refl
cut_colon_complete (c ∷ a) b (other, clear) = ground (arith, other, cut_colon_complete a b clear)

check_index_sound :
    (line : Text) (parts : Option (Text × Text))
    → Parts line parts
    → check_index line parts ≡ ok tt
    → Harmless line
unfolding check_index check_grant
check_index_sound line none p e = ground (arith, e)
check_index_sound line (some (a, b)) (whole, clear) e =
    rw whole
      (denies a b clear (ground (arith, e)) (ground (arith, whole, e)) (ground (arith, whole, e)))

check_entry_sound : (line : Text) → check_entry line ≡ ok tt → Harmless line
unfolding check_entry is_empty
check_entry_sound [] e = blank
check_entry_sound (c ∷ s) e =
    check_index_sound (c ∷ s) (cut_colon (c ∷ s)) (cut_colon-Parts (c ∷ s)) e

not_empty : (a b : Text) (c : ℕ) → is_empty (a ++ c ∷ b) ≡ false
unfolding is_empty
not_empty [] b c = refl
not_empty (x ∷ a) b c = refl

check_entry_complete : (line : Text) → Harmless line → check_entry line ≡ ok tt
unfolding check_entry check_index check_grant is_empty
check_entry_complete _ blank = refl
check_entry_complete _ (denies index rest clear whole no_allow deny) =
    ground
      (arith, not_empty index rest b':', cut_colon_complete index rest clear, whole, no_allow, deny)

both :
    (r rest : Res (Unit {0}))
    → (elim r [ ok u ↦ rest | err e ↦ err e ] ≡ ok tt) ↔ ((r ≡ ok tt) × (rest ≡ ok tt))
both (ok u) rest = (λ e. (refl, e), λ h. h.1)
both (err x) rest = (λ e. ground (arith, e), λ h. ground (arith, h.0))

check_entries-first :
    (raw_line : Text) (lines : List Text)
    → (check_entries (raw_line ∷ lines) ≡ ok tt)
      ↔ ((check_entry (trim_space raw_line) ≡ ok tt) × (check_entries lines ≡ ok tt))
unfolding check_entries
check_entries-first raw_line lines = both (check_entry (trim_space raw_line)) (check_entries lines)

check_entries-Harmless :
    (lines : List Text)
    → (check_entries lines ≡ ok tt) ↔ All (λ raw_line. Harmless (trim_space raw_line)) lines
unfolding check_entries
check_entries-Harmless [] = (λ e. tt, λ h. refl)
check_entries-Harmless (raw_line ∷ lines) =
    let (sound, complete) = check_entries-first raw_line lines in
    let (all_sound, all_complete) = check_entries-Harmless lines in
    (
      λ e. (check_entry_sound (trim_space raw_line) (sound e).0, all_sound (sound e).1),
      λ h. complete (check_entry_complete (trim_space raw_line) h.0, all_complete h.1),
    )

check_lines-OnlyDenials : (lines : List Text) → (check_lines lines ≡ ok tt) ↔ OnlyDenials lines
unfolding check_lines OnlyDenials
check_lines-OnlyDenials [] = (λ e. ground (arith, e), λ h. absurd h)
check_lines-OnlyDenials (first ∷ rest) =
    let (sound, complete) = check_entries-Harmless rest in
    elim (Bool-cases (is_empty (trim_space first))) [
      | inl empty ↦ (λ e. ground (arith, empty, e), λ h. ground (arith, empty, h.0))
      | inr filled ↦ (
        λ e. (filled, sound (ground (arith, filled, e))),
        λ h. ground (arith, filled, complete h.1),
      )
    ]

-- The check of an access control list succeeds exactly if the heading is not blank and each later line
-- is blank or a numbered entry that denies and does not allow.
pub reject_supervisor_acl_grants-OnlyDenials :
    (output : Text) → (reject_supervisor_acl_grants output ≡ ok tt) ↔ OnlyDenials (split 10 output)
unfolding reject_supervisor_acl_grants
reject_supervisor_acl_grants-OnlyDenials output = check_lines-OnlyDenials (split 10 output)
