-- ===== src/Launchd/Scanned.antt =====
-- What the loop of parseLaunchdPrint has read stood in the lines (internal/launchd/unattended.go).
use apple_pod_control.Prelude.{
  ℕ, ◌≡◌, refl, sym, ap, Bool, true, false, ◌&&◌, not, Option, none, some, List, [], ◌∷◌, ◌++◌, map,
  arith, All, inl, inr, Bool-cases, if◌then◌else◌,
}
use mathlib.Core.Path.{subst}
use apple_pod_control.Text.{
  Text, text, text_eq, text_eq_sound, is_empty, trim_space, cut_prefix, contains_string,
}
use apple_pod_control.Host.Action.{Res, ok, err}
use apple_pod_control.Launchd.{
  ℤ, up, is_at, atoi, cut, Scan, is_field, with_pid, set_field, read_field, open_block, read_plain,
  read_other, read_argument, read_line, read_lines, start, cut_suffix,
}

cut_prefix_sound : (p s rest : Text) → cut_prefix p s ≡ some rest → s ≡ p ++ rest
unfolding cut_prefix
cut_prefix_sound [] s rest e = ground (arith, e)
cut_prefix_sound (p ∷ ps) [] rest e = ground (arith, e)
cut_prefix_sound (p ∷ ps) (c ∷ s) rest e = ground (arith, e, cut_prefix_sound ps s rest)

abbrev IsCut : Text → Text → Option (Text × Text) → Type 0
IsCut s sep none = Unit
IsCut s sep (some (a, b)) = s ≡ a ++ (sep ++ b)

IsCut-more :
    (c : ℕ) (s sep : Text) (here : Option Text) (rest : Option (Text × Text))
    → ((after : Text) → here ≡ some after → c ∷ s ≡ sep ++ after)
    → IsCut s sep rest
    → IsCut (c ∷ s) sep (elim here [
      | some after ↦ some ([], after)
      | none ↦ elim rest [ none ↦ none | some t ↦ some (c ∷ t.0, t.1) ]
    ])
IsCut-more c s sep (some after) rest here_sound rest_sound = here_sound after refl
IsCut-more c s sep none none here_sound rest_sound = tt
IsCut-more c s sep none (some (a, b)) here_sound rest_sound = ap (λ r. c ∷ r) rest_sound

cut-IsCut : (s sep : Text) → IsCut s sep (cut s sep)
unfolding cut
cut-IsCut [] sep = tt
cut-IsCut (c ∷ s) sep =
    IsCut-more c s sep (cut_prefix sep (c ∷ s)) (cut s sep) (cut_prefix_sound sep (c ∷ s))
      (cut-IsCut s sep)

-- A line that gives a key a value.
unfoldable pub field_line : Text → Text → Text
field_line key value = key ++ (text " = " ++ value)

module _ (header : Text) (P : Text → Type 0) where
  -- What has been read stood in lines.
  pub record Read (s : Scan) : Type 0 where
    pub header_shown : s.seen_header ≡ true → P header
    pub state_shown :
        contains_string s.seen (text "state") ≡ true → P (field_line (text "state") s.found.state)
    pub program_shown :
        contains_string s.seen (text "program") ≡ true
        → P (field_line (text "program") s.found.program)
    pub pid_shown :
        contains_string s.seen (text "pid") ≡ true
        → (v : Text) × P (field_line (text "pid") v) × (atoi v ≡ some s.found.pid)
    pub arguments_shown : All P s.found.arguments

  abbrev pub ReadRes : Res Scan → Type 0
  ReadRes (ok s) = Read s
  ReadRes (err e) = Unit

  pid_known :
      (s : Scan) (v : Text) (pid : Option ℤ)
      → P (field_line (text "pid") v)
      → atoi v ≡ pid
      → Read s
      → ReadRes (with_pid (record s { seen = text "pid" ∷ s.seen }) pid)
  unfolding with_pid contains_string text_eq
  pid_known s v none p e r = tt
  pid_known s v (some n) p e r = record {
    header_shown = r.header_shown;
    state_shown = λ h. r.state_shown h;
    program_shown = λ h. r.program_shown h;
    pid_shown = λ h. (v, p, e);
    arguments_shown = r.arguments_shown;
  }

  All-snoc : (xs : List Text) (x : Text) → All P xs → P x → All P (xs ++ x ∷ [])
  All-snoc [] x h p = (p, tt)
  All-snoc (y ∷ ys) x (q, h) p = (q, All-snoc ys x h p)

  read_argument-Read : (s : Scan) (line : Text) → P line → Read s → ReadRes (read_argument s line)
  unfolding read_argument
  read_argument-Read s line p r = elim (Bool-cases (text_eq line (text "}"))) [
    | inl closes ↦ rw closes (record {
      header_shown = r.header_shown;
      state_shown = r.state_shown;
      program_shown = r.program_shown;
      pid_shown = r.pid_shown;
      arguments_shown = r.arguments_shown;
    })
    | inr argument ↦ rw argument (record {
      header_shown = r.header_shown;
      state_shown = r.state_shown;
      program_shown = r.program_shown;
      pid_shown = r.pid_shown;
      arguments_shown = All-snoc s.found.arguments line r.arguments_shown p;
    })
  ]

  same_but :
      (s t : Scan)
      → Read s
      → t.found ≡ s.found
      → t.seen ≡ s.seen
      → t.seen_header ≡ s.seen_header
      → Read t
  same_but s t r e f g = record {
    header_shown = λ h. r.header_shown (rw (sym g) h);
    state_shown = λ h. rw e (r.state_shown (rw (sym f) h));
    program_shown = λ h. rw e (r.program_shown (rw (sym f) h));
    pid_shown = λ h. rw e (r.pid_shown (rw (sym f) h));
    arguments_shown = rw e r.arguments_shown;
  }

  set_field-Read :
      (s : Scan) (key value : Text)
      → is_field key ≡ true
      → P (field_line key value)
      → Read s
      → ReadRes (set_field (record s { seen = key ∷ s.seen }) key value)
  unfolding set_field with_pid contains_string text_eq is_field
  set_field-Read s key value f p r =
      let At : Text → Type 0 = λ (k : Text).
        P (field_line k value) → ReadRes (set_field (record s { seen = k ∷ s.seen }) k value) in
      elim (Bool-cases (text_eq key (text "state"))) [
        | inl e ↦
            subst At (sym (text_eq_sound key _ e))
              (λ q. record {
                header_shown = r.header_shown;
                state_shown = λ h. q;
                program_shown = λ h. r.program_shown h;
                pid_shown = λ h. r.pid_shown h;
                arguments_shown = r.arguments_shown;
              })
              p
        | inr n ↦ elim (Bool-cases (text_eq key (text "program"))) [
          | inl e ↦
              subst At (sym (text_eq_sound key _ e))
                (λ q. record {
                  header_shown = r.header_shown;
                  state_shown = λ h. r.state_shown h;
                  program_shown = λ h. q;
                  pid_shown = λ h. r.pid_shown h;
                  arguments_shown = r.arguments_shown;
                })
                p
          | inr n2 ↦ elim (Bool-cases (text_eq key (text "pid"))) [
            | inl e ↦
                subst At (sym (text_eq_sound key _ e))
                  (λ q. pid_known s value (atoi value) q refl r) p
            | inr n3 ↦
                subst At
                  (sym (text_eq_sound key (text "last exit code") (ground (arith, f, n, n2, n3))))
                  (λ q. record {
                    header_shown = r.header_shown;
                    state_shown = λ h. r.state_shown h;
                    program_shown = λ h. r.program_shown h;
                    pid_shown = λ h. r.pid_shown h;
                    arguments_shown = r.arguments_shown;
                  })
                  p
          ]
        ]
      ]

  open_block-Read : (s : Scan) (key : Text) → Read s → ReadRes (open_block s key)
  unfolding open_block contains_string text_eq
  open_block-Read s key r = elim (Bool-cases (is_at 1 s.depth && text_eq key (text "arguments"))) [
    | inl e ↦
        let at_top : text_eq key (text "arguments") ≡ true = ground (arith, e) in
        rw e (elim (Bool-cases (contains_string s.seen key)) [
          | inl twice ↦ rw twice tt
          | inr once ↦ rw once (
              subst
                (λ k.
                  Read (record s { depth = up s.depth; in_arguments = true; seen = k ∷ s.seen }))
                (sym (text_eq_sound key _ at_top))
                (record {
                  header_shown = r.header_shown;
                  state_shown = λ h. r.state_shown h;
                  program_shown = λ h. r.program_shown h;
                  pid_shown = λ h. r.pid_shown h;
                  arguments_shown = r.arguments_shown;
                }))
        ])
    | inr e ↦ rw e (same_but s _ r refl refl refl)
  ]

  read_field-Read :
      (s : Scan) (line : Text) (parts : Option (Text × Text))
      → IsCut line (text " = ") parts
      → P line
      → Read s
      → ReadRes (read_field s parts)
  unfolding read_field field_line
  read_field-Read s line none c p r = r
  read_field-Read s line (some (key, value)) c p r = elim (Bool-cases (is_field key)) [
    | inl known ↦ rw known (elim (Bool-cases (contains_string s.seen key)) [
      | inl twice ↦ rw twice tt
      | inr once ↦ rw once (set_field-Read s key value known (subst P c p) r)
    ])
    | inr other ↦ rw other r
  ]

  read_plain-Read : (s : Scan) (line : Text) → P line → Read s → ReadRes (read_plain s line)
  unfolding read_plain
  read_plain-Read s line p r = elim (Bool-cases (text_eq line (text "}"))) [
    | inl closes ↦ rw closes (same_but s _ r refl refl refl)
    | inr e ↦ rw e (elim (Bool-cases (is_at 1 s.depth)) [
      | inl top ↦
          rw top (read_field-Read s line (cut line (text " = ")) (cut-IsCut line (text " = ")) p r)
      | inr deep ↦ rw deep r
    ])
  ]

  read_other-Read :
      (s : Scan) (line : Text) (key : Option Text)
      → P line
      → Read s
      → ReadRes (read_other s line key)
  unfolding read_other
  read_other-Read s line none p r = read_plain-Read s line p r
  read_other-Read s line (some key) p r = open_block-Read s key r

  ReadRes-if :
      (b : Bool) (m n : Res Scan)
      → (b ≡ true → ReadRes m)
      → (b ≡ false → ReadRes n)
      → ReadRes (if b then m else n)
  ReadRes-if true m n f g = f refl
  ReadRes-if false m n f g = g refl

  read_line-Read : (s : Scan) (line : Text) → P line → Read s → ReadRes (read_line header s line)
  unfolding read_line
  read_line-Read s line p r =
      ReadRes-if (is_empty line) _ _ (λ empty. r)
        (λ filled.
          ReadRes-if (not s.seen_header) _ _
            (λ first.
              ReadRes-if (text_eq line header) _ _
                (λ same. record {
                  header_shown = λ h. subst P (text_eq_sound line header same) p;
                  state_shown = r.state_shown;
                  program_shown = r.program_shown;
                  pid_shown = r.pid_shown;
                  arguments_shown = r.arguments_shown;
                })
                (λ other. tt))
            (λ seen.
              ReadRes-if s.in_arguments _ _ (λ inside. read_argument-Read s line p r)
                (λ outside. read_other-Read s line (cut_suffix line (text " = {")) p r)))

  ReadRes-after :
      (m : Res Scan) (f : Scan → Res Scan)
      → ((t : Scan) → Read t → ReadRes (f t))
      → ReadRes m
      → ReadRes (elim m [ ok t ↦ f t | err e ↦ err e ])
  ReadRes-after (ok t) f g q = g t q
  ReadRes-after (err e) f g q = tt

  pub read_lines-Read :
      (raw_lines : List Text) (s : Scan)
      → All P (map trim_space raw_lines)
      → Read s
      → ReadRes (read_lines header raw_lines s)
  unfolding read_lines
  read_lines-Read [] s ps r = r
  read_lines-Read (raw_line ∷ rest) s (p, ps) r =
      ReadRes-after (read_line header s (trim_space raw_line)) (λ t. read_lines header rest t)
        (λ t q. read_lines-Read rest t ps q) (read_line-Read s (trim_space raw_line) p r)

pub start-Read : (header : Text) (P : Text → Type 0) → Read header P start
unfolding contains_string
start-Read header P = record {
  header_shown = λ h. ground (arith, h);
  state_shown = λ h. ground (arith, h);
  program_shown = λ h. ground (arith, h);
  pid_shown = λ h. ground (arith, h);
  arguments_shown = tt;
}
