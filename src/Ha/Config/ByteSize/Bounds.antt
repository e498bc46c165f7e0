-- ===== src/Ha/Config/ByteSize/Bounds.antt =====
-- The sizes that are accepted.
use apple_pod_control.Prelude.{
  ℕ, ◌*◌, ◌<◌, ◌≡◌, refl, sym, ap, Option, none, some, [], ◌∷◌, ◌++◌, arith, inl, inr, Bool-cases,
  ◌==◌,
}
use mathlib.Core.List.{append-nil}
use apple_pod_control.Text.{Text, text, trim_space, to_upper}
use apple_pod_control.Text.Numbers.{parse_uint, is_digit}
use apple_pod_control.Ha.Config.ByteSize.{
  split_last, multiplier_of, scale, with_suffix, parse_trimmed, parse_ha_byte_size,
}

-- The units: their suffix, and the number of bytes.
pub data SizeUnit : Text → ℕ → Type 0 where
  byte : SizeUnit [] 1
  kibibyte : SizeUnit (text "K") 1024
  mebibyte : SizeUnit (text "M") 1_048_576
  gibibyte : SizeUnit (text "G") 1_073_741_824
  tebibyte : SizeUnit (text "T") 1_099_511_627_776
  pebibyte : SizeUnit (text "P") 1_125_899_906_842_624

-- A text is a decimal number followed by a unit, and the size is their product, with no wrap-around,
-- positive and within 64 bits.
pub record IsSize (written : Text) (n : ℕ) : Type 0 where
  pub digits : Text
  pub suffix : Text
  pub spelled : written ≡ digits ++ suffix
  pub number : ℕ
  pub parsed : parse_uint digits ≡ some number
  pub multiplier : ℕ
  pub unit : SizeUnit suffix multiplier
  pub exact : n ≡ number * multiplier
  pub positive : 0 < n
  pub in_range : n < 18_446_744_073_709_551_616

-- A suffix that is read stands for its unit.
multiplier_of-SizeUnit : (suffix m : ℕ) → multiplier_of suffix ≡ some m → SizeUnit (suffix ∷ []) m
unfolding multiplier_of
multiplier_of-SizeUnit suffix m e = elim (Bool-cases (suffix == b'K')) [
  | inl k ↦ at_unit b'K' 1024 kibibyte (ground (arith, k)) (ground (arith, k, e))
  | inr k ↦ elim (Bool-cases (suffix == b'M')) [
    | inl g ↦ at_unit b'M' 1_048_576 mebibyte (ground (arith, g)) (ground (arith, k, g, e))
    | inr g ↦ elim (Bool-cases (suffix == b'G')) [
      | inl i ↦ at_unit b'G' 1_073_741_824 gibibyte (ground (arith, i)) (ground (arith, k, g, i, e))
      | inr i ↦ elim (Bool-cases (suffix == b'T')) [
        | inl t ↦
            at_unit b'T' 1_099_511_627_776 tebibyte (ground (arith, t))
              (ground (arith, k, g, i, t, e))
        | inr t ↦
            at_unit b'P' 1_125_899_906_842_624 pebibyte (ground (arith, k, g, i, t, e))
              (ground (arith, k, g, i, t, e))
      ]
    ]
  ]
]
  where
    at_unit : (c k : ℕ) → SizeUnit (c ∷ []) k → suffix ≡ c → m ≡ k → SizeUnit (suffix ∷ []) m
    at_unit c k u p q = rw (p, q) u

-- The product of uint64 that passes the test has not wrapped around.
product_exact :
    {suffix : Text} {m : ℕ} (n k : ℕ)
    → SizeUnit suffix m
    → scale (some k) m ≡ some n
    → (n ≡ k * m) × (0 < n) × (n < 18_446_744_073_709_551_616)
unfolding scale
product_exact n k byte h = (ground (arith, h), ground (arith, h), ground (arith, h))
product_exact n k kibibyte h = (ground (arith, h), ground (arith, h), ground (arith, h))
product_exact n k mebibyte h = (ground (arith, h), ground (arith, h), ground (arith, h))
product_exact n k gibibyte h = (ground (arith, h), ground (arith, h), ground (arith, h))
product_exact n k tebibyte h = (ground (arith, h), ground (arith, h), ground (arith, h))
product_exact n k pebibyte h = (ground (arith, h), ground (arith, h), ground (arith, h))

scaled :
    (written digits suffix : Text) (n m : ℕ) (o : Option ℕ)
    → written ≡ digits ++ suffix
    → SizeUnit suffix m
    → parse_uint digits ≡ o
    → scale o m ≡ some n
    → IsSize written n
unfolding scale
scaled written digits suffix n m none s u p h = ground (arith, h)
scaled written digits suffix n m (some k) s u p h =
    let (exact, positive, in_range) = product_exact n k u h in
    record {
      digits = digits;
      suffix = suffix;
      spelled = s;
      number = k;
      parsed = p;
      multiplier = m;
      unit = u;
      exact = exact;
      positive = positive;
      in_range = in_range;
    }

-- What split_last takes apart.
abbrev Whole : Text → Option (Text × ℕ) → Type 0
Whole written none = Unit
Whole written (some (before, last)) = written ≡ before ++ last ∷ []

Whole-more :
    (c : ℕ) (s : Text) (parts : Option (Text × ℕ))
    → Whole s parts
    → (parts ≡ none → s ≡ [])
    → Whole
        (c ∷ s)
        (elim parts [ none ↦ some ([], c) | some (before, last) ↦ some (c ∷ before, last) ])
Whole-more c s none w empty = ap (λ r. c ∷ r) (empty refl)
Whole-more c s (some (before, last)) w empty = ap (λ r. c ∷ r) w

split_last-none : (s : Text) → split_last s ≡ none → s ≡ []
unfolding split_last
split_last-none [] e = refl
split_last-none (c ∷ s) e = go (split_last s) e
  where
    go :
        (parts : Option (Text × ℕ))
        → ◌≡◌ {A = Option (Text × ℕ)}
            (elim parts [ none ↦ some ([], c) | some (before, last) ↦ some (c ∷ before, last) ])
            none
        → c ∷ s ≡ []
    go none e = ground (arith, e)
    go (some (before, last)) e = ground (arith, e)

split_last-Whole : (written : Text) → Whole written (split_last written)
unfolding split_last
split_last-Whole [] = tt
split_last-Whole (c ∷ s) = Whole-more c s (split_last s) (split_last-Whole s) (split_last-none s)

with_suffix-IsSize :
    (written digits : Text) (suffix n : ℕ) (o : Option ℕ)
    → written ≡ digits ++ suffix ∷ []
    → multiplier_of suffix ≡ o
    → with_suffix digits suffix o ≡ some n
    → IsSize written n
unfolding with_suffix
with_suffix-IsSize written digits suffix n none w e h = ground (arith, h)
with_suffix-IsSize written digits suffix n (some m) w e h =
    scaled written digits (suffix ∷ []) n m (parse_uint digits) w
      (multiplier_of-SizeUnit suffix m e) refl h

parse_trimmed-IsSize :
    (written : Text) (parts : Option (Text × ℕ)) (n : ℕ)
    → Whole written parts
    → parse_trimmed written parts ≡ some n
    → IsSize written n
unfolding parse_trimmed
parse_trimmed-IsSize written none n w h = ground (arith, h)
parse_trimmed-IsSize written (some (before, last)) n w h = elim (Bool-cases (is_digit last)) [
  | inl digit ↦
      scaled written written [] n 1 (parse_uint written) (sym (append-nil written)) byte refl
        (rw digit at h)
  | inr other ↦ with_suffix-IsSize written before last n (multiplier_of last) w refl (rw other at h)
]

-- A text that parseHAByteSize accepts is, in upper case and without the space around it, a decimal
-- number followed by nothing or by one of K, M, G, T and P, and the result is that number times the
-- unit's bytes, exactly: the product in uint64 has not wrapped around, and it is not 0.
pub parse_ha_byte_size-IsSize :
    (value : Text) (n : ℕ)
    → parse_ha_byte_size value ≡ some n
    → IsSize (trim_space (to_upper value)) n
unfolding parse_ha_byte_size
parse_ha_byte_size-IsSize value n h =
    let written = trim_space (to_upper value) in
    parse_trimmed-IsSize written (split_last written) n (split_last-Whole written) h
