-- ===== src/Text/Numbers.antt =====
-- strconv: decimal printing and parsing of unsigned numbers.
use apple_pod_control.Prelude.{
  ℕ, zero, suc, ◌+◌, ◌-◌, ◌*◌, ◌/◌, ◌%◌, ◌^◌, Bool, ◌&&◌, Option, none, some, List, [], ◌∷◌, ◌++◌,
  ltb, leb, if◌then◌else◌, ◌≡◌, refl,
}

itoa_from : ℕ → ℕ → List ℕ
itoa_from zero n = []
itoa_from (suc fuel) n =
    let rest = itoa_from fuel (n / 10) in
    if ltb n 10 then (48 + n) ∷ [] else rest ++ (48 + n % 10) ∷ []

-- strconv.Itoa of a natural number; a number has at most as many digits as its successor counts.
unfoldable pub itoa : ℕ → List ℕ
unfolding itoa_from
itoa n = itoa_from (suc n) n

unfoldable pub is_digit : ℕ → Bool
is_digit c = leb b'0' c && leb c b'9'

parse_digits : ℕ → List ℕ → Option ℕ
unfolding is_digit
parse_digits acc [] = some acc
parse_digits acc (c ∷ s) =
    let rest = parse_digits (acc * 10 + (c - 48)) s in if is_digit c then rest else none

abbrev pub uint64_mod : ℕ
uint64_mod = 2 ^ 64

abbrev within_uint64 : Option ℕ → Option ℕ
within_uint64 none = none
within_uint64 (some n) = if ltb n uint64_mod then some n else none

-- strconv.ParseUint(s, 10, 64)
unfoldable pub parse_uint : List ℕ → Option ℕ
unfolding parse_digits
parse_uint [] = none
parse_uint (c ∷ s) = within_uint64 (parse_digits 0 (c ∷ s))

itoa_17443 : itoa 17443 ≡ 49 ∷ 55 ∷ 52 ∷ 52 ∷ 51 ∷ []
unfolding itoa
itoa_17443 = refl
