-- ===== src/Ha/Config/ByteSize.antt =====
-- parseHAByteSize and sameHAByteSize (internal/cluster/ha.go): sizes with a binary suffix, in uint64.
pub mod Bounds
use apple_pod_control.Prelude.{
  ℕ, ◌-◌, ◌*◌, ◌/◌, ◌%◌, ◌^◌, ◌≡◌, refl, Bool, false, ◌||◌, not, Option, none, some, [], ◌∷◌, ltb,
  ◌==◌, if◌then◌else◌,
}
use apple_pod_control.Text.{Text, text, trim_space, to_upper}
use apple_pod_control.Text.Numbers.{parse_uint, is_digit}

-- The bytes before the last, and the last.
pub split_last : Text → Option (Text × ℕ)
split_last [] = none
split_last (c ∷ s) = elim (split_last s) [
  | none ↦ some ([], c)
  | some (before, last) ↦ some (c ∷ before, last)
]

unfoldable pub multiplier_of : ℕ → Option ℕ
multiplier_of suffix =
    if suffix == b'K'
    then some (2 ^ 10)
    else if suffix == b'M'
    then some (2 ^ 20)
    else if suffix == b'G'
    then some (2 ^ 30)
    else if suffix == b'T'
    then some (2 ^ 40)
    else if suffix == b'P'
    then some (2 ^ 50)
    else none

abbrev pub uint64_max : ℕ
uint64_max = 2 ^ 64 - 1

-- `none` is an error of any kind; the product is that of uint64.
scale : Option ℕ → ℕ → Option ℕ
scale none multiplier = none
scale (some number) multiplier =
    if number == 0 || ltb (uint64_max / multiplier) number
    then none
    else some (number * multiplier % 2 ^ 64)

with_suffix : Text → ℕ → Option ℕ → Option ℕ
unfolding scale
with_suffix digits suffix none = none
with_suffix digits suffix (some multiplier) = scale (parse_uint digits) multiplier

parse_trimmed : Text → Option (Text × ℕ) → Option ℕ
unfolding with_suffix scale multiplier_of
parse_trimmed value none = none
parse_trimmed value (some (before, last)) =
    if not (is_digit last)
    then with_suffix before last (multiplier_of last)
    else scale (parse_uint value) 1

unfoldable pub parse_ha_byte_size : Text → Option ℕ
unfolding parse_trimmed split_last
parse_ha_byte_size value =
    let trimmed = trim_space (to_upper value) in parse_trimmed trimmed (split_last trimmed)

abbrev same_number : Option ℕ → Option ℕ → Bool
same_number (some a) (some b) = a == b
same_number _ _ = false

unfoldable pub same_ha_byte_size : Text → Text → Bool
unfolding parse_ha_byte_size
same_ha_byte_size left right = same_number (parse_ha_byte_size left) (parse_ha_byte_size right)

parse_ha_byte_size_example : parse_ha_byte_size (text " 8g ") ≡ some 8589934592
unfolding parse_ha_byte_size trim_space to_upper is_digit parse_uint
parse_ha_byte_size_example = refl

parse_ha_byte_size_overflow : parse_ha_byte_size (text "16384P") ≡ none
unfolding parse_ha_byte_size trim_space to_upper is_digit parse_uint
parse_ha_byte_size_overflow = refl
