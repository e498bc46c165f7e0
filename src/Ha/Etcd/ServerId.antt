-- ===== src/Ha/Etcd/ServerId.antt =====
-- canonicalHAEtcdServerID (internal/cluster/ha_etcd.go): server IDs as 64-bit hexadecimal numbers
-- with no leading zeros.
use apple_pod_control.Prelude.{
  ℕ, zero, suc, ◌+◌, ◌-◌, ◌*◌, ◌/◌, ◌%◌, ◌≡◌, refl, ◌&&◌, ◌||◌, Option, none, some, [], ◌∷◌, ◌++◌,
  ltb, leb, ◌==◌, if◌then◌else◌, length,
}
use apple_pod_control.Text.{Text, text, to_lower, trim_space, is_empty}

-- The value of a lower-case hexadecimal digit.
unfoldable pub hex_value : ℕ → Option ℕ
hex_value c =
    if leb b'0' c && leb c b'9'
    then some (c - b'0')
    else if leb b'a' c && leb c b'f'
    then some (c - 87)
    else none

parse_hex_step : ℕ → Option ℕ → Option ℕ
parse_hex_step acc none = none
parse_hex_step acc (some d) = some (acc * 16 + d)

parse_hex_from : Option ℕ → Text → Option ℕ
unfolding hex_value parse_hex_step
parse_hex_from none s = none
parse_hex_from (some acc) [] = some acc
parse_hex_from (some acc) (c ∷ s) = parse_hex_from (parse_hex_step acc (hex_value c)) s

-- strconv.ParseUint(s, 16, 64) of at most 16 characters, which cannot overflow.
unfoldable pub parse_hex : Text → Option ℕ
unfolding parse_hex_from
parse_hex [] = none
parse_hex (c ∷ s) = parse_hex_from (some 0) (c ∷ s)

-- The digit of a value below 16.
unfoldable pub hex_char : ℕ → ℕ
hex_char d = if ltb d 10 then 48 + d else 87 + d

format_hex_from : ℕ → ℕ → Text
unfolding hex_char
format_hex_from zero n = []
format_hex_from (suc fuel) n =
    let rest = format_hex_from fuel (n / 16) in
    if ltb n 16 then hex_char n ∷ [] else rest ++ hex_char (n % 16) ∷ []

-- strconv.FormatUint(n, 16)
unfoldable pub format_hex : ℕ → Text
unfolding format_hex_from
format_hex n = format_hex_from (suc n) n

canonical_number : Option ℕ → Option Text
unfolding format_hex
canonical_number none = none
canonical_number (some n) = if n == 0 then none else some (format_hex n)

unfoldable pub canonical_ha_etcd_server_id : Text → Option Text
unfolding canonical_number parse_hex
canonical_ha_etcd_server_id value =
    let v = to_lower (trim_space value) in
    if is_empty v || ltb 16 (length v) then none else canonical_number (parse_hex v)

canonical_example : canonical_ha_etcd_server_id (text " 00AB12 ") ≡ some (text "ab12")
unfolding canonical_ha_etcd_server_id trim_space to_lower is_empty
canonical_example = refl
