-- ===== src/Net.antt =====
-- Addresses as package net and net/netip read and print them, in so far as the program uses them:
-- dotted IPv4 addresses as 32-bit numbers, IPv4 prefixes, and six-octet MAC addresses.
use apple_pod_control.Prelude.{
  ℕ, ◌+◌, ◌-◌, ◌*◌, ◌/◌, ◌%◌, ◌^◌, ◌≡◌, refl, Bool, true, false, ◌&&◌, Option, none, some, List, [],
  ◌∷◌, ◌++◌, ltb, leb, ◌==◌, if◌then◌else◌, length,
}
use apple_pod_control.Text.{Text, text, split}
use apple_pod_control.Text.Numbers.{itoa, is_digit, parse_uint}

abbrev leading_zero : Text → Bool
leading_zero (c ∷ d ∷ s) = c == b'0'
leading_zero _ = false

abbrev all_digits : Text → Bool
all_digits [] = true
all_digits (c ∷ s) = is_digit c && all_digits s

abbrev below : ℕ → Option ℕ → Option ℕ
below limit none = none
below limit (some n) = if ltb n limit then some n else none

-- One field of a dotted address: digits with no leading zero, at most 255.
octet : Text → Option ℕ
octet s = if leading_zero s then none else below 256 (parse_uint s)

abbrev four : Option ℕ → Option ℕ → Option ℕ → Option ℕ → Option ℕ
four (some a) (some b) (some c) (some d) = some (((a * 256 + b) * 256 + c) * 256 + d)
four _ _ _ _ = none

dotted : List Text → Option ℕ
unfolding octet
dotted (a ∷ b ∷ c ∷ d ∷ []) = four (octet a) (octet b) (octet c) (octet d)
dotted _ = none

-- netip.ParseAddr followed by Is4
unfoldable pub parse_ipv4 : Text → Option ℕ
unfolding dotted
parse_ipv4 s = dotted (split b'.' s)

-- netip.Addr.String of an IPv4 address
unfoldable pub ipv4_string : ℕ → Text
ipv4_string a =
    itoa (a / 16777216 % 256)
    ++ (b'.' ∷ itoa (a / 65536 % 256))
    ++ (b'.' ∷ itoa (a / 256 % 256))
    ++ (b'.' ∷ itoa (a % 256))

pub record Prefix : Type 0 where
  pub addr : ℕ
  pub bits : ℕ

abbrev prefix_of : Option ℕ → Option ℕ → Option Prefix
prefix_of (some a) (some n) = some (record { addr = a; bits = n })
prefix_of _ _ = none

-- The text after the last slash; none if there is no slash.
split_last_slash : Text → Option (Text × Text)
split_last_slash [] = none
split_last_slash (c ∷ s) = elim (split_last_slash s) [
  | some (before, after) ↦ some (c ∷ before, after)
  | none ↦ if c == b'/' then some ([], s) else none
]

parse_prefix_parts : Option (Text × Text) → Option Prefix
unfolding octet
parse_prefix_parts none = none
parse_prefix_parts (some (address, bits)) =
    prefix_of (parse_ipv4 address) (if leading_zero bits then none else below 33 (parse_uint bits))

-- netip.ParsePrefix, for a prefix whose address is IPv4
unfoldable pub parse_prefix : Text → Option Prefix
unfolding split_last_slash parse_prefix_parts parse_ipv4
parse_prefix s = parse_prefix_parts (split_last_slash s)

-- The number of addresses under a prefix of so many bits.
abbrev pub block_size : ℕ → ℕ
block_size bits = 2 ^ (32 - bits)

-- Prefix.Masked
unfoldable pub masked : Prefix → Prefix
masked p = record p { addr = p.addr / block_size p.bits * block_size p.bits }

unfoldable pub prefix_string : Prefix → Text
unfolding ipv4_string
prefix_string p = ipv4_string p.addr ++ (b'/' ∷ itoa p.bits)

-- Prefix.Contains
unfoldable pub prefix_contains : Prefix → ℕ → Bool
prefix_contains p a = a / block_size p.bits == p.addr / block_size p.bits

hex_digit : ℕ → Option ℕ
hex_digit c =
    if leb b'0' c && leb c b'9'
    then some (c - b'0')
    else if leb b'a' c && leb c b'f'
    then some (c - 87)
    else if leb b'A' c && leb c b'F'
    then some (c - 55)
    else none

abbrev hex_pair : Option ℕ → Option ℕ → Option ℕ
hex_pair (some a) (some b) = some (a * 16 + b)
hex_pair _ _ = none

abbrev prepend : Option ℕ → Option (List ℕ) → Option (List ℕ)
prepend (some a) (some rest) = some (a ∷ rest)
prepend _ _ = none

-- Groups of two digits (colons or dashes between them).
mac_pairs : List Text → Option (List ℕ)
unfolding hex_digit
mac_pairs [] = some []
mac_pairs ((a ∷ b ∷ []) ∷ rest) = prepend (hex_pair (hex_digit a) (hex_digit b)) (mac_pairs rest)
mac_pairs (_ ∷ rest) = none

-- Groups of four digits (dots between them).
mac_quads : List Text → Option (List ℕ)
unfolding hex_digit
mac_quads [] = some []
mac_quads ((a ∷ b ∷ c ∷ d ∷ []) ∷ rest) =
    prepend (hex_pair (hex_digit a) (hex_digit b))
      (prepend (hex_pair (hex_digit c) (hex_digit d)) (mac_quads rest))
mac_quads (_ ∷ rest) = none

abbrev six_octets : Option (List ℕ) → Option (List ℕ)
six_octets none = none
six_octets (some octets) = if length octets == 6 then some octets else none

third : Text → ℕ
third (a ∷ b ∷ c ∷ s) = c
third _ = 0

-- net.ParseMAC followed by the test that the address has six octets
unfoldable pub parse_mac : Text → Option (List ℕ)
unfolding third mac_pairs mac_quads
parse_mac s =
    if third s == b':'
    then six_octets (mac_pairs (split b':' s))
    else if third s == b'-'
    then six_octets (mac_pairs (split b'-' s))
    else six_octets (mac_quads (split b'.' s))

parse_ipv4_example : parse_ipv4 (text "192.168.96.241") ≡ some 3232260337
unfolding parse_ipv4 parse_uint split is_digit
parse_ipv4_example = refl

prefix_string_example : ipv4_string 3232260337 ≡ text "192.168.96.241"
unfolding ipv4_string itoa
prefix_string_example = refl

parse_mac_example : parse_mac (text "02:ac:96:00:00:01") ≡ some (2 ∷ 172 ∷ 150 ∷ 0 ∷ 0 ∷ 1 ∷ [])
unfolding parse_mac split
parse_mac_example = refl
