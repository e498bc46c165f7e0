-- ===== src/Ha/Config/Normalize/Members.antt =====
-- What the member loop of normalizeHAConfig lets through.
use mathlib.Core.Path.{subst}
use apple_pod_control.Prelude.{
  ℕ, ◌+◌, ◌-◌, ◌*◌, ◌/◌, ◌≤◌, ◌≢◌, ◌==◌, ◌≡◌, refl, true, false, some, List, [], ◌∷◌, arith, inl,
  inr, Option-cases,
}
use apple_pod_control.Text.{Text, contains_string}
use apple_pod_control.Net.{Prefix, parse_ipv4, block_size, prefix_contains, masked}
use apple_pod_control.Host.Action.{ok}
use apple_pod_control.Ha.Types.{HaMember}
use apple_pod_control.Ha.Names.{dns_label, ha_member_count}
use apple_pod_control.Ha.Config.{
  Seen, normalize_member, contains_number, usable_address, last_ipv4_address, >>=ᵣ-eq-ok,
}
use apple_pod_control.Ha.Config.Normalize.{normalize_members}

-- An address of the subnet that is not its first, its second or its last.
pub record IsUsable (prefix : Prefix) (address : ℕ) : Type 0 where
  pub inside : address / block_size prefix.bits ≡ prefix.addr / block_size prefix.bits
  pub not_network : address ≢ prefix.addr
  pub not_gateway : address ≢ prefix.addr + 1
  pub not_last :
      address
      ≢ prefix.addr / block_size prefix.bits * block_size prefix.bits + (block_size prefix.bits - 1)

equal_numbers : (a b : ℕ) → (a == b) ≡ true → a ≡ b
equal_numbers a b e = ground (arith, e)

other_numbers : (a b : ℕ) → (a == b) ≡ false → a ≢ b
other_numbers a b e same = ground (arith, e, same)

usable_address-IsUsable :
    (prefix : Prefix) (address : ℕ) → usable_address prefix address ≡ true → IsUsable prefix address
unfolding usable_address prefix_contains last_ipv4_address masked
usable_address-IsUsable prefix address e = record {
  inside = equal_numbers _ _ (ground (arith, e));
  not_network = other_numbers _ _ (ground (arith, e));
  not_gateway = other_numbers _ _ (ground (arith, e));
  not_last = other_numbers _ _ (ground (arith, e));
}

-- A member that may follow those seen, at its address.
pub record Fits (prefix : Prefix) (seen : Seen) (m : HaMember) (address : ℕ) : Type 0 where
  pub id_low : 1 ≤ m.id
  pub id_high : m.id ≤ 3
  pub id_new : contains_number seen.ids m.id ≡ false
  pub named : dns_label m.node_name ≡ true
  pub name_new : contains_string seen.nodes m.node_name ≡ false
  pub at_address : parse_ipv4 m.stable_ip ≡ some address
  pub usable : IsUsable prefix address
  pub address_new : contains_number seen.ips address ≡ false
  pub mac_new : contains_string seen.macs m.mac ≡ false
  pub port_low : 1 ≤ m.host_api_port
  pub port_high : m.host_api_port ≤ 65535
  pub port_new : contains_number seen.ports m.host_api_port ≡ false

-- The values seen, and those of one more member.
abbrev pub with_member : Seen → HaMember → ℕ → Seen
with_member seen m address = record {
  ids = m.id ∷ seen.ids;
  nodes = m.node_name ∷ seen.nodes;
  ips = address ∷ seen.ips;
  macs = m.mac ∷ seen.macs;
  ports = m.host_api_port ∷ seen.ports;
}

-- Members each of which fits after those before it.
pub data Admitted (prefix : Prefix) : Seen → List HaMember → Type 0 where
  nobody : {seen : Seen} → Admitted prefix seen []
  and_member :
      {seen : Seen} {m : HaMember} {rest : List HaMember} (address : ℕ)
      → Fits prefix seen m address
      → Admitted prefix (with_member seen m address) rest
      → Admitted prefix seen (m ∷ rest)

normalize_member-Fits :
    (name : Text) (prefix : Prefix) (seen : Seen) (member stored : HaMember) (taken : Seen)
    → normalize_member name prefix seen member ≡ ok (stored, taken)
    → (address : ℕ) × Fits prefix seen stored address
      × (taken ≡ with_member seen stored address)
      × (stored.id ≡ member.id)
unfolding normalize_member ha_member_count
normalize_member-Fits name prefix seen member stored taken h =
    elim (Option-cases (parse_ipv4 member.stable_ip)) [
      | inl missing ↦ ground (arith, h, missing)
      | inr (a, found) ↦ (
        a,
        record {
          id_low = ground (arith, h, found);
          id_high = ground (arith, h, found);
          id_new = ground (arith, h, found);
          named = ground (arith, h, found);
          name_new = ground (arith, h, found);
          at_address = ground (arith, h, found);
          usable = usable_address-IsUsable prefix a (ground (arith, h, found));
          address_new = ground (arith, h, found);
          mac_new = ground (arith, h, found);
          port_low = ground (arith, h, found);
          port_high = ground (arith, h, found);
          port_new = ground (arith, h, found);
        },
        ground (arith, h, found),
        ground (arith, h, found),
      )
    ]

abbrev pub ids_of : List HaMember → List ℕ
ids_of [] = []
ids_of (m ∷ rest) = m.id ∷ ids_of rest

-- The members that come out are admitted, and their identifiers are those that went in.
pub normalize_members-Admitted :
    (name : Text) (prefix : Prefix) (seen : Seen) (members result : List HaMember)
    → normalize_members name prefix seen members ≡ ok result
    → Admitted prefix seen result × (ids_of result ≡ ids_of members)
unfolding normalize_members
normalize_members-Admitted name prefix seen [] [] h = (nobody, refl)
normalize_members-Admitted name prefix seen [] (m ∷ rest) h = ground (arith, h)
normalize_members-Admitted name prefix seen (member ∷ members) result h =
    let ((stored, taken), e1, r1) = >>=ᵣ-eq-ok _ _ result h in
    let (others, e2, r2) = >>=ᵣ-eq-ok _ _ result r1 in
    let (address, fits, same, id) = normalize_member-Fits name prefix seen member stored taken e1 in
    let (admitted, ids) = normalize_members-Admitted name prefix taken members others e2 in
    let is_result : stored ∷ others ≡ result = ground (arith, r2) in
    subst (λ l. Admitted prefix seen l × (ids_of l ≡ ids_of (member ∷ members))) is_result
      (
        and_member address fits (subst (λ s. Admitted prefix s others) same admitted),
        rw (id, ids) refl,
      )
