-- ===== src/Ha/Addresses/Collisions.antt =====
-- What the collision checks find.
use mathlib.Core.List.{Memᴰ}
use apple_pod_control.Prelude.{
  ℕ, ◌≡◌, ◌≢◌, refl, Option, none, some, List, [], ◌∷◌, All, arith, inl, inr, Bool-cases, ◌==◌, ◌⊎◌,
}
use apple_pod_control.Text.{Text, text_eq, text_eq_iff, text_eq_sound}
use apple_pod_control.Net.{parse_ipv4, ipv4_string}
use apple_pod_control.Ha.Types.{HaMember, HaConfig, HaRuntimeIpCollision}
use apple_pod_control.Ha.Addresses.{find_collision, ha_runtime_ip_collision_for_address}

-- A member that is the given one, or does not have the address as its stable address.
abbrev pub Free : HaMember → Text → HaMember → Type 0
Free member address stable = (stable.id ≡ member.id) ⊎ (stable.stable_ip ≢ address)

-- A collision with one of the members: another one, whose stable address is this.
pub record Taken (members : List HaMember) (member : HaMember) (address : Text)
    (c : HaRuntimeIpCollision) : Type 0 where
  pub declared : Memᴰ c.stable_member members
  pub of_member : c.runtime_member ≡ member
  pub at_address : c.address ≡ address
  pub another : c.stable_member.id ≢ member.id
  pub reserved : c.stable_member.stable_ip ≡ address

-- What the result of a search says: no collision with any of the members, or one of them.
abbrev pub Says : List HaMember → HaMember → Text → Option HaRuntimeIpCollision → Type 0
Says members member address none = All (Free member address) members
Says members member address (some c) = Taken members member address c

Says-more :
    (stable member : HaMember) (rest : List HaMember) (address : Text)
    (o : Option HaRuntimeIpCollision)
    → Free member address stable
    → Says rest member address o
    → Says (stable ∷ rest) member address o
Says-more stable member rest address none f s = (f, s)
Says-more stable member rest address (some c) f s = record {
  declared = Memᴰ.tail s.declared;
  of_member = s.of_member;
  at_address = s.at_address;
  another = s.another;
  reserved = s.reserved;
}

find_collision-Says :
    (members : List HaMember) (member : HaMember) (address : Text)
    → Says members member address (find_collision members member address)
unfolding find_collision
find_collision-Says [] member address = tt
find_collision-Says (stable ∷ rest) member address =
    let more = find_collision-Says rest member address in
    elim (Bool-cases (stable.id == member.id)) [
      | inl same ↦
          rw (same, find_collision)
            (Says-more stable member rest address _ (inl (ground (arith, same))) more)
      | inr other ↦ elim (Bool-cases (text_eq stable.stable_ip address)) [
        | inl hit ↦
            rw (other, hit, find_collision)
              (record {
                declared = Memᴰ.head refl;
                of_member = refl;
                at_address = refl;
                another = λ e. ground (arith, other, e);
                reserved = text_eq_sound stable.stable_ip address hit;
              })
        | inr miss ↦
            rw (other, miss, find_collision)
              (Says-more stable member rest address _
                (inr (λ e. ground (arith, miss, e, text_eq_iff stable.stable_ip address))) more)
      ]
    ]

-- For an address that parses, a reported collision is with another declared member whose stable
-- address is the canonical form of it, and where none is reported there is no such member.
pub ha_runtime_ip_collision_for_address-Says :
    (config : HaConfig) (member : HaMember) (address : Text) (a : ℕ)
    → parse_ipv4 address ≡ some a
    → Says config.members member
        (ipv4_string a)
        (ha_runtime_ip_collision_for_address config member address)
unfolding ha_runtime_ip_collision_for_address
ha_runtime_ip_collision_for_address-Says config member address a p =
    rw (p, Says) (find_collision-Says config.members member (ipv4_string a))
