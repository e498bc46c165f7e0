-- ===== src/Ha/Addresses.antt =====
-- Runtime addresses against the members' stable addresses (internal/cluster/ha_addresses.go).
pub mod Peers
pub mod Envelope
pub mod Collisions
use apple_pod_control.Prelude.{
  ℕ, ◌+◌, Bool, true, false, ◌&&◌, ◌||◌, not, Option, none, some, List, [], ◌∷◌, ◌++◌, ltb, ◌==◌,
  if◌then◌else◌, String,
}
use apple_pod_control.Text.{Text, text, text_eq, trim_space, cut_prefix, split}
use apple_pod_control.Net.{Prefix, parse_ipv4, ipv4_string, parse_prefix}
use apple_pod_control.Host.{Error, fail, wrap, collision}
use apple_pod_control.Host.Action.{Res, ok, err, wrap_res}
use apple_pod_control.Ha.Types.{HaMember, HaConfig, HaContainerInspect, HaRuntimeIpCollision}
use apple_pod_control.Ha.Names.{member_by_id}
use apple_pod_control.Ha.Config.{◌>>=ᵣ◌}
use apple_pod_control.Ha.Inspect.{is_running}
use apple_pod_control.Ha.Preflight.{IdMap, get_id}

-- The first other member whose stable address is the given one.
unfoldable pub find_collision : List HaMember → HaMember → Text → Option HaRuntimeIpCollision
find_collision [] runtime_member address = none
find_collision (stable ∷ rest) runtime_member address =
    if stable.id == runtime_member.id || not (text_eq stable.stable_ip address)
    then find_collision rest runtime_member address
    else some
        (record { address = address; runtime_member = runtime_member; stable_member = stable })

unfoldable pub ha_runtime_ip_collision_for_address :
    HaConfig → HaMember → Text → Option HaRuntimeIpCollision
unfolding find_collision
ha_runtime_ip_collision_for_address config runtime_member address = elim (parse_ipv4 address) [
  | none ↦ none
  | some a ↦ find_collision config.members runtime_member (ipv4_string a)
]

prefix_address : Option Prefix → Res Text
prefix_address none = err (fail "runtime reported invalid IPv4 address %q")
prefix_address (some p) = ok (ipv4_string p.addr)

only_address : List Text → Res Text
unfolding prefix_address
only_address (address ∷ []) = prefix_address (parse_prefix address)
only_address _ = err (fail "runtime reported %d network attachments, expected exactly one")

unfoldable pub ha_container_runtime_ipv4 : HaContainerInspect → Res Text
unfolding only_address
ha_container_runtime_ipv4 r = only_address r.status_networks

abbrev collision_marker : Text
collision_marker = text "APC_HA_RUNTIME_IP_COLLISION="

line_collision : HaConfig → HaMember → Text → Option HaRuntimeIpCollision
line_collision config member line = elim (cut_prefix collision_marker (trim_space line)) [
  | none ↦ none
  | some address ↦ ha_runtime_ip_collision_for_address config member (trim_space address)
]

lines_collision : HaConfig → HaMember → List Text → Option HaRuntimeIpCollision
unfolding line_collision
lines_collision config member [] = none
lines_collision config member (line ∷ rest) = elim (line_collision config member line) [
  | some c ↦ some c
  | none ↦ lines_collision config member rest
]

unfoldable pub ha_runtime_ip_collision_from_output :
    Text → HaConfig → HaMember → Option HaRuntimeIpCollision
unfolding lines_collision
ha_runtime_ip_collision_from_output output config member =
    lines_collision config member (split 10 output)

refuse_collision : Option HaRuntimeIpCollision → Res (Unit {0})
refuse_collision none = ok tt
refuse_collision (some c) = err (
    wrap "%w; apple/container 1.0 allocates runtime IPv4 independently of the requested MAC"
      (collision c))

-- One record of validateHACurrentRuntimeIPReservations.
unfoldable pub check_reservation : HaConfig → ℕ → HaContainerInspect → Res (Unit {0})
unfolding refuse_collision
check_reservation config id r = elim (is_running r.state) [
  | false ↦ ok tt
  | true ↦ elim r.status_networks [
    | [] ↦ ok tt
    | address ∷ rest ↦
        wrap_res "inspect HA member %d runtime address: %w" (ha_container_runtime_ipv4 r)
        >>=ᵣ λ runtime.
            refuse_collision
              (ha_runtime_ip_collision_for_address config (member_by_id config.members id) runtime)
  ]
]

-- The records in the order of their identifiers.
insert_record : ℕ → HaContainerInspect → IdMap HaContainerInspect → IdMap HaContainerInspect
insert_record id r [] = (id, r) ∷ []
insert_record id r ((k, s) ∷ m) =
    if ltb k id then (k, s) ∷ insert_record id r m else (id, r) ∷ (k, s) ∷ m

unfoldable pub sort_records : IdMap HaContainerInspect → IdMap HaContainerInspect
unfolding insert_record
sort_records [] = []
sort_records ((id, r) ∷ m) = insert_record id r (sort_records m)

unfoldable pub check_reservations : HaConfig → IdMap HaContainerInspect → Res (Unit {0})
check_reservations config [] = ok tt
check_reservations config ((id, r) ∷ m) =
    check_reservation config id r >>=ᵣ λ _. check_reservations config m

unfoldable pub validate_ha_current_runtime_ip_reservations :
    HaConfig → IdMap HaContainerInspect → Res (Unit {0})
unfolding check_reservations sort_records
validate_ha_current_runtime_ip_reservations config records =
    check_reservations config (sort_records records)
