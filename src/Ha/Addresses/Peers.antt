-- ===== src/Ha/Addresses/Peers.antt =====
-- The addresses that the running peers of a member hold already
-- (validateHAPeerRuntimeIPReservations of internal/cluster/ha_addresses.go).
use apple_pod_control.Prelude.{
  ℕ, ◌*◌, true, false, Option, none, some, List, [], ◌∷◌, ◌==◌, if◌then◌else◌,
}
use apple_pod_control.Host.{Host, Error, wrap, context_error, Context, is_not_found_error}
use apple_pod_control.Host.Action.{
  Res, ok, err, Action, pure, raise, lift, attempt, ◌>>=◌, ◌>>◌, context_err, with_timeout,
}
use apple_pod_control.Ha.Types.{HaMember, HaConfig, HaContainerInspect}
use apple_pod_control.Ha.Names.{ha_container_name}
use apple_pod_control.Ha.Inspect.{validate_ha_container}
use apple_pod_control.Ha.Inspect.Query.{inspect_ha_container}
use apple_pod_control.Ha.Preflight.{IdMap, put_id}
use apple_pod_control.Ha.Addresses.{validate_ha_current_runtime_ip_reservations}

abbrev pub nanoseconds : ℕ
nanoseconds = 1_000_000_000

-- The answer to an inspection of a peer that is neither a record nor ErrNotFound.
unfoldable pub peer_error : Host → Context → Error → Action (Option HaContainerInspect)
peer_error host ctx e = do
  expired ← context_err host ctx
  raise (
      if expired
      then wrap "inspect peer runtime addresses before starting HA member %d: %w" context_error
      else e)

unfoldable pub peer_record :
    Host → Context → Res HaContainerInspect → Action (Option HaContainerInspect)
unfolding peer_error
peer_record host ctx (ok r) = pure (some r)
peer_record host ctx (err e) = if is_not_found_error e then pure none else peer_error host ctx e

unfoldable pub note_peer :
    Host
    → HaConfig
    → HaMember
    → Option HaContainerInspect
    → IdMap HaContainerInspect
    → Action (IdMap HaContainerInspect)
note_peer host config member none records = pure records
note_peer host config member (some r) records =
    lift (validate_ha_container host r config member) >> pure (put_id records member.id r)

unfoldable pub inspect_peers :
    Host
    → Context
    → HaConfig
    → HaMember
    → List HaMember
    → IdMap HaContainerInspect
    → Action (IdMap HaContainerInspect)
unfolding peer_record note_peer
inspect_peers host ctx config target [] records = pure records
inspect_peers host ctx config target (member ∷ rest) records = elim (member.id == target.id) [
  | true ↦ inspect_peers host ctx config target rest records
  | false ↦ do
    result ← attempt (inspect_ha_container host ctx (ha_container_name config.name member.id))
    found ← peer_record host ctx result
    noted ← note_peer host config member found records
    inspect_peers host ctx config target rest noted
]

unfoldable pub validate_ha_peer_runtime_ip_reservations :
    Host → Context → HaConfig → HaMember → Action (Unit {0})
unfolding inspect_peers
validate_ha_peer_runtime_ip_reservations host ctx config target = do
  probe_ctx ← with_timeout host ctx (5 * nanoseconds)
  records ← inspect_peers host probe_ctx config target config.members []
  lift (validate_ha_current_runtime_ip_reservations config records)
