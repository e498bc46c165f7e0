-- ===== src/Ha/Preflight.antt =====
-- preflightHA (internal/cluster/ha.go): what exists of a cluster, each part with its exact identity.
pub mod Queries
use apple_pod_control.Prelude.{
  ℕ, Bool, true, false, ◌&&◌, not, Option, none, some, List, [], ◌∷◌, ◌==◌, if◌then◌else◌, length,
}
use apple_pod_control.Host.{Host, Error, fail, Context, is_not_found_error}
use apple_pod_control.Host.Action.{
  Res, ok, err, Action, pure, raise, lift, attempt, raise_if, ◌>>=◌, ◌>>◌,
}
use apple_pod_control.Ha.Types.{
  HaMember, HaConfig, HaContainerInspect, HaVolumeInspect, HaNetworkInspect,
}
use apple_pod_control.Ha.Names.{ha_container_name, ha_volume_name, ha_member_count}
use apple_pod_control.Ha.Inspect.{validate_ha_container, validate_ha_volume, validate_ha_network}
use apple_pod_control.Ha.Inspect.Query.{inspect_ha_container, inspect_ha_volume, inspect_ha_network}

-- A Go map from member identifiers, with one entry for each key.
abbrev pub IdMap : Type 0 → Type 0
IdMap V = List (ℕ × V)

module _ {V : Type 0} where
  unfoldable pub get_id : IdMap V → ℕ → Option V
  get_id [] id = none
  get_id ((k, v) ∷ m) id = if k == id then some v else get_id m id

  unfoldable pub put_id : IdMap V → ℕ → V → IdMap V
  put_id [] id v = (id, v) ∷ []
  put_id ((k, w) ∷ m) id v = if k == id then (id, v) ∷ m else (k, w) ∷ put_id m id v

pub record HaPreflight : Type 0 where
  pub network_exists : Bool
  pub volume_exists : IdMap (Unit {0})
  pub container_record : IdMap HaContainerInspect

-- `switch { case err == nil: … case errors.Is(err, ErrNotFound): default: return err }`
unfoldable pub if_found : {A : Type 0} → Res A → Action (Option A)
if_found (ok a) = pure (some a)
if_found (err e) = if is_not_found_error e then pure none else raise e

-- An inspection in which a missing resource is no error.
unfoldable pub optional : {A : Type 0} → Action A → Action (Option A)
unfolding if_found
optional m = attempt m >>= if_found

note_network : HaConfig → Option HaNetworkInspect → HaPreflight → Action HaPreflight
note_network config none p = pure p
note_network config (some r) p =
    lift (validate_ha_network r config) >> pure (record p { network_exists = true })

note_volume : HaConfig → HaMember → Option HaVolumeInspect → HaPreflight → Action HaPreflight
note_volume config member none p = pure p
note_volume config member (some r) p =
    lift (validate_ha_volume r config member)
    >> pure (record p { volume_exists = put_id p.volume_exists member.id tt })

note_container :
    Host → HaConfig → HaMember → Option HaContainerInspect → HaPreflight → Action HaPreflight
note_container host config member none p = pure p
note_container host config member (some r) p =
    lift (validate_ha_container host r config member)
    >> pure (record p { container_record = put_id p.container_record member.id r })

-- The loop over the members.
preflight_members : Host → Context → HaConfig → List HaMember → HaPreflight → Action HaPreflight
unfolding note_volume note_container
preflight_members host ctx config [] p = pure p
preflight_members host ctx config (member ∷ rest) p = do
  volume ← optional (inspect_ha_volume host ctx (ha_volume_name config.name member.id))
  with_volume ← note_volume config member volume p
  found ← optional (inspect_ha_container host ctx (ha_container_name config.name member.id))
  with_container ← note_container host config member found with_volume
  preflight_members host ctx config rest with_container

abbrev nothing_found : HaPreflight
nothing_found = record { network_exists = false; volume_exists = []; container_record = [] }

-- A cluster with some of its volumes, and not all.
mixed : Bool → HaPreflight → Bool
mixed allow_partial_volumes p =
    let existing = length p.volume_exists in
    not allow_partial_volumes && not (existing == 0) && not (existing == ha_member_count)

unfoldable pub preflight_ha : Host → Context → HaConfig → Bool → Action HaPreflight
unfolding note_network preflight_members mixed
preflight_ha host ctx config allow_partial_volumes = do
  network ← optional (inspect_ha_network host ctx config.network_name)
  start ← note_network config network nothing_found
  result ← preflight_members host ctx config config.members start
  raise_if (mixed allow_partial_volumes result)
      (fail "refusing mixed HA state: found %d of 3 member volumes")
  pure result
