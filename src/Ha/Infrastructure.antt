-- ===== src/Ha/Infrastructure.antt =====
-- The network and the volumes of a new cluster (internal/cluster/ha.go): their creation, and the
-- rollback of what was created.
pub mod Rollback
use apple_pod_control.Prelude.{ℕ, Bool, true, false, List, [], ◌∷◌, ◌++◌, if◌then◌else◌}
use apple_pod_control.Text.{Text, text}
use apple_pod_control.Text.Numbers.{itoa}
use apple_pod_control.Host.{
  Host, Error, fail, join, Context, volume_delete, network_delete, network_create, volume_create,
}
use apple_pod_control.Host.Action.{
  Res, ok, err, Action, pure, lift, attempt, raise_if, ◌>>=◌, run_command, command_error,
}
use apple_pod_control.Ha.Types.{HaMember, HaConfig}
use apple_pod_control.Ha.Names.{ha_volume_name}
use apple_pod_control.Ha.Addresses.Envelope.{run_ha_bounded}

unfoldable pub create_ha_owned_network : Host → Context → HaConfig → Action (Unit {0})
create_ha_owned_network host ctx config = do
  reply ← run_command host ctx (
      network_create (
        text "--subnet"
        ∷ config.subnet
        ∷ text "--label"
        ∷ text "apc.dev/managed=true"
        ∷ text "--label"
        ∷ (text "apc.dev/cluster=" ++ config.name)
        ∷ config.network_name
        ∷ []))
  raise_if reply.failed (command_error "create HA network")

unfoldable pub create_ha_owned_volume : Host → Context → HaConfig → HaMember → Action (Unit {0})
create_ha_owned_volume host ctx config member = do
  reply ← run_command host ctx (
      volume_create (
        text "--label"
        ∷ text "apc.dev/managed=true"
        ∷ text "--label"
        ∷ (text "apc.dev/cluster=" ++ config.name)
        ∷ text "--label"
        ∷ text "apc.dev/role=server"
        ∷ text "--label"
        ∷ (text "apc.dev/member=" ++ itoa member.id)
        ∷ text "-s"
        ∷ config.volume_size
        ∷ ha_volume_name config.name member.id
        ∷ []))
  raise_if reply.failed (command_error "create HA member data volume")

-- `rollbackErrors = append(rollbackErrors, err)`, for an error.
unfoldable pub noted : List Error → Res (Unit {0}) → List Error
noted errors (ok _) = errors
noted errors (err e) = errors ++ e ∷ []

-- The loop over the volumes, from the last to the first; an error does not end it.
unfoldable pub rollback_volumes : Host → Context → HaConfig → List ℕ → Action (List Error)
rollback_volumes host ctx config [] = pure []
rollback_volumes host ctx config (id ∷ rest) = do
  errors ← rollback_volumes host ctx config rest
  result ← attempt (
      run_ha_bounded host ctx "roll back HA data volume "
        (volume_delete (ha_volume_name config.name id)))
  pure (noted errors result)

unfoldable pub rollback_network : Host → Context → HaConfig → List Error → Action (List Error)
rollback_network host ctx config errors = do
  result ←
      attempt (run_ha_bounded host ctx "roll back HA network " (network_delete config.network_name))
  pure (noted errors result)

abbrev joined_from : Error → List Error → Error
joined_from e [] = e
joined_from e (f ∷ rest) = joined_from (join e f) rest

-- errors.Join(rollbackErrors...)
unfoldable pub joined : List Error → Res (Unit {0})
joined [] = ok tt
joined (e ∷ rest) = err (joined_from e rest)

unfoldable pub rollback_ha_fresh_infrastructure :
    Host → Context → HaConfig → List ℕ → Bool → Action (Unit {0})
rollback_ha_fresh_infrastructure host ctx config volume_ids network_created = do
  errors ← rollback_volumes host ctx config volume_ids
  all_errors ← if network_created then rollback_network host ctx config errors else pure errors
  lift (joined all_errors)
