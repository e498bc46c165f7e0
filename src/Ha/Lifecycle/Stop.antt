-- ===== src/Ha/Lifecycle/Stop.antt =====
-- The stop and the deletion of a whole cluster (internal/cluster/ha.go): StopHA and DeleteHA.
pub mod Effects
pub mod Unlocked
use apple_pod_control.Prelude.{Bool, true, false, Option, none, some, List, [], ◌∷◌, if◌then◌else◌}
use apple_pod_control.Text.{Text, text}
use apple_pod_control.Host.{Host, Context, stop, delete, volume_delete, network_delete}
use apple_pod_control.Host.Action.{Action, pure, lift, ◌>>=◌, ◌>>◌}
use apple_pod_control.Ha.Types.{HaMember, HaConfig, HaContainerInspect}
use apple_pod_control.Ha.Names.{ha_container_name, ha_volume_name}
use apple_pod_control.Ha.Config.{ha_config_path, join_path}
use apple_pod_control.Ha.Config.Normalize.{load_ha_config}
use apple_pod_control.Ha.Inspect.{is_stopped}
use apple_pod_control.Ha.Preflight.{HaPreflight, get_id, preflight_ha}
use apple_pod_control.Ha.DesiredState.{mark_ha_cluster_stopped_locked}
use apple_pod_control.Ha.Addresses.Envelope.{run_ha_bounded}
use apple_pod_control.Ha.Files.{
  remove_exact_files, clear_current_cluster, remove_empty_cluster_directory,
}
use apple_pod_control.Ha.Lock.{acquire_ha_lifecycle_operation_lock, under_lock}

-- A member's server is stopped, unless it is missing or stopped already.
stop_found : Host → Context → HaConfig → HaMember → Option HaContainerInspect → Action Unit
stop_found host ctx config member none = pure tt
stop_found host ctx config member (some r) =
    if is_stopped r.state
    then pure tt
    else run_ha_bounded host ctx "stop HA server member %d"
        (stop (ha_container_name config.name member.id))

-- The loop, from the last member to the first.
stop_members : Host → Context → HaConfig → HaPreflight → List HaMember → Action Unit
unfolding stop_found
stop_members host ctx config preflight [] = pure tt
stop_members host ctx config preflight (member ∷ rest) =
    stop_members host ctx config preflight rest
    >> stop_found host ctx config member (get_id preflight.container_record member.id)

-- stopHALocked after the configuration has been loaded.
stop_loaded : Host → Context → HaConfig → Action Unit
unfolding stop_members
stop_loaded host ctx config = do
  mark_ha_cluster_stopped_locked host config.name
  preflight ← preflight_ha host ctx config true
  stop_members host ctx config preflight config.members

unfoldable pub stop_ha_locked : Host → Context → Text → Action Unit
unfolding stop_loaded
stop_ha_locked host ctx name = load_ha_config host name >>= stop_loaded host ctx

-- StopHA
unfoldable pub stop_ha : Host → Context → Text → Action Unit
stop_ha host ctx name = acquire_ha_lifecycle_operation_lock host ctx name >>= λ _.
    under_lock host name (stop_ha_locked host ctx name)

-- A member's server is deleted if it is there, stopped first if it is not stopped.
delete_found : Host → Context → HaConfig → HaMember → Option HaContainerInspect → Action Unit
delete_found host ctx config member none = pure tt
delete_found host ctx config member (some r) =
    (if is_stopped r.state
      then pure tt
      else run_ha_bounded host ctx "stop HA server member %d before deletion"
          (stop (ha_container_name config.name member.id)))
    >> run_ha_bounded host ctx "delete HA server member %d envelope"
        (delete (ha_container_name config.name member.id))

delete_members : Host → Context → HaConfig → HaPreflight → List HaMember → Action Unit
unfolding delete_found
delete_members host ctx config preflight [] = pure tt
delete_members host ctx config preflight (member ∷ rest) =
    delete_members host ctx config preflight rest
    >> delete_found host ctx config member (get_id preflight.container_record member.id)

delete_volume : Host → Context → HaConfig → HaMember → Option (Unit {0}) → Action Unit
delete_volume host ctx config member none = pure tt
delete_volume host ctx config member (some found) =
    run_ha_bounded host ctx "delete HA member %d data volume"
      (volume_delete (ha_volume_name config.name member.id))

delete_volumes : Host → Context → HaConfig → HaPreflight → List HaMember → Action Unit
unfolding delete_volume
delete_volumes host ctx config preflight [] = pure tt
delete_volumes host ctx config preflight (member ∷ rest) =
    delete_volumes host ctx config preflight rest
    >> delete_volume host ctx config member (get_id preflight.volume_exists member.id)

delete_network : Host → Context → HaConfig → HaPreflight → Action Unit
delete_network host ctx config preflight =
    if preflight.network_exists
    then run_ha_bounded host ctx "delete HA network " (network_delete config.network_name)
    else pure tt

-- The local files, the configuration last.
delete_files : Host → HaConfig → Action Unit
delete_files host config = do
  config_path ← lift (ha_config_path host config.name)
  recovery_path ← lift (ha_config_path host config.name)
  desired_path ← lift (ha_config_path host config.name)
  remove_exact_files host (
      config.kubeconfig_path
      ∷ config.token_file
      ∷ join_path (host.path_dir recovery_path) (text "ha-recovery-state.json")
      ∷ join_path (host.path_dir desired_path) (text "ha-desired-state.json")
      ∷ config_path
      ∷ [])
  clear_current_cluster host config.name
  remove_empty_cluster_directory host config.name

delete_data : Host → Context → HaConfig → HaPreflight → Action Unit
unfolding delete_volumes delete_network delete_files
delete_data host ctx config preflight = do
  delete_volumes host ctx config preflight config.members
  delete_network host ctx config preflight
  delete_files host config

-- deleteHALocked after the configuration has been loaded.
delete_loaded : Host → Context → Bool → HaConfig → Action Unit
unfolding delete_members delete_data
delete_loaded host ctx keep_data config = do
  if keep_data then mark_ha_cluster_stopped_locked host config.name else pure tt
  preflight ← preflight_ha host ctx config true
  delete_members host ctx config preflight config.members
  if keep_data then pure tt else delete_data host ctx config preflight

unfoldable pub delete_ha_locked : Host → Context → Text → Bool → Action Unit
unfolding delete_loaded
delete_ha_locked host ctx name keep_data =
    load_ha_config host name >>= delete_loaded host ctx keep_data

-- DeleteHA
unfoldable pub delete_ha : Host → Context → Text → Bool → Action Unit
delete_ha host ctx name keep_data = acquire_ha_lifecycle_operation_lock host ctx name >>= λ _.
    under_lock host name (delete_ha_locked host ctx name keep_data)
