-- ===== src/Ha/Lifecycle.antt =====
-- The creation and the start of a whole cluster (internal/cluster/ha.go): CreateHA and StartHA.
pub mod Adds
pub mod Stop
pub mod Recorded
pub mod Backed
pub mod Locked
use apple_pod_control.Prelude.{
  ℕ, zero, suc, Bool, true, false, ◌&&◌, not, Option, none, some, List, [], ◌∷◌, ◌++◌, ◌==◌,
  if◌then◌else◌, length,
}
use apple_pod_control.Text.{Text, text}
use apple_pod_control.Host.{
  Host, Error, fail, wrap, join, context_error, Context, stop, delete, volume_delete,
  network_delete, kubeconfig_written, current_set,
}
use apple_pod_control.Host.Action.{
  Res, ok, err, Action, pure, raise, lift, attempt, wrapped, raise_if, ◌>>=◌, ◌>>◌, with_timeout,
  wait,
}
use apple_pod_control.Ha.Types.{HaMember, HaConfig, HaState, HaContainerInspect, HaNodeDocument}
use apple_pod_control.Ha.Names.{ha_container_name, ha_volume_name, member_by_id}
use apple_pod_control.Ha.Config.{ha_config_path, join_path}
use apple_pod_control.Ha.Config.Normalize.{load_ha_config, normalize_ha_config}
use apple_pod_control.Ha.Inspect.{is_stopped}
use apple_pod_control.Ha.Inspect.Arguments.{api_endpoint}
use apple_pod_control.Ha.Inspect.Query.{read_ha_member_node, node_document_ready}
use apple_pod_control.Ha.Preflight.{HaPreflight, get_id, preflight_ha}
use apple_pod_control.Ha.DesiredState.{
  mark_ha_cluster_stopped_locked, mark_ha_cluster_running_locked,
}
use apple_pod_control.Ha.Addresses.{validate_ha_current_runtime_ip_reservations}
use apple_pod_control.Ha.Addresses.Envelope.{run_ha_bounded}
use apple_pod_control.Ha.Infrastructure.{
  create_ha_owned_network, create_ha_owned_volume, rollback_ha_fresh_infrastructure,
}
use apple_pod_control.Ha.Members.{finish_wait}
use apple_pod_control.Ha.Members.Start.{reconcile_ha_member, wait_ha_cluster_ready}
use apple_pod_control.Ha.Files.{
  change, check_ha_legacy_collision, ensure_ha_token, save_ha_config, check_stored,
  remove_exact_files, read_kubeconfig, clear_current_cluster, remove_empty_cluster_directory,
}
use apple_pod_control.Ha.Lock.{acquire_ha_lifecycle_operation_lock, under_lock}

-- The loop of waitHAMemberReady, for a select that takes its ticker so many times.
is_ready_node : Res HaNodeDocument → Bool
is_ready_node (ok node) = node_document_ready node.conditions
is_ready_node (err e) = false

wait_node : ℕ → Host → Context → HaConfig → HaMember → Action Unit
unfolding is_ready_node
wait_node zero host ctx config member = do
  node ← attempt (read_ha_member_node host ctx config member)
  if is_ready_node node
      then pure tt
      else raise (wrap "HA member %d did not become Ready within %s: %w" context_error)
wait_node (suc ticks) host ctx config member = do
  node ← attempt (read_ha_member_node host ctx config member)
  if is_ready_node node then pure tt else wait >> wait_node ticks host ctx config member

wait_ticks : Host → Context → HaConfig → HaMember → Action Unit
unfolding wait_node
wait_ticks host ctx config member h = wait_node (host.ticks ctx h) host ctx config member h

unfoldable pub wait_ha_member_ready : Host → Context → HaConfig → HaMember → ℕ → Action Unit
unfolding wait_ticks
wait_ha_member_ready host ctx config member timeout = do
  wait_ctx ← with_timeout host ctx timeout
  wait_ticks host wait_ctx config member

has_volume : HaPreflight → HaMember → Bool
has_volume preflight member = elim (get_id preflight.volume_exists member.id) [
  | some found ↦ true
  | none ↦ false
]

-- An error joined with that of the rollback, if there is one.
join_rollback : Error → Res (Unit {0}) → Error
join_rollback e (ok _) = e
join_rollback e (err f) = join e f

after_volume :
    Host
    → Context
    → HaConfig
    → List ℕ
    → Bool
    → ℕ
    → (List ℕ → Action Unit)
    → Res (Unit {0})
    → Action Unit
unfolding join_rollback
after_volume host ctx config created network_created id again (ok _) = again (created ++ id ∷ [])
after_volume host ctx config created network_created id again (err e) = do
  rolled_back ← attempt (rollback_ha_fresh_infrastructure host ctx config created network_created)
  raise (join_rollback e rolled_back)

-- The loop that creates the missing volumes, with those created so far.
create_volumes :
    Host → Context → HaConfig → HaPreflight → Bool → List ℕ → List HaMember → Action Unit
unfolding has_volume after_volume
create_volumes host ctx config preflight network_created created [] = pure tt
create_volumes host ctx config preflight network_created created (member ∷ rest) =
    let skip = create_volumes host ctx config preflight network_created created rest in
    let add =
      attempt (create_ha_owned_volume host ctx config member)
      >>= after_volume host ctx config created network_created member.id
          (λ more. create_volumes host ctx config preflight network_created more rest) in
    if has_volume preflight member then skip else add

reconcile_member : Host → Context → HaConfig → HaPreflight → HaMember → Action Unit
reconcile_member host ctx config preflight member =
    reconcile_ha_member host ctx config member (get_id preflight.container_record member.id)

-- A fresh cluster starts one member after another.
start_each : Host → Context → HaConfig → HaPreflight → List HaMember → Action Unit
unfolding reconcile_member
start_each host ctx config preflight [] = pure tt
start_each host ctx config preflight (member ∷ rest) = do
  reconcile_member host ctx config preflight member
  wait_ha_member_ready host ctx config member config.startup_timeout
  start_each host ctx config preflight rest

reconcile_all : Host → Context → HaConfig → HaPreflight → List HaMember → Action Unit
unfolding reconcile_member
reconcile_all host ctx config preflight [] = pure tt
reconcile_all host ctx config preflight (member ∷ rest) =
    reconcile_member host ctx config preflight member
    >> reconcile_all host ctx config preflight rest

wait_all : Host → Context → HaConfig → List HaMember → Action Unit
wait_all host ctx config [] = pure tt
wait_all host ctx config (member ∷ rest) =
    wait_ha_member_ready host ctx config member config.startup_timeout
    >> wait_all host ctx config rest

start_members : Host → Context → HaConfig → HaPreflight → Action Unit
unfolding start_each reconcile_all wait_all
start_members host ctx config preflight =
    if length preflight.volume_exists == 0
    then start_each host ctx config preflight config.members
    else (do
      reconcile_all host ctx config preflight config.members
      wait_all host ctx config config.members)

-- The checks before the first change.
unfoldable pub check_before_create : Host → Context → HaConfig → Action HaPreflight
check_before_create host ctx config = do
  check_ha_legacy_collision host config.name
  found ← attempt (load_ha_config host config.name)
  check_stored config found
  preflight ← preflight_ha host ctx config false
  lift (validate_ha_current_runtime_ip_reservations config preflight.container_record)
  pure preflight

-- The local files and the intent.
pub record_topology : Host → HaConfig → HaPreflight → Action Unit
record_topology host config preflight = do
  ensure_ha_token host config.token_file (length preflight.volume_exists == 0)
  save_ha_config host config
  wrapped "persist running HA intent before create: %w"
      (mark_ha_cluster_running_locked host config.name)

-- The network and the volumes.
create_infrastructure : Host → Context → HaConfig → HaPreflight → Action Unit
unfolding create_volumes
create_infrastructure host ctx config preflight = do
  if preflight.network_exists then pure tt else create_ha_owned_network host ctx config
  create_volumes host ctx config preflight (not preflight.network_exists) [] config.members

-- SetCurrentCluster is one change here, which may fail.
publish : Host → Context → HaConfig → Action Unit
publish host ctx config = do
  let seed = member_by_id config.members 1
  kubeconfig ←
      read_kubeconfig host ctx (ha_container_name config.name seed.id)
        (api_endpoint seed config.listen_address)
  change host (kubeconfig_written config.kubeconfig_path kubeconfig)
      (fail "write HA kubeconfig: %w")
  change host (current_set config.name) (fail "save current cluster: %w")

-- What follows once the topology is recorded.
pub run_topology : Host → Context → HaConfig → HaPreflight → Action HaState
unfolding create_infrastructure start_members publish
run_topology host ctx config preflight = do
  create_infrastructure host ctx config preflight
  wait_ctx ← with_timeout host ctx config.startup_timeout
  start_members host wait_ctx config preflight
  publish host ctx config
  state ← wait_ha_cluster_ready host wait_ctx config
  pure (record state { kubeconfig = config.kubeconfig_path })

create_checked : Host → Context → HaConfig → HaPreflight → Action HaState
unfolding record_topology run_topology
create_checked host ctx config preflight =
    record_topology host config preflight >>= λ _. run_topology host ctx config preflight

unfoldable pub create_ha_locked : Host → Context → HaConfig → Action HaState
unfolding create_checked
create_ha_locked host ctx config =
    check_before_create host ctx config >>= create_checked host ctx config

-- CreateHA
unfoldable pub create_ha : Host → Context → HaConfig → Action HaState
create_ha host ctx config = do
  normal ← lift (normalize_ha_config host config)
  acquire_ha_lifecycle_operation_lock host ctx normal.name
  under_lock host normal.name (create_ha_locked host ctx normal)

-- A timeout of zero keeps the configured one.
unfoldable pub start_ha_locked : Host → Context → Text → ℕ → Action HaState
start_ha_locked host ctx name timeout = do
  config ← load_ha_config host name
  mark_ha_cluster_running_locked host config.name
  normal ← lift (
      normalize_ha_config host
        (if timeout == 0 then config else record config { startup_timeout = timeout }))
  create_ha_locked host ctx normal

-- StartHA
unfoldable pub start_ha : Host → Context → Text → ℕ → Action HaState
start_ha host ctx name timeout = do
  acquire_ha_lifecycle_operation_lock host ctx name
  under_lock host name (start_ha_locked host ctx name timeout)
