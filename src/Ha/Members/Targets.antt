-- ===== src/Ha/Members/Targets.antt =====
-- ImageImportTargets (internal/cluster/ha_targets.go).
pub mod Running
use apple_pod_control.Prelude.{
  false, not, Option, none, some, List, [], ◌∷◌, ◌++◌, ◌==◌, if◌then◌else◌, length,
}
use apple_pod_control.Text.{Text, text}
use apple_pod_control.Host.{Host, fail, Context, is_not_exist_error}
use apple_pod_control.Host.Action.{
  Res, ok, err, Action, pure, raise, lift, attempt, wrapped, raise_if, ◌>>=◌, ◌>>◌,
}
use apple_pod_control.Ha.Types.{HaMember, HaConfig, HaContainerInspect}
use apple_pod_control.Ha.Names.{ha_container_name}
use apple_pod_control.Ha.Config.{◌>>=ᵣ◌, check}
use apple_pod_control.Ha.Config.Normalize.{load_ha_config}
use apple_pod_control.Ha.Inspect.{is_running}
use apple_pod_control.Ha.Preflight.{IdMap, get_id, preflight_ha}

-- ContainerName (cluster.go): the container of a single server.
unfoldable pub container_name : Text → Text
container_name name = text "apc-k3s-" ++ (name ++ text "-server")

running_record : Option HaContainerInspect → Res (Unit {0})
running_record none = err (fail "HA member %d container %q was not validated")
running_record (some r) =
    check (not (is_running r.state))
      (fail "HA member %d container %q is %s; all HA image import targets must be running") (ok tt)

-- The loop over the members.
unfoldable pub collect_targets : Text → List HaMember → IdMap HaContainerInspect → Res (List Text)
unfolding running_record
collect_targets name [] records = ok []
collect_targets name (member ∷ rest) records = running_record (get_id records member.id) >>=ᵣ λ _.
    collect_targets name rest records >>=ᵣ λ targets.
    ok (ha_container_name name member.id ∷ targets)

ha_targets : Host → Context → HaConfig → Action (List Text)
unfolding collect_targets
ha_targets host ctx config = do
  preflight ← wrapped "validate HA image import targets: %w" (preflight_ha host ctx config false)
  raise_if (not preflight.network_exists)
      (fail "HA cluster %q image import requires its exact APC-owned network %q")
  raise_if (not (length preflight.volume_exists == length config.members))
      (fail "HA cluster %q image import requires all %d exact APC-owned member volumes; found %d")
  raise_if (not (length preflight.container_record == length config.members))
      (fail "HA cluster %q image import requires all %d exact APC-owned server envelopes; found %d")
  lift (collect_targets config.name config.members preflight.container_record)

targets_of : Host → Context → Text → Res HaConfig → Action (List Text)
unfolding ha_targets container_name
targets_of host ctx name (err e) =
    if is_not_exist_error e then pure (container_name name ∷ []) else raise e
targets_of host ctx name (ok config) = ha_targets host ctx config

unfoldable pub image_import_targets : Host → Context → Text → Action (List Text)
unfolding targets_of
image_import_targets host ctx name = do
  loaded ← attempt (load_ha_config host name)
  targets_of host ctx name loaded
