-- ===== src/Ha/Inspect/Query.antt =====
-- inspectHAContainer, inspectHAVolume, inspectHANetwork and readHAMemberNode (internal/cluster/ha.go),
-- with isNotFound of cluster.go.
use apple_pod_control.Prelude.{
  Bool, false, ◌||◌, Option, none, some, List, [], ◌∷◌, if◌then◌else◌, String, ◌&&◌,
}
use apple_pod_control.Text.{Text, text, text_eq, to_lower, contains_text}
use apple_pod_control.Host.{
  Host, fail, not_found, Context, inspect, volume_inspect, network_inspect, exec, Reply,
}
use apple_pod_control.Host.Action.{Res, ok, err, Action, lift, ◌>>=◌, run_command, command_error}
use apple_pod_control.Ha.Types.{
  HaMember, HaConfig, HaContainerInspect, HaVolumeInspect, HaNetworkInspect, HaNodeDocument,
}
use apple_pod_control.Ha.Names.{ha_container_name}

-- isNotFound
unfoldable pub is_not_found : Text → Bool
is_not_found stderr =
    let value = to_lower stderr in
    contains_text value (text "not found") || contains_text value (text "does not exist")

abbrev only_record : {A : Type 0} → String → Option (List A) → Res A
only_record what (some (r ∷ [])) = ok r
only_record what _ = err (fail what)

-- What an inspect command's reply means: the record, ErrNotFound, or another error.
record_of : {A : Type 0} → String → (Text → Option (List A)) → Reply → Res A
unfolding is_not_found
record_of what decode reply =
    if reply.failed
    then (if is_not_found reply.stderr then err not_found else err (command_error what))
    else only_record what (decode reply.stdout)

unfoldable pub inspect_ha_container : Host → Context → Text → Action HaContainerInspect
unfolding record_of
inspect_ha_container host ctx name = do
  reply ← run_command host ctx (inspect name)
  lift (record_of "inspect HA server" host.decode_containers reply)

unfoldable pub inspect_ha_volume : Host → Context → Text → Action HaVolumeInspect
unfolding record_of
inspect_ha_volume host ctx name = do
  reply ← run_command host ctx (volume_inspect name)
  lift (record_of "inspect HA data volume" host.decode_volumes reply)

unfoldable pub inspect_ha_network : Host → Context → Text → Action HaNetworkInspect
unfolding record_of
inspect_ha_network host ctx name = do
  reply ← run_command host ctx (network_inspect name)
  lift (record_of "inspect HA network" host.decode_networks reply)

named_node : HaMember → Option HaNodeDocument → Res HaNodeDocument
named_node member none = err (fail "decode HA Kubernetes node: %w")
named_node member (some node) =
    if text_eq node.name member.node_name
    then ok node
    else err (fail "Kubernetes returned node %q for HA member %q")

node_of : Host → HaMember → Reply → Res HaNodeDocument
unfolding named_node
node_of host member reply =
    if reply.failed
    then err (command_error "read HA Kubernetes node")
    else named_node member (host.decode_node reply.stdout)

unfoldable pub read_ha_member_node : Host → Context → HaConfig → HaMember → Action HaNodeDocument
unfolding node_of
read_ha_member_node host ctx config member = do
  reply ← run_command host ctx (
      exec (ha_container_name config.name member.id) (
        text "kubectl"
        ∷ text "get"
        ∷ text "node"
        ∷ member.node_name
        ∷ text "-o"
        ∷ text "json"
        ∷ []))
  lift (node_of host member reply)

-- nodeDocumentReady
unfoldable pub node_document_ready : List (Text × Text) → Bool
node_document_ready [] = false
node_document_ready ((kind, status) ∷ rest) =
    text_eq kind (text "Ready") && text_eq status (text "True") || node_document_ready rest
