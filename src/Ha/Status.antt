-- ===== src/Ha/Status.antt =====
-- StatusHA (internal/cluster/ha.go) and the readiness tests on its result (ha_members.go).
pub mod Queries
pub mod Counts
pub mod Quorum
pub mod Loaded
use apple_pod_control.Prelude.{
  ℕ, suc, ◌+◌, ◌/◌, ◌-◌, Bool, true, false, ◌&&◌, ◌||◌, not, Option, none, some, List, [], ◌∷◌,
  ◌++◌, leb, ◌==◌, if◌then◌else◌, length,
}
use apple_pod_control.Text.{Text, text, split}
use apple_pod_control.Host.{Host, Error, Context, probed_api, is_not_found_error}
use apple_pod_control.Host.Action.{
  Res, ok, err, Action, pure, raise, lift, attempt, ask, ◌>>=◌, ◌>>◌,
}
use apple_pod_control.Ha.Types.{
  HaMember, HaConfig, HaMemberState, HaState, HaContainerInspect, HaNodeDocument,
}
use apple_pod_control.Ha.Names.{ha_container_name, ha_member_count}
use apple_pod_control.Ha.Config.Normalize.{load_ha_config}
use apple_pod_control.Ha.Inspect.{validate_ha_container, is_running}
use apple_pod_control.Ha.Inspect.Arguments.{api_endpoint}
use apple_pod_control.Ha.Inspect.Query.{
  inspect_ha_container, read_ha_member_node, node_document_ready,
}
use apple_pod_control.Ha.Preflight.{optional}

-- A member of which no container was found.
unfoldable pub missing_member : HaConfig → HaMember → HaMemberState
missing_member config member = record {
  id = member.id;
  node_name = member.node_name;
  container = ha_container_name config.name member.id;
  runtime_state = text "missing";
  stable_ip = member.stable_ip;
  vm_address = [];
  api_endpoint = api_endpoint member config.listen_address;
  api_ready = false;
  node_ready = false;
  k3s_version = [];
}

-- strings.Split(address, "/")[0]
before_slash : List Text → Text
before_slash [] = []
before_slash (part ∷ parts) = part

vm_address_of : List Text → Text
unfolding before_slash
vm_address_of [] = []
vm_address_of (address ∷ rest) = before_slash (split b'/' address)

-- The readiness of a running member, from the API probe and the node, if that could be read.
with_node : HaMemberState → Bool → Res HaNodeDocument → HaMemberState
with_node state host_api_ready (err e) = state
with_node state host_api_ready (ok node) = record state {
  api_ready = host_api_ready;
  node_ready = node_document_ready node.conditions;
  k3s_version = node.kubelet_version;
}

probe_member : Host → Context → HaConfig → HaMember → HaMemberState → Action HaMemberState
unfolding with_node
probe_member host ctx config member state = do
  host_api_ready ← ask (probed_api member) (host.api_ready ctx member)
  node ← attempt (read_ha_member_node host ctx config member)
  pure (with_node state host_api_ready node)

found_member :
    Host → Context → HaConfig → HaMember → Option HaContainerInspect → Action HaMemberState
unfolding vm_address_of probe_member missing_member
found_member host ctx config member none = pure (missing_member config member)
found_member host ctx config member (some r) = do
  lift (validate_ha_container host r config member)
  let state = record (missing_member config member) {
    runtime_state = r.state;
    vm_address = vm_address_of r.status_networks;
  }
  if is_running r.state then probe_member host ctx config member state else pure state

-- One turn of the loop of StatusHA.
unfoldable pub status_member : Host → Context → HaConfig → HaMember → Action HaMemberState
unfolding found_member
status_member host ctx config member = do
  found ← optional (inspect_ha_container host ctx (ha_container_name config.name member.id))
  found_member host ctx config member found

-- `state.ReadyMembers++` for a Ready pair, and the appended member.
unfoldable pub add_member : HaState → HaMemberState → HaState
add_member state m = record state {
  ready_members =
      if m.node_ready && m.api_ready then state.ready_members + 1 else state.ready_members;
  members = state.members ++ m ∷ [];
}

status_members : Host → Context → HaConfig → List HaMember → HaState → Action HaState
unfolding add_member
status_members host ctx config [] state = pure state
status_members host ctx config (member ∷ rest) state = do
  m ← status_member host ctx config member
  status_members host ctx config rest (add_member state m)

initial_state : HaConfig → HaState
initial_state config = record {
  name = config.name;
  network_name = config.network_name;
  subnet = config.subnet;
  kubeconfig = config.kubeconfig_path;
  quorum = length config.members / 2 + 1;
  ready_members = 0;
  healthy = false;
  members = [];
}

unfoldable pub status_ha : Host → Context → Text → Action HaState
unfolding status_members initial_state
status_ha host ctx name = do
  config ← load_ha_config host name
  state ← status_members host ctx config config.members (initial_state config)
  pure (record state { healthy = leb state.quorum state.ready_members })

-- haMemberStateByID
unfoldable pub ha_member_state_by_id : List HaMemberState → ℕ → Option HaMemberState
ha_member_state_by_id [] id = none
ha_member_state_by_id (m ∷ rest) id = if m.id == id then some m else ha_member_state_by_id rest id

-- The test inside both loops below.
unfoldable pub pair_ready : HaMemberState → Bool
pair_ready m = m.node_ready && m.api_ready && is_running m.runtime_state

every_pair_ready : List HaMemberState → Bool
unfolding pair_ready
every_pair_ready [] = true
every_pair_ready (m ∷ rest) = pair_ready m && every_pair_ready rest

unfoldable pub all_ha_members_ready : HaState → Bool
unfolding every_pair_ready
all_ha_members_ready state =
    length state.members == ha_member_count
    && state.ready_members == ha_member_count
    && every_pair_ready state.members

-- The loop of otherHAMembersReady; `none` is its early return.
ready_others : List HaMemberState → ℕ → Option ℕ
unfolding pair_ready
ready_others [] excluded_id = some 0
ready_others (m ∷ rest) excluded_id =
    let others = ready_others rest excluded_id in
    if m.id == excluded_id
    then others
    else if not (pair_ready m)
    then none
    else elim others [ none ↦ none | some n ↦ some (suc n) ]

abbrev is_two : Option ℕ → Bool
is_two none = false
is_two (some n) = n == ha_member_count - 1

unfoldable pub other_ha_members_ready : HaState → ℕ → Bool
unfolding ready_others
other_ha_members_ready state excluded_id = is_two (ready_others state.members excluded_id)
