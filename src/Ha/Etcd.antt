-- ===== src/Ha/Etcd.antt =====
-- The embedded-etcd topology checks of internal/cluster/ha_etcd.go.
pub mod ServerId
pub mod LocalState
pub mod Queries
pub mod Declared
pub mod Topology
pub mod Voters
use apple_pod_control.Prelude.{
  ℕ, zero, suc, ◌+◌, ◌-◌, Bool, true, false, ◌&&◌, ◌||◌, not, Option, none, some, List, [], ◌∷◌,
  ◌++◌, ltb, leb, ◌==◌, if◌then◌else◌, length, String,
}
use apple_pod_control.Text.{Text, text, text_eq, texts_eq, contains_string, sort_texts}
use apple_pod_control.Host.{Host, Error, fail, wrap, context_error, Context, exec, Reply}
use apple_pod_control.Host.Action.{
  Res, ok, err, Action, pure, raise, lift, raise_if, wrapped, wrap_res, ◌>>=◌, ◌>>◌, run_command,
  with_timeout, context_err, command_error,
}
use apple_pod_control.Ha.Types.{HaMember, HaConfig, HaEtcdMemberTopology}
use apple_pod_control.Ha.Names.{ha_container_name, ha_member_count, member_by_id}
use apple_pod_control.Ha.Config.{◌>>=ᵣ◌, check}
use apple_pod_control.Ha.Etcd.LocalState.{parse_ha_etcd_local_state}

abbrev probe_script : Text
probe_script =
    text
      "set -eu; wget -q -T 3 -O - http://127.0.0.1:2381/health; printf '\\nAPC_ETCD_METRICS_BEGIN\\n'; wget -q -T 3 -O - http://127.0.0.1:2381/metrics"

probe_result : Host → HaMember → Reply → Bool → Res HaEtcdMemberTopology
probe_result host member reply expired =
    if reply.failed
    then (if expired
        then err (wrap "probe local etcd state on HA member %d: %w" context_error)
        else err (command_error "probe local etcd state on HA member %d"))
    else wrap_res "validate local etcd state on HA member %d: %w"
        (parse_ha_etcd_local_state host reply.stdout member)

unfoldable pub probe_ha_etcd_member :
    Host → Context → HaConfig → HaMember → Action HaEtcdMemberTopology
unfolding probe_result
probe_ha_etcd_member host ctx config member = do
  probe_ctx ← with_timeout host ctx 5_000_000_000
  reply ← run_command host probe_ctx (
      exec (ha_container_name config.name member.id)
        (text "/bin/sh" ∷ text "-c" ∷ probe_script ∷ []))
  expired ← context_err host probe_ctx
  lift (probe_result host member reply expired)

unfoldable pub server_ids : List HaEtcdMemberTopology → List Text
server_ids [] = []
server_ids (m ∷ rest) = m.server_id ∷ server_ids rest

-- The loop of validateHAEtcdTopology over the members, with the states so far in order.
probe_all :
    Host
    → Context
    → HaConfig
    → List HaMember
    → List HaEtcdMemberTopology
    → Action (List HaEtcdMemberTopology)
unfolding server_ids
probe_all host ctx config [] states = pure states
probe_all host ctx config (member ∷ rest) states = do
  state ← probe_ha_etcd_member host ctx config member
  raise_if (contains_string (server_ids states) state.server_id)
      (fail "HA etcd members %d and %d report duplicate server ID %s")
  probe_all host ctx config rest (states ++ state ∷ [])

-- The server IDs other than a member's own.
unfoldable pub other_ids : Text → List Text → List Text
other_ids id [] = []
other_ids id (x ∷ rest) = if text_eq x id then other_ids id rest else x ∷ other_ids id rest

unfoldable pub leader_count : List HaEtcdMemberTopology → ℕ
leader_count [] = 0
leader_count (m ∷ rest) = if m.is_leader then suc (leader_count rest) else leader_count rest

-- Each member reports exactly the other members as its peers.
unfoldable pub peers_agree : List Text → List HaEtcdMemberTopology → Bool
unfolding other_ids
peers_agree ids [] = true
peers_agree ids (m ∷ rest) =
    texts_eq m.peer_server_ids (sort_texts (other_ids m.server_id ids)) && peers_agree ids rest

insert_state : HaEtcdMemberTopology → List HaEtcdMemberTopology → List HaEtcdMemberTopology
insert_state m [] = m ∷ []
insert_state m (n ∷ rest) =
    if ltb n.member_id m.member_id then n ∷ insert_state m rest else m ∷ n ∷ rest

-- sort.Slice by MemberID
unfoldable pub sort_states : List HaEtcdMemberTopology → List HaEtcdMemberTopology
unfolding insert_state
sort_states [] = []
sort_states (m ∷ rest) = insert_state m (sort_states rest)

-- The part of validateHAEtcdTopology after its loop over the members: it has no effects. The server
-- IDs are distinct there, so their map has as many entries as there are members.
unfoldable pub check_topology : List HaEtcdMemberTopology → Res (List HaEtcdMemberTopology)
unfolding server_ids leader_count peers_agree sort_states
check_topology states =
    check (not (length states == ha_member_count))
      (fail "HA etcd topology requires exactly %d unique members")
      (check (not (peers_agree (server_ids states) states))
        (fail "HA etcd member %d reports peer IDs %v, expected exactly %v")
        (check (not (leader_count states == 1))
          (fail "HA etcd topology reports %d leaders, expected exactly one")
          (ok (sort_states states))))

unfoldable pub validate_ha_etcd_topology :
    Host → Context → HaConfig → Action (List HaEtcdMemberTopology)
unfolding probe_all check_topology
validate_ha_etcd_topology host ctx config = do
  states ← probe_all host ctx config config.members []
  lift (check_topology states)

-- The first peer that is not the other voter.
distinct_peer : List Text → Text → Option Text
distinct_peer [] other_voter_id = none
distinct_peer (peer ∷ rest) other_voter_id =
    if text_eq peer other_voter_id then distinct_peer rest other_voter_id else some peer

or_fail : String → Option Text → Res Text
or_fail message none = err (fail message)
or_fail message (some id) = ok id

unfoldable pub repair_target_server_id : HaEtcdMemberTopology → Text → Res Text
unfolding distinct_peer or_fail
repair_target_server_id member other_voter_id =
    check
      (not (suc (length member.peer_server_ids) == ha_member_count)
        || not (contains_string member.peer_server_ids other_voter_id))
      (fail "non-target etcd voter %d does not report the other voter %s in its exact peer set %v")
      (or_fail "non-target etcd voter %d does not report a distinct target peer"
        (distinct_peer member.peer_server_ids other_voter_id))

-- The probes of validateHAEtcdRepairQuorum, of all members but the target.
probe_voters : Host → Context → HaConfig → ℕ → List HaMember → Action (List HaEtcdMemberTopology)
probe_voters host ctx config target_id [] = pure []
probe_voters host ctx config target_id (member ∷ rest) =
    let others = probe_voters host ctx config target_id rest in
    if member.id == target_id then others else do
      state ←
          wrapped "non-target etcd voter %d is not healthy for repair: %w"
            (probe_ha_etcd_member host ctx config member)
      states ← others
      pure (state ∷ states)

-- The checks on the two voters.
unfoldable pub check_voters :
    HaEtcdMemberTopology → HaEtcdMemberTopology → Res (List HaEtcdMemberTopology)
unfolding repair_target_server_id sort_states
check_voters left right =
    check (text_eq left.server_id right.server_id)
      (fail "non-target etcd voters report duplicate server ID %s")
      (check (left.is_leader && right.is_leader)
        (fail
          "non-target etcd voters report %d leaders, expected at most one in the proven majority")
        (repair_target_server_id left right.server_id >>=ᵣ λ left_target.
          repair_target_server_id right left.server_id >>=ᵣ λ right_target.
          check (not (text_eq left_target right_target))
            (fail "non-target etcd voters disagree on target member %d server ID: %s versus %s")
            (check (text_eq left_target left.server_id || text_eq left_target right.server_id)
              (fail
                "non-target etcd voters do not identify a unique third server ID for target member %d")
              (ok (sort_states (left ∷ right ∷ []))))))

check_voter_list : List HaEtcdMemberTopology → Res (List HaEtcdMemberTopology)
unfolding check_voters
check_voter_list (left ∷ right ∷ []) = check_voters left right
check_voter_list _ = err (fail "HA repair requires exactly two non-target etcd voters")

-- `memberByID(…).ID == 0`
unfoldable pub is_undeclared : HaMember → Bool
is_undeclared member = member.id == 0

unfoldable pub validate_ha_etcd_repair_quorum :
    Host → Context → HaConfig → ℕ → Action (List HaEtcdMemberTopology)
unfolding probe_voters check_voter_list is_undeclared
validate_ha_etcd_repair_quorum host ctx config target_id = do
  raise_if (is_undeclared (member_by_id config.members target_id))
      (fail "HA repair target member %d is not declared")
  voters ← probe_voters host ctx config target_id config.members
  lift (check_voter_list voters)
