-- ===== src/Ha/Etcd/Topology.antt =====
-- What validateHAEtcdTopology and validateHAEtcdRepairQuorum accept.
use mathlib.Core.Path.{subst}
use mathlib.Core.List.{append_assoc, append-nil}
use apple_pod_control.Prelude.{
  ◌≡◌, ◌↔◌, refl, sym, ◌∙◌, true, false, List, [], ◌∷◌, ◌++◌, arith, length, &&_parts,
}
use apple_pod_control.Text.{Text, texts_eq_sound, texts_eq_refl, contains_string, sort_texts}
use apple_pod_control.Host.{Host, Context, History}
use apple_pod_control.Host.Action.{ok, raise_if-eq-ok, >>=-eq-ok, pure-eq-ok, lift-eq-ok}
use apple_pod_control.Ha.Types.{HaMember, HaConfig, HaEtcdMemberTopology}
use apple_pod_control.Ha.Names.{ha_member_count}
use apple_pod_control.Ha.Etcd.{
  probe_all, server_ids, other_ids, leader_count, peers_agree, sort_states, check_topology,
  validate_ha_etcd_topology,
}

-- No member's server ID is one of an earlier member.
abbrev pub Fresh : List Text → List HaEtcdMemberTopology → Type 0
Fresh seen [] = Unit
Fresh seen (m ∷ rest) =
    (contains_string seen m.server_id ≡ false) × Fresh (seen ++ m.server_id ∷ []) rest

-- Every member reports exactly the other server IDs, sorted, as its peers.
abbrev pub Agree : List Text → List HaEtcdMemberTopology → Type 0
Agree ids [] = Unit
Agree ids (m ∷ rest) = (m.peer_server_ids ≡ sort_texts (other_ids m.server_id ids)) × Agree ids rest

-- One voting cluster of exactly the declared members.
pub record OneCluster (states : List HaEtcdMemberTopology) : Type 0 where
  pub three : length states ≡ 3
  pub distinct : Fresh [] states
  pub agree : Agree (server_ids states) states
  pub one_leader : leader_count states ≡ 1

peers_agree_iff :
    (ids : List Text) (states : List HaEtcdMemberTopology)
    → (peers_agree ids states ≡ true) ↔ Agree ids states
unfolding peers_agree
peers_agree_iff ids [] = (λ _. tt, λ _. refl)
peers_agree_iff ids (m ∷ rest) = (
  λ h.
      let (here, more) = &&_parts _ _ h in
      (texts_eq_sound _ _ here, (peers_agree_iff ids rest).0 more),
  λ (here, more). rw (here, texts_eq_refl) ((peers_agree_iff ids rest).1 more),
)

check_topology_sound :
    (states result : List HaEtcdMemberTopology)
    → check_topology states ≡ ok result
    → (length states ≡ 3)
      × (peers_agree (server_ids states) states ≡ true)
      × (leader_count states ≡ 1)
      × (result ≡ sort_states states)
unfolding check_topology ha_member_count
check_topology_sound states result h =
    (ground (arith, h), ground (arith, h), ground (arith, h), ground (arith, h))

check_topology_complete :
    (states : List HaEtcdMemberTopology)
    → length states ≡ 3
    → peers_agree (server_ids states) states ≡ true
    → leader_count states ≡ 1
    → check_topology states ≡ ok (sort_states states)
unfolding check_topology ha_member_count
check_topology_complete states a b c = ground (arith, a, b, c)

server_ids-append :
    (xs : List HaEtcdMemberTopology) (m : HaEtcdMemberTopology)
    → server_ids (xs ++ m ∷ []) ≡ server_ids xs ++ m.server_id ∷ []
unfolding server_ids
server_ids-append [] m = refl
server_ids-append (x ∷ xs) m = rw (server_ids-append xs m)

-- The loop adds fresh states behind those that it has.
probe_all-Fresh :
    (host : Host) (ctx : Context) (config : HaConfig) (members : List HaMember)
    (states result : List HaEtcdMemberTopology) (h h' : History)
    → probe_all host ctx config members states h ≡ (ok result, h')
    → (new : List HaEtcdMemberTopology) × (result ≡ states ++ new) × Fresh (server_ids states) new
unfolding probe_all
probe_all-Fresh host ctx config [] states result h h' e =
    ([], sym (append-nil states ∙ pure-eq-ok states result h h' e), tt)
probe_all-Fresh host ctx config (member ∷ rest) states result h h' e =
    let (state, g, e1, r1) = >>=-eq-ok _ _ h h' result e in
    let (u, g2, e2, r2) = >>=-eq-ok _ _ g h' result r1 in
    let (fresh, _) = raise_if-eq-ok _ _ g g2 e2 in
    let (new, split, more) =
      probe_all-Fresh host ctx config rest (states ++ state ∷ []) result g2 h' r2 in
    (
      state ∷ new,
      split ∙ append_assoc states (state ∷ []) new,
      (fresh, subst (λ ids. Fresh ids new) (server_ids-append states state) more),
    )

-- What validateHAEtcdTopology accepts is one cluster: three probed members with distinct server IDs,
-- each of which reports exactly the other two as its peers, and of which exactly one is the leader.
-- The result is those members, sorted by ID.
pub validate_ha_etcd_topology-OneCluster :
    (host : Host) (ctx : Context) (config : HaConfig) (result : List HaEtcdMemberTopology)
    (h h' : History)
    → validate_ha_etcd_topology host ctx config h ≡ (ok result, h')
    → (states : List HaEtcdMemberTopology) × OneCluster states × (result ≡ sort_states states)
unfolding validate_ha_etcd_topology server_ids
validate_ha_etcd_topology-OneCluster host ctx config result h h' e =
    let (states, g, e1, r1) = >>=-eq-ok _ _ h h' result e in
    let (new, same, fresh) = probe_all-Fresh host ctx config config.members [] states h g e1 in
    let (three, agree, leader, sorted) =
      check_topology_sound states result (lift-eq-ok _ result g h' r1) in
    (
      states,
      record {
        three = three;
        distinct = subst (Fresh []) (sym same) fresh;
        agree = (peers_agree_iff _ states).0 agree;
        one_leader = leader;
      },
      sorted,
    )

-- Conversely, the checks after the probes accept every such cluster.
pub check_topology-OneCluster :
    (states : List HaEtcdMemberTopology)
    → OneCluster states
    → check_topology states ≡ ok (sort_states states)
check_topology-OneCluster states c =
    check_topology_complete states c.three ((peers_agree_iff _ states).1 c.agree) c.one_leader
