-- ===== src/Ha/Etcd/Voters.antt =====
-- What the checks of validateHAEtcdRepairQuorum accept.
use apple_pod_control.Prelude.{
  ◌≡◌, ◌≢◌, refl, true, false, ◌&&◌, some, List, [], ◌∷◌, arith, length, inl, inr, ◌⊎◌,
}
use apple_pod_control.Text.{Text, text_eq, text_eq_iff, contains_string}
use apple_pod_control.Host.Action.{Res, ok, err}
use apple_pod_control.Ha.Types.{HaEtcdMemberTopology}
use apple_pod_control.Ha.Names.{ha_member_count}
use apple_pod_control.Ha.Etcd.{
  distinct_peer, or_fail, repair_target_server_id, check_voters, sort_states,
}

-- The peers of a voter are the other voter and one more, in some order.
abbrev pub PeersAre : HaEtcdMemberTopology → Text → Text → Type 0
PeersAre m other target =
    (target ≢ other)
    × ((m.peer_server_ids ≡ other ∷ target ∷ []) ⊎ (m.peer_server_ids ≡ target ∷ other ∷ []))

two_peers :
    (peers : List Text) (other target : Text)
    → length peers ≡ 2
    → contains_string peers other ≡ true
    → distinct_peer peers other ≡ some target
    → (target ≢ other) × ((peers ≡ other ∷ target ∷ []) ⊎ (peers ≡ target ∷ other ∷ []))
unfolding contains_string distinct_peer
two_peers [] other target l c d = ground arith
two_peers (a ∷ []) other target l c d = ground arith
two_peers (a ∷ b ∷ []) other target l c d =
    ground (arith, l, c, d, text_eq_iff a other, text_eq_iff b other)
two_peers (a ∷ b ∷ x ∷ rest) other target l c d = absurd (omega (arith, l))

repair_target_server_id-PeersAre :
    (m : HaEtcdMemberTopology) (other target : Text)
    → repair_target_server_id m other ≡ ok target
    → PeersAre m other target
unfolding repair_target_server_id ha_member_count
repair_target_server_id-PeersAre m other target h =
    two_peers m.peer_server_ids other target (ground (arith, h)) (ground (arith, h))
      (ground (arith, h))

repair_target_server_id-of_PeersAre :
    (m : HaEtcdMemberTopology) (other target : Text)
    → PeersAre m other target
    → repair_target_server_id m other ≡ ok target
unfolding repair_target_server_id ha_member_count contains_string distinct_peer or_fail
repair_target_server_id-of_PeersAre m other target (ne, inl e) =
    ground (arith, e, ne, text_eq_iff other other, text_eq_iff target other)
repair_target_server_id-of_PeersAre m other target (ne, inr e) =
    ground (arith, e, ne, text_eq_iff other other, text_eq_iff target other)

-- Two voters and the target that they agree on.
pub record Majority (left right : HaEtcdMemberTopology) (target : Text) : Type 0 where
  pub distinct : left.server_id ≢ right.server_id
  pub one_leader_at_most : (left.is_leader && right.is_leader) ≡ false
  pub left_peers : PeersAre left right.server_id target
  pub right_peers : PeersAre right left.server_id target

-- What is left of the checks after the two target IDs are known.
agreed :
    (left right : HaEtcdMemberTopology) (result : List HaEtcdMemberTopology)
    → check_voters left right ≡ ok result
    → (target : Text) × (text_eq left.server_id right.server_id ≡ false)
      × ((left.is_leader && right.is_leader) ≡ false)
      × (repair_target_server_id left right.server_id ≡ ok target)
      × (repair_target_server_id right left.server_id ≡ ok target)
unfolding check_voters
agreed left right result h =
    go (repair_target_server_id left right.server_id) (repair_target_server_id right left.server_id)
      refl refl
  where
    go :
        (l r : Res Text)
        → repair_target_server_id left right.server_id ≡ l
        → repair_target_server_id right left.server_id ≡ r
        → (target : Text) × (text_eq left.server_id right.server_id ≡ false)
          × ((left.is_leader && right.is_leader) ≡ false)
          × (repair_target_server_id left right.server_id ≡ ok target)
          × (repair_target_server_id right left.server_id ≡ ok target)
    go (ok t) (ok s) p q = (
      t,
      ground (arith, p, q, h),
      ground (arith, p, q, h),
      p,
      ground (arith, p, q, h, text_eq_iff t s),
    )
    go (ok t) (err f) p q = ground (arith, p, q, h)
    go (err e) r p q = ground (arith, p, h)

accepted :
    (left right : HaEtcdMemberTopology) (target : Text)
    → Majority left right target
    → check_voters left right ≡ ok (sort_states (left ∷ right ∷ []))
unfolding check_voters
accepted left right target m = ground (
  arith,
  repair_target_server_id-of_PeersAre left right.server_id target m.left_peers,
  repair_target_server_id-of_PeersAre right left.server_id target m.right_peers,
  m.distinct,
  m.one_leader_at_most,
  m.left_peers.0,
  m.right_peers.0,
  text_eq_iff left.server_id right.server_id,
  text_eq_iff target target,
  text_eq_iff target left.server_id,
  text_eq_iff target right.server_id,
)

-- validateHAEtcdRepairQuorum lets a repair go on from two voters exactly where they have distinct
-- server IDs, are not both leaders, and name each other and one common third server ID, and no other,
-- as their peers.
pub check_voters-Majority :
    (left right : HaEtcdMemberTopology)
    → ((result : List HaEtcdMemberTopology)
        → check_voters left right ≡ ok result
        → (target : Text) × Majority left right target)
      × ((target : Text)
          → Majority left right target
          → check_voters left right ≡ ok (sort_states (left ∷ right ∷ [])))
check_voters-Majority left right = (
  λ result h.
      let (target, ids, leaders, l, r) = agreed left right result h in
      (
        target,
        record {
          distinct = λ e. ground (arith, ids, e, text_eq_iff left.server_id right.server_id);
          one_leader_at_most = leaders;
          left_peers = repair_target_server_id-PeersAre left right.server_id target l;
          right_peers = repair_target_server_id-PeersAre right left.server_id target r;
        },
      ),
  accepted left right,
)
