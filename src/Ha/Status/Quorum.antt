-- ===== src/Ha/Status/Quorum.antt =====
-- The readiness tests of ha_members.go against the quorum of three members.
use apple_pod_control.Prelude.{
  ℕ, suc, ◌+◌, ◌≤◌, ◌≡◌, refl, true, ◌&&◌, some, List, [], ◌∷◌, arith, length, if◌then◌else◌, inl,
  inr, Bool-cases, ◌==◌, &&_parts, Option-cases,
}
use apple_pod_control.Ha.Types.{HaMemberState, HaState, HaConfig}
use apple_pod_control.Ha.Names.{ha_member_count}
use apple_pod_control.Ha.Status.{
  pair_ready, every_pair_ready, all_ha_members_ready, ready_others, other_ha_members_ready,
}
use apple_pod_control.Ha.Status.Counts.{state_ids, ready_pairs, Reports}

-- How often an identifier is listed.
abbrev pub occurrences : ℕ → List ℕ → ℕ
occurrences id [] = 0
occurrences id (x ∷ rest) = (if x == id then 1 else 0) + occurrences id rest

ready_others-every :
    (members : List HaMemberState) (id : ℕ)
    → every_pair_ready members ≡ true
    → (n : ℕ) × (ready_others members id ≡ some n)
      × (n + occurrences id (state_ids members) ≡ length members)
unfolding every_pair_ready ready_others
ready_others-every [] id h = (0, refl, omega arith)
ready_others-every (m ∷ rest) id h =
    let (here, more) = &&_parts (pair_ready m) (every_pair_ready rest) h in
    let (n, found, total) = ready_others-every rest id more in
    elim (Bool-cases (m.id == id)) [
      | inl same ↦ (n, ground (arith, same, found), ground (arith, same, total))
      | inr other ↦ (suc n, ground (arith, other, here, found), ground (arith, other, total))
    ]

-- If all three pairs are Ready, then so are the other two of any listed member: after a stop of that
-- member a majority of the three is left.
pub all_ha_members_ready-others :
    (state : HaState) (id : ℕ)
    → occurrences id (state_ids state.members) ≡ 1
    → all_ha_members_ready state ≡ true
    → other_ha_members_ready state id ≡ true
unfolding all_ha_members_ready other_ha_members_ready ha_member_count
all_ha_members_ready-others state id once h =
    let (counts, ready) =
      &&_parts (length state.members == 3 && state.ready_members == 3)
        (every_pair_ready state.members) h in
    let (sizes, _) = &&_parts (length state.members == 3) (state.ready_members == 3) counts in
    let (n, found, total) = ready_others-every state.members id ready in
    ground (arith, found, total, once, sizes)

ready_others-le :
    (members : List HaMemberState) (id n : ℕ)
    → ready_others members id ≡ some n
    → n ≤ ready_pairs members
unfolding ready_others pair_ready
ready_others-le [] id n h = ground arith
ready_others-le (m ∷ rest) id n h = elim (Option-cases (ready_others rest id)) [
  | inl stuck ↦ ground (arith, stuck)
  | inr (k, found) ↦ ground (arith, found, ready_others-le rest id k found)
]

-- Where the other two members of a cluster of three are Ready, the cluster's status is Healthy.
pub other_ha_members_ready-healthy :
    (config : HaConfig) (state : HaState) (id : ℕ)
    → length config.members ≡ 3
    → Reports config state
    → other_ha_members_ready state id ≡ true
    → state.healthy ≡ true
unfolding other_ha_members_ready ha_member_count
other_ha_members_ready-healthy config state id three r h =
    elim (Option-cases (ready_others state.members id)) [
      | inl stuck ↦ ground (arith, stuck, h)
      | inr (n, found) ↦ ground (
        arith,
        found,
        h,
        ready_others-le state.members id n found,
        r.counts_ready,
        r.quorum_majority,
        r.healthy_by_quorum,
        three,
      )
    ]
