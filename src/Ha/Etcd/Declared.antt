-- ===== src/Ha/Etcd/Declared.antt =====
-- The test for a declared member, in loadHAMemberOperationLocked and validateHAEtcdRepairQuorum.
use apple_pod_control.Prelude.{ℕ, ◌≡◌, refl, ap, List, [], ◌∷◌, arith, ◌==◌, inl, inr, Bool-cases}
use apple_pod_control.Ha.Types.{HaMember}
use apple_pod_control.Ha.Names.{member_by_id}
use apple_pod_control.Ha.Etcd.{is_undeclared}

member_by_id-id : (members : List HaMember) (id : ℕ) → (member_by_id members id).id ≡ id
unfolding member_by_id
member_by_id-id [] id = refl
member_by_id-id (m ∷ rest) id = elim (Bool-cases (m.id == id)) [
  | inl same ↦ rw (same, member_by_id) (ground (arith, same))
  | inr other ↦ rw (other, member_by_id) (member_by_id-id rest id)
]

-- For any members and any identifier, declared or not, the test `memberByID(members, id).ID == 0` says
-- exactly whether the identifier is 0: an undeclared identifier other than 0 passes it.
pub is_undeclared-member_by_id :
    (members : List HaMember) (id : ℕ) → is_undeclared (member_by_id members id) ≡ (id == 0)
unfolding is_undeclared
is_undeclared-member_by_id members id = ap (λ n. n == 0) (member_by_id-id members id)
