-- ===== src/Ha/Config/Normalize/Order.antt =====
-- The order of the members after normalizeHAConfig.
use mathlib.Core.Path.{subst}
use apple_pod_control.Prelude.{
  ℕ, suc, ◌≤◌, ◌≡◌, refl, sym, ap, ◌∙◌, List, [], ◌∷◌, arith, inl, inr, Bool-cases, ltb, length,
}
use apple_pod_control.Text.{Text}
use apple_pod_control.Net.{Prefix}
use apple_pod_control.Host.Action.{ok}
use apple_pod_control.Ha.Types.{HaMember}
use apple_pod_control.Ha.Config.{contains_number, nothing_seen}
use apple_pod_control.Ha.Config.Normalize.{insert_member, sort_members, normalize_members}
use apple_pod_control.Ha.Config.Normalize.Members.{
  Admitted, nobody, and_member, ids_of, normalize_members-Admitted,
}

-- No identifier above the one after it.
abbrev Ordered : List ℕ → Type 0
Ordered [] = Unit
Ordered (n ∷ []) = Unit
Ordered (n ∷ m ∷ rest) = (n ≤ m) × Ordered (m ∷ rest)

Ordered-insert :
    (m : HaMember) (members : List HaMember)
    → Ordered (ids_of members)
    → Ordered (ids_of (insert_member m members))
unfolding insert_member
Ordered-insert m [] o = tt
Ordered-insert m (a ∷ []) o = elim (Bool-cases (ltb a.id m.id)) [
  | inl less ↦ rw (less, insert_member) (ground (arith, less), tt)
  | inr more ↦ rw (more, insert_member) (ground (arith, more), tt)
]
Ordered-insert m (a ∷ b ∷ rest) (le, o) =
    let below = Ordered-insert m (b ∷ rest) o in
    elim (Bool-cases (ltb a.id m.id)) [
      | inr more ↦ rw (more, insert_member) (ground (arith, more), (le, o))
      | inl less ↦ elim (Bool-cases (ltb b.id m.id)) [
        | inl further ↦
            rw (less, further, insert_member) (le, (rw (further, insert_member) at below))
        | inr here ↦
            rw (less, here, insert_member)
              (ground (arith, less), (rw (here, insert_member) at below))
      ]
    ]

Ordered-sort : (members : List HaMember) → Ordered (ids_of (sort_members members))
unfolding sort_members
Ordered-sort [] = tt
Ordered-sort (m ∷ rest) = Ordered-insert m (sort_members rest) (Ordered-sort rest)

pub length-ids_of : (members : List HaMember) → length (ids_of members) ≡ length members
length-ids_of [] = refl
length-ids_of (m ∷ rest) = ap suc (length-ids_of rest)

-- Three admitted members in order are the members 1, 2 and 3.
one_two_three :
    (prefix : Prefix) (members : List HaMember)
    → Admitted prefix nothing_seen members
    → length members ≡ 3
    → Ordered (ids_of members)
    → ids_of members ≡ 1 ∷ 2 ∷ 3 ∷ []
unfolding contains_number
one_two_three prefix [] admitted three o = absurd (omega (arith, three))
one_two_three prefix (a ∷ []) admitted three o = absurd (omega (arith, three))
one_two_three prefix (a ∷ b ∷ []) admitted three o = absurd (omega (arith, three))
one_two_three prefix (a ∷ b ∷ c ∷ d ∷ rest) admitted three o = absurd (omega (arith, three))
one_two_three prefix (a ∷ b ∷ c ∷ []) (and_member p f (and_member q g (and_member r k nobody)))
      three (ab, (bc, o)) =
    ground (
      arith, f.id_low, f.id_high, g.id_low, g.id_high, g.id_new, k.id_low, k.id_high, k.id_new, ab,
      bc,
    )

length-insert :
    (m : HaMember) (members : List HaMember)
    → length (insert_member m members) ≡ suc (length members)
unfolding insert_member
length-insert m [] = refl
length-insert m (a ∷ rest) = ground (arith, length-insert m rest)

length-sort : (members : List HaMember) → length (sort_members members) ≡ length members
unfolding sort_members
length-sort [] = refl
length-sort (m ∷ rest) = ground (arith, length-insert m (sort_members rest), length-sort rest)

-- Three members that the loop returns after the sort.
pub sorted_three :
    (name : Text) (prefix : Prefix) (members result : List HaMember)
    → length members ≡ 3
    → normalize_members name prefix nothing_seen (sort_members members) ≡ ok result
    → Admitted prefix nothing_seen result × (ids_of result ≡ 1 ∷ 2 ∷ 3 ∷ [])
sorted_three name prefix members result three h =
    let (admitted, ids) =
      normalize_members-Admitted name prefix nothing_seen (sort_members members) result h in
    (
      admitted,
      one_two_three prefix result admitted
          (sym (length-ids_of result)
            ∙ (ap length ids
                ∙ (length-ids_of (sort_members members) ∙ (length-sort members ∙ three))))
          (subst Ordered (sym ids) (Ordered-sort members)),
    )
