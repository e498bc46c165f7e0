-- ===== src/Ha/Proxy/Serve/Sorted.antt =====
-- What sorting the backends keeps (validateHAProxyBackends of internal/cluster/ha_proxy.go).
use mathlib.Core.List.{Perm}
use mathlib.Core.List.Perm
use apple_pod_control.Prelude.{List, [], ◌∷◌, ltb, inl, inr, Bool-cases, All}
use apple_pod_control.Ha.Proxy.{HaProxyBackend}
use apple_pod_control.Ha.Proxy.Serve.{insert_backend, sort_backends}

insert-Perm : (b : HaProxyBackend) (bs : List HaProxyBackend) → Perm (b ∷ bs) (insert_backend b bs)
unfolding insert_backend
insert-Perm b [] = Perm.refl (b ∷ [])
insert-Perm b (c ∷ rest) = elim (Bool-cases (ltb c.member.id b.member.id)) [
  | inl less ↦
      rw (less, insert_backend) (Perm.trans (Perm.swap c b rest) (Perm.cons c (insert-Perm b rest)))
  | inr more ↦ rw (more, insert_backend) (Perm.refl (b ∷ c ∷ rest))
]

pub sort-Perm : (bs : List HaProxyBackend) → Perm bs (sort_backends bs)
unfolding sort_backends
sort-Perm [] = Perm.refl []
sort-Perm (b ∷ rest) =
    Perm.trans (Perm.cons b (sort-Perm rest)) (insert-Perm b (sort_backends rest))

module _ (P : HaProxyBackend → Type 0) where
  insert-All :
      (b : HaProxyBackend) (bs : List HaProxyBackend) → P b → All P bs → All P (insert_backend b bs)
  unfolding insert_backend
  insert-All b [] p ps = (p, tt)
  insert-All b (c ∷ rest) p (q, ps) = elim (Bool-cases (ltb c.member.id b.member.id)) [
    | inl less ↦ rw (less, insert_backend) (q, insert-All b rest p ps)
    | inr more ↦ rw (more, insert_backend) (p, (q, ps))
  ]

  pub sort-All : (bs : List HaProxyBackend) → All P bs → All P (sort_backends bs)
  unfolding sort_backends
  sort-All [] ps = tt
  sort-All (b ∷ rest) (p, ps) = insert-All b (sort_backends rest) p (sort-All rest ps)
