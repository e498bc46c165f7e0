-- ===== src/Ha/Proxy/Rotation.antt =====
-- The order in which the pool of ha_proxy.go offers its backends.
use mathlib.Core.Path.{subst}
use native.Mathlib.Nat.{mod-lt, mod-eq_of_lt, mod-add-mod, add-mod_right}
use apple_pod_control.Prelude.{
  ℕ, zero, suc, ◌+◌, ◌-◌, ◌%◌, ◌<◌, ◌≤◌, ◌≡◌, refl, sym, ap, ◌∙◌, some, List, [], ◌∷◌, ◌++◌, arith,
  length, take, drop, get_elem?, head?, keep, inl, inr, ◌⊎◌,
}
use apple_pod_control.Ha.Proxy.{
  HaProxyBackend, HaProxyPool, serves, rotate, candidates, healthy_count,
}
use apple_pod_control.Ha.Proxy.Refinement.{Turned, candidates-Turned}

-- The pool after some clients in a row, with no other event between them.
abbrev pub after_clients : ℕ → HaProxyPool → HaProxyPool
after_clients zero p = p
after_clients (suc k) p = after_clients k (candidates p).1

abbrev pub serving : HaProxyPool → List HaProxyBackend
serving p = keep (serves p) p.backends

-- Which backends serve does not depend on whose turn it is.
of_Turned : (p q : HaProxyPool) → Turned p q → serving q ≡ serving p
unfolding serves
of_Turned p q t = rw (t.same_health, t.same_trust, t.same_backends) refl

serving-candidates : (p : HaProxyPool) → serving (candidates p).1 ≡ serving p
serving-candidates p = of_Turned p (candidates p).1 (candidates-Turned p)

serving-after : (k : ℕ) (p : HaProxyPool) → serving (after_clients k p) ≡ serving p
serving-after zero p = refl
serving-after (suc k) p = serving-after k (candidates p).1 ∙ serving-candidates p

next-candidates :
    (p : HaProxyPool)
    → 0 < length (serving p)
    → (candidates p).1.next ≡ (p.next + 1) % length (serving p)
unfolding candidates
next-candidates p h = next-rotate (serving p) h
  where
    next-rotate :
        (xs : List HaProxyBackend) → 0 < length xs → (rotate p xs).1.next ≡ (p.next + 1) % length xs
    next-rotate [] h = ground (arith, h)
    next-rotate (x ∷ xs) h = refl

step_mod : (a k n : ℕ) → ((a + 1) % n + k) % n ≡ (a + suc k) % n
step_mod a k n = mod-add-mod (a + 1) n k ∙ ap (λ i. i % n) (omega arith)

next-after :
    (k : ℕ) (p : HaProxyPool)
    → 0 < length (serving p)
    → (after_clients k p).next % length (serving p) ≡ (p.next + k) % length (serving p)
next-after zero p h = ap (λ n. n % length (serving p)) (omega arith)
next-after (suc k) p h =
    let same = ap length (serving-candidates p) in
    subst
      (λ n. 0 < n → (after_clients k (candidates p).1).next % n ≡ ((candidates p).1.next + k) % n)
      same (next-after k (candidates p).1) h
    ∙ (ap (λ n. (n + k) % length (serving p)) (next-candidates p h)
        ∙ step_mod p.next k (length (serving p)))

head?-dropped :
    {A : Type 0} (s : ℕ) (xs ys : List A) → s < length xs → head? (drop s xs ++ ys) ≡ get_elem? xs s
head?-dropped s [] ys h = ground (arith, h)
head?-dropped zero (x ∷ xs) ys h = refl
head?-dropped (suc s) (x ∷ xs) ys h = head?-dropped s xs ys (omega (arith, h))

head?-rotated :
    {A : Type 0} (s : ℕ) (xs : List A)
    → s < length xs
    → head? (drop s xs ++ take s xs) ≡ get_elem? xs s
head?-rotated s [] h = ground (arith, h)
head?-rotated zero (x ∷ xs) h = refl
head?-rotated (suc s) (x ∷ xs) h = head?-dropped s xs (x ∷ take s xs) (omega (arith, h))

head?-candidates :
    (p : HaProxyPool)
    → 0 < length (serving p)
    → head? (candidates p).0 ≡ get_elem? (serving p) (p.next % length (serving p))
unfolding candidates
head?-candidates p h = of_rotate (serving p) h
  where
    of_rotate :
        (xs : List HaProxyBackend)
        → 0 < length xs
        → head? (rotate p xs).0 ≡ get_elem? xs (p.next % length xs)
    of_rotate [] h = ground (arith, h)
    of_rotate (x ∷ xs) h = head?-rotated (p.next % length (x ∷ xs)) (x ∷ xs) (mod-lt p.next h)

-- From any position, one of the next n positions modulo n is the given one.
le_or_lt : (a b : ℕ) → (a ≤ b) ⊎ (b < a)
le_or_lt a b = ground arith

reaches : (a j n : ℕ) → j < n → (k : ℕ) × (k < n) × ((a + k) % n ≡ j)
reaches a j n h = elim (le_or_lt (a % n) j) [
  | inl before ↦ (
    j - a % n,
    omega (arith, h),
    sym (mod-add-mod a n (j - a % n)) ∙ (ap (λ i. i % n) (omega (arith, before)) ∙ mod-eq_of_lt h),
  )
  | inr after ↦ (
    n + j - a % n,
    omega (arith, h, after, mod-lt a {m = n} (omega (arith, h))),
    sym (mod-add-mod a n (n + j - a % n))
        ∙ (ap (λ i. i % n) (omega (arith, after, mod-lt a {m = n} (omega (arith, h))))
            ∙ (add-mod_right j n ∙ mod-eq_of_lt h)),
  )
]

get_elem?-lt : {A : Type 0} (xs : List A) (j : ℕ) (x : A) → get_elem? xs j ≡ some x → j < length xs
get_elem?-lt [] j x h = ground (arith, h)
get_elem?-lt (y ∷ ys) zero x h = omega arith
get_elem?-lt (y ∷ ys) (suc j) x h = omega (arith, get_elem?-lt ys j x h)

-- While no check and no failed dial intervenes, each backend that serves is the first choice of one of
-- the next n clients, n being healthyCount.
pub every_backend_gets_its_turn :
    (p : HaProxyPool) (j : ℕ) (b : HaProxyBackend)
    → get_elem? (serving p) j ≡ some b
    → (k : ℕ) × (k < healthy_count p) × (head? (candidates (after_clients k p)).0 ≡ some b)
unfolding healthy_count
every_backend_gets_its_turn p j b found =
    let within = get_elem?-lt (serving p) j b found in
    let some_serve : 0 < length (serving p) = omega (arith, within) in
    let (k, soon, there) = reaches p.next j (length (serving p)) within in
    (
      k,
      soon,
      subst
            (λ xs.
              0 < length xs
              → head? (candidates (after_clients k p)).0
                ≡ get_elem? xs ((after_clients k p).next % length xs))
            (serving-after k p) (head?-candidates (after_clients k p)) some_serve
          ∙ (ap (get_elem? (serving p)) (next-after k p some_serve ∙ there) ∙ found),
    )
