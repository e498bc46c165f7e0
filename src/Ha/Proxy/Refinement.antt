-- ===== src/Ha/Proxy/Refinement.antt =====
-- What the pool has been told decides whom it offers: the pool of ha_proxy.go against the events of its
-- goroutines, in whatever order its lock lets them in.
use apple_pod_control.Prelude.{
  ℕ, ◌≡◌, refl, ap, ◌∙◌, Bool, true, false, ◌&&◌, some, List, [], ◌∷◌, ◌++◌, arith, ◌%◌, ◌==◌,
  if◌then◌else◌, length, take, drop, keep, All, All-map, keep-eq, drop-take,
}
use mathlib.Core.Path.{subst}
use mathlib.Core.List.{Perm, perm_append_comm}
use mathlib.Core.List.Perm
use apple_pod_control.Ha.Preflight.{IdMap, get_id, put_id}
use apple_pod_control.Ha.Proxy.{
  HaProxyBackend, HaProxyPool, flag, or_false, copy_flags, trust_all, new_ha_proxy_pool,
  replace_health, replace_identity, mark_unhealthy, serves, rotate, candidates, healthy_count,
}

-- One critical section of the pool.
pub data PoolEvent : Type 0 where
  health_found identity_found : IdMap Bool → PoolEvent
  dial_failed : ℕ → PoolEvent
  client_arrived : PoolEvent

abbrev pub pool_step : PoolEvent → HaProxyPool → HaProxyPool
pool_step (health_found m) p = replace_health p m
pool_step (identity_found m) p = replace_identity p m
pool_step (dial_failed id) p = mark_unhealthy p id
pool_step client_arrived p = (candidates p).1

-- The pool after a list of events, the newest first.
abbrev pub pool_after : List HaProxyBackend → List PoolEvent → HaProxyPool
pool_after backends [] = new_ha_proxy_pool backends
pool_after backends (e ∷ es) = pool_step e (pool_after backends es)

-- Healthy: the latest readiness result says so, and no dial has failed since.
abbrev pub reported_healthy : List PoolEvent → ℕ → Bool
reported_healthy [] id = false
reported_healthy (health_found m ∷ es) id = flag m id
reported_healthy (identity_found m ∷ es) id = reported_healthy es id
reported_healthy (dial_failed failed ∷ es) id =
    let before = reported_healthy es id in if failed == id then false else before
reported_healthy (client_arrived ∷ es) id = reported_healthy es id

-- Trusted: the latest identity result says so, or there is none yet.
abbrev pub reported_trusted : List PoolEvent → ℕ → Bool
reported_trusted [] id = true
reported_trusted (health_found m ∷ es) id = reported_trusted es id
reported_trusted (identity_found m ∷ es) id = flag m id
reported_trusted (dial_failed failed ∷ es) id = reported_trusted es id
reported_trusted (client_arrived ∷ es) id = reported_trusted es id

abbrev pub offered : List PoolEvent → HaProxyBackend → Bool
offered es b = reported_healthy es b.member.id && reported_trusted es b.member.id

get_id-put_id :
    (m : IdMap Bool) (k id : ℕ) (v : Bool)
    → get_id (put_id m k v) id ≡ (if k == id then some v else get_id m id)
unfolding get_id put_id
get_id-put_id [] k id v = refl
get_id-put_id ((j, w) ∷ m) k id v = ground (arith, get_id-put_id m k id v)

get_id-copy_flags : (m : IdMap Bool) (id : ℕ) → get_id (copy_flags m) id ≡ get_id m id
unfolding get_id copy_flags
get_id-copy_flags [] id = refl
get_id-copy_flags ((k, v) ∷ m) id =
    get_id-put_id (copy_flags m) k id v
    ∙ ap (λ o. if k == id then some v else o) (get_id-copy_flags m id)

flag-copy_flags : (m : IdMap Bool) (id : ℕ) → flag (copy_flags m) id ≡ flag m id
unfolding flag
flag-copy_flags m id = ap or_false (get_id-copy_flags m id)

pub flag-put_id :
    (m : IdMap Bool) (k id : ℕ) (v : Bool)
    → flag (put_id m k v) id ≡ (if k == id then v else flag m id)
unfolding flag
flag-put_id m k id v = ground (arith, get_id-put_id m k id v)

trust_all-keeps :
    (backends : List HaProxyBackend) (m : IdMap Bool) (id : ℕ)
    → flag m id ≡ true
    → flag (trust_all backends m) id ≡ true
unfolding trust_all
trust_all-keeps [] m id h = h
trust_all-keeps (b ∷ rest) m id h =
    trust_all-keeps rest (put_id m b.member.id true) id
      (ground (arith, flag-put_id m b.member.id id true))

trust_all-All :
    (backends : List HaProxyBackend) (m : IdMap Bool)
    → All (λ b. flag (trust_all backends m) b.member.id ≡ true) backends
unfolding trust_all
trust_all-All [] m = tt
trust_all-All (b ∷ rest) m = (
  trust_all-keeps rest (put_id m b.member.id true) b.member.id
      (ground (arith, flag-put_id m b.member.id b.member.id true)),
  trust_all-All rest (put_id m b.member.id true),
)

-- Serving a client changes only which backend comes first for the next one.
pub record Turned (p q : HaProxyPool) : Type 0 where
  pub same_backends : q.backends ≡ p.backends
  pub same_health : q.healthy ≡ p.healthy
  pub same_trust : q.trusted ≡ p.trusted

pub candidates-Turned : (p : HaProxyPool) → Turned p (candidates p).1
unfolding candidates
candidates-Turned p = rotate-Turned (keep (serves p) p.backends)
  where
    rotate-Turned : (xs : List HaProxyBackend) → Turned p (rotate p xs).1
    rotate-Turned [] = record { same_backends = refl; same_health = refl; same_trust = refl }
    rotate-Turned (x ∷ xs) = record { same_backends = refl; same_health = refl; same_trust = refl }

after-backends :
    (backends : List HaProxyBackend) (es : List PoolEvent)
    → (pool_after backends es).backends ≡ backends
unfolding new_ha_proxy_pool replace_health replace_identity mark_unhealthy
after-backends backends [] = refl
after-backends backends (health_found m ∷ es) = after-backends backends es
after-backends backends (identity_found m ∷ es) = after-backends backends es
after-backends backends (dial_failed id ∷ es) = after-backends backends es
after-backends backends (client_arrived ∷ es) =
    (candidates-Turned (pool_after backends es)).same_backends ∙ after-backends backends es

after-healthy :
    (backends : List HaProxyBackend) (es : List PoolEvent) (id : ℕ)
    → flag (pool_after backends es).healthy id ≡ reported_healthy es id
unfolding new_ha_proxy_pool replace_health replace_identity mark_unhealthy flag get_id
after-healthy backends [] id = refl
after-healthy backends (health_found m ∷ es) id = flag-copy_flags m id
after-healthy backends (identity_found m ∷ es) id = after-healthy backends es id
after-healthy backends (dial_failed failed ∷ es) id =
    flag-put_id (pool_after backends es).healthy failed id false
    ∙ ap (λ b. if failed == id then false else b) (after-healthy backends es id)
after-healthy backends (client_arrived ∷ es) id =
    ap (λ m. flag m id) (candidates-Turned (pool_after backends es)).same_health
    ∙ after-healthy backends es id

after-trusted :
    (backends : List HaProxyBackend) (es : List PoolEvent)
    → All
        (λ b. flag (pool_after backends es).trusted b.member.id ≡ reported_trusted es b.member.id)
        backends
unfolding new_ha_proxy_pool replace_health replace_identity mark_unhealthy
after-trusted backends [] = trust_all-All backends []
after-trusted backends (health_found m ∷ es) = after-trusted backends es
after-trusted backends (identity_found m ∷ es) = all backends
  where
    all :
        (xs : List HaProxyBackend)
        → All (λ b. flag (copy_flags m) b.member.id ≡ flag m b.member.id) xs
    all [] = tt
    all (x ∷ xs) = (flag-copy_flags m x.member.id, all xs)
after-trusted backends (dial_failed id ∷ es) = after-trusted backends es
after-trusted backends (client_arrived ∷ es) =
    All-map
      (λ b same.
        ap (λ m. flag m b.member.id) (candidates-Turned (pool_after backends es)).same_trust ∙ same)
      backends (after-trusted backends es)

after-serving :
    (backends : List HaProxyBackend) (es : List PoolEvent)
    → keep (serves (pool_after backends es)) (pool_after backends es).backends
      ≡ keep (offered es) backends
unfolding serves
after-serving backends es =
    ap (keep (serves (pool_after backends es))) (after-backends backends es)
    ∙ keep-eq (serves (pool_after backends es)) (offered es) backends (
        All-map (λ b same. rw (after-healthy backends es b.member.id, same) refl) backends
          (after-trusted backends es))

rotate-Perm : (p : HaProxyPool) (xs : List HaProxyBackend) → Perm (rotate p xs).0 xs
unfolding rotate
rotate-Perm p [] = Perm.refl []
rotate-Perm p (x ∷ xs) =
    let start = p.next % length (x ∷ xs) in
    subst (Perm (drop start (x ∷ xs) ++ take start (x ∷ xs))) (drop-take start (x ∷ xs))
      (perm_append_comm (drop start (x ∷ xs)) (take start (x ∷ xs)))

-- After any sequence of readiness results, identity results, failed dials and clients, in any order,
-- the candidates for the next client are, each as often as it is configured, exactly the configured
-- backends that the latest readiness result calls healthy, to which no dial has failed since, and which
-- the latest identity result, if there is one, trusts; and healthyCount is their number.
pub pool_offers :
    (backends : List HaProxyBackend) (es : List PoolEvent)
    → Perm (candidates (pool_after backends es)).0 (keep (offered es) backends)
      × (healthy_count (pool_after backends es) ≡ length (keep (offered es) backends))
unfolding candidates healthy_count
pool_offers backends es = (
  subst (Perm (candidates (pool_after backends es)).0) (after-serving backends es) (
      rotate-Perm (pool_after backends es)
        (keep (serves (pool_after backends es)) (pool_after backends es).backends)),
  ap length (after-serving backends es),
)
