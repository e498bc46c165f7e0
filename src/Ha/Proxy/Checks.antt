-- ===== src/Ha/Proxy/Checks.antt =====
-- The checks that feed the pool of ha_proxy.go: one goroutine for each backend, whose results arrive
-- in any order.
use mathlib.Core.Path.{subst}
use mathlib.Core.Bool.{Bool-set}
use mathlib.Core.Logic.{∥∥₁_elim}
use mathlib.Core.List.{Perm, Permᴰ}
use apple_pod_control.Prelude.{
  ℕ, ◌≡◌, refl, ap, ◌∙◌, Bool, true, false, ◌&&◌, List, [], ◌∷◌, arith, ◌==◌, All, All-map, ◌||◌,
  inl, inr, Bool-cases,
}
use apple_pod_control.Host.{Host, Context, History}
use apple_pod_control.Host.Action.{Res, ok, err}
use apple_pod_control.Ha.Types.{HaMember, HaConfig, HaContainerInspect}
use apple_pod_control.Ha.Names.{ha_container_name}
use apple_pod_control.Ha.Inspect.{validate_ha_container, is_running}
use apple_pod_control.Ha.Inspect.Query.{inspect_ha_container}
use apple_pod_control.Ha.Preflight.{IdMap, put_id}
use apple_pod_control.Ha.Proxy.{HaProxyBackend, flag, named}
use apple_pod_control.Ha.Proxy.Refinement.{flag-put_id}

-- What one goroutine sends.
pub record CheckResult : Type 0 where
  pub id : ℕ
  pub passed : Bool

-- The loop that receives the results.
unfoldable pub gather : List CheckResult → IdMap Bool → IdMap Bool
gather [] m = m
gather (r ∷ rest) m = gather rest (put_id m r.id r.passed)

-- The results, one for each backend.
unfoldable pub results : (HaProxyBackend → Bool) → List HaProxyBackend → List CheckResult
results check [] = []
results check (b ∷ rest) = record { id = b.member.id; passed = check b } ∷ results check rest

-- probeHAAPI, where `seen` is what has happened when a backend's goroutine asks.
unfoldable pub is_ready : Host → Context → (HaProxyBackend → History) → HaProxyBackend → Bool
is_ready host ctx seen b = host.api_ready ctx b.member (seen b)

is_ok : {A : Type 0} → Res A → Bool
is_ok (ok a) = true
is_ok (err e) = false

-- err == nil && validateHAContainer(…) == nil && strings.EqualFold(record.Status.State, "running")
identity_trusted : Host → HaConfig → HaMember → Res HaContainerInspect → Bool
unfolding is_ok
identity_trusted host config member (err e) = false
identity_trusted host config member (ok r) =
    is_ok (validate_ha_container host r config member) && is_running r.state

unfoldable pub trusts :
    Host → Context → HaConfig → (HaProxyBackend → History) → HaProxyBackend → Bool
unfolding identity_trusted
trusts host ctx config seen b =
    identity_trusted host config b.member
      (inspect_ha_container host ctx (ha_container_name config.name b.member.id) (seen b)).0

-- Two backends never have one identifier.
abbrev pub Distinct : List HaProxyBackend → Type 0
Distinct [] = Unit
Distinct (b ∷ rest) = (named rest b.member.id ≡ false) × Distinct rest

reports : List CheckResult → ℕ → Bool
reports [] id = false
reports (r ∷ rest) id = r.id == id || reports rest id

-- Some result is for the identifier, and all that are say the same.
record Settled (rs : List CheckResult) (id : ℕ) (v : Bool) : Type 0 where
  agreed : All (λ r. r.id ≡ id → r.passed ≡ v) rs
  reported : reports rs id ≡ true

Permᴰ-Settled :
    (id : ℕ) (v : Bool) {rs ss : List CheckResult}
    → Permᴰ rs ss
    → All (λ r. r.id ≡ id → r.passed ≡ v) rs
    → All (λ r. r.id ≡ id → r.passed ≡ v) ss × (reports ss id ≡ reports rs id)
unfolding reports
Permᴰ-Settled id v Permᴰ.nil h = (tt, refl)
Permᴰ-Settled id v (Permᴰ.cons e p) (h, hs) =
    let (all, same) = Permᴰ-Settled id v p hs in
    ((subst (λ r. r.id ≡ id → r.passed ≡ v) e h, all), rw (e, same) refl)
Permᴰ-Settled id v (Permᴰ.swap e f) (h, (k, hs)) = (
  (subst (λ r. r.id ≡ id → r.passed ≡ v) f k, (subst (λ r. r.id ≡ id → r.passed ≡ v) e h, hs)),
  ground (arith, ap (λ (r : CheckResult). r.id == id) e, ap (λ (r : CheckResult). r.id == id) f),
)
Permᴰ-Settled id v (Permᴰ.trans p q) h =
    let (all, same) = Permᴰ-Settled id v p h in
    let (all2, same2) = Permᴰ-Settled id v q all in (all2, same2 ∙ same)

gather-keeps :
    (rs : List CheckResult) (m : IdMap Bool) (id : ℕ) (v : Bool)
    → All (λ r. r.id ≡ id → r.passed ≡ v) rs
    → flag m id ≡ v
    → flag (gather rs m) id ≡ v
unfolding gather
gather-keeps [] m id v agree h = h
gather-keeps (r ∷ rest) m id v (first, agree) h =
    gather-keeps rest (put_id m r.id r.passed) id v agree
      (ground (arith, flag-put_id m r.id id r.passed, h, first))

gather-Settled :
    (rs : List CheckResult) (m : IdMap Bool) (id : ℕ) (v : Bool)
    → Settled rs id v
    → flag (gather rs m) id ≡ v
unfolding gather reports
gather-Settled [] m id v s = ground (arith, s.reported)
gather-Settled (r ∷ rest) m id v s = elim (Bool-cases (r.id == id)) [
  | inl here ↦
      gather-keeps rest (put_id m r.id r.passed) id v s.agreed.1
        (ground (arith, flag-put_id m r.id id r.passed, here, s.agreed.0))
  | inr elsewhere ↦
      gather-Settled rest (put_id m r.id r.passed) id v
        (record { agreed = s.agreed.1; reported = ground (arith, elsewhere, s.reported) })
]

elsewhere :
    (check : HaProxyBackend → Bool) (backends : List HaProxyBackend) (id : ℕ) (v : Bool)
    → named backends id ≡ false
    → All (λ r. r.id ≡ id → r.passed ≡ v) (results check backends)
unfolding results
elsewhere check [] id v h = tt
elsewhere check (b ∷ rest) id v h =
    (λ same. ground (arith, h, same), elsewhere check rest id v (ground (arith, h)))

later-Settled :
    (check : HaProxyBackend → Bool) (r : CheckResult) (rs : List CheckResult)
    (backends : List HaProxyBackend)
    → named backends r.id ≡ false
    → All (λ b. Settled rs b.member.id (check b)) backends
    → All (λ b. Settled (r ∷ rs) b.member.id (check b)) backends
unfolding reports
later-Settled check r rs [] h all = tt
later-Settled check r rs (b ∷ rest) h (s, all) = (
  record {
    agreed = (λ same. ground (arith, h, same), s.agreed);
    reported = ground (arith, s.reported);
  },
  later-Settled check r rs rest (ground (arith, h)) all,
)

results-Settled :
    (check : HaProxyBackend → Bool) (backends : List HaProxyBackend)
    → Distinct backends
    → All (λ b. Settled (results check backends) b.member.id (check b)) backends
unfolding results reports
results-Settled check [] d = tt
results-Settled check (b ∷ rest) (fresh, d) = (
  record {
    agreed = (λ same. refl, elsewhere check rest b.member.id (check b) fresh);
    reported = ground arith;
  },
  later-Settled check _ (results check rest) rest fresh (results-Settled check rest d),
)

-- The map that a round of checks produces gives each backend its own goroutine's result, in whatever
-- order the results arrive, if no two backends have one identifier.
pub round_gathers :
    (check : HaProxyBackend → Bool) (backends : List HaProxyBackend) (arrived : List CheckResult)
    → Distinct backends
    → Perm (results check backends) arrived
    → All (λ b. flag (gather arrived []) b.member.id ≡ check b) backends
round_gathers check backends arrived d p =
    All-map
      (λ b s. ∥∥₁_elim p (Bool-set _ _) (λ q.
        let (all, same) = Permᴰ-Settled b.member.id (check b) q s.agreed in
        gather-Settled arrived [] b.member.id (check b)
          (record { agreed = all; reported = same ∙ s.reported })))
      backends (results-Settled check backends d)
