-- ===== src/Ha/Proxy/Client/Tried.antt =====
-- Which candidates a client tries (handleHAProxyClient of internal/cluster/ha_proxy.go).
use apple_pod_control.Prelude.{
  ℕ, ◌≡◌, refl, ap, none, some, List, [], ◌∷◌, ◌++◌, map, inl, inr, ◌⊎◌, Option-cases,
}
use apple_pod_control.Ha.Proxy.{HaProxyBackend}
use apple_pod_control.Ha.Proxy.Client.{
  Dial, ClientCall, marks_unhealthy, registers, forgets, shuts, relays, serve_upstream,
  dial_candidates,
}

-- Candidates that were dialled in vain, one after another.
pub data Refused (dial : Dial) : List HaProxyBackend → List HaProxyBackend → Type 0 where
  nobody : {tried : List HaProxyBackend} → Refused dial tried []
  one_more :
      {tried rest : List HaProxyBackend} {b : HaProxyBackend}
      → dial tried b ≡ none
      → Refused dial (b ∷ tried) rest
      → Refused dial tried (b ∷ rest)

-- The candidates tried already, when these have been tried too.
abbrev pub past : List HaProxyBackend → List HaProxyBackend → List HaProxyBackend
past tried [] = tried
past tried (b ∷ rest) = past (b ∷ tried) rest

abbrev pub marks : List HaProxyBackend → List ClientCall
marks failed = map (λ b. marks_unhealthy b.member.id) failed

-- The server that was reached.
pub record Reached (dial : Dial) (client : ℕ) (tried failed rest : List HaProxyBackend)
    (calls : List ClientCall) : Type 0 where
  pub backend : HaProxyBackend
  pub later : List HaProxyBackend
  pub upstream : ℕ
  pub next_tried : rest ≡ backend ∷ later
  pub connected : dial (past tried failed) backend ≡ some upstream
  pub served :
      calls
      ≡ marks failed
        ++ (registers upstream ∷ relays client upstream ∷ forgets upstream ∷ shuts upstream ∷ [])

-- What the loop does: the candidates tried in vain, and the one reached, if any.
pub record Tried (dial : Dial) (client : ℕ) (tried chosen : List HaProxyBackend)
    (calls : List ClientCall) : Type 0 where
  pub failed : List HaProxyBackend
  pub rest : List HaProxyBackend
  pub split : chosen ≡ failed ++ rest
  pub refused : Refused dial tried failed
  pub outcome : ((rest ≡ []) × (calls ≡ marks failed)) ⊎ Reached dial client tried failed rest calls

Tried-more :
    (dial : Dial) (client : ℕ) (tried rest : List HaProxyBackend) (b : HaProxyBackend)
    (calls : List ClientCall)
    → dial tried b ≡ none
    → Tried dial client (b ∷ tried) rest calls
    → Tried dial client tried (b ∷ rest) (marks_unhealthy b.member.id ∷ calls)
Tried-more dial client tried rest b calls e t = record {
  failed = b ∷ t.failed;
  rest = t.rest;
  split = ap (λ xs. b ∷ xs) t.split;
  refused = one_more e t.refused;
  outcome = elim t.outcome [
    | inl (over, only) ↦ inl (over, ap (λ cs. marks_unhealthy b.member.id ∷ cs) only)
    | inr r ↦ inr (record {
      backend = r.backend;
      later = r.later;
      upstream = r.upstream;
      next_tried = r.next_tried;
      connected = r.connected;
      served = ap (λ cs. marks_unhealthy b.member.id ∷ cs) r.served;
    })
  ];
}

pub dial_candidates-Tried :
    (dial : Dial) (client : ℕ) (tried chosen : List HaProxyBackend)
    → Tried dial client tried chosen (dial_candidates dial client tried chosen)
unfolding dial_candidates serve_upstream
dial_candidates-Tried dial client tried [] = record {
  failed = [];
  rest = [];
  split = refl;
  refused = nobody;
  outcome = inl (refl, refl);
}
dial_candidates-Tried dial client tried (b ∷ rest) = elim (Option-cases (dial tried b)) [
  | inl e ↦
      rw (e, dial_candidates)
        (Tried-more dial client tried rest b _ e
          (dial_candidates-Tried dial client (b ∷ tried) rest))
  | inr (upstream, e) ↦
      rw (e, dial_candidates)
        record {
          failed = [];
          rest = b ∷ rest;
          split = refl;
          refused = nobody;
          outcome = inr (record {
            backend = b;
            later = rest;
            upstream = upstream;
            next_tried = refl;
            connected = e;
            served = refl;
          });
        }
]
