-- ===== src/Ha/Proxy/Client/Served.antt =====
-- What becomes of a client, however the goroutines of the proxy are interleaved.
use apple_pod_control.Prelude.{
  ℕ, ◌≡◌, refl, sym, ap, ◌∙◌, Bool, true, false, ◌||◌, some, List, [], ◌∷◌, ◌++◌, arith, inl, inr,
  Bool-cases, ◌==◌, if◌then◌else◌,
}
use mathlib.Core.Path.{subst}
use apple_pod_control.Ha.Config.{contains_number}
use apple_pod_control.Ha.Proxy.{HaProxyBackend}
use apple_pod_control.Ha.Proxy.Connections.{add, remove, begin_close_all, delete_number}
use apple_pod_control.Ha.Proxy.Connections.Closing.{delete-contains, add-contains}
use apple_pod_control.Ha.Proxy.Client.{
  Dial, ClientCall, marks_unhealthy, registers, forgets, shuts, relays, dial_candidates, leave,
  handle_ha_proxy_client, Proxy, after_register, perform, OtherStep, changes_pool, registers_other,
  forgets_any, begins_to_close, shuts_any, Interleaved, ends, own, other,
}
use apple_pod_control.Ha.Proxy.Client.Tried.{marks, past, Reached, Tried, dial_candidates-Tried}

-- Whether the calls close a connection, and whether it is unregistered after them if it was before.
abbrev closes : ℕ → List ClientCall → Bool
closes n [] = false
closes n (shuts m ∷ calls) = m == n || closes n calls
closes n (_ ∷ calls) = closes n calls

abbrev unregisters : ℕ → Bool → List ClientCall → Bool
unregisters n b [] = b
unregisters n b (registers m ∷ calls) = unregisters n (if m == n then false else b) calls
unregisters n b (forgets m ∷ calls) = unregisters n (if m == n then true else b) calls
unregisters n b (_ ∷ calls) = unregisters n b calls

contains-append :
    (xs ys : List ℕ) (n : ℕ) → contains_number ys n ≡ true → contains_number (xs ++ ys) n ≡ true
unfolding contains_number
contains-append [] ys n h = h
contains-append (x ∷ xs) ys n h = ground (arith, contains-append xs ys n h)

distinct : (mine : ℕ → Bool) (m n : ℕ) → mine m ≡ false → mine n ≡ true → (m == n) ≡ false
distinct mine m n e is_mine = elim (Bool-cases (m == n)) [
  | inl same ↦
      let eq : m ≡ n = ground (arith, same) in
      let absurdity : false ≡ true = sym e ∙ (ap mine eq ∙ is_mine) in ground (arith, absurdity)
  | inr differs ↦ differs
]

module _ (mine : ℕ → Bool) (t : Proxy) (n : ℕ) where
  perform-shut :
      (c : ClientCall) (s : Proxy)
      → contains_number s.shut n ≡ true
      → contains_number (perform c s).shut n ≡ true
  unfolding perform after_register contains_number
  perform-shut (marks_unhealthy id) s h = h
  perform-shut (registers m) s h = contains-append (add s.registry m).1 s.shut n h
  perform-shut (forgets m) s h = h
  perform-shut (shuts m) s h = ground (arith, h)
  perform-shut (relays a b) s h = h

  other-shut :
      (s s' : Proxy)
      → OtherStep mine s s'
      → contains_number s.shut n ≡ true
      → contains_number s'.shut n ≡ true
  unfolding after_register contains_number
  other-shut s _ (changes_pool p) h = h
  other-shut s _ (registers_other m e) h = contains-append (add s.registry m).1 s.shut n h
  other-shut s _ (forgets_any m) h = h
  other-shut s _ begins_to_close h = h
  other-shut s _ (shuts_any m) h = ground (arith, h)

  stays_shut :
      (calls : List ClientCall) (s : Proxy)
      → Interleaved mine t calls s
      → contains_number s.shut n ≡ true
      → contains_number t.shut n ≡ true
  stays_shut _ _ ends h = h
  stays_shut _ s (own {c = c} {calls = calls} more) h =
      stays_shut calls (perform c s) more (perform-shut c s h)
  stays_shut calls s (other {s' = s'} step more) h =
      stays_shut calls s' more (other-shut s s' step h)

  closes-shut :
      (calls : List ClientCall) (s : Proxy)
      → Interleaved mine t calls s
      → closes n calls ≡ true
      → contains_number t.shut n ≡ true
  unfolding perform contains_number
  closes-shut _ _ ends h = ground (arith, h)
  closes-shut calls s (other {s' = s'} step more) h = closes-shut calls s' more h
  closes-shut _ s (own {c = marks_unhealthy id} {calls = calls} more) h = closes-shut calls _ more h
  closes-shut _ s (own {c = registers m} {calls = calls} more) h = closes-shut calls _ more h
  closes-shut _ s (own {c = forgets m} {calls = calls} more) h = closes-shut calls _ more h
  closes-shut _ s (own {c = relays a b} {calls = calls} more) h = closes-shut calls _ more h
  closes-shut _ s (own {c = shuts m} {calls = calls} more) h = elim (Bool-cases (m == n)) [
    | inl same ↦ stays_shut calls _ more (ground (arith, same))
    | inr differs ↦ closes-shut calls _ more (ground (arith, h, differs))
  ]

  -- What is known of a connection: nothing, or that it is not registered.
  abbrev Known : Bool → Proxy → Type 0
  Known b s = b ≡ true → contains_number s.registry.connections n ≡ false

  deleted : (xs : List ℕ) → contains_number (delete_number xs n) n ≡ false
  unfolding contains_number delete_number
  deleted [] = refl
  deleted (x ∷ xs) = ground (arith, deleted xs)

  still_deleted :
      (xs : List ℕ) (m : ℕ)
      → contains_number xs n ≡ false
      → contains_number (delete_number xs m) n ≡ false
  still_deleted xs m h = ground (arith, h, delete-contains xs m n)

  other-Known :
      (b : Bool) (s s' : Proxy) → mine n ≡ true → OtherStep mine s s' → Known b s → Known b s'
  unfolding after_register remove begin_close_all
  other-Known b s _ is_mine (changes_pool p) k = k
  other-Known b s _ is_mine (registers_other m e) k =
      λ h. add-contains s.registry m n (distinct mine m n e is_mine) (k h)
  other-Known b s _ is_mine (forgets_any m) k = λ h. still_deleted s.registry.connections m (k h)
  other-Known b s _ is_mine begins_to_close k = k
  other-Known b s _ is_mine (shuts_any m) k = k

  unregisters-Known :
      (calls : List ClientCall) (s : Proxy) (b : Bool)
      → mine n ≡ true
      → Interleaved mine t calls s
      → Known b s
      → Known (unregisters n b calls) t
  unfolding perform after_register remove
  unregisters-Known _ _ b is_mine ends k = k
  unregisters-Known calls s b is_mine (other {s' = s'} step more) k =
      unregisters-Known calls s' b is_mine more (other-Known b s s' is_mine step k)
  unregisters-Known _ s b is_mine (own {c = marks_unhealthy id} {calls = calls} more) k =
      unregisters-Known calls _ b is_mine more k
  unregisters-Known _ s b is_mine (own {c = shuts m} {calls = calls} more) k =
      unregisters-Known calls _ b is_mine more k
  unregisters-Known _ s b is_mine (own {c = relays x y} {calls = calls} more) k =
      unregisters-Known calls _ b is_mine more k
  unregisters-Known _ s b is_mine (own {c = registers m} {calls = calls} more) k =
      unregisters-Known calls _ (if m == n then false else b) is_mine more
        (λ h. add-contains s.registry m n (ground (arith, h)) (k (ground (arith, h))))
  unregisters-Known _ s b is_mine (own {c = forgets m} {calls = calls} more) k =
      unregisters-Known calls _ (if m == n then true else b) is_mine more (λ h.
        elim (Bool-cases (m == n)) [
          | inl same ↦
              subst (λ j. contains_number (delete_number s.registry.connections j) n ≡ false)
                (sym (ground (arith, same))) (deleted s.registry.connections)
          | inr differs ↦ still_deleted s.registry.connections m (k (ground (arith, h, differs)))
        ])

closes-last : (n : ℕ) (calls : List ClientCall) → closes n (calls ++ leave n) ≡ true
closes-last n [] = ground arith
closes-last n (marks_unhealthy id ∷ calls) = closes-last n calls
closes-last n (registers m ∷ calls) = closes-last n calls
closes-last n (forgets m ∷ calls) = closes-last n calls
closes-last n (relays a b ∷ calls) = closes-last n calls
closes-last n (shuts m ∷ calls) = ground (arith, closes-last n calls)

unregisters-last :
    (n : ℕ) (calls : List ClientCall) (b : Bool) → unregisters n b (calls ++ leave n) ≡ true
unregisters-last n [] b = ground arith
unregisters-last n (marks_unhealthy id ∷ calls) b = unregisters-last n calls b
unregisters-last n (registers m ∷ calls) b = unregisters-last n calls (if m == n then false else b)
unregisters-last n (forgets m ∷ calls) b = unregisters-last n calls (if m == n then true else b)
unregisters-last n (relays x y ∷ calls) b = unregisters-last n calls b
unregisters-last n (shuts m ∷ calls) b = unregisters-last n calls b

closes-marks :
    (n : ℕ) (failed : List HaProxyBackend) (tail last : List ClientCall)
    → closes n ((marks failed ++ tail) ++ last) ≡ closes n (tail ++ last)
closes-marks n [] tail last = refl
closes-marks n (b ∷ failed) tail last = closes-marks n failed tail last

unregisters-marks :
    (n : ℕ) (b : Bool) (failed : List HaProxyBackend) (tail last : List ClientCall)
    → unregisters n b ((marks failed ++ tail) ++ last) ≡ unregisters n b (tail ++ last)
unregisters-marks n b [] tail last = refl
unregisters-marks n b (x ∷ failed) tail last = unregisters-marks n b failed tail last

-- What a client's calls are, and what has become of its connections when they are over.
pub record Served (dial : Dial) (client : ℕ) (chosen : List HaProxyBackend) (t : Proxy)
    : Type 0 where
  pub loop : List ClientCall
  pub tried : Tried dial client [] chosen loop
  pub leaves :
      handle_ha_proxy_client dial client chosen ≡ loop ++ (shuts client ∷ forgets client ∷ [])
  pub client_shut : contains_number t.shut client ≡ true
  pub client_forgotten : contains_number t.registry.connections client ≡ false
  pub upstream_released :
      (failed rest : List HaProxyBackend) (r : Reached dial client [] failed rest loop)
      → (contains_number t.shut r.upstream ≡ true)
        × (contains_number t.registry.connections r.upstream ≡ false)

-- A client dials the candidates in their order until one answers, marks as unhealthy exactly those that
-- it dialled in vain, relays with the one that answered, and with none if there is none, and leaves.
-- However its calls are interleaved with steps of other goroutines, none of which registers a
-- connection of this client, when they are over the client's connection and the server's have been
-- closed and neither is registered.
pub handle_client-Served :
    (mine : ℕ → Bool) (dial : Dial) (client : ℕ) (chosen : List HaProxyBackend) (s t : Proxy)
    → mine client ≡ true
    → ((tried : List HaProxyBackend) (b : HaProxyBackend) (upstream : ℕ)
        → dial tried b ≡ some upstream
        → mine upstream ≡ true)
    → Interleaved mine t (handle_ha_proxy_client dial client chosen) s
    → Served dial client chosen t
unfolding handle_ha_proxy_client
handle_client-Served mine dial client chosen s t is_mine are_mine run =
    let loop = dial_candidates dial client [] chosen in
    let calls = loop ++ leave client in
    record {
      loop = loop;
      tried = dial_candidates-Tried dial client [] chosen;
      leaves = refl;
      client_shut = closes-shut mine t client calls s run (closes-last client loop);
      client_forgotten =
          unregisters-Known mine t client calls s false is_mine run (λ h. ground (arith, h))
            (unregisters-last client loop false);
      upstream_released = λ failed rest r.
          let n = r.upstream in
          let ending = registers n ∷ relays client n ∷ forgets n ∷ shuts n ∷ [] in
          let closed : closes n calls ≡ true =
            ap (λ cs. closes n (cs ++ leave client)) r.served
            ∙ (closes-marks n failed ending (leave client) ∙ ground arith) in
          let gone : unregisters n false calls ≡ true =
            ap (λ cs. unregisters n false (cs ++ leave client)) r.served
            ∙ (unregisters-marks n false failed ending (leave client) ∙ ground arith) in
          (
            closes-shut mine t n calls s run closed,
            unregisters-Known mine t n calls s false
                (are_mine (past [] failed) r.backend n r.connected) run (λ h. ground (arith, h))
                gone,
          );
    }
