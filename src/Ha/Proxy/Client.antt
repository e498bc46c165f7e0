-- ===== src/Ha/Proxy/Client.antt =====
-- handleHAProxyClient (internal/cluster/ha_proxy.go): one client of the proxy, beside the goroutines that
-- check the backends and serve other clients.
pub mod Tried
pub mod Served
use apple_pod_control.Prelude.{ℕ, ◌≡◌, Bool, true, false, Option, none, some, List, [], ◌∷◌, ◌++◌}
use apple_pod_control.Ha.Proxy.{HaProxyBackend, HaProxyPool, mark_unhealthy}
use apple_pod_control.Ha.Proxy.Connections.{HaProxyConnections, add, remove, begin_close_all}

-- The answer to a dial, which depends on the candidates that this client has tried before, the last one
-- first, for time passes: the new connection, if there is one. Connections are named by numbers.
abbrev pub Dial : Type 0
Dial = List HaProxyBackend → HaProxyBackend → Option ℕ

-- The calls by which a client touches what it shares with other goroutines, and the relay.
pub data ClientCall : Type 0 where
  marks_unhealthy : ℕ → ClientCall
  registers forgets shuts : ℕ → ClientCall
  relays : ℕ → ℕ → ClientCall

-- A dial that succeeded: the server's connection is registered while the relay runs.
serve_upstream : ℕ → ℕ → List ClientCall
serve_upstream client upstream =
    registers upstream ∷ relays client upstream ∷ forgets upstream ∷ shuts upstream ∷ []

-- The loop over the candidates.
pub dial_candidates : Dial → ℕ → List HaProxyBackend → List HaProxyBackend → List ClientCall
unfolding serve_upstream
dial_candidates dial client tried [] = []
dial_candidates dial client tried (b ∷ rest) =
    let again = dial_candidates dial client (b ∷ tried) rest in
    elim (dial tried b) [
      | some upstream ↦ serve_upstream client upstream
      | none ↦ marks_unhealthy b.member.id ∷ again
    ]

-- The deferred calls, the last one first.
abbrev leave : ℕ → List ClientCall
leave client = shuts client ∷ forgets client ∷ []

-- The calls in their order, for the candidates that the pool has given.
unfoldable pub handle_ha_proxy_client : Dial → ℕ → List HaProxyBackend → List ClientCall
unfolding dial_candidates
handle_ha_proxy_client dial client chosen = dial_candidates dial client [] chosen ++ leave client

-- What the goroutines share, and the connections closed so far.
pub record Proxy : Type 0 where
  pub pool : HaProxyPool
  pub registry : HaProxyConnections
  pub shut : List ℕ

pub after_register : Proxy → ℕ → Proxy
after_register s n =
    let added = add s.registry n in record s { registry = added.0; shut = added.1 ++ s.shut }

pub perform : ClientCall → Proxy → Proxy
unfolding after_register
perform (marks_unhealthy id) s = record s { pool = mark_unhealthy s.pool id }
perform (registers n) s = after_register s n
perform (forgets n) s = record s { registry = remove s.registry n }
perform (shuts n) s = record s { shut = n ∷ s.shut }
perform (relays a b) s = s

-- A step of another goroutine: anything done to the pool, and any call on the registry but the
-- registration of a connection of this client.
pub data OtherStep (mine : ℕ → Bool) (s : Proxy) : Proxy → Type 0 where
  changes_pool : (p : HaProxyPool) → OtherStep mine s (record s { pool = p })
  registers_other : (n : ℕ) → mine n ≡ false → OtherStep mine s (after_register s n)
  forgets_any : (n : ℕ) → OtherStep mine s (record s { registry = remove s.registry n })
  begins_to_close : OtherStep mine s (record s { registry = (begin_close_all s.registry).0 })
  shuts_any : (n : ℕ) → OtherStep mine s (record s { shut = n ∷ s.shut })

-- A client's calls in their order, with any steps of others before, between and after them.
pub data Interleaved (mine : ℕ → Bool) (t : Proxy) : List ClientCall → Proxy → Type 0 where
  ends : Interleaved mine t [] t
  own :
      {s : Proxy} {c : ClientCall} {calls : List ClientCall}
      → Interleaved mine t calls (perform c s)
      → Interleaved mine t (c ∷ calls) s
  other :
      {s s' : Proxy} {calls : List ClientCall}
      → OtherStep mine s s'
      → Interleaved mine t calls s'
      → Interleaved mine t calls s
