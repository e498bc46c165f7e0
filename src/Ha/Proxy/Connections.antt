-- ===== src/Ha/Proxy/Connections.antt =====
-- The registry of open connections of ha_proxy.go, its closing at shutdown, and the goroutines that
-- use it at the same time.
pub mod Closing
use apple_pod_control.Prelude.{ℕ, Bool, true, false, ◌≡◌, List, [], ◌∷◌, ◌++◌, ◌==◌, if◌then◌else◌}
use apple_pod_control.Ha.Config.{contains_number}

-- Connections are named by numbers.
pub record HaProxyConnections : Type 0 where
  pub connections : List ℕ
  pub closed : Bool

unfoldable pub new_ha_proxy_connections : HaProxyConnections
new_ha_proxy_connections = record { connections = []; closed = false }

-- delete(m, key)
unfoldable pub delete_number : List ℕ → ℕ → List ℕ
delete_number [] n = []
delete_number (m ∷ rest) n = let after = delete_number rest n in if m == n then after else m ∷ after

-- m[key] = struct{}{}
insert_number : List ℕ → ℕ → List ℕ
insert_number ns n = if contains_number ns n then ns else n ∷ ns

-- The registry after `add`, and the connections that it closes.
unfoldable pub add : HaProxyConnections → ℕ → HaProxyConnections × List ℕ
unfolding insert_number
add c connection =
    if c.closed
    then (c, connection ∷ [])
    else (record c { connections = insert_number c.connections connection }, [])

unfoldable pub remove : HaProxyConnections → ℕ → HaProxyConnections
remove c connection = record c { connections = delete_number c.connections connection }

-- The locked part of `closeAll`: the registry after it, and the connections to close.
unfoldable pub begin_close_all : HaProxyConnections → HaProxyConnections × List ℕ
begin_close_all c = (record c { closed = true }, c.connections)

-- The proxy's connections in the course of time: the registry; what the calls of `closeAll` under way
-- have still to close; what has been closed by `add` and `closeAll`; and what has been given to `add`
-- and to `remove`.
pub record Connected : Type 0 where
  pub registry : HaProxyConnections
  pub pending : List ℕ
  pub shut : List ℕ
  pub added : List ℕ
  pub removed : List ℕ

unfoldable pub connected_at_start : Connected
unfolding new_ha_proxy_connections
connected_at_start = record {
  registry = new_ha_proxy_connections;
  pending = [];
  shut = [];
  added = [];
  removed = [];
}

unfoldable pub after_add : Connected → ℕ → Connected
after_add s connection =
    let result = add s.registry connection in
    record s { registry = result.0; shut = result.1 ++ s.shut; added = connection ∷ s.added }

unfoldable pub after_remove : Connected → ℕ → Connected
after_remove s connection = record s {
  registry = remove s.registry connection;
  removed = connection ∷ s.removed;
}

unfoldable pub after_begin : Connected → Connected
after_begin s =
    let result = begin_close_all s.registry in
    record s { registry = result.0; pending = result.1 ++ s.pending }

-- One step of one goroutine. The loop of `closeAll` takes its connections in any order.
pub data ConnectionStep : Connected → Connected → Type 0 where
  adds : (s : Connected) (connection : ℕ) → ConnectionStep s (after_add s connection)
  removes : (s : Connected) (connection : ℕ) → ConnectionStep s (after_remove s connection)
  begins : (s : Connected) → ConnectionStep s (after_begin s)
  closes :
      (s : Connected) (before : List ℕ) (connection : ℕ) (rest : List ℕ)
      → s.pending ≡ before ++ connection ∷ rest
      → ConnectionStep s (record s { pending = before ++ rest; shut = connection ∷ s.shut })

pub data ConnectionReached : Connected → Type 0 where
  at_start : ConnectionReached connected_at_start
  next_step : (s t : Connected) → ConnectionReached s → ConnectionStep s t → ConnectionReached t
