-- ===== src/Ha/Proxy.antt =====
-- The HA proxy (internal/cluster/ha_proxy.go): the pool of backends, the checks that feed it, and the
-- choice of a backend for a client.
pub mod Refinement
pub mod Rotation
pub mod Checks
pub mod Connections
pub mod Client
pub mod Serve
use apple_pod_control.Prelude.{
  ℕ, zero, suc, ◌+◌, ◌%◌, Bool, true, false, ◌&&◌, ◌||◌, ◌==◌, Option, none, some, List, [], ◌∷◌,
  ◌++◌, length, take, drop, keep,
}
use apple_pod_control.Text.{Text}
use apple_pod_control.Ha.Types.{HaMember}
use apple_pod_control.Ha.Preflight.{IdMap, get_id, put_id}

pub record HaProxyBackend : Type 0 where
  pub member : HaMember
  pub address : Text

pub record HaProxyPool : Type 0 where
  pub backends : List HaProxyBackend
  pub healthy : IdMap Bool
  pub trusted : IdMap Bool
  pub next : ℕ

abbrev pub or_false : Option Bool → Bool
or_false none = false
or_false (some b) = b

-- An index expression of a map[int]bool: false for a missing key.
unfoldable pub flag : IdMap Bool → ℕ → Bool
flag m id = or_false (get_id m id)

-- The loop that copies one map into another; Go visits the keys in any order.
unfoldable pub copy_flags : IdMap Bool → IdMap Bool
copy_flags [] = []
copy_flags ((id, b) ∷ m) = put_id (copy_flags m) id b

trust_all : List HaProxyBackend → IdMap Bool → IdMap Bool
trust_all [] m = m
trust_all (b ∷ rest) m = trust_all rest (put_id m b.member.id true)

unfoldable pub new_ha_proxy_pool : List HaProxyBackend → HaProxyPool
unfolding trust_all
new_ha_proxy_pool backends = record {
  backends = backends;
  healthy = [];
  trusted = trust_all backends [];
  next = 0;
}

unfoldable pub replace_health : HaProxyPool → IdMap Bool → HaProxyPool
replace_health p health = record p { healthy = copy_flags health }

unfoldable pub replace_identity : HaProxyPool → IdMap Bool → HaProxyPool
replace_identity p identity = record p { trusted = copy_flags identity }

unfoldable pub mark_unhealthy : HaProxyPool → ℕ → HaProxyPool
mark_unhealthy p id = record p { healthy = put_id p.healthy id false }

-- Whether the pool offers a backend to clients.
unfoldable pub serves : HaProxyPool → HaProxyBackend → Bool
serves p b = flag p.healthy b.member.id && flag p.trusted b.member.id

unfoldable pub healthy_count : HaProxyPool → ℕ
healthy_count p = length (keep (serves p) p.backends)

-- The rotation of the backends that serve, and the pool after it.
rotate : HaProxyPool → List HaProxyBackend → List HaProxyBackend × HaProxyPool
rotate p [] = ([], p)
rotate p (b ∷ rest) =
    let serving = b ∷ rest in
    let start = p.next % length serving in
    (drop start serving ++ take start serving, record p { next = (p.next + 1) % length serving })

unfoldable pub candidates : HaProxyPool → List HaProxyBackend × HaProxyPool
unfolding rotate
candidates p = rotate p (keep (serves p) p.backends)

-- Whether a list has a backend with the given identifier.
abbrev pub named : List HaProxyBackend → ℕ → Bool
named [] id = false
named (b ∷ rest) id = b.member.id == id || named rest id
