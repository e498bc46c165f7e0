-- ===== src/Ha/Proxy/Serve.antt =====
-- serveHAProxy (internal/cluster/ha_proxy.go) up to the moment at which it listens: the exact
-- containers, the first readiness round, and the pool that the proxy starts with.
pub mod Sorted
pub mod Ready
use mathlib.Core.List.{Perm, Permᴰ}
use mathlib.Core.List.Perm
use apple_pod_control.Prelude.{
  ℕ, ◌*◌, ◌<◌, ◌≡◌, refl, sym, ap, ◌∙◌, Bool, true, false, ◌&&◌, Option, none, some, List, [], ◌∷◌,
  arith, ◌==◌, ltb, not, ◌||◌, if◌then◌else◌, map, inl, inr, Bool-cases,
}
use apple_pod_control.Text.{Text, text, text_eq, is_empty}
use apple_pod_control.Host.{Host, Context, History, Error, fail, probed_api}
use apple_pod_control.Host.Action.{
  Res, ok, err, Action, pure, raise, lift, attempt, raise_if, ask, ◌>>=◌, ◌>>◌, context_err,
  with_timeout, >>=-eq-ok, pure-eq-ok, lift-eq-ok, raise_if-eq-ok,
}
use apple_pod_control.Host.Emits.{Emits}
use apple_pod_control.Host.Mutations.{IsQuery}
use apple_pod_control.Ha.Types.{HaMember, HaConfig, HaContainerInspect}
use apple_pod_control.Ha.Names.{ha_container_name}
use apple_pod_control.Ha.Config.Normalize.{load_ha_config}
use apple_pod_control.Ha.Config.Endpoint.{ha_proxy_endpoint}
use apple_pod_control.Ha.Inspect.{validate_ha_container}
use apple_pod_control.Ha.Inspect.Arguments.{api_endpoint}
use apple_pod_control.Ha.Inspect.Query.{inspect_ha_container}
use apple_pod_control.Ha.Queries.{
  query_rules, inspect_ha_container-IsQuery, load_ha_config-IsQuery, with_timeout-IsQuery,
}
use apple_pod_control.Ha.Proxy.{
  HaProxyBackend, HaProxyPool, new_ha_proxy_pool, replace_health, healthy_count,
}
use apple_pod_control.Ha.Proxy.Checks.{CheckResult, gather}

-- The numbers of the options; the intervals and timeouts are in nanoseconds, and a negative value is
-- replaced as zero is.
pub record HaProxyOptions : Type 0 where
  pub health_interval : ℕ
  pub health_timeout : ℕ
  pub identity_interval : ℕ
  pub identity_timeout : ℕ
  pub dial_timeout : ℕ
  pub max_clients : ℕ

abbrev second : ℕ
second = 1_000_000_000

abbrev pub default_ha_proxy_options : HaProxyOptions
default_ha_proxy_options = record {
  health_interval = second;
  health_timeout = 4 * second;
  identity_interval = 30 * second;
  identity_timeout = 10 * second;
  dial_timeout = 2 * second;
  max_clients = 128;
}

or_default : ℕ → ℕ → ℕ
or_default n d = if n == 0 then d else n

unfoldable pub normalize_ha_proxy_options : HaProxyOptions → HaProxyOptions
unfolding or_default
normalize_ha_proxy_options o =
    let d = default_ha_proxy_options in
    record {
      health_interval = or_default o.health_interval d.health_interval;
      health_timeout = or_default o.health_timeout d.health_timeout;
      identity_interval = or_default o.identity_interval d.identity_interval;
      identity_timeout = or_default o.identity_timeout d.identity_timeout;
      dial_timeout = or_default o.dial_timeout d.dial_timeout;
      max_clients = or_default o.max_clients d.max_clients;
    }

-- sort.Slice by the member's identifier.
insert_backend : HaProxyBackend → List HaProxyBackend → List HaProxyBackend
insert_backend b [] = b ∷ []
insert_backend b (c ∷ rest) =
    let after = insert_backend b rest in
    if ltb c.member.id b.member.id then c ∷ after else b ∷ c ∷ rest

pub sort_backends : List HaProxyBackend → List HaProxyBackend
unfolding insert_backend
sort_backends [] = []
sort_backends (b ∷ rest) = insert_backend b (sort_backends rest)

-- What a caller's context makes of an error: a cancelled proxy stops cleanly.
stop_or : {A : Type 0} → Error → Bool → Action (Option A)
stop_or e true = pure none
stop_or e false = raise e

-- A parsed URL.
pub record Url : Type 0 where
  pub scheme : Text
  pub host : Text
  pub path : Text

-- What the proxy uses of net/url, net and strconv: none where the function returns an error. A negative
-- number, which Atoi accepts, is none too; it fails the same check as a low port.
pub record UrlLibrary : Type 0 where
  pub parse : Text → Option Url
  pub split_host_port : Text → Option (Text × Text)
  pub atoi : Text → Option ℕ

bad_url : Option Url → Bool
bad_url none = true
bad_url (some u) = not (text_eq u.scheme (text "https")) || is_empty u.host || not (is_empty u.path)

url_host : Option Url → Text
url_host none = []
url_host (some u) = u.host

bad_host : Option (Text × Text) → Bool
bad_host none = true
bad_host (some (host, port)) = not (text_eq host (text "127.0.0.1"))

port_of : Option (Text × Text) → Text
port_of none = []
port_of (some (host, port)) = port

bad_port : Option ℕ → Bool
bad_port none = true
bad_port (some port) = ltb port 1024 || ltb 65535 port

unfoldable pub ha_proxy_address : UrlLibrary → Text → Res Text
unfolding bad_url url_host bad_host port_of bad_port
ha_proxy_address lib endpoint =
    let parsed = lib.parse endpoint in
    let parts = lib.split_host_port (url_host parsed) in
    if bad_url parsed
    then err (fail "invalid HA proxy endpoint %q")
    else if bad_host parts
    then err (fail "HA proxy endpoint must use loopback host %s")
    else if bad_port (lib.atoi (port_of parts))
    then err (fail "HA proxy endpoint has invalid port %q")
    else ok (url_host parsed)

-- The host of an endpoint, none where the parser fails or the host is empty.
unfoldable pub dial_address : UrlLibrary → Text → Option Text
unfolding url_host
dial_address lib endpoint =
    let host = url_host (lib.parse endpoint) in if is_empty host then none else some host

module _ (lib : UrlLibrary) where
  backend_of : HaMember → Option Text → Res HaProxyBackend
  backend_of member none = err (fail "HA member %d has invalid API endpoint")
  backend_of member (some address) = ok (record { member = member; address = address })

  member_backend : Host → Context → HaConfig → HaMember → Action HaProxyBackend
  unfolding backend_of
  member_backend host ctx config member = do
    found ← inspect_ha_container host ctx (ha_container_name config.name member.id)
    lift (validate_ha_container host found config member)
    lift (backend_of member (dial_address lib (api_endpoint member config.listen_address)))

  -- The loop over the members.
  member_backends : Host → Context → HaConfig → List HaMember → Action (List HaProxyBackend)
  unfolding member_backend
  member_backends host ctx config [] = pure []
  member_backends host ctx config (member ∷ rest) = do
    b ← member_backend host ctx config member
    bs ← member_backends host ctx config rest
    pure (b ∷ bs)

  unfoldable pub validate_ha_proxy_backends :
      Host → Context → HaConfig → Action (List HaProxyBackend)
  unfolding member_backends sort_backends
  validate_ha_proxy_backends host ctx config = do
    bs ← member_backends host ctx config config.members
    pure (sort_backends bs)

probe_backend : Host → Context → ℕ → HaProxyBackend → Action CheckResult
probe_backend host ctx timeout b = do
  probe_ctx ← with_timeout host ctx timeout
  ready ← ask (probed_api b.member) (host.api_ready probe_ctx b.member)
  pure (record { id = b.member.id; passed = ready })

-- The results of a round, in the order in which they arrive.
probe_backends : Host → Context → ℕ → List HaProxyBackend → Action (List CheckResult)
unfolding probe_backend
probe_backends host ctx timeout [] = pure []
probe_backends host ctx timeout (b ∷ rest) = do
  r ← probe_backend host ctx timeout b
  rs ← probe_backends host ctx timeout rest
  pure (r ∷ rs)

-- The URL for clients, and the address to listen on.
pub record ProxyEndpoint : Type 0 where
  pub url : Text
  pub address : Text

-- What the proxy has when it begins to listen.
pub record Listening : Type 0 where
  pub endpoint : ProxyEndpoint
  pub pool : HaProxyPool

listen_unless : ProxyEndpoint → HaProxyPool → Bool → Action (Option Listening)
listen_unless endpoint pool true = pure none
listen_unless endpoint pool false =
    raise_if (healthy_count pool == 0) (fail "HA proxy %q has no healthy API backends")
    >> pure (some (record { endpoint = endpoint; pool = pool }))

-- `arrival` is the order in which the results of the first round arrive.
module _ (lib : UrlLibrary) (arrival : List HaProxyBackend → List HaProxyBackend)
    (host : Host) where
  -- After the validation; `none` is a clean stop.
  first_round : Context → ProxyEndpoint → ℕ → List HaProxyBackend → Action (Option Listening)
  unfolding probe_backends listen_unless
  first_round ctx endpoint timeout backends = do
    rs ← probe_backends host ctx timeout (arrival backends)
    stopped ← context_err host ctx
    listen_unless endpoint (replace_health (new_ha_proxy_pool backends) (gather rs [])) stopped

  after_validation :
      Context → ProxyEndpoint → ℕ → Res (List HaProxyBackend) → Action (Option Listening)
  unfolding first_round stop_or
  after_validation ctx endpoint timeout (ok backends) = first_round ctx endpoint timeout backends
  after_validation ctx endpoint timeout (err e) = context_err host ctx >>= stop_or e

  serve_loaded : Context → ℕ → HaConfig → Action (Option Listening)
  unfolding after_validation
  serve_loaded ctx timeout config = do
    url ← lift (ha_proxy_endpoint config)
    address ← lift (ha_proxy_address lib url)
    preflight_ctx ← with_timeout host ctx (30 * second)
    validated ← attempt (validate_ha_proxy_backends lib host preflight_ctx config)
    after_validation ctx (record { url = url; address = address }) timeout validated

  unless_done : Context → ℕ → Text → Bool → Action (Option Listening)
  unfolding serve_loaded
  unless_done ctx timeout name true = pure none
  unless_done ctx timeout name false = load_ha_config host name >>= serve_loaded ctx timeout

  unfoldable pub serve_ha_proxy : HaProxyOptions → Context → Text → Action (Option Listening)
  unfolding unless_done
  serve_ha_proxy options ctx name =
      context_err host ctx
      >>= unless_done ctx (normalize_ha_proxy_options options).health_timeout name
