-- ===== src/Ha/Config/Endpoint.antt =====
-- haProxyEndpoint (internal/cluster/ha_proxy.go): the proxy listens one port below the lowest port
-- of the members.
use apple_pod_control.Prelude.{
  ℕ, ◌-◌, Bool, ◌||◌, List, [], ◌∷◌, ◌++◌, ltb, ◌==◌, if◌then◌else◌, false,
}
use apple_pod_control.Text.{Text, text}
use apple_pod_control.Text.Numbers.{itoa}
use apple_pod_control.Host.{fail}
use apple_pod_control.Host.Action.{Res, ok, err}
use apple_pod_control.Ha.Types.{HaMember, HaConfig}

unfoldable pub has_port : List ℕ → ℕ → Bool
has_port [] port = false
has_port (p ∷ rest) port = p == port || has_port rest port

abbrev proxy_min_unprivileged : ℕ
proxy_min_unprivileged = 1024

-- The part after the loop.
endpoint_at : List ℕ → ℕ → Res Text
unfolding has_port
endpoint_at ports minimum =
    let proxy_port = minimum - 1 in
    if ltb proxy_port proxy_min_unprivileged || ltb 65535 proxy_port
    then err (fail "derived HA proxy port %d is invalid or privileged")
    else if has_port ports proxy_port
    then err (fail "derived HA proxy port %d collides with a member API port")
    else ok (text "https://127.0.0.1:" ++ itoa proxy_port)

-- The loop over the members, with the ports seen and the lowest of them.
endpoint_loop : List HaMember → List ℕ → ℕ → Res Text
unfolding endpoint_at has_port
endpoint_loop [] ports minimum = endpoint_at ports minimum
endpoint_loop (member ∷ rest) ports minimum =
    let port = member.host_api_port in
    let after = endpoint_loop rest (port ∷ ports) (if ltb port minimum then port else minimum) in
    if ltb port 1 || ltb 65535 port
    then err (fail "HA member %d has invalid API port %d")
    else if has_port ports port
    then err (fail "HA member API port %d is duplicated")
    else after

members_endpoint : List HaMember → Res Text
unfolding endpoint_loop
members_endpoint [] = err (fail "HA proxy requires at least one configured API member")
members_endpoint (member ∷ rest) = endpoint_loop (member ∷ rest) [] 65536

unfoldable pub ha_proxy_endpoint : HaConfig → Res Text
unfolding members_endpoint
ha_proxy_endpoint config = members_endpoint config.members
