-- ===== src/Ha/Proxy/Serve/Ready.antt =====
-- What the proxy knows when it begins to listen.
use mathlib.Core.List.{Perm}
use mathlib.Core.List.Perm
use apple_pod_control.Prelude.{
  ℕ, ◌<◌, ◌≡◌, refl, sym, ap, Bool, true, false, Option, none, some, List, [], ◌∷◌, arith, map, All,
}
use mathlib.Core.Path.{subst}
use apple_pod_control.Text.{Text}
use apple_pod_control.Host.{Host, Context, History, Error}
use apple_pod_control.Host.Action.{
  Res, ok, err, pure, raise, >>=-eq-ok, pure-eq-ok, lift-eq-ok, raise_if-eq-ok, attempt-eq-ok,
}
use apple_pod_control.Ha.Types.{HaMember, HaConfig, HaContainerInspect}
use apple_pod_control.Ha.Names.{ha_container_name}
use apple_pod_control.Ha.Config.Normalize.{load_ha_config}
use apple_pod_control.Ha.Config.Endpoint.{ha_proxy_endpoint}
use apple_pod_control.Ha.Inspect.{validate_ha_container}
use apple_pod_control.Ha.Inspect.Arguments.{api_endpoint}
use apple_pod_control.Ha.Inspect.Query.{inspect_ha_container}
use apple_pod_control.Ha.Proxy.{
  HaProxyBackend, HaProxyPool, new_ha_proxy_pool, replace_health, healthy_count,
}
use apple_pod_control.Ha.Proxy.Serve.Sorted.{sort-Perm, sort-All}
use apple_pod_control.Ha.Proxy.Serve.{
  HaProxyOptions, Listening, ProxyEndpoint, UrlLibrary, ha_proxy_address, dial_address,
  sort_backends, backend_of, member_backend, member_backends, validate_ha_proxy_backends,
  listen_unless, first_round, after_validation, stop_or, serve_loaded, unless_done, serve_ha_proxy,
  normalize_ha_proxy_options,
}

not_pure :
    (l : Listening) (h h' : History) → ¬ (pure {A = Option Listening} none h ≡ (ok (some l), h'))
unfolding pure
not_pure l h h' e = ground (arith, e)

not_stop_or :
    (x : Error) (stopped : Bool) (l : Listening) (h h' : History)
    → ¬ (stop_or x stopped h ≡ (ok (some l), h'))
unfolding stop_or raise
not_stop_or x true l h h' e = not_pure l h h' e
not_stop_or x false l h h' e = ground (arith, e)

module _ (lib : UrlLibrary) (host : Host) where
  -- The exact container of the member was seen, and the address is the one that it publishes.
  pub record Genuine (config : HaConfig) (member : HaMember) (address : Text) : Type 0 where
    pub ctx : Context
    pub asked : History
    pub answered : History
    pub found : HaContainerInspect
    pub inspected :
        inspect_ha_container host ctx (ha_container_name config.name member.id) asked
        ≡ (ok found, answered)
    pub exact : validate_ha_container host found config member ≡ ok tt
    pub addressed : dial_address lib (api_endpoint member config.listen_address) ≡ some address

  backend_of-eq-ok :
      (member : HaMember) (o : Option Text) (b : HaProxyBackend)
      → backend_of lib member o ≡ ok b
      → (o ≡ some b.address) × (b.member ≡ member)
  unfolding backend_of
  backend_of-eq-ok member none b e = ground (arith, e)
  backend_of-eq-ok member (some a) b e =
      (ap (λ r. some (address_or a r)) e, sym (ap (λ r. member_or r) e))
    where
      address_or : Text → Res HaProxyBackend → Text
      address_or t (ok c) = c.address
      address_or t (err x) = t

      member_or : Res HaProxyBackend → HaMember
      member_or (ok c) = c.member
      member_or (err x) = member

  member_backend-Genuine :
      (ctx : Context) (config : HaConfig) (member : HaMember) (b : HaProxyBackend) (h h' : History)
      → member_backend lib host ctx config member h ≡ (ok b, h')
      → Genuine config b.member b.address × (b.member ≡ member)
  unfolding member_backend
  member_backend-Genuine ctx config member b h h' e =
      let (found, g, e1, r1) = >>=-eq-ok _ _ h h' b e in
      let (u, g2, e2, r2) = >>=-eq-ok _ _ g h' b r1 in
      let (address, same) = backend_of-eq-ok member _ b (lift-eq-ok _ b g2 h' r2) in
      (
        subst (λ m. Genuine config m b.address) (sym same)
            (record {
              ctx = ctx;
              asked = h;
              answered = g;
              found = found;
              inspected = e1;
              exact = lift-eq-ok _ u g g2 e2;
              addressed = address;
            }),
        same,
      )

  AllGenuine : HaConfig → List HaProxyBackend → Type 0
  AllGenuine config bs = All (λ b. Genuine config b.member b.address) bs

  members_of : List HaProxyBackend → List HaMember
  members_of bs = map (λ b. b.member) bs

  member_backends-Genuine :
      (ctx : Context) (config : HaConfig) (members : List HaMember) (bs : List HaProxyBackend)
      (h h' : History)
      → member_backends lib host ctx config members h ≡ (ok bs, h')
      → AllGenuine config bs × (members_of bs ≡ members)
  unfolding member_backends AllGenuine members_of
  member_backends-Genuine ctx config [] bs h h' e =
      subst (λ xs. AllGenuine config xs × (members_of xs ≡ [])) (pure-eq-ok [] bs h h' e) (tt, refl)
  member_backends-Genuine ctx config (member ∷ rest) bs h h' e =
      let (b, g, e1, r1) = >>=-eq-ok _ _ h h' bs e in
      let (cs, g2, e2, r2) = >>=-eq-ok _ _ g h' bs r1 in
      let (one, same) = member_backend-Genuine ctx config member b h g e1 in
      let (others, sames) = member_backends-Genuine ctx config rest cs g g2 e2 in
      subst (λ xs. AllGenuine config xs × (members_of xs ≡ member ∷ rest))
        (pure-eq-ok (b ∷ cs) bs g2 h' r2) ((one, others), rw (same, sames) refl)

  pub record Ready (config : HaConfig) (l : Listening) : Type 0 where
    pub at_endpoint : ha_proxy_endpoint config ≡ ok l.endpoint.url
    pub at_loopback : ha_proxy_address lib l.endpoint.url ≡ ok l.endpoint.address
    pub every_member : Perm config.members (map (λ (b : HaProxyBackend). b.member) l.pool.backends)
    pub all_genuine :
        All (λ (b : HaProxyBackend). Genuine config b.member b.address) l.pool.backends
    pub some_healthy : 0 < healthy_count l.pool

  validated-Genuine :
      (ctx : Context) (config : HaConfig) (bs : List HaProxyBackend) (h h' : History)
      → validate_ha_proxy_backends lib host ctx config h ≡ (ok bs, h')
      → AllGenuine config bs × Perm config.members (members_of bs)
  unfolding validate_ha_proxy_backends members_of AllGenuine
  validated-Genuine ctx config bs h h' e =
      let (cs, g, e1, r1) = >>=-eq-ok _ _ h h' bs e in
      let (gs, same) = member_backends-Genuine ctx config config.members cs h g e1 in
      subst (λ xs. AllGenuine config xs × Perm config.members (members_of xs))
        (pure-eq-ok (sort_backends cs) bs g h' r1)
        (
          sort-All (λ b. Genuine config b.member b.address) cs gs,
          subst (λ ms. Perm ms (members_of (sort_backends cs))) same (Perm.map _ (sort-Perm cs)),
        )

  listen_unless-eq-ok :
      (endpoint : ProxyEndpoint) (pool : HaProxyPool) (stopped : Bool) (l : Listening)
      (h h' : History)
      → listen_unless endpoint pool stopped h ≡ (ok (some l), h')
      → (record { endpoint = endpoint; pool = pool } ≡ l) × (0 < healthy_count pool)
  unfolding listen_unless
  listen_unless-eq-ok endpoint pool true l h h' e = absurd (not_pure l h h' e)
  listen_unless-eq-ok endpoint pool false l h h' e =
      let (u, g, e1, r1) = >>=-eq-ok _ _ h h' (some l) e in
      (ground (arith, pure-eq-ok _ (some l) g h' r1), ground (arith, raise_if-eq-ok _ _ h g e1))

  module _ (arrival : List HaProxyBackend → List HaProxyBackend) where
    first_round-Ready :
        (ctx : Context) (config : HaConfig) (endpoint : ProxyEndpoint) (timeout : ℕ)
        (bs : List HaProxyBackend) (l : Listening) (h h' : History)
        → ha_proxy_endpoint config ≡ ok endpoint.url
        → ha_proxy_address lib endpoint.url ≡ ok endpoint.address
        → AllGenuine config bs × Perm config.members (members_of bs)
        → first_round lib arrival host ctx endpoint timeout bs h ≡ (ok (some l), h')
        → Ready config l
    unfolding first_round AllGenuine members_of new_ha_proxy_pool replace_health
    first_round-Ready ctx config endpoint timeout bs l h h' at loopback (gs, perm) e =
        let (rs, g, e1, r1) = >>=-eq-ok _ _ h h' (some l) e in
        let (stopped, g2, e2, r2) = >>=-eq-ok _ _ g h' (some l) r1 in
        let (same, enough) = listen_unless-eq-ok endpoint _ stopped l g2 h' r2 in
        subst (Ready config) same (record {
          at_endpoint = at;
          at_loopback = loopback;
          every_member = perm;
          all_genuine = gs;
          some_healthy = enough;
        })

    after_validation-Ready :
        (ctx : Context) (config : HaConfig) (endpoint : ProxyEndpoint) (timeout : ℕ)
        (r : Res (List HaProxyBackend)) (l : Listening) (h h' : History)
        → ha_proxy_endpoint config ≡ ok endpoint.url
        → ha_proxy_address lib endpoint.url ≡ ok endpoint.address
        → ((bs : List HaProxyBackend)
            → r ≡ ok bs
            → AllGenuine config bs × Perm config.members (members_of bs))
        → after_validation lib arrival host ctx endpoint timeout r h ≡ (ok (some l), h')
        → Ready config l
    unfolding after_validation
    after_validation-Ready ctx config endpoint timeout (ok bs) l h h' at loopback valid e =
        first_round-Ready ctx config endpoint timeout bs l h h' at loopback (valid bs refl) e
    after_validation-Ready ctx config endpoint timeout (err x) l h h' at loopback valid e =
        let (stopped, g, e1, r1) = >>=-eq-ok _ _ h h' (some l) e in
        absurd (not_stop_or x stopped l g h' r1)

    serve_loaded-Ready :
        (ctx : Context) (timeout : ℕ) (config : HaConfig) (l : Listening) (h h' : History)
        → serve_loaded lib arrival host ctx timeout config h ≡ (ok (some l), h')
        → Ready config l
    unfolding serve_loaded
    serve_loaded-Ready ctx timeout config l h h' e =
        let (url, g0, e0, r0) = >>=-eq-ok _ _ h h' (some l) e in
        let (address, g, e1, r1) = >>=-eq-ok _ _ g0 h' (some l) r0 in
        let (preflight_ctx, g2, e2, r2) = >>=-eq-ok _ _ g h' (some l) r1 in
        let (r, g3, e3, r3) = >>=-eq-ok _ _ g2 h' (some l) r2 in
        after_validation-Ready ctx config (record { url = url; address = address }) timeout r l g3
          h' (lift-eq-ok _ url h g0 e0) (lift-eq-ok _ address g0 g e1)
          (λ bs same.
            validated-Genuine preflight_ctx config bs g2 g3 (attempt-eq-ok _ r bs g2 g3 e3 same))
          r3

    -- The proxy begins to listen only when it has loaded the configuration and computed its endpoint from
    -- it, which passes the loopback and port checks of haProxyAddress; when its pool holds each member of the configuration exactly once, each with an inspected
    -- container that passes the exact validation and with the address that the member publishes; and when
    -- at least one of them is healthy.
    pub serve_ha_proxy-Ready :
        (options : HaProxyOptions) (ctx : Context) (name : Text) (l : Listening) (h h' : History)
        → serve_ha_proxy lib arrival host options ctx name h ≡ (ok (some l), h')
        → (config : HaConfig) × (asked loaded : History) × (load_ha_config host name asked
            ≡ (ok config, loaded))
          × Ready config l
    unfolding serve_ha_proxy
    serve_ha_proxy-Ready options ctx name l h h' e =
        let (done, g, e1, r1) = >>=-eq-ok _ _ h h' (some l) e in goes_on done g r1
      where
        goes_on :
            (done : Bool) (g : History)
            → unless_done lib arrival host ctx
                (normalize_ha_proxy_options options).health_timeout
                name
                done
                g
              ≡ (ok (some l), h')
            → (config : HaConfig) × (asked loaded : History) × (load_ha_config host name asked
                ≡ (ok config, loaded))
              × Ready config l
        goes_on true g q = absurd (not_pure l g h' q)
        goes_on false g q =
            let (config, g2, e2, r2) = >>=-eq-ok _ _ g h' (some l) q in
            (config, g, g2, e2, serve_loaded-Ready ctx _ config l g2 h' r2)
