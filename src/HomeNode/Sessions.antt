-- ===== src/HomeNode/Sessions.antt =====
-- From a grant of the control plane to the service of the node.
use medium.Common.{
  ℕ, ◌+◌, ◌≤◌, ◌≡◌, refl, sym, ap, ◌∙◌, subst, inl, inr, Bool, true, false, ◌&&◌, List, [], ◌∷◌,
  ◌++◌, map, arith, Option, none, some, any, All, Bytes, codes, bytes_eq, bytes_eq_refl, ltb,
  Bool-cases, Option-cases, if◌then◌else◌, ok, err, ok_injective, pos, sort_by, insert, retain,
  retain-nothing, All-append,
}
use medium.Candidates.{direct_tcp, relay_tcp, wss_relay}
use medium.Candidates.Greeting.{SessionHello}
use medium.SessionToken.{SessionTokenClaims, Crypto, token_expired, minutes, verify_session_token}
use medium.SessionToken.Acceptance.{IsLawful, claims_at, issued_token_expires}
use medium.ControlPlane.Registry.{
  tcp_proxy, NodeEndpoint, PublishedService, RegisterNodeRequest, RegistryError, ServiceEndpoint,
  ServiceRoute, first_row, resolve_node_service_route,
}
use medium.ControlPlane.Requests.{
  is_offered, offered, published, route_from, published_route, or_else, last_request, route_of_last,
}
use medium.ControlPlane.Routes.{register_all, empty_store, register_all-route_of_last}
use medium.ControlPlane.Grants.{
  SessionOpenRequest, SessionOpenGrant, SessionSettings, Parsers, Ids, candidate, push_candidate,
  issue_session_grant,
}
use medium.ControlPlane.Granted.{Granted, issue_session_grant-Granted}
use medium.HomeNode.Config.{ServiceConfig, NodeConfig}
use medium.HomeNode.Registration.{
  Machine, unwrap_or, push_ice_endpoint, push_ice_endpoints, published_service, is_enabled,
  build_ice_udp_endpoints, build_registration,
}
use medium.HomeNode.Proxy.{ProxyService, get, proxy_services_from_config, authorized_service}
use medium.HomeNode.Access.{last_enabled, Shows, Reached, found-Reached, get-Shows}

abbrev IsIce : NodeEndpoint → Type 0
IsIce e = is_offered tcp_proxy e ≡ false

push_ice_endpoint-IsIce :
    (es : List NodeEndpoint) (addr : Bytes) (priority : ℕ)
    → All IsIce es
    → All IsIce (push_ice_endpoint es addr priority)
unfolding push_ice_endpoint
push_ice_endpoint-IsIce es addr priority h =
    elim (Bool-cases (any (λ e. bytes_eq e.addr addr) es)) [
      | inl e ↦ rw e h
      | inr e ↦ rw e (All-append IsIce es _ h (refl, tt))
    ]

push_ice_endpoints-IsIce :
    (es : List NodeEndpoint) (addrs : List Bytes) (priority : ℕ)
    → All IsIce es
    → All IsIce (push_ice_endpoints es addrs priority)
unfolding push_ice_endpoints
push_ice_endpoints-IsIce es [] priority h = h
push_ice_endpoints-IsIce es (addr ∷ addrs) priority h =
    push_ice_endpoints-IsIce (push_ice_endpoint es addr priority) addrs priority
      (push_ice_endpoint-IsIce es addr priority h)

module _ (m : Machine) (cfg : NodeConfig) where
  ices-IsIce : All IsIce (build_ice_udp_endpoints m cfg)
  unfolding build_ice_udp_endpoints
  ices-IsIce =
      push_ice_endpoint-IsIce _ _ 100
        (push_ice_endpoints-IsIce _ _ 250 (push_ice_endpoints-IsIce [] cfg.ice_host_addrs 300 tt))

  abbrev pub tcp_addr : Bytes
  tcp_addr = unwrap_or cfg.public_addr cfg.bind_addr

  -- A node offers its one address for TCP.
  offered-tcp_addr :
      offered tcp_proxy (build_registration m cfg).endpoints
      ≡ record { addr = tcp_addr; priority = pos 10 } ∷ []
  unfolding offered build_registration retain sort_by insert
  offered-tcp_addr =
      rw (retain-nothing (is_offered tcp_proxy) (build_ice_udp_endpoints m cfg) ices-IsIce) refl

or_else-none : {A : Type 0} (a b : Option A) → or_else a b ≡ none → (a ≡ none) × (b ≡ none)
or_else-none none b h = (refl, h)
or_else-none (some a) b h = cc

no_service-step :
    (v : Bytes) (b : Bool) (s : ServiceConfig) (rest : List ServiceConfig)
    → (if b && bytes_eq s.id v then some s else none) ≡ none
    → published v (map published_service rest) ≡ none
    → published v (map published_service (if b then s ∷ rest else rest)) ≡ none
unfolding published_service
no_service-step v true s rest h k = elim (Bool-cases (bytes_eq s.id v)) [
  | inl e ↦ let h' = rw e at h in cc
  | inr e ↦ rw e k
]
no_service-step v false s rest h k = k

no_service :
    (v : Bytes) (ss : List ServiceConfig)
    → last_enabled v ss ≡ none
    → published v (map published_service (retain is_enabled ss)) ≡ none
unfolding retain
no_service v [] h = refl
no_service v (s ∷ ss) h =
    let (later, own) = or_else-none (last_enabled v ss) _ h in
    no_service-step v s.enabled s (retain is_enabled ss) own (no_service v ss later)

-- A route that a request gives is to a service of the request.
routed :
    (q : RegisterNodeRequest) (o : Option PublishedService) (e : ServiceEndpoint) (r : ServiceRoute)
    → route_from q o (some e) ≡ ok r
    → (p : PublishedService) × (o ≡ some p) × (r.node_id ≡ q.node_id) × (r.tcp_addr ≡ e.addr)
routed q none e r h = cc
routed q (some p) e r h =
    let same = ok_injective RegistryError h in
    (
      p,
      refl,
      ap (λ (r : ServiceRoute). r.node_id) (sym same),
      ap (λ (r : ServiceRoute). r.tcp_addr) (sym same),
    )

module _ (m : Machine) (cfg : NodeConfig) (v : Bytes) where
  route-Enabled :
      (r : ServiceRoute)
      → published_route v (build_registration m cfg) ≡ ok r
      → (s : ServiceConfig) × (last_enabled v cfg.services ≡ some s)
        × (r.node_id ≡ cfg.node_id)
        × (r.tcp_addr ≡ tcp_addr m cfg)
  unfolding build_registration
  route-Enabled r h =
      let (p, is, node, addr) =
        routed (build_registration m cfg)
          (published v (map published_service (retain is_enabled cfg.services))) _ r
          (subst
            (λ l.
              route_from (build_registration m cfg)
                (published v (map published_service (retain is_enabled cfg.services))) (first_row l)
              ≡ ok r)
            (offered-tcp_addr m cfg) h) in
      elim (Option-cases (last_enabled v cfg.services)) [
        | inl none' ↦ let bad = no_service v cfg.services none' in cc
        | inr (s, found) ↦ (s, found, node, addr)
      ]

abbrev pub request_for : Bytes → Bytes → Bytes → SessionOpenRequest
request_for device v n = record { service_id = v; requester_device_id = device; node_id = some n }

abbrev pub hello_for : SessionOpenGrant → SessionHello
hello_for grant = record {
  token = grant.authorization.token;
  service_id = grant.service_id;
  transport = none;
}

module _ {T : Type 0} (issue_tls : Bytes → Bytes → Option T) (to_lowercase : ℕ → Bytes) where
  found-entry :
      (cfg : NodeConfig) (v : Bytes) (services : List (ProxyService T)) (s : ServiceConfig)
      → proxy_services_from_config issue_tls to_lowercase cfg ≡ ok services
      → last_enabled v cfg.services ≡ some s
      → (entry : ProxyService T) × (get v services ≡ some entry)
        × Reached issue_tls to_lowercase cfg v entry
  found-entry cfg v services s h e =
      let shown =
        subst (λ o. Shows issue_tls to_lowercase o none (get v services)) e
          (get-Shows issue_tls to_lowercase cfg services v h) in
      (
        shown.0,
        shown.1,
        found-Reached issue_tls to_lowercase cfg v (some s) (get v services) shown.0 e shown
            shown.1,
      )

  allowed :
      (c : Crypto) (later : ℕ) (hello : SessionHello) (services : List (ProxyService T))
      (node_id secret : Bytes) (claims : SessionTokenClaims) (entry : ProxyService T)
      → verify_session_token c later secret hello.token ≡ ok claims
      → claims.service_id ≡ hello.service_id
      → claims.node_id ≡ node_id
      → get hello.service_id services ≡ some entry
      → authorized_service c later hello services node_id secret ≡ ok entry
  unfolding authorized_service
  allowed c later hello services node_id secret claims entry h v n g =
      rw (h, v, n, bytes_eq_refl hello.service_id, bytes_eq_refl node_id, g) refl

  module _ (m : Machine) (p : Parsers) (c : Crypto) (ids : Ids) where
    accepted :
        (now later : ℕ) (request : SessionOpenRequest) (settings : SessionSettings)
        (grant : SessionOpenGrant)
        → IsLawful c
        → (g : Granted p c ids now request settings grant) → later ≤ now + minutes 15
        → verify_session_token c later settings.shared_secret grant.authorization.token
          ≡ ok (claims_at now (codes "sess_" ++ ids.session) request.service_id g.route.node_id)
    accepted now later request settings grant laws g in_time =
        let fresh : ltb (now + minutes 15) later ≡ false = ground arith in
        rw g.carried (
          issued_token_expires c now later settings.shared_secret (codes "sess_" ++ ids.session)
            request.service_id g.route.node_id g.token laws g.issued
          ∙ ap
              (λ b.
                if b
                then err token_expired
                else ok (
                    claims_at now (codes "sess_" ++ ids.session) request.service_id
                      g.route.node_id))
              fresh)

    -- Let the last registration of a node be the one made from its configuration. A grant that the
    -- control plane issues for a service of that node then names the node, offers first the address for TCP that the node
    -- publishes, and up to fifteen minutes later the node lets a connection with the token of
    -- the grant through to the target of the last enabled service with that id.
    pub granted_session_reaches_service :
        (now later : ℕ) (device v : Bytes) (cfg : NodeConfig) (services : List (ProxyService T))
        (qs : List RegisterNodeRequest) (settings : SessionSettings) (grant : SessionOpenGrant)
        → IsLawful c
        → proxy_services_from_config issue_tls to_lowercase cfg ≡ ok services
        → settings.registry ≡ register_all qs empty_store
        → last_request cfg.node_id qs ≡ some (build_registration m cfg)
        → issue_session_grant p c ids now (request_for device v cfg.node_id) settings ≡ ok grant
        → later ≤ now + minutes 15
        → (grant.node_id ≡ cfg.node_id)
          × (grant.authorization.candidates
              ≡ candidate direct_tcp 100 (tcp_addr m cfg)
                ∷ (push_candidate relay_tcp settings.relay_addr
                    ++ push_candidate wss_relay settings.wss_relay_url))
          × (entry : ProxyService T) × Reached issue_tls to_lowercase cfg v entry
          × (authorized_service c later
                (hello_for grant)
                services
                cfg.node_id
                settings.shared_secret
              ≡ ok entry)
    granted_session_reaches_service now later device v cfg services qs settings grant laws made
          stored last h in_time =
        let g =
          issue_session_grant-Granted p c ids now (request_for device v cfg.node_id) settings grant
            h in
        let routed : published_route v (build_registration m cfg) ≡ ok g.route =
          sym (
            subst
              (λ o.
                resolve_node_service_route cfg.node_id v (register_all qs empty_store)
                ≡ route_of_last v o)
              last (register_all-route_of_last cfg.node_id v qs))
          ∙ subst (λ s. resolve_node_service_route cfg.node_id v s ≡ ok g.route) stored g.found in
        let (s, enabled, node, addr) = route-Enabled m cfg v g.route routed in
        let (entry, found, reached) = found-entry cfg v services s made enabled in
        (
          g.node ∙ node,
          g.candidates
              ∙ ap
                  (λ a.
                    candidate direct_tcp 100 a
                    ∷ (push_candidate relay_tcp settings.relay_addr
                        ++ push_candidate wss_relay settings.wss_relay_url))
                  addr,
          entry,
          reached,
          allowed c later (hello_for grant) services cfg.node_id settings.shared_secret
              (claims_at now (codes "sess_" ++ ids.session) v g.route.node_id) entry
              (accepted now later (request_for device v cfg.node_id) settings grant laws g in_time)
              (sym g.service) node (rw g.service found),
        )
