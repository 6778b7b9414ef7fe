-- ===== src/ControlPlane/Grants.antt =====
-- Session grants: services/control-plane/src/routes/sessions.rs, and the grant and its parts from
-- crates/overlay-protocol/src/messages.rs. The parsers and `trim` of the standard library, and the
-- random identifiers of the uuid crate, are parameters; the clock is an argument, in nanoseconds.
use medium.Common.{
  ℕ, zero, suc, ◌+◌, Bool, true, false, ◌&&◌, ◌||◌, List, [], ◌∷◌, ◌++◌, Option, none, some, Bytes,
  codes, bytes_eq, leb, ◌==◌, if◌then◌else◌, Result, ok, err, ◌>>=◌, ok_or, map_err, ℤ, pos, negsuc,
  rsplit_once, trim_matches, parse_unsigned, show_nat,
}
use medium.Candidates.{
  CandidateKind, direct_tcp, relay_tcp, wss_relay, PeerCandidate, IceCandidateKind, host, srflx,
  relay, ice_kind_name, IceCandidate, IpAddr, v4, v6, is_loopback_v4,
}
use medium.SessionToken.{
  Crypto, TokenError, minutes, session_token_ttl_minutes, issue_session_token,
}
use medium.ControlPlane.Registry.{
  RegistryStore, RegistryError, ServiceEndpoint, ServiceRoute, resolve_service_route,
  resolve_node_service_route,
}

pub record SessionOpenRequest : Type 0 where
  pub service_id : Bytes
  pub requester_device_id : Bytes
  pub node_id : Option Bytes

pub record IceCredentials : Type 0 where
  pub ufrag : Bytes
  pub pwd : Bytes
  pub expires_at : ℕ

pub record IceSessionGrant : Type 0 where
  pub credentials : IceCredentials
  pub candidates : List IceCandidate

pub record SessionAuthorization : Type 0 where
  pub token : Bytes
  pub expires_at : ℕ
  pub candidates : List PeerCandidate
  pub ice : Option IceSessionGrant

pub record SessionOpenGrant : Type 0 where
  pub session_id : Bytes
  pub service_id : Bytes
  pub node_id : Bytes
  pub relay_hint : Option Bytes
  pub authorization : SessionAuthorization

pub record SessionSettings : Type 0 where
  pub registry : RegistryStore
  pub shared_secret : Bytes
  pub relay_addr : Option Bytes
  pub wss_relay_url : Option Bytes
  pub ice_relay_addr : Option Bytes

pub data GrantError : Type 0 where
  no_route : RegistryError → GrantError
  no_token : TokenError → GrantError
  not_host_port empty_host invalid_port : GrantError

-- What `parse` and `trim` do; a socket address is its host as a text, and its port.
pub record Parsers : Type 0 where
  pub parse_socket_addr : Bytes → Option (Bytes × ℕ)
  pub parse_ip : Bytes → Option IpAddr
  pub trim : Bytes → Bytes

-- The three `Uuid::new_v4` of a grant.
pub record Ids : Type 0 where
  pub session : Bytes
  pub ufrag : Bytes
  pub pwd : Bytes

abbrev pub is_private : Bytes → Bool
is_private (a ∷ b ∷ rest) = a == 10 || (a == 172 && leb 16 b && leb b 31) || (a == 192 && b == 168)
is_private _ = false

abbrev pub is_link_local : Bytes → Bool
is_link_local (a ∷ b ∷ rest) = a == 169 && b == 254
is_link_local _ = false

abbrev pub zeros : ℕ → Bytes → Bytes
zeros zero rest = rest
zeros (suc n) rest = 0 ∷ zeros n rest

-- fe80::/10.
abbrev pub is_unicast_link_local : Bytes → Bool
is_unicast_link_local (a ∷ b ∷ rest) = a == 254 && leb 128 b && leb b 191
is_unicast_link_local _ = false

-- fc00::/7.
abbrev pub is_ipv6_unique_local : Bytes → Bool
is_ipv6_unique_local (a ∷ rest) = leb 252 a && leb a 253
is_ipv6_unique_local [] = false

unfoldable pub classify_ip : IpAddr → IceCandidateKind
classify_ip (v4 ip) =
    if is_private ip || is_loopback_v4 ip || is_link_local ip || bytes_eq ip (zeros 4 [])
    then host
    else srflx
classify_ip (v6 ip) =
    if bytes_eq ip (zeros 15 (1 ∷ []))
      || is_unicast_link_local ip
      || is_ipv6_unique_local ip
      || bytes_eq ip (zeros 16 [])
    then host
    else srflx

abbrev pub is_bracket : ℕ → Bool
is_bracket c = c == 91 || c == 93

abbrev pub is_empty : Bytes → Bool
is_empty [] = true
is_empty (b ∷ bytes) = false

-- `max(0) as u32`.
abbrev pub priority_of : ℤ → ℕ
priority_of (pos n) = n
priority_of (negsuc n) = 0

abbrev pub colon : ℕ
colon = 58

abbrev pub relay_candidate : Bytes × ℕ → IceCandidate
relay_candidate (addr, port) = record {
  foundation = codes "relay-udp-1";
  component = 1;
  transport = codes "udp";
  priority = 10;
  addr = addr;
  port = port;
  kind = relay;
  related_addr = none;
  related_port = none;
}

abbrev pub ice_grant : Ids → ℕ → List IceCandidate → Option IceSessionGrant
ice_grant ids now [] = none
ice_grant ids now (c ∷ cs) = some (record {
  credentials = record {
    ufrag = codes "m" ++ ids.ufrag;
    pwd = codes "m" ++ ids.pwd;
    expires_at = now + minutes session_token_ttl_minutes;
  };
  candidates = c ∷ cs;
})

abbrev pub candidate : CandidateKind → ℕ → Bytes → PeerCandidate
candidate kind priority addr = record { kind = kind; addr = addr; priority = pos priority }

abbrev pub push_candidate : CandidateKind → Option Bytes → List PeerCandidate
push_candidate kind none = []
push_candidate kind (some addr) = candidate kind 10 addr ∷ []

abbrev pub or_addr : Option Bytes → Option Bytes → Option Bytes
or_addr (some addr) other = some addr
or_addr none other = other

abbrev pub route_for : SessionOpenRequest → RegistryStore → Result RegistryError ServiceRoute
route_for request registry = elim request.node_id [
  | some node_id ↦ resolve_node_service_route node_id request.service_id registry
  | none ↦ resolve_service_route request.service_id registry
]

module _ (p : Parsers) where
  unfoldable pub classify_node_udp_candidate : Bytes → IceCandidateKind
  classify_node_udp_candidate addr = elim (p.parse_ip addr) [
    | some ip ↦ classify_ip ip
    | none ↦ srflx
  ]

  abbrev pub host_port : Bytes × Bytes → Result GrantError (Bytes × ℕ)
  host_port (name, port) =
      if is_empty (p.trim name)
      then err empty_host
      else (ok_or (parse_unsigned 65535 port) invalid_port >>= λ port.
          ok (trim_matches is_bracket name, port))

  unfoldable pub parse_host_port : Bytes → Result GrantError (Bytes × ℕ)
  parse_host_port value = elim (p.parse_socket_addr value) [
    | some addr ↦ ok addr
    | none ↦ ok_or (rsplit_once colon value) not_host_port >>= host_port
  ]

  -- The candidate of one endpoint of the node, the `index`-th from 0.
  unfoldable pub node_candidate : ℕ → ServiceEndpoint → Bytes × ℕ → IceCandidate
  node_candidate index endpoint (addr, port) =
      let kind = classify_node_udp_candidate addr in
      record {
        foundation = ice_kind_name kind ++ (codes "-udp-" ++ show_nat (index + 1));
        component = 1;
        transport = codes "udp";
        priority = priority_of endpoint.priority;
        addr = addr;
        port = port;
        kind = kind;
        related_addr = none;
        related_port = none;
      }

  unfoldable pub node_candidates : ℕ → List ServiceEndpoint → Result GrantError (List IceCandidate)
  node_candidates index [] = ok []
  node_candidates index (e ∷ es) = parse_host_port e.addr >>= λ addr.
      node_candidates (suc index) es >>= λ rest. ok (node_candidate index e addr ∷ rest)

  unfoldable pub relay_candidates : Option Bytes → Result GrantError (List IceCandidate)
  relay_candidates none = ok []
  relay_candidates (some addr) = parse_host_port addr >>= λ addr. ok (relay_candidate addr ∷ [])

  unfoldable pub build_ice_grant :
      Ids → ℕ → List ServiceEndpoint → Option Bytes → Result GrantError (Option IceSessionGrant)
  build_ice_grant ids now node_udp_endpoints relay_candidate_addr =
      node_candidates 0 node_udp_endpoints >>= λ candidates.
      relay_candidates relay_candidate_addr >>= λ relays.
      ok (ice_grant ids now (candidates ++ relays))

  unfoldable pub issue_session_grant :
      Crypto → Ids → ℕ → SessionOpenRequest → SessionSettings → Result GrantError SessionOpenGrant
  issue_session_grant c ids now request settings =
      map_err no_route (route_for request settings.registry) >>= λ route.
      let session_id = codes "sess_" ++ ids.session in
      map_err no_token (
        issue_session_token c now settings.shared_secret session_id request.service_id
          route.node_id)
      >>= λ token.
          let candidates =
            candidate direct_tcp 100 route.tcp_addr
            ∷ (push_candidate relay_tcp settings.relay_addr
                ++ push_candidate wss_relay settings.wss_relay_url) in
          build_ice_grant ids now route.ice_udp_endpoints
            (or_addr settings.ice_relay_addr settings.relay_addr)
          >>= λ ice. ok (record {
            session_id = session_id;
            service_id = request.service_id;
            node_id = route.node_id;
            relay_hint = settings.relay_addr;
            authorization = record {
              token = token;
              expires_at = now + minutes session_token_ttl_minutes;
              candidates = candidates;
              ice = ice;
            };
          })
