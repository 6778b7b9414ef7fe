-- ===== src/HomeNode/Examples.antt =====
-- The theorems about sessions at a concrete input.
use medium.Common.{
  ℕ, ◌+◌, ◌≤◌, ◌≡◌, refl, true, [], ◌∷◌, ◌++◌, arith, none, some, Option, Bytes, codes, bytes_eq,
  compare_int, then_with, insert, sort_by, retain, Result, ok, show_nat,
}
use medium.Candidates.{srflx, ice_kind_name, direct_tcp, relay_tcp, wss_relay}
use medium.Netstack.Network.{to_ascii_lowercase}
use medium.SessionToken.{
  SessionTokenClaims, period, minutes, split_once, sign_payload, issue_session_token, verify_parts,
  verify_session_token,
}
use medium.SessionToken.Acceptance.{claims_at}
use medium.SessionToken.Examples.{written, toy, toy-IsLawful, secret}
use medium.ControlPlane.Registry.{
  endpoint_kind_name, endpoint_of, service_of, endpoint_row, service_row, insert_endpoints,
  same_key, register_node, join, by_endpoint, by_row, is_endpoint, endpoint, endpoints, route_rows,
  resolve_node_service_route,
}
use medium.ControlPlane.Registry
use medium.ControlPlane.Requests.{last_request}
use medium.ControlPlane.Routes.{register_all, empty_store}
use medium.ControlPlane.Grants.{
  SessionOpenGrant, SessionSettings, Parsers, Ids, candidate, push_candidate, issue_session_grant,
  build_ice_grant, node_candidates, node_candidate, parse_host_port, relay_candidates,
  classify_node_udp_candidate,
}
use medium.HomeNode.Config.{ServiceConfig, NodeConfig}
use medium.HomeNode.Registration.{
  Machine, build_registration, ice_bind_port, effective_ice_public_addr, push_ice_endpoint,
  push_ice_endpoints, discover_local_ice_addrs, build_ice_udp_endpoints, published_kind,
  published_service,
}
use medium.HomeNode.Proxy.{
  ProxyService, AccessError, no_tls, tls_mode_of, get, proxy_service, insert_services,
  proxy_services_from_config, authorized_service, handle_connection_with_hello,
}
use medium.HomeNode.Access.{Reached, handle_connection_with_hello_reaches}
use medium.HomeNode.Sessions.{request_for, hello_for, tcp_addr, granted_session_reaches_service}

abbrev parsers : Parsers
parsers = record {
  parse_socket_addr = λ addr. some (addr, 80);
  parse_ip = λ addr. none;
  trim = λ text. text;
}

abbrev machine : Machine
machine = record { parsers = parsers; show_ip = λ ip. []; local_ips = [] }

abbrev web : ServiceConfig
web = record {
  id = 8 ∷ [];
  kind = codes "HTTPS";
  label = none;
  target = 70 ∷ [];
  user_name = none;
  enabled = true;
}

abbrev config : NodeConfig
config = record {
  node_id = 9 ∷ [];
  node_label = none;
  bind_addr = 71 ∷ [];
  ice_bind_addr = 72 ∷ [];
  public_addr = none;
  ice_public_addr = none;
  ice_host_addrs = [];
  control_url = none;
  control_pin = none;
  shared_secret = none;
  relay_addr = none;
  wss_relay_url = none;
  ice_relay_addr = none;
  service_ca_cert_pem = none;
  service_ca_key_pem = none;
  services = web ∷ [];
}

abbrev expected : ProxyService ℕ
expected = record {
  id = 8 ∷ [];
  kind = codes "https";
  target = 70 ∷ [];
  tls_config = none;
  tls_mode = no_tls;
}

abbrev issue_tls : Bytes → Bytes → Option ℕ
issue_tls id hostname = none

abbrev to_lowercase : ℕ → Bytes
to_lowercase c = c ∷ []

made : proxy_services_from_config issue_tls to_lowercase config ≡ ok (expected ∷ [])
unfolding proxy_services_from_config insert_services proxy_service tls_mode_of bytes_eq
    to_ascii_lowercase
made = refl

abbrev ids : Ids
ids = record { session = 7 ∷ []; ufrag = []; pwd = [] }

abbrev settings : SessionSettings
settings = record {
  registry = register_all (build_registration machine config ∷ []) empty_store;
  shared_secret = secret;
  relay_addr = none;
  wss_relay_url = none;
  ice_relay_addr = none;
}

last :
    last_request (9 ∷ []) (build_registration machine config ∷ [])
    ≡ some (build_registration machine config)
unfolding build_registration retain bytes_eq
last = refl

abbrev payload : Bytes
payload = written (claims_at 0 (codes "sess_" ++ 7 ∷ []) (8 ∷ []) (9 ∷ []))

abbrev grant : SessionOpenGrant
grant = record {
  session_id = codes "sess_" ++ 7 ∷ [];
  service_id = 8 ∷ [];
  node_id = 9 ∷ [];
  relay_hint = none;
  authorization = record {
    token = toy.encode payload ++ period ∷ toy.encode (secret ++ payload);
    expires_at = minutes 10;
    candidates = candidate direct_tcp 100 (71 ∷ []) ∷ [];
    ice = some (record {
      credentials = record { ufrag = codes "m"; pwd = codes "m"; expires_at = minutes 10 };
      candidates =
          record {
            foundation = codes "srflx-udp-1";
            component = 1;
            transport = codes "udp";
            priority = 100;
            addr = 72 ∷ [];
            port = 80;
            kind = srflx;
            related_addr = none;
            related_port = none;
          }
          ∷ [];
    });
  };
}

granted :
    issue_session_grant parsers toy ids 0 (request_for [] (8 ∷ []) (9 ∷ [])) settings ≡ ok grant
unfolding issue_session_grant issue_session_token sign_payload build_ice_grant sort_by retain insert
    register_all build_registration bytes_eq ice_kind_name show_nat compare_int then_with
    classify_node_udp_candidate node_candidate node_candidates parse_host_port relay_candidates
    medium.ControlPlane.Registry.insert_services endpoint_kind_name endpoint_of service_of
    endpoint_row service_row insert_endpoints same_key register_node join by_endpoint by_row
    is_endpoint endpoint endpoints route_rows resolve_node_service_route ice_bind_port
    effective_ice_public_addr push_ice_endpoint push_ice_endpoints discover_local_ice_addrs
    build_ice_udp_endpoints published_kind published_service
granted = refl

granted_session_reaches_service_example :
    (grant.node_id ≡ config.node_id)
    × (grant.authorization.candidates
        ≡ candidate direct_tcp 100 (tcp_addr machine config)
          ∷ (push_candidate relay_tcp settings.relay_addr
              ++ push_candidate wss_relay settings.wss_relay_url))
    × (entry : ProxyService ℕ) × Reached issue_tls to_lowercase config (8 ∷ []) entry
    × (authorized_service toy (minutes 14) (hello_for grant) (expected ∷ []) config.node_id secret
        ≡ ok entry)
granted_session_reaches_service_example =
    granted_session_reaches_service issue_tls to_lowercase machine parsers toy ids 0 (minutes 14) []
      (8 ∷ []) config (expected ∷ []) (build_registration machine config ∷ []) settings grant
      toy-IsLawful made refl last granted (omega arith)

allowed :
    handle_connection_with_hello ok toy
      (minutes 14)
      (hello_for grant)
      (expected ∷ [])
      (9 ∷ [])
      secret
    ≡ ok expected
unfolding handle_connection_with_hello authorized_service verify_session_token verify_parts
    split_once sign_payload bytes_eq get
allowed = refl

handle_connection_with_hello_reaches_example :
    (claims : SessionTokenClaims) × (entry : ProxyService ℕ) × (payload : Bytes)
    × (signature : Bytes) × (toy.hmac secret payload ≡ some signature)
    × (toy.from_json payload ≡ some claims)
    × (minutes 14 ≤ claims.expires_at + minutes 5)
    × (claims.service_id ≡ 8 ∷ [])
    × (claims.node_id ≡ 9 ∷ [])
    × Reached issue_tls to_lowercase config (8 ∷ []) entry
    × (◌≡◌ {A = Result AccessError (ProxyService ℕ)} (ok entry) (ok expected))
handle_connection_with_hello_reaches_example =
    handle_connection_with_hello_reaches issue_tls to_lowercase ok toy (minutes 14)
      (hello_for grant) config (expected ∷ []) secret expected made allowed
