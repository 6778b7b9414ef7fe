-- ===== src/HomeNode/Proxy.antt =====
-- Who reaches which service of a node: services/home-node/src/proxy.rs. The TLS identities that are
-- issued for a service, `char::to_lowercase`, and what `proxy_stream_to_service` does with a
-- connection are parameters of the functions that use them; a `HashMap` is the list of what was inserted, the latest first.
use medium.Common.{
  ℕ, Bool, false, ◌||◌, List, [], ◌∷◌, ◌++◌, map, Option, none, some, Bytes, codes, bytes_eq,
  if◌then◌else◌, Result, ok, ◌>>=◌, ◌>>◌, ensure, ok_or, map_err, starts_with, rsplit_once,
}
use medium.Netstack.Network.{
  dash, trim_end, push_chars, lower_chars, or_service, to_ascii_lowercase,
}
use medium.SessionToken.{Crypto, TokenError, verify_session_token}
use medium.Candidates.Greeting.{SessionHello}
use medium.HomeNode.Config.{ServiceConfig, NodeConfig}
use medium.HomeNode.Registration.{unwrap_or}

pub data ServiceTlsMode : Type 0 where
  no_tls http_tls raw_tls : ServiceTlsMode

pub record ProxyService (T : Type 0) : Type 0 where
  pub id : Bytes
  pub kind : Bytes
  pub target : Bytes
  pub tls_config : Option T
  pub tls_mode : ServiceTlsMode

pub data AccessError : Type 0 where
  bad_token : TokenError → AccessError
  service_mismatch node_mismatch unknown_service tls_not_issued : AccessError

unfoldable pub normalize_hostname_label : (ℕ → Bytes) → Bytes → Bytes
normalize_hostname_label to_lowercase value =
    or_service (trim_end dash (push_chars (lower_chars to_lowercase value) ([], false)).0)

unfoldable pub service_hostname : (ℕ → Bytes) → ServiceConfig → Bytes
service_hostname to_lowercase service =
    normalize_hostname_label to_lowercase (unwrap_or service.label service.id) ++ codes ".medium"

unfoldable pub tls_mode_of : Bytes → ServiceTlsMode
tls_mode_of kind =
    if bytes_eq kind (codes "http")
    then http_tls
    else if bytes_eq kind (codes "ssh")
    then raw_tls
    else no_tls

module _ {T : Type 0} where
  -- `HashMap::get`.
  unfoldable pub get : Bytes → List (ProxyService T) → Option (ProxyService T)
  get id [] = none
  get id (s ∷ services) = if bytes_eq s.id id then some s else get id services

  module _ (issue_tls : Bytes → Bytes → Option T) (to_lowercase : ℕ → Bytes) where
    abbrev pub tls_for : ServiceTlsMode → Bytes → Bytes → Result AccessError (Option T)
    tls_for no_tls id hostname = ok none
    tls_for http_tls id hostname = ok_or (issue_tls id hostname) tls_not_issued >>= λ t. ok (some t)
    tls_for raw_tls id hostname = ok_or (issue_tls id hostname) tls_not_issued >>= λ t. ok (some t)

    -- The entry of one service that is enabled.
    unfoldable pub proxy_service : ServiceConfig → Result AccessError (ProxyService T)
    proxy_service service =
        let kind = map to_ascii_lowercase service.kind in
        tls_for (tls_mode_of kind) service.id (service_hostname to_lowercase service)
        >>= λ tls_config. ok (record {
          id = service.id;
          kind = kind;
          target = service.target;
          tls_config = tls_config;
          tls_mode = tls_mode_of kind;
        })

    -- The loop over the services, with the map so far.
    unfoldable pub insert_services :
        List ServiceConfig → List (ProxyService T) → Result AccessError (List (ProxyService T))
    insert_services [] services = ok services
    insert_services (s ∷ ss) services =
        let skipped = insert_services ss services in
        let inserted = proxy_service s >>= λ entry. insert_services ss (entry ∷ services) in
        if s.enabled then inserted else skipped

    unfoldable pub proxy_services_from_config :
        NodeConfig → Result AccessError (List (ProxyService T))
    proxy_services_from_config cfg = insert_services cfg.services []

  -- The checks of `handle_connection_with_hello`, and of `handle_wss_connection`.
  unfoldable pub authorized_service :
      Crypto
      → ℕ
      → SessionHello
      → List (ProxyService T)
      → Bytes
      → Bytes
      → Result AccessError (ProxyService T)
  authorized_service c now hello services expected_node_id shared_secret =
      map_err bad_token (verify_session_token c now shared_secret hello.token) >>= λ claims.
      ensure (bytes_eq claims.service_id hello.service_id) service_mismatch
      >> (ensure (bytes_eq claims.node_id expected_node_id) node_mismatch
          >> ok_or (get hello.service_id services) unknown_service)

  unfoldable pub handle_connection_with_hello :
      {A : Type 0}
      → (ProxyService T → Result AccessError A)
      → Crypto
      → ℕ
      → SessionHello
      → List (ProxyService T)
      → Bytes
      → Bytes
      → Result AccessError A
  handle_connection_with_hello proxy_stream_to_service c now hello services expected_node_id
        shared_secret =
      authorized_service c now hello services expected_node_id shared_secret
      >>= proxy_stream_to_service

unfoldable pub loopback_tcp_proxy_addr : Bytes → Bytes
loopback_tcp_proxy_addr bind_addr = elim (rsplit_once 58 bind_addr) [
  | some (name, port) ↦
      if starts_with bind_addr (codes "0.0.0.0:") || starts_with bind_addr (codes "[::]:")
      then codes "127.0.0.1:" ++ port
      else bind_addr
  | none ↦ bind_addr
]

abbrev pub or_addr : Option Bytes → Option Bytes → Option Bytes
or_addr (some addr) other = some addr
or_addr none other = other

-- An environment variable that is not blank.
abbrev pub filled : (Bytes → Bool) → Option Bytes → Option Bytes
filled is_blank none = none
filled is_blank (some value) = if is_blank value then none else some value

-- The argument is the variable `MEDIUM_ICE_RENDEZVOUS_ADDR`.
unfoldable pub effective_udp_rendezvous_addr :
    (Bytes → Bool) → Option Bytes → NodeConfig → Option Bytes
effective_udp_rendezvous_addr is_blank variable cfg =
    or_addr cfg.ice_relay_addr (or_addr (filled is_blank variable) cfg.relay_addr)

-- The url crate: `parse`, `scheme`, and `to_string` with the scheme `wss`, the path of the relay, no
-- query and no fragment.
pub record Urls (U : Type 0) : Type 0 where
  pub parse : Bytes → Option U
  pub scheme : U → Bytes
  pub relay_form : U → Option Bytes

module _ {U : Type 0} (urls : Urls U) where
  unfoldable pub derive_embedded_wss_relay_url : Bytes → Option Bytes
  derive_embedded_wss_relay_url control_url = elim (urls.parse control_url) [
    | none ↦ none
    | some url ↦ if bytes_eq (urls.scheme url) (codes "https") then urls.relay_form url else none
  ]

  abbrev pub derived : Option Bytes → Option Bytes
  derived none = none
  derived (some url) = derive_embedded_wss_relay_url url

  -- The argument is the variable `MEDIUM_WSS_RELAY_URL`.
  unfoldable pub effective_wss_relay_url : (Bytes → Bool) → Option Bytes → NodeConfig → Option Bytes
  effective_wss_relay_url is_blank variable cfg =
      or_addr cfg.wss_relay_url (or_addr (filled is_blank variable) (derived cfg.control_url))
