-- ===== src/HomeNode/Registration.antt =====
-- What a node registers: services/home-node/src/control.rs. The addresses of the machine
-- (`discover_local_ips`), the parsers of the standard library and `to_string` of an address are
-- parameters.
use medium.Common.{
  ℕ, Bool, false, not, ◌&&◌, List, [], ◌∷◌, ◌++◌, map, Option, none, some, any, Bytes, codes,
  bytes_eq, ◌==◌, if◌then◌else◌, pos, rsplit_once, trim_matches, parse_unsigned, show_nat, retain,
}
use medium.Candidates.{IpAddr, v4, v6, is_loopback_v4, is_benchmark}
use medium.ControlPlane.Registry.{
  tcp_proxy, ice_udp, ServiceKind, http, https, ssh, NodeEndpoint, PublishedService,
  RegisterNodeRequest,
}
use medium.ControlPlane.Grants.{
  Parsers, zeros, is_link_local, is_unicast_link_local, is_bracket, colon,
}
use medium.HomeNode.Config.{ServiceConfig, NodeConfig}

pub record Machine : Type 0 where
  pub parsers : Parsers
  pub show_ip : IpAddr → Bytes
  pub local_ips : List IpAddr

abbrev pub unwrap_or : {A : Type 0} → Option A → A → A
unwrap_or none d = d
unwrap_or (some a) d = a

abbrev pub is_multicast : Bytes → Bool
is_multicast (a ∷ rest) = a == 255
is_multicast [] = false

unfoldable pub is_usable_host_ip : IpAddr → Bool
is_usable_host_ip (v4 ip) =
    not (bytes_eq ip (zeros 4 []))
    && not (is_loopback_v4 ip)
    && not (is_link_local ip)
    && not (is_benchmark ip)
is_usable_host_ip (v6 ip) =
    not (bytes_eq ip (zeros 16 []))
    && not (bytes_eq ip (zeros 15 (1 ∷ [])))
    && not (is_unicast_link_local ip)
    && not (is_multicast ip)

-- The endpoints so far; their addresses are the set `seen`.
unfoldable pub push_ice_endpoint : List NodeEndpoint → Bytes → ℕ → List NodeEndpoint
push_ice_endpoint endpoints addr priority =
    if any (λ e. bytes_eq e.addr addr) endpoints
    then endpoints
    else endpoints
      ++ record { kind = ice_udp; schema_version = 1; addr = addr; priority = pos priority } ∷ []

unfoldable pub push_ice_endpoints : List NodeEndpoint → List Bytes → ℕ → List NodeEndpoint
push_ice_endpoints endpoints [] priority = endpoints
push_ice_endpoints endpoints (addr ∷ addrs) priority =
    push_ice_endpoints (push_ice_endpoint endpoints addr priority) addrs priority

unfoldable pub published_kind : Bytes → ServiceKind
published_kind kind =
    if bytes_eq kind (codes "http")
    then http
    else if bytes_eq kind (codes "https")
    then https
    else if bytes_eq kind (codes "ssh")
    then ssh
    else https

abbrev pub normalize_target_addr : Bytes → Bytes
normalize_target_addr target = target

unfoldable pub published_service : ServiceConfig → PublishedService
published_service svc = record {
  id = svc.id;
  kind = published_kind svc.kind;
  schema_version = 1;
  label = svc.label;
  target = normalize_target_addr svc.target;
  user_name = svc.user_name;
}

abbrev pub is_enabled : ServiceConfig → Bool
is_enabled svc = svc.enabled

abbrev pub port_behind : Option (Bytes × Bytes) → Option ℕ
port_behind none = none
port_behind (some (name, port)) = parse_unsigned 65535 port

abbrev pub host_before : Option (Bytes × Bytes) → Option Bytes
host_before none = none
host_before (some (name, port)) = some (trim_matches is_bracket name)

module _ (m : Machine) where
  unfoldable pub ice_bind_port : Bytes → Option ℕ
  ice_bind_port addr = elim (m.parsers.parse_socket_addr addr) [
    | some (name, port) ↦ some port
    | none ↦ port_behind (rsplit_once colon addr)
  ]

  unfoldable pub addr_host : Bytes → Option Bytes
  addr_host addr = elim (m.parsers.parse_socket_addr addr) [
    | some (name, port) ↦ some name
    | none ↦ host_before (rsplit_once colon addr)
  ]

  unfoldable pub format_host_port : Bytes → ℕ → Bytes
  format_host_port host port = elim (m.parsers.parse_ip host) [
    | some (v6 ip) ↦ codes "[" ++ (host ++ (codes "]:" ++ show_nat port))
    | _ ↦ host ++ (codes ":" ++ show_nat port)
  ]

  unfoldable pub discover_local_ice_addrs : ℕ → List Bytes
  discover_local_ice_addrs port =
      map (λ ip. format_host_port (m.show_ip ip) port) (retain is_usable_host_ip m.local_ips)

  abbrev pub public_with_port : Bytes → Option Bytes → Option ℕ → Bytes
  public_with_port bind (some host) (some port) = format_host_port host port
  public_with_port bind (some host) none = bind
  public_with_port bind none port = bind

  abbrev pub host_of : Option Bytes → Option Bytes
  host_of none = none
  host_of (some addr) = addr_host addr

  unfoldable pub effective_ice_public_addr : NodeConfig → Bytes
  effective_ice_public_addr cfg = elim cfg.ice_public_addr [
    | some addr ↦ addr
    | none ↦
        public_with_port cfg.ice_bind_addr (host_of cfg.public_addr)
          (ice_bind_port cfg.ice_bind_addr)
  ]

  unfoldable pub build_ice_udp_endpoints : NodeConfig → List NodeEndpoint
  build_ice_udp_endpoints cfg =
      let port = unwrap_or (ice_bind_port cfg.ice_bind_addr) 17002 in
      let configured = push_ice_endpoints [] cfg.ice_host_addrs 300 in
      let discovered = push_ice_endpoints configured (discover_local_ice_addrs port) 250 in
      push_ice_endpoint discovered (effective_ice_public_addr cfg) 100

  unfoldable pub build_registration : NodeConfig → RegisterNodeRequest
  build_registration cfg = record {
    node_id = cfg.node_id;
    node_label = unwrap_or cfg.node_label cfg.node_id;
    endpoints =
        record {
          kind = tcp_proxy;
          schema_version = 1;
          addr = unwrap_or cfg.public_addr cfg.bind_addr;
          priority = pos 10;
        }
        ∷ build_ice_udp_endpoints cfg;
    services = map published_service (retain is_enabled cfg.services);
  }
