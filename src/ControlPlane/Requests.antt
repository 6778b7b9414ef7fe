-- ===== src/ControlPlane/Requests.antt =====
-- The registry seen from outside: each node has its last request that could be stored, and a route
-- is chosen from that request alone. services/control-plane/src/registry.rs is compared with this.
use Prim.Native.Nat.{Ordering}
use medium.Common.{
  Bool, true, false, ◌&&◌, List, [], ◌∷◌, map, Option, none, some, Bytes, bytes_eq, ◌==◌,
  if◌then◌else◌, Result, ok, err, compare_int, sort_by, retain,
}
use medium.ControlPlane.Registry.{
  EndpointKind, tcp_proxy, ice_udp, NodeEndpoint, PublishedService, RegisterNodeRequest,
  RegistryError, row_not_found, ServiceEndpoint, ServiceRoute, first_row,
}
use medium.ControlPlane.Registering.{distinct_ids}

abbrev pub same_kind : EndpointKind → EndpointKind → Bool
same_kind tcp_proxy tcp_proxy = true
same_kind ice_udp ice_udp = true
same_kind _ _ = false

abbrev pub is_offered : EndpointKind → NodeEndpoint → Bool
is_offered kind e = same_kind e.kind kind && e.schema_version == 1

abbrev pub offer : NodeEndpoint → ServiceEndpoint
offer e = record { addr = e.addr; priority = e.priority }

-- The higher priority first.
unfoldable pub by_priority : ServiceEndpoint → ServiceEndpoint → Ordering
by_priority a b = compare_int b.priority a.priority

-- The endpoints of a kind, the highest priority first, and as listed where it is the same.
unfoldable pub offered : EndpointKind → List NodeEndpoint → List ServiceEndpoint
offered kind es = sort_by by_priority (map offer (retain (is_offered kind) es))

abbrev pub published : Bytes → List PublishedService → Option PublishedService
published service_id [] = none
published service_id (s ∷ ss) = if bytes_eq s.id service_id then some s else published service_id ss

abbrev pub route_from :
    RegisterNodeRequest
    → Option PublishedService
    → Option ServiceEndpoint
    → Result RegistryError ServiceRoute
route_from request (some s) (some e) = ok (record {
  node_id = request.node_id;
  tcp_addr = e.addr;
  ice_udp_endpoints = offered ice_udp request.endpoints;
  user_name = s.user_name;
})
route_from request none e = err row_not_found
route_from request (some s) none = err row_not_found

-- The route that a request gives for a service.
abbrev pub published_route : Bytes → RegisterNodeRequest → Result RegistryError ServiceRoute
published_route service_id request =
    route_from request (published service_id request.services)
      (first_row (offered tcp_proxy request.endpoints))

abbrev pub or_else : {A : Type 0} → Option A → Option A → Option A
or_else (some a) b = some a
or_else none b = b

abbrev pub is_last : Bytes → RegisterNodeRequest → Bool
is_last node_id r = bytes_eq r.node_id node_id && distinct_ids r.services

-- The last request of a node that names no service twice.
abbrev pub last_request : Bytes → List RegisterNodeRequest → Option RegisterNodeRequest
last_request node_id [] = none
last_request node_id (r ∷ rs) =
    or_else (last_request node_id rs) (if is_last node_id r then some r else none)

abbrev pub route_of_last : Bytes → Option RegisterNodeRequest → Result RegistryError ServiceRoute
route_of_last service_id none = err row_not_found
route_of_last service_id (some r) = published_route service_id r
