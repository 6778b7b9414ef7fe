-- ===== src/ControlPlane/Examples.antt =====
-- The theorem about routes at a concrete input, and tests.
use medium.Common.{
  ◌≡◌, refl, [], ◌∷◌, none, Bytes, List, bytes_eq, compare_int, then_with, insert, sort_by, retain,
  ok, err, pos,
}
use medium.ControlPlane.Registry.{
  tcp_proxy, ice_udp, ssh, NodeEndpoint, PublishedService, RegisterNodeRequest, row_not_found,
  endpoint_kind_name, endpoint_of, service_of, endpoint_row, service_row, insert_endpoints,
  same_key, insert_services, register_node, join, by_endpoint, by_row, is_endpoint, route_rows,
  resolve_node_service_route,
}
use medium.ControlPlane.Requests.{by_priority, offered, last_request, route_of_last}
use medium.ControlPlane.Routes.{register_all, empty_store, register_all-route_of_last}

abbrev at : Bytes → NodeEndpoint
at addr = record { kind = tcp_proxy; schema_version = 1; addr = addr; priority = pos 10 }

abbrev udp_at : Bytes → NodeEndpoint
udp_at addr = record { kind = ice_udp; schema_version = 1; addr = addr; priority = pos 100 }

abbrev service : Bytes → PublishedService
service id = record {
  id = id;
  kind = ssh;
  schema_version = 1;
  label = none;
  target = 50 ∷ [];
  user_name = none;
}

abbrev request : Bytes → List PublishedService → Bytes → RegisterNodeRequest
request node services addr = record {
  node_id = node;
  node_label = node;
  endpoints = at addr ∷ udp_at (9 ∷ []) ∷ [];
  services = services;
}

-- Two nodes; the first registers again, and then with a service twice, which is refused.
abbrev requests : List RegisterNodeRequest
requests =
    request (1 ∷ []) (service (5 ∷ []) ∷ []) (7 ∷ [])
    ∷ request (2 ∷ []) (service (5 ∷ []) ∷ []) (6 ∷ [])
    ∷ request (1 ∷ []) (service (4 ∷ []) ∷ service (5 ∷ []) ∷ []) (8 ∷ [])
    ∷ request (1 ∷ []) (service (5 ∷ []) ∷ service (5 ∷ []) ∷ []) (9 ∷ [])
    ∷ []

register_all-route_of_last_example :
    resolve_node_service_route (1 ∷ []) (5 ∷ []) (register_all requests empty_store)
    ≡ route_of_last (5 ∷ []) (last_request (1 ∷ []) requests)
register_all-route_of_last_example = register_all-route_of_last (1 ∷ []) (5 ∷ []) requests

route_test :
    route_of_last (5 ∷ []) (last_request (1 ∷ []) requests)
    ≡ ok (record {
      node_id = 1 ∷ [];
      tcp_addr = 8 ∷ [];
      ice_udp_endpoints = record { addr = 9 ∷ []; priority = pos 100 } ∷ [];
      user_name = none;
    })
unfolding bytes_eq offered by_priority sort_by insert retain compare_int
route_test = refl

resolve_test :
    resolve_node_service_route (1 ∷ []) (3 ∷ []) (register_all requests empty_store)
    ≡ err row_not_found
unfolding bytes_eq sort_by insert retain compare_int then_with register_all register_node
    insert_services insert_endpoints same_key service_row endpoint_row service_of endpoint_of
    resolve_node_service_route route_rows join by_row by_endpoint is_endpoint endpoint_kind_name
resolve_test = refl
