-- ===== src/ControlPlane/Registry.antt =====
-- The registry: services/control-plane/src/registry.rs over the tables of migrations, with the
-- request and its parts from crates/overlay-protocol/src/messages.rs.
-- A table is the list of its rows in the order of their insertion; a query is written as what SQLite
-- does for it. The columns with times are left out. The database itself does not fail.
use Prim.Native.Nat.{compare, Ordering}
use medium.Common.{
  ℕ, suc, Bool, not, ◌&&◌, List, [], ◌∷◌, ◌++◌, map, Option, none, some, any, Bytes, codes,
  bytes_eq, ◌==◌, if◌then◌else◌, Result, ok, err, ℤ, compare_int, then_with, sort_by, retain,
}

pub data EndpointKind : Type 0 where
  tcp_proxy ice_udp : EndpointKind

unfoldable pub endpoint_kind_name : EndpointKind → Bytes
endpoint_kind_name tcp_proxy = codes "tcp_proxy"
endpoint_kind_name ice_udp = codes "ice_udp"

pub data ServiceKind : Type 0 where
  http https ssh : ServiceKind

unfoldable pub service_kind_name : ServiceKind → Bytes
service_kind_name http = codes "http"
service_kind_name https = codes "https"
service_kind_name ssh = codes "ssh"

pub record NodeEndpoint : Type 0 where
  pub kind : EndpointKind
  pub schema_version : ℕ
  pub addr : Bytes
  pub priority : ℤ

pub record PublishedService : Type 0 where
  pub id : Bytes
  pub kind : ServiceKind
  pub schema_version : ℕ
  pub label : Option Bytes
  pub target : Bytes
  pub user_name : Option Bytes

pub record RegisterNodeRequest : Type 0 where
  pub node_id : Bytes
  pub node_label : Bytes
  pub endpoints : List NodeEndpoint
  pub services : List PublishedService

-- The rows of the tables `nodes`, `node_endpoints` and `node_services`.
pub record NodeRow : Type 0 where
  pub id : Bytes
  pub label : Bytes

pub record EndpointRow : Type 0 where
  pub id : ℕ
  pub node_id : Bytes
  pub kind : Bytes
  pub schema_version : ℕ
  pub addr : Bytes
  pub priority : ℤ

pub record ServiceRow : Type 0 where
  pub id : Bytes
  pub node_id : Bytes
  pub kind : Bytes
  pub schema_version : ℕ
  pub target : Bytes
  pub user_name : Option Bytes
  pub label : Option Bytes

-- `next_id` is the number of the next endpoint (`autoincrement`).
pub record RegistryStore : Type 0 where
  pub nodes : List NodeRow
  pub endpoints : List EndpointRow
  pub services : List ServiceRow
  pub next_id : ℕ

pub data RegistryError : Type 0 where
  duplicate_service row_not_found : RegistryError
  unsupported_service_kind invalid_addr : RegistryError

-- `insert into nodes ... on conflict(id) do update`.
unfoldable pub upsert_node : Bytes → Bytes → List NodeRow → List NodeRow
upsert_node node_id label [] = record { id = node_id; label = label } ∷ []
upsert_node node_id label (n ∷ ns) =
    let rest = upsert_node node_id label ns in
    if bytes_eq n.id node_id then record n { label = label } ∷ ns else n ∷ rest

unfoldable pub endpoint_of : Bytes → EndpointRow → Bool
endpoint_of node_id e = bytes_eq e.node_id node_id

unfoldable pub service_of : Bytes → ServiceRow → Bool
service_of node_id s = bytes_eq s.node_id node_id

unfoldable pub endpoint_row : Bytes → ℕ → NodeEndpoint → EndpointRow
endpoint_row node_id id e = record {
  id = id;
  node_id = node_id;
  kind = endpoint_kind_name e.kind;
  schema_version = e.schema_version;
  addr = e.addr;
  priority = e.priority;
}

unfoldable pub service_row : Bytes → PublishedService → ServiceRow
service_row node_id s = record {
  id = s.id;
  node_id = node_id;
  kind = service_kind_name s.kind;
  schema_version = s.schema_version;
  target = s.target;
  user_name = s.user_name;
  label = s.label;
}

-- The loop that inserts the endpoints: the rows and the next number.
unfoldable pub insert_endpoints :
    Bytes → List NodeEndpoint → List EndpointRow → ℕ → List EndpointRow × ℕ
insert_endpoints node_id [] rows id = (rows, id)
insert_endpoints node_id (e ∷ es) rows id =
    insert_endpoints node_id es (rows ++ endpoint_row node_id id e ∷ []) (suc id)

unfoldable pub same_key : ServiceRow → ServiceRow → Bool
same_key a b = bytes_eq a.node_id b.node_id && bytes_eq a.id b.id

-- The loop that inserts the services; the primary key is (node_id, id).
unfoldable pub insert_services :
    Bytes → List PublishedService → List ServiceRow → Result RegistryError (List ServiceRow)
insert_services node_id [] rows = ok rows
insert_services node_id (s ∷ ss) rows =
    let rest = insert_services node_id ss (rows ++ service_row node_id s ∷ []) in
    if any (same_key (service_row node_id s)) rows then err duplicate_service else rest

-- `commit`, or the transaction is dropped and the tables are as before.
abbrev pub commit :
    RegistryStore
    → RegistryStore
    → Result RegistryError (List ServiceRow)
    → Result RegistryError (Unit {0}) × RegistryStore
commit before after (ok services) = (ok tt, record after { services = services })
commit before after (err e) = (err e, before)

unfoldable pub register_node :
    RegisterNodeRequest → RegistryStore → Result RegistryError (Unit {0}) × RegistryStore
register_node request s =
    let kept_endpoints = retain (λ e. not (endpoint_of request.node_id e)) s.endpoints in
    let kept_services = retain (λ r. not (service_of request.node_id r)) s.services in
    let endpoints = insert_endpoints request.node_id request.endpoints kept_endpoints s.next_id in
    let after : RegistryStore = record {
      nodes = upsert_node request.node_id request.node_label s.nodes;
      endpoints = endpoints.0;
      services = kept_services;
      next_id = endpoints.1;
    } in
    commit s after (insert_services request.node_id request.services kept_services)

-- `from node_services ns join node_endpoints ne on ne.node_id = ns.node_id`.
unfoldable pub join : List ServiceRow → List EndpointRow → List (ServiceRow × EndpointRow)
join [] es = []
join (s ∷ ss) es = map (λ e. (s, e)) (retain (endpoint_of s.node_id) es) ++ join ss es

-- `priority desc, id asc`.
unfoldable pub by_endpoint : EndpointRow → EndpointRow → Ordering
by_endpoint a b = then_with (compare_int b.priority a.priority) (compare a.id b.id)

unfoldable pub by_row : ServiceRow × EndpointRow → ServiceRow × EndpointRow → Ordering
by_row a b = by_endpoint a.1 b.1

unfoldable pub is_endpoint : EndpointKind → EndpointRow → Bool
is_endpoint kind e = bytes_eq e.kind (endpoint_kind_name kind) && e.schema_version == 1

pub record ServiceEndpoint : Type 0 where
  pub addr : Bytes
  pub priority : ℤ

pub record ServiceRoute : Type 0 where
  pub node_id : Bytes
  pub tcp_addr : Bytes
  pub ice_udp_endpoints : List ServiceEndpoint
  pub user_name : Option Bytes

unfoldable pub endpoint : EndpointRow → ServiceEndpoint
endpoint e = record { addr = e.addr; priority = e.priority }

unfoldable pub endpoints : Bytes → EndpointKind → RegistryStore → List ServiceEndpoint
endpoints node_id kind s =
    map endpoint
      (sort_by by_endpoint (retain (λ e. endpoint_of node_id e && is_endpoint kind e) s.endpoints))

-- `limit 1`.
abbrev pub first_row : {A : Type 0} → List A → Option A
first_row [] = none
first_row (r ∷ rs) = some r

abbrev pub route_of :
    RegistryStore → Option (ServiceRow × EndpointRow) → Result RegistryError ServiceRoute
route_of s none = err row_not_found
route_of s (some (ns, ne)) = ok (record {
  node_id = ns.node_id;
  tcp_addr = ne.addr;
  ice_udp_endpoints = endpoints ns.node_id ice_udp s;
  user_name = ns.user_name;
})

-- The rows that the queries of the two `resolve` functions choose from.
unfoldable pub route_rows : (ServiceRow → Bool) → RegistryStore → List (ServiceRow × EndpointRow)
route_rows wanted s =
    retain (λ r. wanted r.0 && is_endpoint tcp_proxy r.1) (join s.services s.endpoints)

unfoldable pub resolve_service_route : Bytes → RegistryStore → Result RegistryError ServiceRoute
resolve_service_route service_id s =
    route_of s (first_row (sort_by by_row (route_rows (λ r. bytes_eq r.id service_id) s)))

unfoldable pub resolve_node_service_route :
    Bytes → Bytes → RegistryStore → Result RegistryError ServiceRoute
resolve_node_service_route node_id service_id s = route_of s (
    first_row
      (sort_by by_row (route_rows (λ r. bytes_eq r.node_id node_id && bytes_eq r.id service_id) s)))
