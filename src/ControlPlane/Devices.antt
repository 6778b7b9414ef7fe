-- ===== src/ControlPlane/Devices.antt =====
-- The catalogue of devices: `list_devices` of services/control-plane/src/registry.rs, with the records of
-- crates/overlay-protocol/src/messages.rs.
use Prim.Native.Nat.{Ordering}
use medium.Common.{
  ℕ, Bool, ◌&&◌, List, [], ◌∷◌, Option, none, some, Bytes, codes, bytes_eq, ◌==◌, if◌then◌else◌,
  Result, ok, err, ◌>>=◌, ok_or, then_with, compare_bytes, rsplit_once, parse_unsigned, sort_by,
  retain,
}
use medium.ControlPlane.Registry.{
  tcp_proxy, ServiceKind, http, https, ssh, service_kind_name, PublishedService, NodeRow,
  EndpointRow, ServiceRow, RegistryStore, RegistryError, unsupported_service_kind, invalid_addr,
  service_of, join, by_endpoint, is_endpoint, first_row,
}

pub record SshEndpoint : Type 0 where
  pub service_id : Bytes
  pub host : Bytes
  pub port : ℕ
  pub user : Bytes

pub record DeviceRecord : Type 0 where
  pub id : Bytes
  pub name : Bytes
  pub ssh : Option SshEndpoint
  pub services : List PublishedService

unfoldable pub split_addr : Bytes → Result RegistryError (Bytes × ℕ)
split_addr addr = ok_or (rsplit_once 58 addr) invalid_addr >>= λ parts.
    ok_or (parse_unsigned 65535 parts.1) invalid_addr >>= λ port. ok (parts.0, port)

unfoldable pub parse_service_kind : Bytes → Result RegistryError ServiceKind
parse_service_kind raw =
    if bytes_eq raw (codes "http")
    then ok http
    else if bytes_eq raw (codes "https")
    then ok https
    else if bytes_eq raw (codes "ssh")
    then ok ssh
    else err unsupported_service_kind

unfoldable pub published_row : ServiceRow → Result RegistryError PublishedService
published_row r = parse_service_kind r.kind >>= λ kind. ok (record {
  id = r.id;
  kind = kind;
  schema_version = r.schema_version;
  label = r.label;
  target = r.target;
  user_name = r.user_name;
})

-- `collect`: the results, or the first error.
unfoldable pub collect :
    {A B : Type 0} → (A → Result RegistryError B) → List A → Result RegistryError (List B)
collect f [] = ok []
collect f (x ∷ xs) = f x >>= λ y. collect f xs >>= λ ys. ok (y ∷ ys)

unfoldable pub by_service_id : ServiceRow → ServiceRow → Ordering
by_service_id a b = compare_bytes a.id b.id

unfoldable pub list_node_services :
    Bytes → RegistryStore → Result RegistryError (List PublishedService)
list_node_services node_id s =
    collect published_row (sort_by by_service_id (retain (service_of node_id) s.services))

-- `priority desc, id asc`, then the id of the service.
unfoldable pub by_ssh_row : ServiceRow × EndpointRow → ServiceRow × EndpointRow → Ordering
by_ssh_row a b = then_with (by_endpoint a.1 b.1) (compare_bytes a.0.id b.0.id)

unfoldable pub is_ssh_row : Bytes → ServiceRow × EndpointRow → Bool
is_ssh_row node_id (r, e) =
    service_of node_id r
    && bytes_eq r.kind (service_kind_name ssh)
    && r.schema_version == 1
    && is_endpoint tcp_proxy e

abbrev pub ssh_endpoint : Bytes → Bytes → Option Bytes → Result RegistryError (Option SshEndpoint)
ssh_endpoint service_id addr none = ok none
ssh_endpoint service_id addr (some user) = split_addr addr >>= λ parts.
    ok (some (record { service_id = service_id; host = parts.0; port = parts.1; user = user }))

abbrev pub ssh_of : Option (ServiceRow × EndpointRow) → Result RegistryError (Option SshEndpoint)
ssh_of none = ok none
ssh_of (some (r, e)) = ssh_endpoint r.id e.addr r.user_name

unfoldable pub device_record : RegistryStore → NodeRow → Result RegistryError DeviceRecord
device_record s n = list_node_services n.id s >>= λ services.
    ssh_of (first_row (sort_by by_ssh_row (retain (is_ssh_row n.id) (join s.services s.endpoints))))
    >>= λ ssh. ok (record { id = n.id; name = n.label; ssh = ssh; services = services })

unfoldable pub by_node_id : NodeRow → NodeRow → Ordering
by_node_id a b = compare_bytes a.id b.id

unfoldable pub list_devices : RegistryStore → Result RegistryError (List DeviceRecord)
list_devices s = collect (device_record s) (sort_by by_node_id s.nodes)
