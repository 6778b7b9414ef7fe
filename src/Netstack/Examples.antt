-- ===== src/Netstack/Examples.antt =====
-- The theorems about the virtual network at concrete inputs, and tests of the definitions.
use medium.Common.{
  false, Option, from_be, be_bytes, ℕ, ◌+◌, ◌<◌, ◌≡◌, ◌⊎◌, refl, List, [], ◌∷◌, ◌++◌, arith, Bytes,
  codes, none, some, ok, err, length, get_elem?, All, if◌then◌else◌, leb, ◌&&◌, bytes_eq,
}
use medium.Netstack.Network.{
  Text, PublishedService, VirtualService, VirtualNetwork, too_many_services, new_network,
  service_hostname, host_label, trim_end, push_char, push_chars, lower_chars, is_ascii_alphanumeric,
  add_service, add_services, service_addr, lookup, resolve_hostname, normalized, service_for_addr,
  to_ascii_lowercase,
}
use medium.Netstack.Addresses.{host_addr, new_network_addresses, service_for_addr_only}
use medium.Netstack.Hostnames.{IsLowercase}
use medium.Netstack.Names.{Spells, resolve_hostname_lem}
use medium.Netstack.Dns.{
  read_labels, join_dot, parse_query, emit_response, patch, answer_record, answer_query, pump_dns,
}
use medium.Netstack.Device.{PacketDevice, push_tun_packet, pop_tun_packet, receive, transmit_packet}
use medium.Netstack.Queues.{
  Use, pushes, pops, receives, transmits, use_device, use_all, pushed, received, transmitted,
  popped, use_all_in_order,
}

-- Lower case of the ASCII letters.
abbrev ascii_lowercase : ℕ → Text
ascii_lowercase c = (if leb 65 c && leb c 90 then c + 32 else c) ∷ []

ascii_lowercase-IsLowercase : (c : ℕ) → All IsLowercase (ascii_lowercase c)
ascii_lowercase-IsLowercase c = ground arith

abbrev published : List PublishedService
published =
    record { id = codes "svc"; label = some (codes "My Files!"); kind = codes "https" }
    ∷ record { id = codes "web"; label = none; kind = codes "https" }
    ∷ []

hostname_test : service_hostname ascii_lowercase (codes "-My  Files!") ≡ codes "my-files.medium"
unfolding service_hostname host_label trim_end push_chars push_char lower_chars
    is_ascii_alphanumeric
hostname_test = refl

abbrev pub network : VirtualNetwork
network = record {
  client_addr = 10 ∷ 88 ∷ 0 ∷ 2 ∷ [];
  dns_addr = 10 ∷ 88 ∷ 0 ∷ 1 ∷ [];
  prefix_len = 24;
  services =
      record {
        id = codes "svc";
        hostname = codes "my-files.medium";
        addr = host_addr 0;
        kind = codes "https";
      }
      ∷ record {
        id = codes "web";
        hostname = codes "web.medium";
        addr = host_addr 1;
        kind = codes "https";
      }
      ∷ [];
  by_hostname = (codes "web.medium", 1) ∷ (codes "my-files.medium", 0) ∷ [];
  by_addr = (host_addr 1, 1) ∷ (host_addr 0, 0) ∷ [];
}

network_made : new_network ascii_lowercase published ≡ ok network
unfolding new_network add_services add_service service_addr service_hostname host_label trim_end
    push_chars push_char lower_chars is_ascii_alphanumeric
network_made = refl

new_network_addresses_example :
    (201 < length published) × (new_network ascii_lowercase published ≡ err too_many_services)
    ⊎ ((n : VirtualNetwork) × (new_network ascii_lowercase published ≡ ok n)
        × (length n.services ≡ length published)
        × ((i : ℕ)
            → i < length published
            → (v : VirtualService) × (get_elem? n.services i ≡ some v)
              × (v.addr ≡ host_addr i)
              × (service_for_addr n (host_addr i) ≡ some v)))
new_network_addresses_example = new_network_addresses ascii_lowercase published

abbrev web : VirtualService
web = record {
  id = codes "web";
  hostname = codes "web.medium";
  addr = host_addr 1;
  kind = codes "https";
}

web_found : service_for_addr network (10 ∷ 88 ∷ 0 ∷ 11 ∷ []) ≡ some web
unfolding service_for_addr lookup bytes_eq
web_found = refl

service_for_addr_only_example :
    (web.addr ≡ 10 ∷ 88 ∷ 0 ∷ 11 ∷ [])
    × (i : ℕ) × (i < length published)
    × (10 ∷ 88 ∷ 0 ∷ 11 ∷ [] ≡ host_addr i)
service_for_addr_only_example =
    service_for_addr_only ascii_lowercase published network (10 ∷ 88 ∷ 0 ∷ 11 ∷ []) web
      (omega arith) network_made web_found

resolve_hostname_lem_example :
    ((name : Text) (v : VirtualService)
      → resolve_hostname network name ≡ some v
      → Spells name v.hostname)
    × ((i : ℕ) (w : VirtualService) (name : Text)
        → get_elem? network.services i ≡ some w
        → Spells name w.hostname
        → (v : VirtualService) × (resolve_hostname network name ≡ some v)
          × (v.hostname ≡ w.hostname))
    × ((i : ℕ) (w : VirtualService)
        → get_elem? network.services i ≡ some w
        → (v : VirtualService) × (resolve_hostname network w.hostname ≡ some v)
          × (v.hostname ≡ w.hostname))
resolve_hostname_lem_example =
    resolve_hostname_lem ascii_lowercase published network ascii_lowercase-IsLowercase network_made

resolve_test : resolve_hostname network (codes "WEB.Medium.") ≡ some web
unfolding resolve_hostname normalized lookup bytes_eq trim_end to_ascii_lowercase
resolve_test = refl

-- A query for `web.medium`.
abbrev query : Bytes
query =
    18 ∷ 52 ∷ 1 ∷ 0 ∷ 0 ∷ 1 ∷ 0 ∷ 0 ∷ 0 ∷ 0 ∷ 0 ∷ 0 ∷ 3 ∷ 119 ∷ 101 ∷ 98 ∷ 6 ∷ 109 ∷ 101 ∷ 100 ∷ 105
    ∷ 117 ∷ 109 ∷ 0 ∷ 0 ∷ 1 ∷ 0 ∷ 1 ∷ []

abbrev answer : Bytes
answer =
    18 ∷ 52 ∷ 129 ∷ 128 ∷ 0 ∷ 1 ∷ 0 ∷ 1 ∷ 0 ∷ 0 ∷ 0 ∷ 0 ∷ 3 ∷ 119 ∷ 101 ∷ 98 ∷ 6 ∷ 109 ∷ 101 ∷ 100
    ∷ 105 ∷ 117 ∷ 109 ∷ 0 ∷ 0 ∷ 1 ∷ 0 ∷ 1 ∷ 192 ∷ 12 ∷ 0 ∷ 1 ∷ 0 ∷ 1 ∷ 0 ∷ 0 ∷ 0 ∷ 30 ∷ 0 ∷ 4 ∷ 10
    ∷ 88 ∷ 0 ∷ 11 ∷ []

abbrev device : PacketDevice
device = record { rx = (1 ∷ []) ∷ []; tx = []; mtu = 1500 }

abbrev uses : List Use
uses = pushes (2 ∷ []) ∷ receives ∷ transmits 2 (λ p. p) ∷ receives ∷ pops ∷ []

use_all_in_order_example :
    (received uses device ++ (use_all uses device).rx ≡ device.rx ++ pushed uses)
    × (popped uses device ++ (use_all uses device).tx ≡ device.tx ++ transmitted uses)
use_all_in_order_example = use_all_in_order uses device

received_test : received uses device ≡ (1 ∷ []) ∷ (2 ∷ []) ∷ []
unfolding received use_device receive push_tun_packet transmit_packet pop_tun_packet
received_test = refl

-- A socket with room for one reply.
abbrev send_one : Bytes → ℕ → List (Bytes × ℕ) → Option (List (Bytes × ℕ))
send_one response remote [] = some ((response, remote) ∷ [])
send_one response remote (r ∷ replies) = none

pump_dns_test :
    pump_dns send_one
      (λ bytes. some bytes)
      network
      ((1 ∷ [], 7) ∷ (query, 8) ∷ (2 ∷ [], 7) ∷ (query, 9) ∷ (3 ∷ [], 7) ∷ [])
      []
    ≡ (false, (3 ∷ [], 7) ∷ [], (answer, 8) ∷ [])
unfolding pump_dns answer_query parse_query read_labels emit_response patch join_dot answer_record
    resolve_hostname normalized lookup bytes_eq trim_end to_ascii_lowercase be_bytes from_be
pump_dns_test = refl

-- A name that no service has, and the flags of the answer.
unknown_test :
    answer_query
      (λ bytes. some bytes)
      (18 ∷ 52 ∷ 1 ∷ 0 ∷ 0 ∷ 1 ∷ 0 ∷ 0 ∷ 0 ∷ 0 ∷ 0 ∷ 0 ∷ 1 ∷ 120 ∷ 0 ∷ 0 ∷ 1 ∷ 0 ∷ 1 ∷ [])
      network
    ≡ some (18 ∷ 52 ∷ 129 ∷ 131 ∷ 0 ∷ 1 ∷ 0 ∷ 0 ∷ 0 ∷ 0 ∷ 0 ∷ 0 ∷ 1 ∷ 120 ∷ 0 ∷ 0 ∷ 1 ∷ 0 ∷ 1 ∷ [])
unfolding answer_query parse_query read_labels emit_response patch join_dot answer_record
    resolve_hostname normalized lookup bytes_eq trim_end to_ascii_lowercase be_bytes from_be
unknown_test = refl
