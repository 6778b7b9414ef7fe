-- ===== src/Netstack/Slots.antt =====
-- The TCP side of `MediumStack`: its slots and listeners, crates/medium-netstack/src/lib.rs.
-- The sockets of smoltcp are a parameter, with the operations that the code uses; what `iface.poll` does
-- with each of the sockets is a function for each poll. Calls that the code guards do not fail.
use medium.Common.{
  ℕ, Bool, true, false, not, ◌&&◌, List, [], ◌∷◌, ◌++◌, Option, none, some, Bytes, codes, bytes_eq,
  any, ◌==◌, if◌then◌else◌, show_nat,
}
use medium.Netstack.Network.{Text, Ipv4Address, VirtualService, VirtualNetwork}

pub record Sockets (S : Type 0) : Type 0 where
  pub fresh : S
  pub is_open : S → Bool
  pub is_listening : S → Bool
  pub is_established : S → Bool
  pub is_active : S → Bool
  pub may_recv : S → Bool
  pub can_recv : S → Bool
  pub can_send : S → Bool
  pub local_addr : S → Option Ipv4Address
  pub listen : Ipv4Address → ℕ → S → S
  pub recv : S → Bytes × S
  pub send_slice : Bytes → S → Option (ℕ × S)
  pub shut : S → S

abbrev pub http_port : ℕ
http_port = 80

abbrev pub https_port : ℕ
https_port = 443

pub record TcpSlot (S : Type 0) : Type 0 where
  pub socket : S
  pub service_id : Text
  pub hostname : Text
  pub port : ℕ
  pub stream_id : Option Bytes

-- The part of `MediumStack` for TCP.
pub record MediumStack (S : Type 0) : Type 0 where
  pub network : VirtualNetwork
  pub tcp_slots : List (TcpSlot S)
  pub next_tcp_stream : ℕ

pub data TcpPumpEvent : Type 0 where
  connected : Bytes → Text → TcpPumpEvent
  received : Bytes → Text → Bytes → TcpPumpEvent
  closed : Bytes → Text → TcpPumpEvent

-- The name of a stream.
unfoldable pub stream_name : ℕ → Bytes
stream_name n = codes "tcp-" ++ show_nat n

abbrev pub is_some : {A : Type 0} → Option A → Bool
is_some none = false
is_some (some a) = true

abbrev pub find_service : Text → List VirtualService → Option VirtualService
find_service id [] = none
find_service id (v ∷ vs) = if bytes_eq v.id id then some v else find_service id vs

module _ {S : Type 0} (k : Sockets S) where
  abbrev pub slot_at : VirtualService → ℕ → S → TcpSlot S
  slot_at v port socket = record {
    socket = socket;
    service_id = v.id;
    hostname = v.hostname;
    port = port;
    stream_id = none;
  }

  -- Two slots for each service.
  unfoldable pub first_slots : List VirtualService → List (TcpSlot S)
  first_slots [] = []
  first_slots (v ∷ vs) = slot_at v http_port k.fresh ∷ slot_at v https_port k.fresh ∷ first_slots vs

  -- `MediumStack::new`.
  unfoldable pub new_stack : VirtualNetwork → MediumStack S
  new_stack network = record {
    network = network;
    tcp_slots = first_slots network.services;
    next_tcp_stream = 0;
  }

  abbrev pub listening : Option VirtualService → TcpSlot S → TcpSlot S
  listening none slot = slot
  listening (some v) slot =
      if k.is_open slot.socket
      then slot
      else record slot { socket = k.listen v.addr slot.port slot.socket }

  unfoldable pub reopen : List VirtualService → List (TcpSlot S) → List (TcpSlot S)
  reopen vs [] = []
  reopen vs (slot ∷ slots) = listening (find_service slot.service_id vs) slot ∷ reopen vs slots

  unfoldable pub is_listener : Text → ℕ → TcpSlot S → Bool
  is_listener service_id port slot =
      bytes_eq slot.service_id service_id
      && slot.port == port
      && not (is_some slot.stream_id)
      && k.is_listening slot.socket

  abbrev pub hostname_or : Text → Option VirtualService → Text
  hostname_or fallback none = fallback
  hostname_or fallback (some v) = v.hostname

  unfoldable pub with_listener :
      List VirtualService → VirtualService → ℕ → List (TcpSlot S) → List (TcpSlot S)
  with_listener services v port slots =
      let hostname = hostname_or v.id (find_service v.id services) in
      if any (is_listener v.id port) slots
      then slots
      else slots
        ++ (record (slot_at v port (k.listen v.addr port k.fresh)) { hostname = hostname }) ∷ []

  -- For all the services, of which the second list has those that are still to do.
  unfoldable pub with_listeners :
      List VirtualService → List VirtualService → List (TcpSlot S) → List (TcpSlot S)
  with_listeners services [] slots = slots
  with_listeners services (v ∷ vs) slots =
      with_listeners services vs
        (with_listener services v https_port (with_listener services v http_port slots))

  unfoldable pub ensure_tcp_listeners : MediumStack S → MediumStack S
  ensure_tcp_listeners s = record s {
    tcp_slots =
        with_listeners s.network.services s.network.services
          (reopen s.network.services s.tcp_slots);
  }
