-- ===== src/Netstack/Pump.antt =====
-- What a poll of `MediumStack` does with its slots, and the calls for a stream,
-- crates/medium-netstack/src/lib.rs.
use medium.Common.{
  ◌%◌, ◌^◌, ℕ, suc, Bool, false, not, ◌&&◌, List, [], ◌∷◌, ◌++◌, Option, none, some, Bytes, codes,
  bytes_eq, ◌==◌, if◌then◌else◌,
}
use medium.Netstack.Network.{Text, Ipv4Address, VirtualService, VirtualNetwork, service_for_addr}
use medium.Netstack.Slots.{
  Sockets, http_port, https_port, TcpSlot, MediumStack, TcpPumpEvent, connected, received, closed,
  stream_name, is_some, ensure_tcp_listeners,
}

module _ {S : Type 0} (k : Sockets S) where
  abbrev pub service_of : VirtualNetwork → Option Ipv4Address → Option VirtualService
  service_of n none = none
  service_of n (some addr) = service_for_addr n addr

  abbrev pub id_or : Text → Option VirtualService → Text
  id_or fallback none = fallback
  id_or fallback (some v) = v.id

  -- The events of a socket, and the socket.
  unfoldable pub poll_socket : VirtualNetwork → Bytes → Text → S → List TcpPumpEvent × S
  poll_socket n stream_id fallback socket =
      let service_id = id_or fallback (service_of n (k.local_addr socket)) in
      let read = k.recv socket in
      if k.can_recv socket
      then (received stream_id service_id read.0 ∷ [], read.1)
      else ([], socket)

  abbrev pub crlf : Bytes
  crlf = 13 ∷ 10 ∷ []

  unfoldable pub redirect_response : Text → Bytes
  redirect_response hostname =
      codes "HTTP/1.1 308 Permanent Redirect"
      ++ (crlf
          ++ (codes "Location: https://"
              ++ (hostname
                  ++ (codes "/"
                      ++ (crlf
                          ++ (codes "Content-Length: 0"
                              ++ (crlf ++ (codes "Connection: close" ++ (crlf ++ crlf)))))))))

  abbrev pub sent_or : S → Option (ℕ × S) → S
  sent_or socket none = socket
  sent_or socket (some (count, sent)) = sent

  unfoldable pub redirect_http_to_https : Text → S → S
  redirect_http_to_https hostname socket =
      let read = (k.recv socket).1 in
      let answered = sent_or read (k.send_slice (redirect_response hostname) read) in
      if k.can_recv socket then k.shut (if k.can_send read then answered else read) else socket

  -- A slot whose socket is connected gets a name: the slot, the number of streams, and the event.
  unfoldable pub name_stream : ℕ → TcpSlot S → TcpSlot S × ℕ × List TcpPumpEvent
  name_stream next slot =
      let number = suc next % 2 ^ 64 in
      let name = stream_name number in
      if k.is_established slot.socket && not (is_some slot.stream_id)
      then (
        record slot { stream_id = some name },
        number,
        if slot.port == https_port then connected name slot.service_id ∷ [] else [],
      )
      else (slot, next, [])

  abbrev pub serve : VirtualNetwork → Bytes → TcpSlot S → List TcpPumpEvent × S
  serve n stream_id slot =
      if slot.port == http_port
      then ([], redirect_http_to_https slot.hostname slot.socket)
      else poll_socket n stream_id slot.service_id slot.socket

  abbrev pub ended : Bytes → TcpSlot S → List TcpPumpEvent × S → TcpSlot S × List TcpPumpEvent
  ended stream_id slot (events, socket) =
      if not (k.is_active socket) && not (k.may_recv socket)
      then (
        record slot { socket = socket; stream_id = none },
        events ++ closed stream_id slot.service_id ∷ [],
      )
      else (record slot { socket = socket }, events)

  abbrev pub pump_named : VirtualNetwork → Option Bytes → TcpSlot S → TcpSlot S × List TcpPumpEvent
  pump_named n none slot = (slot, [])
  pump_named n (some stream_id) slot = ended stream_id slot (serve n stream_id slot)

  -- The slots, the number of streams, and the events.
  unfoldable pub pump_slots :
      VirtualNetwork → ℕ → List (TcpSlot S) → List (TcpSlot S) × ℕ × List TcpPumpEvent
  pump_slots n next [] = ([], next, [])
  pump_slots n next (slot ∷ slots) =
      let (named, count, opened) = name_stream next slot in
      let (pumped, events) = pump_named n named.stream_id named in
      let (rest, last, later) = pump_slots n count slots in
      (pumped ∷ rest, last, opened ++ (events ++ later))

  unfoldable pub pump_tcp : MediumStack S → List TcpPumpEvent × MediumStack S
  pump_tcp s =
      let (slots, next, events) = pump_slots s.network s.next_tcp_stream s.tcp_slots in
      (events, record s { tcp_slots = slots; next_tcp_stream = next })

  -- `iface.poll`: what the network does to the socket of each slot, by its place.
  abbrev pub on_wire : (ℕ → S → S) → ℕ → List (TcpSlot S) → List (TcpSlot S)
  on_wire wire i [] = []
  on_wire wire i (slot ∷ slots) =
      record slot { socket = wire i slot.socket } ∷ on_wire wire (suc i) slots

  abbrev pub poll_iface : (ℕ → S → S) → MediumStack S → MediumStack S
  poll_iface wire s = record s { tcp_slots = on_wire wire 0 s.tcp_slots }

  -- `poll`, without its part for DNS.
  unfoldable pub poll :
      (ℕ → S → S) → (ℕ → S → S) → MediumStack S → List TcpPumpEvent × MediumStack S
  poll before after s =
      let pumped = pump_tcp (poll_iface before (ensure_tcp_listeners k s)) in
      (pumped.0, poll_iface after pumped.1)

  abbrev pub is_stream : Bytes → Option Bytes → Bool
  is_stream stream_id none = false
  is_stream stream_id (some id) = bytes_eq id stream_id

  -- In the first slot of the stream; `none` where there is none, and where the call fails.
  unfoldable pub in_slot :
      {A : Type 0}
      → Bytes
      → (TcpSlot S → Option (A × TcpSlot S))
      → List (TcpSlot S)
      → Option (A × List (TcpSlot S))
  in_slot stream_id f [] = none
  in_slot stream_id f (slot ∷ slots) =
      if is_stream stream_id slot.stream_id
      then elim (f slot) [ none ↦ none | some (a, used) ↦ some (a, used ∷ slots) ]
      else elim (in_slot stream_id f slots) [ none ↦ none | some (a, rest) ↦ some (a, slot ∷ rest) ]

  abbrev pub with_slots :
      {A : Type 0} → MediumStack S → Option (A × List (TcpSlot S)) → Option (A × MediumStack S)
  with_slots s none = none
  with_slots s (some (a, slots)) = some (a, record s { tcp_slots = slots })

  unfoldable pub close_tcp : Bytes → MediumStack S → Option (Unit {0} × MediumStack S)
  close_tcp stream_id s = with_slots s (
      in_slot stream_id
        (λ slot. some (tt, record slot { socket = k.shut slot.socket; stream_id = none }))
        s.tcp_slots)

  abbrev pub sent_in : TcpSlot S → Option (ℕ × S) → Option (ℕ × TcpSlot S)
  sent_in slot none = none
  sent_in slot (some (count, socket)) = some (count, record slot { socket = socket })

  unfoldable pub send_tcp : Bytes → Bytes → MediumStack S → Option (ℕ × MediumStack S)
  send_tcp stream_id bytes s =
      with_slots s
        (in_slot stream_id (λ slot. sent_in slot (k.send_slice bytes slot.socket)) s.tcp_slots)

  -- What the app does with the stack: a poll, with what happens to the sockets, or a call for a stream.
  pub data StackMove : Type 0 where
    polls : (ℕ → S → S) → (ℕ → S → S) → StackMove
    closes : Bytes → StackMove
    sends : Bytes → Bytes → StackMove

  abbrev pub or_same : {A : Type 0} → MediumStack S → Option (A × MediumStack S) → MediumStack S
  or_same s none = s
  or_same s (some (a, t)) = t

  -- The events of all polls.
  unfoldable pub run_stack : List StackMove → MediumStack S → List TcpPumpEvent × MediumStack S
  run_stack [] s = ([], s)
  run_stack (polls before after ∷ moves) s =
      let (events, t) = poll before after s in
      let (later, u) = run_stack moves t in (events ++ later, u)
  run_stack (closes stream_id ∷ moves) s = run_stack moves (or_same s (close_tcp stream_id s))
  run_stack (sends stream_id bytes ∷ moves) s =
      run_stack moves (or_same s (send_tcp stream_id bytes s))
