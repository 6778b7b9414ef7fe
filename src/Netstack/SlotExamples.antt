-- ===== src/Netstack/SlotExamples.antt =====
-- The slots of `MediumStack` at a concrete input, crates/medium-netstack/src/lib.rs.
use medium.Common.{
  ◌<◌, ◌^◌, arith, ℕ, ◌≡◌, refl, Bool, true, false, List, [], ◌∷◌, Option, none, some, Bytes, codes,
  length, bytes_eq, show_nat,
}
use medium.Netstack.Network.{Ipv4Address, service_for_addr}
use medium.Netstack.Examples.{network}
use medium.Netstack.Slots.{
  Sockets, TcpPumpEvent, MediumStack, new_stack, ensure_tcp_listeners, reopen, with_listeners,
  with_listener, is_listener, stream_name, first_slots,
}
use medium.Netstack.Pump.{
  run_stack, poll, pump_tcp, pump_slots, name_stream, poll_socket, redirect_http_to_https,
  redirect_response, close_tcp, send_tcp, in_slot, StackMove, polls, closes, sends,
}
use medium.Netstack.Streams.{streams_named, Rising, AllDifferent, announced, run_stack-AllDifferent}

-- A socket that is closed, waits, or is connected with bytes to read.
data Simple : Type 0 where
  idle : Simple
  waits : Ipv4Address → Simple
  linked : Ipv4Address → Bytes → Simple

abbrev simple_open : Simple → Bool
simple_open idle = false
simple_open (waits a) = true
simple_open (linked a bytes) = true

abbrev simple_waits : Simple → Bool
simple_waits (waits a) = true
simple_waits idle = false
simple_waits (linked a bytes) = false

abbrev simple_linked : Simple → Bool
simple_linked (linked a bytes) = true
simple_linked idle = false
simple_linked (waits a) = false

abbrev simple_has_bytes : Simple → Bool
simple_has_bytes (linked a (b ∷ bytes)) = true
simple_has_bytes (linked a []) = false
simple_has_bytes idle = false
simple_has_bytes (waits a) = false

abbrev simple_addr : Simple → Option Ipv4Address
simple_addr idle = none
simple_addr (waits a) = some a
simple_addr (linked a bytes) = some a

abbrev simple_recv : Simple → Bytes × Simple
simple_recv (linked a bytes) = (bytes, linked a [])
simple_recv idle = ([], idle)
simple_recv (waits a) = ([], waits a)

abbrev simple_send : Bytes → Simple → Option (ℕ × Simple)
simple_send sent (linked a bytes) = some (length sent, linked a bytes)
simple_send sent idle = none
simple_send sent (waits a) = none

abbrev simple : Sockets Simple
simple = record {
  fresh = idle;
  is_open = simple_open;
  is_listening = simple_waits;
  is_established = simple_linked;
  is_active = simple_linked;
  may_recv = simple_linked;
  can_recv = simple_has_bytes;
  can_send = simple_linked;
  local_addr = simple_addr;
  listen = λ addr port socket. waits addr;
  recv = simple_recv;
  send_slice = simple_send;
  shut = λ socket. idle;
}

-- Every socket that waits is connected, with two bytes.
abbrev dial : Simple → Simple
dial idle = idle
dial (waits a) = linked a (1 ∷ 2 ∷ [])
dial (linked a bytes) = linked a bytes

abbrev hang_up : Simple → Simple
hang_up idle = idle
hang_up (waits a) = waits a
hang_up (linked a bytes) = idle

abbrev moves : List (StackMove simple)
moves =
    polls (λ i. dial) (λ i socket. socket)
    ∷ sends (codes "tcp-2") (7 ∷ [])
    ∷ closes (codes "tcp-4")
    ∷ polls (λ i. hang_up) (λ i. dial)
    ∷ polls (λ i socket. socket) (λ i socket. socket)
    ∷ []

named_eight : streams_named simple moves (new_stack simple network) ≡ 8
unfolding poll pump_tcp pump_slots name_stream poll_socket redirect_http_to_https redirect_response
    ensure_tcp_listeners reopen with_listeners with_listener is_listener stream_name new_stack
    first_slots close_tcp send_tcp in_slot service_for_addr bytes_eq show_nat
named_eight = refl

few : streams_named simple moves (new_stack simple network) < 2 ^ 64
few = omega (arith, named_eight)

run_stack-AllDifferent_example :
    Rising 0
      (run_stack simple moves (new_stack simple network)).0
      (run_stack simple moves (new_stack simple network)).1.next_tcp_stream
    × AllDifferent (announced (run_stack simple moves (new_stack simple network)).0)
run_stack-AllDifferent_example = run_stack-AllDifferent simple network moves few

abbrev run_result : List TcpPumpEvent × MediumStack Simple
run_result = run_stack simple moves (new_stack simple network)

-- Its first names are `tcp-1` to `tcp-4`, of which those for HTTPS are announced.
announced_test :
    (announced run_result.0 ≡ codes "tcp-2" ∷ codes "tcp-4" ∷ codes "tcp-7" ∷ codes "tcp-8" ∷ [])
    × (length run_result.1.tcp_slots ≡ 8)
unfolding run_stack poll pump_tcp pump_slots name_stream poll_socket redirect_http_to_https
    redirect_response ensure_tcp_listeners reopen with_listeners with_listener is_listener
    stream_name new_stack first_slots close_tcp send_tcp in_slot service_for_addr bytes_eq show_nat
announced_test = (refl, refl)
