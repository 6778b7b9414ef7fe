-- ===== src/Transport/Examples.antt =====
-- The theorem about framing at a concrete input, and tests.
use medium.Common.{
  ℕ, ◌+◌, ◌-◌, ◌≡◌, ◌≢◌, refl, [], ◌∷◌, ◌++◌, arith, some, none, Option, Bytes, codes, bytes_eq, ok,
}
use medium.UdpSession.Stream.{SocketAddr}
use medium.UdpSession.Handshake.{client, peer_at, punch}
use medium.Transport.Framing.{
  IsJson, write_json_line, read_json_line, read_json_line-write_json_line,
}
use medium.Transport.Peers.{
  received_from, timed_out, send_message_to, punch_times, send_punch_burst, handle_listener_message,
  resolve_rounds, resolve_peer,
}
use medium.Transport.Diagnostics.{format_value, escape_all}

abbrev to_json : ℕ → Option Bytes
to_json n = some ((n + 20) ∷ [])

abbrev from_json : Bytes → Option ℕ
from_json (b ∷ []) = some (b - 20)
from_json _ = none

to_json-IsJson : IsJson to_json from_json
to_json-IsJson = record {
  from_json-to_json = λ a text e.
      let same : (a + 20) ∷ [] ≡ text = cc in
      let back : a + 20 - 20 ≡ a = omega arith in rw (← same, back) refl;
  one_line = λ a text e.
      let same : (a + 20) ∷ [] ≡ text = cc in
      let other : a + 20 ≢ 10 = omega arith in rw (← same) (other, tt);
  not_empty = λ a text e f. let same : (a + 20) ∷ [] ≡ text = cc in cc;
}

read_json_line-write_json_line_example :
    (frame : Bytes) × (write_json_line to_json 5 ≡ ok frame)
    × (read_json_line from_json (frame ++ 7 ∷ []) ≡ ok (5, 7 ∷ []))
read_json_line-write_json_line_example =
    read_json_line-write_json_line to_json from_json to_json-IsJson 5 (25 ∷ []) (7 ∷ []) refl
      (omega arith)

abbrev relay : SocketAddr
relay = record { ip = 1 ∷ []; port = 1 }

abbrev peer : SocketAddr
peer = record { ip = 2 ∷ []; port = 2 }

-- The relay is asked, and the peer that it names gets five packets; a datagram of another is ignored.
resolve_test :
    resolve_peer
      (λ bytes. some (peer_at bytes))
      (λ bytes. some peer)
      relay
      (9 ∷ [])
      (8 ∷ [])
      (timed_out ∷ received_from peer [] ∷ received_from relay [] ∷ [])
      (record { outgoing = []; sends = [] })
    ≡ (
      ok peer,
      record {
        outgoing =
            (relay, client (9 ∷ []) (8 ∷ []))
            ∷ (peer, punch)
            ∷ (peer, punch)
            ∷ (peer, punch)
            ∷ (peer, punch)
            ∷ (peer, punch)
            ∷ [];
        sends = [];
      },
    )
unfolding resolve_peer resolve_rounds send_message_to punch_times send_punch_burst
    handle_listener_message bytes_eq
resolve_test = refl

quoted_test : format_value (codes "no route") ≡ 34 ∷ (codes "no route" ++ 34 ∷ [])
unfolding format_value escape_all
quoted_test = refl

plain_test : format_value (codes "peer_received") ≡ codes "peer_received"
unfolding format_value
plain_test = refl
