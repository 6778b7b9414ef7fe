-- ===== src/UdpSession/Examples.antt =====
-- The theorems about UDP sessions at concrete inputs, and tests of the definitions.
use medium.Common.{
  ℕ, ◌<◌, ◌^◌, ◌≡◌, ◌≢◌, refl, true, ◌&&◌, [], ◌∷◌, ◌++◌, map, arith, Bytes, bytes_eq,
  bytes_eq_refl, be_bytes, from_be, from_be-be_bytes, codes, drop, ltb, Option, none, some,
  if◌then◌else◌, ok, err,
}
use medium.UdpSession.Packet.{Packet, data_packet, encode_packet, decode_packet}
use medium.UdpSession.Packet.Codec.{decode-encode, encode-decode}
use medium.UdpSession.Session.{
  Cipher, Direction, client_to_node, node_to_client, nonce_bytes, new_state,
}
use medium.UdpSession.Session.Reassembly.{stream}
use medium.UdpSession.Stream.{
  ack_loop, has_pending, drain, read_loop, SocketAddr, Stream, datagram, fault, expired, socket,
  inbox, read, write, send_packet, wait_for_ack, remaining, recv_session_packet, recv_socket,
  out_of_fuel, timed_out,
}
use medium.UdpSession.Stream.Order.{IsAuthentic}
use medium.UdpSession.Stream.Reads.{reads, writes, run, run-stream}
use medium.UdpSession.Stream.Delivery.{handle_all, chunk_packet, Opens, handle_all-stream}
use medium.UdpSession.Stream.Rounds.{calls_end}
use medium.UdpSession.Stream.Writes.{Outcome, write-Outcome}
use medium.UdpSession.Handshake.{
  HandshakeKey, key_eq, is_duplicate_handshake, drop_expired, trim, Message, Round, connect_loop,
}
use medium.UdpSession.Handshake.Duplicates.{remember, repeat_is_duplicate}
use medium.UdpSession.Handshake.Memory.{WasSeen, is_duplicate_handshake-WasSeen}
use medium.UdpSession.Handshake.SameHost.{connect_stays_on_host}

abbrev greeting : Packet
greeting = record { kind = data_packet; seq = 258; payload = 104 ∷ 105 ∷ [] }

abbrev greeting_bytes : Bytes
greeting_bytes = codes "MDU1" ++ 3 ∷ 0 ∷ 0 ∷ 0 ∷ 0 ∷ 0 ∷ 0 ∷ 1 ∷ 2 ∷ 0 ∷ 2 ∷ 104 ∷ 105 ∷ []

greeting_decoded : decode_packet greeting_bytes ≡ ok greeting
unfolding decode_packet from_be
greeting_decoded = refl

decode-encode_example :
    (bytes : Bytes) × (encode_packet greeting ≡ ok bytes) × (decode_packet bytes ≡ ok greeting)
decode-encode_example = decode-encode greeting (omega arith) (omega arith)

encode-decode_example : encode_packet greeting ≡ ok greeting_bytes
encode-decode_example = encode-decode greeting_bytes (omega arith) greeting_decoded

-- A cipher that opens two chunks, and nothing else.
abbrev toy : Cipher
toy = record {
  encrypt = λ nonce plain. some nonce;
  decrypt = λ nonce sealed.
      if ltb (from_be (drop 4 nonce)) 2 && bytes_eq sealed nonce
      then some (from_be (drop 4 nonce) ∷ [])
      else none;
}

abbrev host : SocketAddr
host = record { ip = 10 ∷ 0 ∷ 0 ∷ 1 ∷ []; port = 4242 }

abbrev sent : ℕ → Bytes
sent k = k ∷ []

-- The packet with chunk `k` of the client.
abbrev sealed : ℕ → Bytes
sealed k = nonce_bytes client_to_node k

abbrev node : Stream
node = record {
  cipher = toy;
  direction = node_to_client;
  peer_addr = host;
  state = new_state;
  source = inbox (chunk_packet sealed 1 ∷ chunk_packet sealed 0 ∷ chunk_packet sealed 1 ∷ []) [];
  outgoing = [];
  faults = [];
}

number_of_nonce :
    (d : Direction) (seq : ℕ) → seq < 2 ^ 64 → from_be (drop 4 (nonce_bytes d seq)) ≡ seq
unfolding nonce_bytes
number_of_nonce d seq h = from_be-be_bytes 8 seq h

node-IsAuthentic : IsAuthentic sent 2 node
node-IsAuthentic seq ct v h e = ground (arith, number_of_nonce client_to_node seq h)

run-stream_example :
    (run (reads 10 ∷ writes (9 ∷ []) ∷ reads 10 ∷ []) node).0
      ++ (run (reads 10 ∷ writes (9 ∷ []) ∷ reads 10 ∷ []) node).1.state.pending_read
    ≡ stream sent (run (reads 10 ∷ writes (9 ∷ []) ∷ reads 10 ∷ []) node).1.state.recv_seq
run-stream_example =
    run-stream sent 2 (reads 10 ∷ writes (9 ∷ []) ∷ reads 10 ∷ []) node refl (omega arith)
      node-IsAuthentic (omega arith)

node-Opens : Opens sent sealed 2 toy node_to_client
node-Opens k h =
    let n = number_of_nonce client_to_node k (omega arith) in
    ground (arith, n, bytes_eq_refl (nonce_bytes client_to_node k))

handle_all-stream_example :
    ((handle_all (map (chunk_packet sealed) (1 ∷ 0 ∷ 1 ∷ [])) node).state.pending_read
      ≡ stream sent 2)
    × ((handle_all (map (chunk_packet sealed) (1 ∷ 0 ∷ 1 ∷ [])) node).state.recv_seq ≡ 2)
handle_all-stream_example =
    handle_all-stream sent sealed 2 (1 ∷ 0 ∷ 1 ∷ []) node refl (omega arith) node-Opens
      (omega arith) (λ k h. ground arith)

calls_end_example :
    ((write (5 ∷ []) node).0 ≢ err out_of_fuel)
    × ((read 8 node).0 ≢ err out_of_fuel)
    × (ack_loop 100 0 node ≡ wait_for_ack 0 node)
    × (read 8 node ≡ (if has_pending node then drain 8 node else read_loop 100 8 node))
calls_end_example = calls_end node (5 ∷ []) 8 0 100 (unfold remaining in omega arith)

-- Nothing reaches this client.
abbrev alone : Stream
alone = record {
  cipher = toy;
  direction = client_to_node;
  peer_addr = host;
  state = new_state;
  source = socket [];
  outgoing = [];
  faults = [];
}

write-Outcome_example :
    Outcome
      (record { kind = data_packet; seq = 0; payload = sealed 0 })
      5
      1
      alone
      (write (5 ∷ []) alone)
write-Outcome_example = write-Outcome (5 ∷ []) (sealed 0) alone refl

-- A write that fails leaves the number of its chunk, and so the nonce, to the next write.
alone_fails :
    ((write (5 ∷ []) alone).0 ≡ err timed_out) × ((write (5 ∷ []) alone).1.state.send_seq ≡ 0)
unfolding write send_packet encode_packet wait_for_ack remaining recv_session_packet recv_socket
    nonce_bytes be_bytes
alone_fails = (refl, refl)

abbrev key : HandshakeKey
key = record { peer_addr = host; token = codes "t"; service_id = codes "ssh" }

abbrev other_key : HandshakeKey
other_key = record { peer_addr = host; token = codes "u"; service_id = codes "ssh" }

repeat_is_duplicate_example :
    (is_duplicate_handshake
      (remember (is_duplicate_handshake [] key 7).1 ((other_key, 8) ∷ []))
      key
      9).0
    ≡ true
repeat_is_duplicate_example =
    repeat_is_duplicate [] key 7 ((other_key, 8) ∷ []) 9
      (unfold is_duplicate_handshake drop_expired in refl) (omega arith) (omega arith) (omega arith)

is_duplicate_handshake-WasSeen_example :
    WasSeen key 9 (remember [] ((key, 7) ∷ (other_key, 8) ∷ []))
is_duplicate_handshake-WasSeen_example =
    is_duplicate_handshake-WasSeen ((key, 7) ∷ (other_key, 8) ∷ []) key 9 (omega arith)
      (unfold is_duplicate_handshake remember drop_expired trim key_eq in refl)

abbrev answer : Bytes
answer = codes "MDU1" ++ 2 ∷ 0 ∷ 0 ∷ 0 ∷ 0 ∷ 0 ∷ 0 ∷ 0 ∷ 0 ∷ 0 ∷ 0 ∷ []

abbrev other_port : SocketAddr
other_port = record { ip = 10 ∷ 0 ∷ 0 ∷ 1 ∷ []; port = 5353 }

abbrev answered : Round
answered = record { now = 3; sends = true; received = datagram answer other_port }

abbrev silent_round : Round
silent_round = record { now = 2; sends = true; received = fault expired }

abbrev no_message : Bytes → Option Message
no_message bytes = none

answered_test :
    connect_loop no_message 10 (silent_round ∷ answered ∷ []) (host ∷ []) ≡ ok other_port
unfolding connect_loop decode_packet from_be bytes_eq
answered_test = refl

connect_stays_on_host_example : other_port.ip ≡ host.ip
connect_stays_on_host_example =
    connect_stays_on_host no_message 10 (silent_round ∷ answered ∷ []) host other_port answered_test
