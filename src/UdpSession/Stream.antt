-- ===== src/UdpSession/Stream.antt =====
-- `UdpSessionStream` of crates/overlay-transport/src/udp_session.rs. The socket and the inbox are
-- lists of what each next receive call gets; what is sent is appended to `outgoing`. Locks are
-- never poisoned. A clone of a stream is the same state.
pub mod Wire
pub mod Order
pub mod Reads
pub mod Delivery
pub mod Fuel
pub mod Rounds
pub mod Emits
pub mod Writes
use medium.Common.{
  ℕ, zero, suc, ◌+◌, Bool, true, false, ◌&&◌, ◌||◌, List, [], ◌∷◌, ◌++◌, Bytes, bytes_eq, Option,
  none, some, length, take, min, ◌==◌, if◌then◌else◌, Result, ok, err,
}
use medium.UdpSession.Packet.{
  PacketKind, Packet, PacketError, hello, hello_ack, data_packet, ack, close, encode_packet,
  decode_packet,
}
use medium.UdpSession.Session.{
  Cipher, Direction, peer, nonce_bytes, SessionState, accept, drain_pending, next_seq,
}

-- `std::net::SocketAddr`, an address by its bytes.
pub record SocketAddr : Type 0 where
  pub ip : Bytes
  pub port : ℕ

unfoldable pub addr_eq : SocketAddr → SocketAddr → Bool
unfolding bytes_eq
addr_eq a b = bytes_eq a.ip b.ip && a.port == b.port

-- `std::io::Error`, by kind and message. No call of the source ends in `out_of_fuel`.
pub data IoError : Type 0 where
  would_block timed_out unexpected_eof : IoError
  send_failed decrypt_failed encrypt_failed other out_of_fuel : IoError
  bad_packet : PacketError → IoError

-- The errors of `recv_from`, and those that they are to the caller.
pub data Fault : Type 0 where
  blocked expired failed : Fault

abbrev pub fault_error : Fault → IoError
fault_error blocked = would_block
fault_error expired = timed_out
fault_error failed = other

-- What one `recv_from` returns.
pub data Received : Type 0 where
  datagram : Bytes → SocketAddr → Received
  fault : Fault → Received

-- `inbox`, if there is one, else the socket: its packets now, and those that are pushed while each
-- next call waits.
pub data Source : Type 0 where
  socket : List Received → Source
  inbox : List Packet → List (List Packet) → Source

pub record Stream : Type 0 where
  pub cipher : Cipher
  pub direction : Direction
  pub peer_addr : SocketAddr
  pub state : SessionState
  pub source : Source
  pub outgoing : List Packet
  -- whether each next `send_to` fails; none does behind the end
  pub faults : List Bool

abbrev pub Io : Type 0 → Type 0
Io A = Stream → Result IoError A × Stream

abbrev pub continue :
    {A B : Type 0} → Result IoError A × Stream → (A → Io B) → Result IoError B × Stream
continue (ok a, s) f = f a s
continue (err e, s) f = (err e, s)

infixl 5 ◌>>=◌ ◌>>◌
abbrev pub ◌>>=◌ : {A B : Type 0} → Io A → (A → Io B) → Io B
◌>>=◌ m f s = continue (m s) f

abbrev pub ◌>>◌ : {B : Type 0} → Io (Unit {0}) → Io B → Io B
m >> k = m >>= λ _. k

abbrev pub pure : {A : Type 0} → A → Io A
pure a s = (ok a, s)

abbrev pub fail : {A : Type 0} → IoError → Io A
fail e s = (err e, s)

transmit : Packet → List Bool → Io (Unit {0})
transmit p [] s = (ok tt, record s { outgoing = s.outgoing ++ p ∷ [] })
transmit p (false ∷ fs) s = (ok tt, record s { outgoing = s.outgoing ++ p ∷ []; faults = fs })
transmit p (true ∷ fs) s = (err send_failed, record s { faults = fs })

send_encoded : Result PacketError Bytes → Packet → Io (Unit {0})
unfolding transmit
send_encoded (ok _) p s = transmit p s.faults s
send_encoded (err e) p s = (err (bad_packet e), s)

-- `send_packet_to(..).map_err(io::Error::other)`.
unfoldable pub send_packet : Packet → Io (Unit {0})
unfolding send_encoded
send_packet p = send_encoded (encode_packet p) p

unfoldable pub send_ack : ℕ → Io (Unit {0})
send_ack seq = send_packet (record { kind = ack; seq = seq; payload = [] })

-- The arm for a packet from the peer; `rest` is what the loop goes on to.
abbrev on_decoded :
    (Packet → Bool)
    → Result PacketError Packet
    → List Received
    → Result IoError Packet × List Received
    → Result IoError Packet × List Received
on_decoded wanted (ok packet) rs rest = if wanted packet then (ok packet, rs) else rest
on_decoded wanted (err e) rs rest = (err (bad_packet e), rs)

unfoldable pub recv_socket :
    (Packet → Bool) → SocketAddr → List Received → Result IoError Packet × List Received
recv_socket wanted peer_addr [] = (err timed_out, [])
recv_socket wanted peer_addr (fault f ∷ rs) = (err (fault_error f), rs)
recv_socket wanted peer_addr (datagram bytes addr ∷ rs) =
    let rest = recv_socket wanted peer_addr rs in
    if addr_eq addr peer_addr then on_decoded wanted (decode_packet bytes) rs rest else rest

abbrev put_back : Packet → Option (Packet × List Packet) → Option (Packet × List Packet)
put_back p none = none
put_back p (some (q, qs)) = some (q, p ∷ qs)

-- `packets.iter().position(predicate)` and `packets.remove(index)`.
unfoldable pub take_matching : (Packet → Bool) → List Packet → Option (Packet × List Packet)
take_matching wanted [] = none
take_matching wanted (p ∷ ps) =
    let rest = take_matching wanted ps in if wanted p then some (p, ps) else put_back p rest

abbrev taken_or :
    Option (Packet × List Packet)
    → List (List Packet)
    → Result IoError Packet × Source
    → Result IoError Packet × Source
taken_or (some (p, rest)) later instead = (ok p, inbox rest later)
taken_or none later instead = instead

-- `PacketInbox::recv_matching`.
unfoldable pub recv_matching :
    (Packet → Bool) → List Packet → List (List Packet) → Result IoError Packet × Source
unfolding take_matching
recv_matching wanted packets [] =
    taken_or (take_matching wanted packets) [] (err timed_out, inbox packets [])
recv_matching wanted packets (pushed ∷ later) =
    taken_or (take_matching wanted packets) (pushed ∷ later) (
      taken_or (take_matching wanted (packets ++ pushed)) later
        (err timed_out, inbox (packets ++ pushed) later))

recv_source : (Packet → Bool) → SocketAddr → Source → Result IoError Packet × Source
unfolding recv_socket recv_matching
recv_source wanted peer_addr (socket rs) =
    let (r, rest) = recv_socket wanted peer_addr rs in (r, socket rest)
recv_source wanted peer_addr (inbox packets later) = recv_matching wanted packets later

unfoldable pub recv_session_packet : (Packet → Bool) → Io Packet
unfolding recv_source
recv_session_packet wanted s =
    let (r, source) = recv_source wanted s.peer_addr s.source in (r, record s { source = source })

-- What is left to receive: no loop makes more rounds than this and one.
unfoldable pub total_packets : List (List Packet) → ℕ
total_packets [] = 0
total_packets (ps ∷ pss) = length ps + total_packets pss

unfoldable pub remaining : Source → ℕ
unfolding total_packets
remaining (socket rs) = length rs
remaining (inbox packets later) = length packets + total_packets later

on_plaintext : Option Bytes → ℕ → Io (Unit {0})
on_plaintext none seq s = (err decrypt_failed, s)
on_plaintext (some plaintext) seq s =
    send_ack seq (record s { state = accept seq plaintext s.state })

unfoldable pub handle_data_packet : Packet → Io (Unit {0})
unfolding on_plaintext
handle_data_packet p s =
    on_plaintext (s.cipher.decrypt (nonce_bytes (peer s.direction) p.seq) p.payload) p.seq s

abbrev is_reply : Packet → Bool
is_reply p = elim p.kind [ ack ↦ true | data_packet ↦ true | close ↦ true | _ ↦ false ]

-- One round of the loop of `wait_for_ack`; `again` is the rest of it.
on_reply : Io (Unit {0}) → ℕ → Packet → PacketKind → Io (Unit {0})
on_reply again seq p ack = if p.seq == seq then pure tt else again
on_reply again seq p data_packet = do handle_data_packet p; again
on_reply again seq p close = fail unexpected_eof
on_reply again seq p _ = again

unfoldable pub ack_loop : ℕ → ℕ → Io (Unit {0})
unfolding on_reply
ack_loop zero seq = fail out_of_fuel
ack_loop (suc fuel) seq = do
  p ← recv_session_packet is_reply
  on_reply (ack_loop fuel seq) seq p p.kind

unfoldable pub wait_for_ack : ℕ → Io (Unit {0})
unfolding ack_loop remaining
wait_for_ack seq s = ack_loop (suc (remaining s.source)) seq s

abbrev pub is_timeout : IoError → Bool
is_timeout would_block = true
is_timeout timed_out = true
is_timeout _ = false

-- `send_seq += 1` and the count that `write` returns.
abbrev acknowledged : ℕ → Io ℕ
acknowledged n s =
    (ok n, record s { state = record (s.state) { send_seq = next_seq s.state.send_seq } })

-- The `match` on the result of `wait_for_ack`.
on_acked :
    (IoError → Packet → ℕ → Io ℕ)
    → Packet
    → ℕ
    → Result IoError (Unit {0}) × Stream
    → Result IoError ℕ × Stream
on_acked again p n (ok _, s) = acknowledged n s
on_acked again p n (err e, s) =
    let next = again e p n s in if is_timeout e then next else (err e, s)

-- The `for` loop of `write`, with the rounds left and `last_error`.
attempts : ℕ → IoError → Packet → ℕ → Io ℕ
unfolding on_acked
attempts zero last p n = fail last
attempts (suc rounds) last p n = do
  send_packet p
  λ s. on_acked (attempts rounds) p n (wait_for_ack p.seq s)

abbrev pub max_payload_len : ℕ
max_payload_len = 1100

abbrev pub retries : ℕ
retries = 5

abbrev pub chunk_of : Bytes → Bytes
chunk_of bytes = take (min (length bytes) max_payload_len) bytes

write_sealed : Option Bytes → ℕ → ℕ → Io ℕ
unfolding attempts
write_sealed none seq n = fail encrypt_failed
write_sealed (some ciphertext) seq n =
    attempts retries timed_out (record { kind = data_packet; seq = seq; payload = ciphertext }) n

unfoldable pub write : Bytes → Io ℕ
unfolding write_sealed
write bytes s =
    let chunk = chunk_of bytes in
    let seq = s.state.send_seq in
    write_sealed (s.cipher.encrypt (nonce_bytes s.direction seq) chunk) seq (length chunk) s

abbrev pub has_pending : Stream → Bool
has_pending s = elim s.state.pending_read [ [] ↦ false | _ ∷ _ ↦ true ]

pub drain : ℕ → Io Bytes
drain size s =
    let (bytes, state) = drain_pending size s.state in (ok bytes, record s { state = state })

abbrev is_input : Packet → Bool
is_input p = elim p.kind [ data_packet ↦ true | close ↦ true | _ ↦ false ]

-- One round of the loop of `read`.
on_input : Io Bytes → ℕ → Packet → PacketKind → Io Bytes
unfolding drain
on_input again size p data_packet = do
  handle_data_packet p
  λ s. if has_pending s then drain size s else again s
on_input again size p close = pure []
on_input again size p _ = again

pub read_loop : ℕ → ℕ → Io Bytes
unfolding on_input
read_loop zero size = fail out_of_fuel
read_loop (suc fuel) size = do
  p ← recv_session_packet is_input
  on_input (read_loop fuel size) size p p.kind

-- `read` into a buffer of `size` bytes: the bytes it puts there.
unfoldable pub read : ℕ → Io Bytes
unfolding read_loop remaining
read size s =
    let rest = read_loop (suc (remaining s.source)) size s in
    if has_pending s then drain size s else rest
