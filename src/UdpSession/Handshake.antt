-- ===== src/UdpSession/Handshake.antt =====
-- The handshakes of crates/overlay-transport/src/udp_session.rs: the listener's memory of them
-- (`is_duplicate_handshake`), and `UdpSessionStream::connect` up to the stream that it makes.
-- Instants are nanoseconds.
pub mod Duplicates
pub mod Memory
pub mod SameHost
use medium.Common.{
  ℕ, ◌-◌, ◌+◌, Bool, true, false, not, ◌&&◌, ◌||◌, List, [], ◌∷◌, ◌++◌, Bytes, bytes_eq, Option,
  none, some, length, any, ltb, ◌==◌, if◌then◌else◌, Result, ok, err,
}
use medium.UdpSession.Packet.{
  Packet, PacketKind, PacketError, hello_ack, encode_packet, decode_packet,
}
use medium.UdpSession.Stream.{
  SocketAddr, addr_eq, Fault, fault_error, IoError, Received, datagram, fault, is_timeout,
  bad_packet, send_failed,
}

pub record HandshakeKey : Type 0 where
  pub peer_addr : SocketAddr
  pub token : Bytes
  pub service_id : Bytes

unfoldable pub key_eq : HandshakeKey → HandshakeKey → Bool
unfolding addr_eq bytes_eq
key_eq a b =
    addr_eq a.peer_addr b.peer_addr
    && (bytes_eq a.token b.token && bytes_eq a.service_id b.service_id)

abbrev pub Recent : Type 0
Recent = List (HandshakeKey × ℕ)

abbrev pub duplicate_window : ℕ
duplicate_window = 30_000_000_000

abbrev pub max_recent : ℕ
max_recent = 256

-- The first `while`; `duration_since` stops at zero.
unfoldable pub drop_expired : ℕ → Recent → Recent
drop_expired now [] = []
drop_expired now ((key, seen_at) ∷ rest) =
    let later = drop_expired now rest in
    if ltb duplicate_window (now - seen_at) then later else (key, seen_at) ∷ rest

-- The last `while`.
unfoldable pub trim : Recent → Recent
trim [] = []
trim (x ∷ rest) =
    let later = trim rest in if ltb max_recent (length (x ∷ rest)) then later else x ∷ rest

unfoldable pub is_duplicate_handshake : Recent → HandshakeKey → ℕ → Bool × Recent
unfolding drop_expired trim
is_duplicate_handshake recent key now =
    let kept = drop_expired now recent in
    if any (λ e. key_eq e.0 key) kept then (true, kept) else (false, trim (kept ++ (key, now) ∷ []))

-- `udp_rendezvous::UdpRendezvousMessage`.
pub data Message : Type 0 where
  node : Bytes → Bytes → Message
  client : Bytes → Bytes → Message
  registered : Bytes → Message
  peer_at : Bytes → Message
  punch : Message

abbrev pub same_ip : SocketAddr → SocketAddr → Bool
same_ip a b = bytes_eq a.ip b.ip

-- The `matches!` on the packet.
abbrev is_hello_ack : Option Packet → Bool
is_hello_ack none = false
is_hello_ack (some p) = elim p.kind [ hello_ack ↦ p.seq == 0 | _ ↦ false ]

unfoldable pub is_handshake_ack_from_peer : List SocketAddr → SocketAddr → Option Packet → Bool
is_handshake_ack_from_peer peer_addrs addr response =
    if not (any (same_ip addr) peer_addrs) then false else is_hello_ack response

abbrev is_punch : Option Message → Bool
is_punch (some punch) = true
is_punch _ = false

unfoldable pub record_peer_reflexive_candidate :
    List SocketAddr → SocketAddr → Option Message → Bool × List SocketAddr
record_peer_reflexive_candidate peer_addrs addr message =
    if not (any (same_ip addr) peer_addrs) || any (addr_eq addr) peer_addrs
    then (false, peer_addrs)
    else if not (is_punch message)
    then (false, peer_addrs)
    else (true, peer_addrs ++ addr ∷ [])

abbrev to_option : Result PacketError Packet → Option Packet
to_option (ok p) = some p
to_option (err e) = none

-- One round of the loop of `connect`: the clock at its test, whether the burst is sent, and what
-- `recv_from` returns.
pub record Round : Type 0 where
  pub now : ℕ
  pub sends : Bool
  pub received : Received

pub data ConnectError : Type 0 where
  io : IoError → ConnectError
  handshake_timed_out : List SocketAddr → ConnectError

abbrev next_round :
    Result (Result ConnectError SocketAddr) (List SocketAddr)
    → (List SocketAddr → Result ConnectError SocketAddr)
    → Result ConnectError SocketAddr
next_round (ok peer_addrs) again = again peer_addrs
next_round (err result) again = result

-- `parse_message`, which is JSON of a crate.
module _ (parse_message : Bytes → Option Message) where
  -- The `match` on what `recv_from` returns. The peers of the next round, or the loop's result.
  on_received :
      List SocketAddr → Received → Result (Result ConnectError SocketAddr) (List SocketAddr)
  unfolding is_handshake_ack_from_peer record_peer_reflexive_candidate
  on_received peer_addrs (datagram bytes addr) =
      if is_handshake_ack_from_peer peer_addrs addr (to_option (decode_packet bytes))
      then err (ok addr)
      else ok (record_peer_reflexive_candidate peer_addrs addr (parse_message bytes)).1
  on_received peer_addrs (fault f) =
      if is_timeout (fault_error f) then ok peer_addrs else err (err (io (fault_error f)))

  -- `connect`: the address that the stream is made for. Behind the last round the clock has passed
  -- the deadline.
  unfoldable pub connect_loop : ℕ → List Round → List SocketAddr → Result ConnectError SocketAddr
  unfolding on_received
  connect_loop deadline [] peer_addrs = err (handshake_timed_out peer_addrs)
  connect_loop deadline (r ∷ rounds) peer_addrs =
      let sent = next_round (on_received peer_addrs r.received) (connect_loop deadline rounds) in
      if ltb r.now deadline
      then (if r.sends then sent else err (io send_failed))
      else err (handshake_timed_out peer_addrs)
