-- ===== src/UdpSession/Stream/Wire.antt =====
-- A packet's number is a `u64`: it was read from eight bytes.
use medium.Common.{
  ◌^◌, ◌<◌, ◌≡◌, refl, subst, inl, inr, Bool, List, [], ◌∷◌, ◌++◌, IsByte, Option, none, some,
  Bool-cases, All, All-append, Result, ok, err,
}
use medium.UdpSession.Packet.{Packet, PacketError, decode_packet}
use medium.UdpSession.Packet.Codec.{decode-seq}
use medium.UdpSession.Stream.{
  SocketAddr, addr_eq, IoError, Received, datagram, fault, Source, socket, inbox, Stream,
  recv_socket, take_matching, on_decoded, put_back, taken_or, recv_matching, recv_source,
  recv_session_packet,
}

abbrev pub Fits : Packet → Type 0
Fits p = p.seq < 2 ^ 64

abbrev IsDatagram : Received → Type 0
IsDatagram (datagram bytes a) = All IsByte bytes
IsDatagram (fault f) = Unit

-- Datagrams are bytes, and the numbers of the packets of an inbox fit.
abbrev pub IsWire : Source → Type 0
IsWire (socket rs) = All IsDatagram rs
IsWire (inbox ps later) = All Fits ps × All (All Fits) later

-- What a receive call returns, and what it leaves.
abbrev pub Gets : Result IoError Packet × Source → Type 0
Gets (ok p, left) = Fits p × IsWire left
Gets (err e, left) = IsWire left

on_decoded-Gets :
    (w : Packet → Bool) (r : Result PacketError Packet) (rs : List Received)
    (rest : Result IoError Packet × List Received)
    → All IsDatagram rs
    → ((p : Packet) → r ≡ ok p → Fits p)
    → Gets (rest.0, socket rest.1)
    → Gets ((on_decoded w r rs rest).0, socket (on_decoded w r rs rest).1)
on_decoded-Gets w (err e) rs rest h fits k = h
on_decoded-Gets w (ok p) rs rest h fits k = elim (Bool-cases (w p)) [
  | inl e ↦ rw e (fits p refl, h)
  | inr e ↦ rw e k
]

-- What `take_matching` finds, and what it leaves.
abbrev Found : Option (Packet × List Packet) → Type 0
Found none = Unit
Found (some (p, rest)) = Fits p × All Fits rest

put_back-Found :
    (q : Packet) (o : Option (Packet × List Packet)) → Fits q → Found o → Found (put_back q o)
put_back-Found q none h k = tt
put_back-Found q (some (p, rest)) h k = (k.0, (h, k.1))

taken_or-Gets :
    (o : Option (Packet × List Packet)) (later : List (List Packet))
    (instead : Result IoError Packet × Source)
    → Found o
    → All (All Fits) later
    → Gets instead
    → Gets (taken_or o later instead)
taken_or-Gets none later instead h k g = g
taken_or-Gets (some (p, rest)) later instead h k g = (h.0, (h.1, k))

recv_socket-Gets :
    (w : Packet → Bool) (a : SocketAddr) (rs : List Received)
    → All IsDatagram rs
    → Gets ((recv_socket w a rs).0, socket (recv_socket w a rs).1)
unfolding recv_socket
recv_socket-Gets w a [] h = tt
recv_socket-Gets w a (fault f ∷ rs) h = h.1
recv_socket-Gets w a (datagram bytes from ∷ rs) h = elim (Bool-cases (addr_eq from a)) [
  | inr e ↦ rw e (recv_socket-Gets w a rs h.1)
  | inl e ↦ rw e (
      on_decoded-Gets w (decode_packet bytes) rs (recv_socket w a rs) h.1
        (λ p q. decode-seq bytes h.0 q) (recv_socket-Gets w a rs h.1))
]

take_matching-Fits :
    (w : Packet → Bool) (ps : List Packet) → All Fits ps → Found (take_matching w ps)
unfolding take_matching
take_matching-Fits w [] h = tt
take_matching-Fits w (q ∷ ps) h = elim (Bool-cases (w q)) [
  | inl e ↦ rw e h
  | inr e ↦ rw e (put_back-Found q (take_matching w ps) h.0 (take_matching-Fits w ps h.1))
]

recv_source-Gets :
    (w : Packet → Bool) (a : SocketAddr) (src : Source) → IsWire src → Gets (recv_source w a src)
unfolding recv_source recv_matching
recv_source-Gets w a (socket rs) h = recv_socket-Gets w a rs h
recv_source-Gets w a (inbox ps []) h =
    taken_or-Gets (take_matching w ps) [] _ (take_matching-Fits w ps h.0) tt h
recv_source-Gets w a (inbox ps (b ∷ bs)) h =
    let both = All-append Fits ps b h.0 h.1.0 in
    taken_or-Gets (take_matching w ps) (b ∷ bs) _ (take_matching-Fits w ps h.0) h.1 (
      taken_or-Gets (take_matching w (ps ++ b)) bs _ (take_matching-Fits w (ps ++ b) both) h.1.1
        (both, h.1.1))

pub recv-Gets :
    (w : Packet → Bool) (s : Stream)
    → IsWire s.source
    → Gets ((recv_session_packet w s).0, (recv_session_packet w s).1.source)
unfolding recv_session_packet
recv-Gets w s h = recv_source-Gets w s.peer_addr s.source h

pub Gets-parts :
    (x : Result IoError Packet × Source)
    → Gets x
    → IsWire x.1 × ((p : Packet) → x.0 ≡ ok p → Fits p)
Gets-parts (ok p, left) h = (h.1, λ q e. let same : p ≡ q = cc in subst Fits same h.0)
Gets-parts (err e, left) h = (h, λ q e. cc)
