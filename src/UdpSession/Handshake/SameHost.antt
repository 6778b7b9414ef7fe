-- ===== src/UdpSession/Handshake/SameHost.antt =====
-- `connect` deals with one host, whatever the network sends it.
use medium.Common.{
  ℕ, ◌≡◌, refl, inl, inr, true, List, [], ◌∷◌, arith, Bytes, bytes_eq_iff, Bool-cases, Option, any,
  All, All-append, ltb, Result, ok, err,
}
use medium.UdpSession.Packet.{Packet, decode_packet}
use medium.UdpSession.Stream.{SocketAddr, Received, datagram, fault, is_timeout, fault_error}
use medium.UdpSession.Handshake.{
  Message, same_ip, is_handshake_ack_from_peer, record_peer_reflexive_candidate, to_option, Round,
  ConnectError, on_received, next_round, connect_loop,
}

abbrev pub IsHost : Bytes → SocketAddr → Type 0
IsHost ip a = a.ip ≡ ip

any-IsHost :
    (ip : Bytes) (a : SocketAddr) (addrs : List SocketAddr)
    → All (IsHost ip) addrs
    → any (same_ip a) addrs ≡ true
    → IsHost ip a
any-IsHost ip a [] h e = cc
any-IsHost ip a (b ∷ addrs) h e = ground (arith, bytes_eq_iff a.ip b.ip, any-IsHost ip a addrs h.1)

-- The result is an address of the host, if it is one.
abbrev OfHost : Bytes → Result ConnectError SocketAddr → Type 0
OfHost ip (ok a) = IsHost ip a
OfHost ip (err e) = Unit

abbrev Next : Bytes → Result (Result ConnectError SocketAddr) (List SocketAddr) → Type 0
Next ip (ok addrs) = All (IsHost ip) addrs
Next ip (err r) = OfHost ip r

module _ (parse_message : Bytes → Option Message) (ip : Bytes) where
  candidate-IsHost :
      (addrs : List SocketAddr) (a : SocketAddr) (m : Option Message)
      → All (IsHost ip) addrs
      → All (IsHost ip) (record_peer_reflexive_candidate addrs a m).1
  unfolding record_peer_reflexive_candidate
  candidate-IsHost addrs a m h =
      ground (arith, any-IsHost ip a addrs h, All-append (IsHost ip) addrs (a ∷ []) h)

  ack-IsHost :
      (addrs : List SocketAddr) (a : SocketAddr) (p : Option Packet)
      → All (IsHost ip) addrs
      → is_handshake_ack_from_peer addrs a p ≡ true
      → IsHost ip a
  unfolding is_handshake_ack_from_peer
  ack-IsHost addrs a p h e = ground (arith, any-IsHost ip a addrs h)

  on_received-Next :
      (addrs : List SocketAddr) (r : Received)
      → All (IsHost ip) addrs
      → Next ip (on_received parse_message addrs r)
  unfolding on_received
  on_received-Next addrs (fault f) h = elim (Bool-cases (is_timeout (fault_error f))) [
    | inl e ↦ rw e h
    | inr e ↦ rw e tt
  ]
  on_received-Next addrs (datagram bytes a) h =
      elim (Bool-cases (is_handshake_ack_from_peer addrs a (to_option (decode_packet bytes)))) [
        | inl e ↦ rw e (ack-IsHost addrs a (to_option (decode_packet bytes)) h e)
        | inr e ↦ rw e (candidate-IsHost addrs a (parse_message bytes) h)
      ]

  next_round-OfHost :
      (x : Result (Result ConnectError SocketAddr) (List SocketAddr))
      (again : List SocketAddr → Result ConnectError SocketAddr)
      → ((addrs : List SocketAddr) → All (IsHost ip) addrs → OfHost ip (again addrs))
      → Next ip x
      → OfHost ip (next_round x again)
  next_round-OfHost (ok addrs) again f h = f addrs h
  next_round-OfHost (err r) again f h = h

  connect_loop-OfHost :
      (deadline : ℕ) (rounds : List Round) (addrs : List SocketAddr)
      → All (IsHost ip) addrs
      → OfHost ip (connect_loop parse_message deadline rounds addrs)
  unfolding connect_loop
  connect_loop-OfHost deadline [] addrs h = tt
  connect_loop-OfHost deadline (r ∷ rounds) addrs h = elim (Bool-cases (ltb r.now deadline)) [
    | inr late ↦ rw late tt
    | inl early ↦ elim (Bool-cases r.sends) [
      | inr fails ↦ rw (early, fails) tt
      | inl sends ↦
          rw (early, sends)
            (next_round-OfHost (on_received parse_message addrs r.received)
              (connect_loop parse_message deadline rounds) (connect_loop-OfHost deadline rounds)
              (on_received-Next addrs r.received h))
    ]
  ]

-- Whatever packets come, from wherever: if `connect` makes a stream, it is for an address of the
-- host that it was asked to connect to.
pub connect_stays_on_host :
    (parse_message : Bytes → Option Message) (deadline : ℕ) (rounds : List Round)
    (peer_addr a : SocketAddr)
    → connect_loop parse_message deadline rounds (peer_addr ∷ []) ≡ ok a
    → a.ip ≡ peer_addr.ip
connect_stays_on_host parse_message deadline rounds peer_addr a e =
    rw e at
      (connect_loop-OfHost parse_message peer_addr.ip deadline rounds (peer_addr ∷ []) (refl, tt))
