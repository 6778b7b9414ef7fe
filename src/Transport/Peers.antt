-- ===== src/Transport/Peers.antt =====
-- The peers of the rendezvous: `resolve_peer`, `handle_listener_message` and the packets that open the
-- way, in crates/overlay-transport/src/udp_rendezvous.rs. `parse_message` (serde_json) and the parser of
-- addresses are parameters.
use medium.Common.{
  ℕ, zero, suc, Bool, true, false, List, [], ◌∷◌, ◌++◌, Option, none, some, Bytes, bytes_eq, ◌&&◌,
  ◌==◌, if◌then◌else◌, Result, ok, err,
}
use medium.UdpSession.Stream.{SocketAddr}
use medium.UdpSession.Handshake.{Message, node, client, registered, peer_at, punch}

pub data PeerError : Type 0 where
  not_a_message not_an_address send_failed receive_failed resolve_timed_out : PeerError

-- What was sent, and whether each of the next sends succeeds; all after them do.
pub record Socket : Type 0 where
  pub outgoing : List (SocketAddr × Message)
  pub sends : List Bool

pub data WasReceived : Type 0 where
  received_from : SocketAddr → Bytes → WasReceived
  timed_out broken : WasReceived

abbrev pub sent_by :
    SocketAddr → Message → List Bool → Socket → Result PeerError (Unit {0}) × Socket
sent_by a m [] s = (ok tt, record s { outgoing = s.outgoing ++ (a, m) ∷ [] })
sent_by a m (true ∷ sends) s =
    (ok tt, record { outgoing = s.outgoing ++ (a, m) ∷ []; sends = sends })
sent_by a m (false ∷ sends) s = (err send_failed, record s { sends = sends })

unfoldable pub send_message_to :
    SocketAddr → Message → Socket → Result PeerError (Unit {0}) × Socket
send_message_to a m s = sent_by a m s.sends s

unfoldable pub send_node_register :
    SocketAddr → Bytes → Bytes → Socket → Result PeerError (Unit {0}) × Socket
send_node_register relay_addr node_id shared_secret s =
    send_message_to relay_addr (node node_id shared_secret) s

abbrev pub and_then :
    {A : Type 0}
    → Result PeerError (Unit {0}) × Socket
    → (Socket → Result PeerError A × Socket)
    → Result PeerError A × Socket
and_then (ok _, s) f = f s
and_then (err e, s) f = (err e, s)

-- So many packets, one after the other.
unfoldable pub punch_times : ℕ → SocketAddr → Socket → Result PeerError (Unit {0}) × Socket
punch_times zero peer_addr s = (ok tt, s)
punch_times (suc n) peer_addr s =
    and_then (send_message_to peer_addr punch s) (punch_times n peer_addr)

abbrev pub punch_burst_packets : ℕ
punch_burst_packets = 5

unfoldable pub send_punch_burst : SocketAddr → Socket → Result PeerError (Unit {0}) × Socket
send_punch_burst peer_addr s = punch_times punch_burst_packets peer_addr s

abbrev pub same_addr : SocketAddr → SocketAddr → Bool
same_addr a b = bytes_eq a.ip b.ip && a.port == b.port

module _ (parse_message : Bytes → Option Message) (parse_addr : Bytes → Option SocketAddr) where
  abbrev pub punched : Option SocketAddr → Socket → Result PeerError (Option SocketAddr) × Socket
  punched none s = (err not_an_address, s)
  punched (some peer_addr) s =
      and_then (send_punch_burst peer_addr s) (λ s. (ok (some peer_addr), s))

  abbrev pub on_listener_message :
      Option Message → Socket → Result PeerError (Option SocketAddr) × Socket
  on_listener_message none s = (err not_a_message, s)
  on_listener_message (some (peer_at addr)) s = punched (parse_addr addr) s
  on_listener_message (some punch) s = (ok none, s)
  on_listener_message (some (registered addr)) s = (ok none, s)
  on_listener_message (some (node node_id secret)) s = (ok none, s)
  on_listener_message (some (client node_id token)) s = (ok none, s)

  unfoldable pub handle_listener_message :
      Bytes → Socket → Result PeerError (Option SocketAddr) × Socket
  handle_listener_message payload s = on_listener_message (parse_message payload) s

  -- A round of the loop gave a peer, an error, or nothing.
  abbrev pub found_or :
      Result PeerError (Option SocketAddr) × Socket
      → (Socket → Result PeerError SocketAddr × Socket)
      → Result PeerError SocketAddr × Socket
  found_or (ok (some peer_addr), s) again = (ok peer_addr, s)
  found_or (ok none, s) again = again s
  found_or (err e, s) again = (err e, s)

  abbrev pub on_received :
      SocketAddr → WasReceived → Socket → Result PeerError (Option SocketAddr) × Socket
  on_received relay_addr (received_from addr payload) s =
      if same_addr addr relay_addr then handle_listener_message payload s else (ok none, s)
  on_received relay_addr timed_out s = (ok none, s)
  on_received relay_addr broken s = (err receive_failed, s)

  -- So many rounds; when the list of what is received ends, the reads time out.
  unfoldable pub resolve_rounds :
      ℕ → SocketAddr → List WasReceived → Socket → Result PeerError SocketAddr × Socket
  resolve_rounds zero relay_addr rs s = (err resolve_timed_out, s)
  resolve_rounds (suc n) relay_addr [] s = (err resolve_timed_out, s)
  resolve_rounds (suc n) relay_addr (r ∷ rs) s =
      found_or (on_received relay_addr r s) (resolve_rounds n relay_addr rs)

  unfoldable pub resolve_peer :
      SocketAddr → Bytes → Bytes → List WasReceived → Socket → Result PeerError SocketAddr × Socket
  resolve_peer relay_addr node_id token rs s =
      and_then (send_message_to relay_addr (client node_id token) s)
        (resolve_rounds 5 relay_addr rs)
