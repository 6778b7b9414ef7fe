-- ===== src/Relay/Rendezvous.antt =====
-- The UDP rendezvous: `handle_udp_rendezvous_message` and its loop, services/relay/src/lib.rs.
-- The datagrams that are sent are listed in the order of sending, with what becomes of each send.
-- `parse_message` (serde_json), `SocketAddr::to_string` and what tokens are made with are
-- parameters, and the time is an argument; the tracing output is left out.
use medium.Common.{
  ℕ, Bool, true, false, not, List, [], ◌∷◌, ◌++◌, Option, none, some, Bytes, bytes_eq,
  if◌then◌else◌, Result, ok, err,
}
use medium.SessionToken.{SessionTokenClaims, Crypto, TokenError, verify_session_token}
use medium.UdpSession.Stream.{SocketAddr}
use medium.UdpSession.Handshake.{Message, node, client, registered, peer_at, punch}

pub data RendezvousError : Type 0 where
  not_a_message no_shared_secret node_authentication_failed : RendezvousError
  token_refused node_mismatch not_registered send_failed : RendezvousError

abbrev pub Nodes : Type 0
Nodes = List (Bytes × SocketAddr)

-- `sends` says whether each of the next sends succeeds; all after them do.
pub record Rendezvous : Type 0 where
  pub nodes : Nodes
  pub outgoing : List (SocketAddr × Message)
  pub sends : List Bool

-- A datagram that is received, and when.
pub record Datagram : Type 0 where
  pub now : ℕ
  pub payload : Bytes
  pub peer_addr : SocketAddr

-- `HashMap::get`.
unfoldable pub node_addr : Bytes → Nodes → Option SocketAddr
node_addr node_id [] = none
node_addr node_id ((k, a) ∷ nodes) = if bytes_eq k node_id then some a else node_addr node_id nodes

-- `HashMap::insert`.
unfoldable pub insert_node : Bytes → SocketAddr → Nodes → Nodes
insert_node node_id a nodes = (node_id, a) ∷ nodes

abbrev pub Outcome : Type 0
Outcome = Result RendezvousError (Unit {0}) × Rendezvous

abbrev pub transmit : SocketAddr → Message → List Bool → Rendezvous → Outcome
transmit a m [] s = (ok tt, record s { outgoing = s.outgoing ++ (a, m) ∷ [] })
transmit a m (true ∷ sends) s =
    (ok tt, record s { outgoing = s.outgoing ++ (a, m) ∷ []; sends = sends })
transmit a m (false ∷ sends) s = (err send_failed, record s { sends = sends })

unfoldable pub send_udp_message : SocketAddr → Message → Rendezvous → Outcome
send_udp_message a m s = transmit a m s.sends s

abbrev pub then_send : Outcome → (Rendezvous → Outcome) → Outcome
then_send (ok _, s) f = f s
then_send (err e, s) f = (err e, s)

module _ (parse_message : Bytes → Option Message) (to_string : SocketAddr → Bytes)
    (crypto : Crypto) where
  unfoldable pub on_node : Bytes → Bytes → SocketAddr → Option Bytes → Rendezvous → Outcome
  on_node node_id provided peer_addr none s = (err no_shared_secret, s)
  on_node node_id provided peer_addr (some expected) s =
      if not (bytes_eq expected provided)
      then (err node_authentication_failed, s)
      else send_udp_message peer_addr (registered (to_string peer_addr))
          (record s { nodes = insert_node node_id peer_addr s.nodes })

  abbrev pub introduce : SocketAddr → Option SocketAddr → Rendezvous → Outcome
  introduce peer_addr none s = (err not_registered, s)
  introduce peer_addr (some a) s =
      then_send (send_udp_message peer_addr (peer_at (to_string a)) s)
        (send_udp_message a (peer_at (to_string peer_addr)))

  abbrev pub on_claims :
      Bytes → SocketAddr → Result TokenError SessionTokenClaims → Rendezvous → Outcome
  on_claims node_id peer_addr (err e) s = (err token_refused, s)
  on_claims node_id peer_addr (ok claims) s =
      if not (bytes_eq claims.node_id node_id)
      then (err node_mismatch, s)
      else introduce peer_addr (node_addr node_id s.nodes) s

  unfoldable pub on_client : ℕ → Bytes → Bytes → SocketAddr → Option Bytes → Rendezvous → Outcome
  on_client now node_id token peer_addr none s = (err no_shared_secret, s)
  on_client now node_id token peer_addr (some expected) s =
      on_claims node_id peer_addr (verify_session_token crypto now expected token) s

  unfoldable pub on_message : ℕ → Option Message → SocketAddr → Option Bytes → Rendezvous → Outcome
  on_message now none peer_addr shared_secret s = (err not_a_message, s)
  on_message now (some (node node_id provided)) peer_addr shared_secret s =
      on_node node_id provided peer_addr shared_secret s
  on_message now (some (client node_id token)) peer_addr shared_secret s =
      on_client now node_id token peer_addr shared_secret s
  on_message now (some (registered a)) peer_addr shared_secret s = (ok tt, s)
  on_message now (some (peer_at a)) peer_addr shared_secret s = (ok tt, s)
  on_message now (some punch) peer_addr shared_secret s = (ok tt, s)

  unfoldable pub handle_udp_rendezvous_message :
      ℕ → Bytes → SocketAddr → Option Bytes → Rendezvous → Outcome
  handle_udp_rendezvous_message now payload peer_addr shared_secret s =
      on_message now (parse_message payload) peer_addr shared_secret s

  -- The loop of `run_udp_rendezvous_with_shutdown`, which only reports the errors.
  unfoldable pub run_udp_rendezvous : List Datagram → Option Bytes → Rendezvous → Rendezvous
  run_udp_rendezvous [] shared_secret s = s
  run_udp_rendezvous (d ∷ received) shared_secret s =
      run_udp_rendezvous received shared_secret
        (handle_udp_rendezvous_message d.now d.payload d.peer_addr shared_secret s).1
