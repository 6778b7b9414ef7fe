-- ===== src/Relay/Connections.antt =====
-- The connections of the relay: `handle_connection`, `handle_wss_connection`, the greeting of a
-- WebSocket and the forwarding between two of them, services/relay/src/lib.rs.
-- `read_relay_hello` and serde_json are parameters. What a socket gives is a list of messages and
-- errors; that a socket ends is the end of the list.
use medium.Common.{
  ℕ, Bool, true, false, not, List, [], ◌∷◌, Option, none, some, Bytes, bytes_eq, if◌then◌else◌,
  Result, ok, err, ◌≡◌, refl, inl, inr, Bool-cases, bytes_eq_iff, bytes_eq_refl, ◌≢◌, arith,
}
use medium.Relay.Waiting.{
  RelayError, no_shared_secret, node_authentication_failed, invalid_hello, websocket_failed,
  websocket_closed, missing_hello, WaitingNodes, WaitingNode, waiting_for, push_waiting, Round,
  wait_for_node_stream_with_ttl, wait_for_node_websocket, relay_node_socket_ttl,
}

pub data RelayHello : Type 0 where
  node : Bytes → Bytes → RelayHello
  client : Bytes → RelayHello

-- What a connection comes to: a node waits, or a client is joined with a node.
pub data Connected (S : Type 0) : Type 0 where
  waits : Connected S
  joined : S → Connected S

module _ {S : Type 0} where
  abbrev pub connected :
      Result RelayError S × WaitingNodes S → Result RelayError (Connected S) × WaitingNodes S
  connected (ok s, m) = (ok (joined s), m)
  connected (err e, m) = (err e, m)

  unfoldable pub register_node :
      ℕ
      → S
      → Option Bytes
      → Bytes
      → Bytes
      → WaitingNodes S
      → Result RelayError (Connected S) × WaitingNodes S
  register_node now stream none node_id provided m = (err no_shared_secret, m)
  register_node now stream (some expected) node_id provided m =
      if not (bytes_eq expected provided)
      then (err node_authentication_failed, m)
      else (ok waits, push_waiting node_id (record { connected_at = now; stream = stream }) m)

  unfoldable pub handle_connection :
      Result RelayError RelayHello
      → ℕ
      → S
      → (ℕ → Round S)
      → Option Bytes
      → WaitingNodes S
      → Result RelayError (Connected S) × WaitingNodes S
  handle_connection (err e) now stream rounds shared_secret m = (err e, m)
  handle_connection (ok (node node_id provided)) now stream rounds shared_secret m =
      register_node now stream shared_secret node_id provided m
  handle_connection (ok (client node_id)) now stream rounds shared_secret m =
      connected (wait_for_node_stream_with_ttl relay_node_socket_ttl rounds node_id m)

pub data WsMessage : Type 0 where
  text binary : Bytes → WsMessage
  ping pong : WsMessage
  closing : Option Bytes → WsMessage

-- The messages that a WebSocket gives, or that it failed.
abbrev pub Receives : Type 0
Receives = List (Option WsMessage)

abbrev pub parsed_hello : Option RelayHello → Result RelayError RelayHello
parsed_hello none = err invalid_hello
parsed_hello (some h) = ok h

unfoldable pub read_wss_relay_hello :
    (Bytes → Option RelayHello) → Receives → Result RelayError RelayHello × Receives
read_wss_relay_hello from_str [] = (err missing_hello, [])
read_wss_relay_hello from_str (none ∷ ms) = (err websocket_failed, ms)
read_wss_relay_hello from_str (some (text payload) ∷ ms) = (parsed_hello (from_str payload), ms)
read_wss_relay_hello from_str (some (closing frame) ∷ ms) = (err websocket_closed, ms)
read_wss_relay_hello from_str (some _ ∷ ms) = read_wss_relay_hello from_str ms

module _ {S : Type 0} where
  unfoldable pub handle_wss_connection :
      Result RelayError RelayHello
      → ℕ
      → S
      → (ℕ → Round S)
      → Option Bytes
      → WaitingNodes S
      → Result RelayError (Connected S) × WaitingNodes S
  handle_wss_connection (err e) now socket rounds shared_secret m = (err e, m)
  handle_wss_connection (ok (node node_id provided)) now socket rounds shared_secret m =
      register_node now socket shared_secret node_id provided m
  handle_wss_connection (ok (client node_id)) now socket rounds shared_secret m =
      connected (wait_for_node_websocket rounds node_id m)

-- One direction of `forward_wss_bidirectional`, as long as the other side takes what is sent to it:
-- the messages that are sent, and whether the direction ended without an error.
unfoldable pub forward_wss : Receives → List WsMessage × Bool
forward_wss [] = ([], true)
forward_wss (none ∷ ms) = ([], false)
forward_wss (some (binary payload) ∷ ms) =
    let rest = forward_wss ms in (binary payload ∷ rest.0, rest.1)
forward_wss (some (closing frame) ∷ ms) = (closing frame ∷ [], true)
forward_wss (some _ ∷ ms) = forward_wss ms

-- The two ways into the relay, by TCP and by WebSocket, treat the same greeting alike.
pub handle_wss_connection-handle_connection :
    {S : Type 0} (hello : Result RelayError RelayHello) (now : ℕ) (stream : S)
    (rounds : ℕ → Round S) (shared_secret : Option Bytes) (m : WaitingNodes S)
    → handle_wss_connection hello now stream rounds shared_secret m
      ≡ handle_connection hello now stream rounds shared_secret m
unfolding handle_wss_connection handle_connection wait_for_node_websocket
    wait_for_node_stream_with_ttl
handle_wss_connection-handle_connection (err e) now stream rounds shared_secret m = refl
handle_wss_connection-handle_connection (ok (node node_id provided)) now stream rounds shared_secret
      m =
    refl
handle_wss_connection-handle_connection (ok (client node_id)) now stream rounds shared_secret m =
    refl

push_waiting-waiting_for :
    {S : Type 0} (node_id : Bytes) (w : WaitingNode S) (m : WaitingNodes S)
    → waiting_for node_id (push_waiting node_id w m) ≡ w ∷ waiting_for node_id m
unfolding waiting_for push_waiting
push_waiting-waiting_for node_id w [] = rw (bytes_eq_refl node_id) refl
push_waiting-waiting_for node_id w ((k, ws) ∷ m) = elim (Bool-cases (bytes_eq k node_id)) [
  | inl same ↦ rw same (rw same refl)
  | inr other ↦ rw other (rw other (push_waiting-waiting_for node_id w m))
]

push_waiting-others :
    {S : Type 0} (node_id other : Bytes) (w : WaitingNode S) (m : WaitingNodes S)
    → node_id ≢ other
    → waiting_for other (push_waiting node_id w m) ≡ waiting_for other m
unfolding waiting_for push_waiting
push_waiting-others node_id other w [] h =
    let off : bytes_eq node_id other ≡ false = ground (arith, bytes_eq_iff node_id other) in
    rw off refl
push_waiting-others node_id other w ((k, ws) ∷ m) h = elim (Bool-cases (bytes_eq k node_id)) [
  | inl same ↦
      let e : k ≡ node_id = (bytes_eq_iff k node_id).0 same in
      let off : bytes_eq k other ≡ false = rw e (ground (arith, bytes_eq_iff node_id other)) in
      rw same (rw off refl)
  | inr different ↦ rw different (elim (Bool-cases (bytes_eq k other)) [
    | inl here ↦ rw here refl
    | inr there ↦ rw there (push_waiting-others node_id other w m h)
  ])
]

-- A connection comes to wait as a node only with the shared secret, as the newest under its id, and
-- what waits under other ids stays; without the secret nothing changes.
abbrev pub NodeOutcome :
    {S : Type 0}
    → ℕ
    → S
    → Option Bytes
    → Bytes
    → Bytes
    → WaitingNodes S
    → Result RelayError (Connected S) × WaitingNodes S
    → Type 0
NodeOutcome now stream secret node_id provided m (ok c, after) =
    (secret ≡ some provided)
    × (c ≡ waits)
    × (waiting_for node_id after
        ≡ record { connected_at = now; stream = stream } ∷ waiting_for node_id m)
    × ((other : Bytes) → node_id ≢ other → waiting_for other after ≡ waiting_for other m)
NodeOutcome now stream secret node_id provided m (err e, after) =
    (secret ≢ some provided) × (after ≡ m)

-- A connection that greets the relay as a node, and sent the shared secret that is set, is the newest
-- that waits under its id, from then on and with its stream, before those that waited there, and what waits
-- under other ids is as it was. Any other secret, or that none is set, is refused, and the nodes that wait
-- are as they were.
pub handle_connection-NodeOutcome :
    {S : Type 0} (node_id provided : Bytes) (now : ℕ) (stream : S) (rounds : ℕ → Round S)
    (shared_secret : Option Bytes) (m : WaitingNodes S)
    → NodeOutcome now stream shared_secret node_id provided m
        (handle_connection (ok (node node_id provided)) now stream rounds shared_secret m)
unfolding handle_connection register_node
handle_connection-NodeOutcome node_id provided now stream rounds none m = (λ e. cc, refl)
handle_connection-NodeOutcome node_id provided now stream rounds (some known) m =
    elim (Bool-cases (bytes_eq known provided)) [
      | inl same ↦
          let e = (bytes_eq_iff known provided).0 same in
          rw same (
            rw e refl,
            refl,
            push_waiting-waiting_for node_id _ m,
            λ other h. push_waiting-others node_id other _ m h,
          )
      | inr other ↦ rw other (λ e. ground (arith, bytes_eq_iff known provided), refl)
    ]
