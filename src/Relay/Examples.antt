-- ===== src/Relay/Examples.antt =====
-- The theorems about the relay at concrete inputs, and tests of the definitions.
use medium.Common.{
  ℕ, zero, suc, ◌+◌, ◌≡◌, refl, List, [], ◌∷◌, arith, Bytes, bytes_eq, All, Option, none, some, ok,
}
use medium.UdpSession.Stream.{SocketAddr}
use medium.UdpSession.Handshake.{Message}
use medium.SessionToken.{minutes}
use medium.SessionToken.Examples.{toy, token, secret}
use medium.Relay.Rendezvous.{
  Rendezvous, Datagram, node_addr, run_udp_rendezvous, handle_udp_rendezvous_message,
}
use medium.Relay.Registrations.{
  last_registration, Sent, MaySend, handle_udp_rendezvous_message-Sent,
  run_udp_rendezvous-last_registration,
}
use medium.Relay.Waiting.{
  WaitingNode, WaitingNodes, Event, arrives, takes, push_waiting, Round, pop_fresh, select,
  wait_for_node_stream_with_ttl, relay_node_socket_ttl, wait_rounds,
}
use medium.Relay.Sockets.{Selected, select-Selected}
use medium.Relay.Waits.{AllWaiting, WaitedFor, Bring, wait_for_node_stream_with_ttl-WaitedFor}
use medium.Relay.Served.{IsServed, wait_for_node_stream_with_ttl-IsServed}
use medium.Relay.Connections.{
  RelayHello, binary, closing, ping, forward_wss, handle_connection, NodeOutcome,
  handle_connection-NodeOutcome,
}

abbrev home : SocketAddr
home = record { ip = 10 ∷ 0 ∷ 0 ∷ 9 ∷ []; port = 4000 }

abbrev phone : SocketAddr
phone = record { ip = 10 ∷ 0 ∷ 0 ∷ 7 ∷ []; port = 5000 }

abbrev idle : Rendezvous
idle = record { nodes = []; outgoing = []; sends = [] }

-- A datagram whose first byte says what it is.
abbrev parse : Bytes → Option Message
parse (suc zero ∷ provided) = some (Message.node (9 ∷ []) provided)
parse (suc (suc zero) ∷ rest) = some (Message.client (9 ∷ []) rest)
parse _ = none

abbrev show : SocketAddr → Bytes
show a = a.ip

abbrev registering : Datagram
registering = record { now = 0; payload = 1 ∷ secret; peer_addr = home }

abbrev asking : Datagram
asking = record { now = minutes 1; payload = 2 ∷ token; peer_addr = phone }

handle_udp_rendezvous_message-Sent_example :
    Sent
      (MaySend toy show (minutes 1) (some secret) ((9 ∷ [], home) ∷ []) phone (parse (2 ∷ token)))
      (record { nodes = (9 ∷ [], home) ∷ []; outgoing = []; sends = [] })
      (handle_udp_rendezvous_message parse show toy
        (minutes 1)
        (2 ∷ token)
        phone
        (some secret)
        (record { nodes = (9 ∷ [], home) ∷ []; outgoing = []; sends = [] })).1
handle_udp_rendezvous_message-Sent_example =
    handle_udp_rendezvous_message-Sent parse show toy asking (some secret)
      (record { nodes = (9 ∷ [], home) ∷ []; outgoing = []; sends = [] })

run_udp_rendezvous-last_registration_example :
    node_addr
      (9 ∷ [])
      (run_udp_rendezvous parse show toy (registering ∷ asking ∷ []) (some secret) idle).nodes
    ≡ last_registration parse
        (some secret)
        (9 ∷ [])
        (registering ∷ asking ∷ [])
        (node_addr (9 ∷ []) [])
run_udp_rendezvous-last_registration_example =
    run_udp_rendezvous-last_registration parse show toy (9 ∷ []) (registering ∷ asking ∷ [])
      (some secret) idle

-- A stream is here a number: what waits under the id 9 came at 0 and at 50 seconds.
abbrev waiting : WaitingNodes ℕ
waiting =
    (
      9 ∷ [],
      record { connected_at = 50000; stream = 2 } ∷ record { connected_at = 0; stream = 1 } ∷ [],
    )
    ∷ []

select_test : (select 60000 relay_node_socket_ttl (9 ∷ []) waiting).0 ≡ some 2
unfolding select pop_fresh bytes_eq
select_test = refl

select-Selected_example :
    Selected 60000 relay_node_socket_ttl
      (9 ∷ [])
      waiting
      (select 60000 relay_node_socket_ttl (9 ∷ []) waiting)
select-Selected_example = select-Selected 60000 relay_node_socket_ttl (9 ∷ []) waiting (tt, tt)

-- A node comes in the third round, and another client takes it; one more comes in the fourth round, and
-- another client takes a node of another id.
abbrev fresh : WaitingNode ℕ
fresh = record { connected_at = 70000; stream = 3 }

abbrev events : ℕ → List (Event ℕ)
events (suc (suc zero)) = arrives (9 ∷ []) fresh ∷ takes 70002 60000 (9 ∷ []) ∷ []
events (suc (suc (suc zero))) = arrives (9 ∷ []) fresh ∷ takes 70003 60000 (8 ∷ []) ∷ []
events _ = []

abbrev rounds : ℕ → Round ℕ
rounds i = record { now = 70000 + i; events = events i }

abbrev IsNode : Bytes → WaitingNode ℕ → Type 0
IsNode node_id w = node_id ≡ 9 ∷ []

events-IsNode : (j : ℕ) → All (Bring IsNode) (rounds j).events
events-IsNode (suc (suc zero)) = (refl, (tt, tt))
events-IsNode (suc (suc (suc zero))) = (refl, (tt, tt))
events-IsNode zero = tt
events-IsNode (suc zero) = tt
events-IsNode (suc (suc (suc (suc n)))) = tt

taken_test : (wait_for_node_stream_with_ttl 60000 rounds (9 ∷ []) []).0 ≡ ok 3
unfolding wait_for_node_stream_with_ttl wait_rounds select pop_fresh push_waiting bytes_eq
taken_test = refl

wait_for_node_stream_with_ttl-WaitedFor_example :
    WaitedFor IsNode 50 60000 rounds
      (9 ∷ [])
      (wait_for_node_stream_with_ttl 60000 rounds (9 ∷ []) waiting).0
    × AllWaiting IsNode (wait_for_node_stream_with_ttl 60000 rounds (9 ∷ []) waiting).1
wait_for_node_stream_with_ttl-WaitedFor_example =
    wait_for_node_stream_with_ttl-WaitedFor IsNode 60000 rounds (9 ∷ []) waiting events-IsNode
      ((refl, (refl, tt)), tt)

wait_for_node_stream_with_ttl-IsServed_example :
    IsServed (wait_for_node_stream_with_ttl 60000 rounds (9 ∷ []) [])
wait_for_node_stream_with_ttl-IsServed_example =
    wait_for_node_stream_with_ttl-IsServed 3 60000 rounds (9 ∷ []) fresh [] (omega arith)
      ([], takes 70003 60000 (8 ∷ []) ∷ [], refl, (λ e. cc, tt)) (omega arith)

handle_connection-NodeOutcome_example :
    NodeOutcome 70000 3 (some secret) (9 ∷ []) secret waiting (
      handle_connection (ok (RelayHello.node (9 ∷ []) secret)) 70000 3 rounds (some secret) waiting)
handle_connection-NodeOutcome_example =
    handle_connection-NodeOutcome (9 ∷ []) secret 70000 3 rounds (some secret) waiting

forward_test :
    (forward_wss
      (some (binary (1 ∷ [])) ∷ some ping ∷ some (closing none) ∷ some (binary []) ∷ [])).0
    ≡ binary (1 ∷ []) ∷ closing none ∷ []
unfolding forward_wss
forward_test = refl
