-- ===== src/Relay/Waiting.antt =====
-- The nodes that wait for a client: `WaitingNodes`, `wait_for_node_stream_with_ttl` and
-- `wait_for_node_websocket` of services/relay/src/lib.rs, for any kind of stream.
-- Times are in milliseconds. The end of a `Vec` is the head of the list; no time passes while the
-- lock is held.
use medium.Common.{
  ℕ, zero, suc, ◌-◌, List, [], ◌∷◌, Option, none, some, Bytes, bytes_eq, leb, if◌then◌else◌, Result,
  ok, err,
}

pub data RelayError : Type 0 where
  no_shared_secret node_authentication_failed no_node_connection : RelayError
  invalid_hello websocket_failed websocket_closed missing_hello : RelayError

abbrev pub relay_node_socket_ttl : ℕ
relay_node_socket_ttl = 60000

pub record WaitingNode (S : Type 0) : Type 0 where
  pub connected_at : ℕ
  pub stream : S

abbrev pub WaitingNodes : Type 0 → Type 0
WaitingNodes S = List (Bytes × List (WaitingNode S))

-- What others do with the map between two rounds: a node comes to wait, or another client, with the
-- time and the ttl of its round, takes a node that waits under an id.
pub data Event (S : Type 0) : Type 0 where
  arrives : Bytes → WaitingNode S → Event S
  takes : ℕ → ℕ → Bytes → Event S

-- A round of the loop: when it takes the lock, and what happened to the map since the last one.
pub record Round (S : Type 0) : Type 0 where
  pub now : ℕ
  pub events : List (Event S)

module _ {S : Type 0} where
  -- The nodes that wait under an id; none under an id that is missing.
  unfoldable pub waiting_for : Bytes → WaitingNodes S → List (WaitingNode S)
  waiting_for node_id [] = []
  waiting_for node_id ((k, ws) ∷ m) = if bytes_eq k node_id then ws else waiting_for node_id m

  -- `entry(node_id).or_default().push(node)`.
  unfoldable pub push_waiting : Bytes → WaitingNode S → WaitingNodes S → WaitingNodes S
  push_waiting node_id w [] = (node_id, w ∷ []) ∷ []
  push_waiting node_id w ((k, ws) ∷ m) =
      let rest = push_waiting node_id w m in
      if bytes_eq k node_id then (k, w ∷ ws) ∷ m else (k, ws) ∷ rest

  -- `while let Some(node) = nodes.pop()`.
  unfoldable pub pop_fresh : ℕ → ℕ → List (WaitingNode S) → Option S × List (WaitingNode S)
  pop_fresh now ttl [] = (none, [])
  pop_fresh now ttl (w ∷ ws) =
      let rest = pop_fresh now ttl ws in
      if leb (now - w.connected_at) ttl then (some w.stream, ws) else rest

  abbrev pub put_back : Bytes → List (WaitingNode S) → WaitingNodes S → WaitingNodes S
  put_back node_id [] m = m
  put_back node_id (w ∷ ws) m = (node_id, w ∷ ws) ∷ m

  -- What happens under the lock: the stream that is selected, and the nodes that still wait.
  unfoldable pub select : ℕ → ℕ → Bytes → WaitingNodes S → Option S × WaitingNodes S
  select now ttl node_id [] = (none, [])
  select now ttl node_id ((k, ws) ∷ m) =
      let rest = select now ttl node_id m in
      let popped = pop_fresh now ttl ws in
      if bytes_eq k node_id then (popped.0, put_back k popped.1 m) else (rest.0, (k, ws) ∷ rest.1)

  abbrev pub happen : List (Event S) → WaitingNodes S → WaitingNodes S
  happen [] m = m
  happen (arrives node_id w ∷ es) m = happen es (push_waiting node_id w m)
  happen (takes now ttl node_id ∷ es) m = happen es (select now ttl node_id m).1

  abbrev pub selected_or :
      Option S × WaitingNodes S
      → (WaitingNodes S → Result RelayError S × WaitingNodes S)
      → Result RelayError S × WaitingNodes S
  selected_or (some s, m) again = (ok s, m)
  selected_or (none, m) again = again m

  -- So many more rounds, the i-th next.
  unfoldable pub wait_rounds :
      ℕ → ℕ → ℕ → (ℕ → Round S) → Bytes → WaitingNodes S → Result RelayError S × WaitingNodes S
  wait_rounds zero i ttl rounds node_id m = (err no_node_connection, m)
  wait_rounds (suc n) i ttl rounds node_id m =
      selected_or (select (rounds i).now ttl node_id (happen (rounds i).events m))
        (wait_rounds n (suc i) ttl rounds node_id)

  unfoldable pub wait_for_node_stream_with_ttl :
      ℕ → (ℕ → Round S) → Bytes → WaitingNodes S → Result RelayError S × WaitingNodes S
  wait_for_node_stream_with_ttl ttl rounds node_id m = wait_rounds 50 0 ttl rounds node_id m

  unfoldable pub wait_for_node_websocket :
      (ℕ → Round S) → Bytes → WaitingNodes S → Result RelayError S × WaitingNodes S
  wait_for_node_websocket rounds node_id m = wait_rounds 50 0 relay_node_socket_ttl rounds node_id m
