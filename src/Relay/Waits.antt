-- ===== src/Relay/Waits.antt =====
-- What a client gets in the fifty rounds of a wait.
use medium.Common.{
  ℕ, zero, suc, ◌+◌, ◌-◌, ◌≤◌, ◌<◌, ◌≡◌, inl, inr, refl, List, [], ◌∷◌, arith, Option, none, some,
  Bytes, bytes_eq, bytes_eq_iff, Bool-cases, leb, Result, ok, err, All,
}
use medium.Relay.Waiting.{
  RelayError, no_node_connection, WaitingNode, WaitingNodes, push_waiting, pop_fresh, put_back,
  select, Event, arrives, takes, happen, Round, selected_or, wait_rounds,
  wait_for_node_stream_with_ttl,
}

module _ {S : Type 0} where
  -- All nodes that wait satisfy P for the id that they wait under.
  abbrev pub AllWaiting : (Bytes → WaitingNode S → Type 0) → WaitingNodes S → Type 0
  AllWaiting P m = All (λ e. All (P e.0) e.1) m

  module _ (P : Bytes → WaitingNode S → Type 0) where
    push-AllWaiting :
        (node_id : Bytes) (w : WaitingNode S) (m : WaitingNodes S)
        → P node_id w
        → AllWaiting P m
        → AllWaiting P (push_waiting node_id w m)
    unfolding push_waiting
    push-AllWaiting node_id w [] p h = ((p, tt), tt)
    push-AllWaiting node_id w ((k, ws) ∷ m) p h = elim (Bool-cases (bytes_eq k node_id)) [
      | inl same ↦
          let e : k ≡ node_id = (bytes_eq_iff k node_id).0 same in rw same ((rw e p, h.0), h.1)
      | inr other ↦ rw other (h.0, push-AllWaiting node_id w m p h.1)
    ]

    -- The stream is that of a node with P that is not expired.
    abbrev pub Served : ℕ → ℕ → Bytes → Option S → Type 0
    Served now ttl node_id none = Unit
    Served now ttl node_id (some s) =
        (w : WaitingNode S) × (s ≡ w.stream) × P node_id w × (now - w.connected_at ≤ ttl)

    pop-Served :
        (now ttl : ℕ) (node_id : Bytes) (ws : List (WaitingNode S))
        → All (P node_id) ws
        → Served now ttl node_id (pop_fresh now ttl ws).0 × All (P node_id) (pop_fresh now ttl ws).1
    unfolding pop_fresh
    pop-Served now ttl node_id [] h = (tt, tt)
    pop-Served now ttl node_id (w ∷ ws) h = elim (Bool-cases (leb (now - w.connected_at) ttl)) [
      | inl fresh ↦ rw fresh ((w, refl, h.0, ground (arith, fresh)), h.1)
      | inr old ↦ rw old (pop-Served now ttl node_id ws h.1)
    ]

    put_back-AllWaiting :
        (k : Bytes) (ws : List (WaitingNode S)) (m : WaitingNodes S)
        → All (P k) ws
        → AllWaiting P m
        → AllWaiting P (put_back k ws m)
    put_back-AllWaiting k [] m p h = h
    put_back-AllWaiting k (w ∷ ws) m p h = (p, h)

    select-Served :
        (now ttl : ℕ) (node_id : Bytes) (m : WaitingNodes S)
        → AllWaiting P m
        → Served now ttl node_id (select now ttl node_id m).0
          × AllWaiting P (select now ttl node_id m).1
    unfolding select
    select-Served now ttl node_id [] h = (tt, tt)
    select-Served now ttl node_id ((k, ws) ∷ m) h = elim (Bool-cases (bytes_eq k node_id)) [
      | inl same ↦
          let e : k ≡ node_id = (bytes_eq_iff k node_id).0 same in
          let (served, kept) = pop-Served now ttl k ws h.0 in
          rw same (rw (← e) served, put_back-AllWaiting k _ m kept h.1)
      | inr other ↦
          let (served, kept) = select-Served now ttl node_id m h.1 in rw other (served, (h.0, kept))
    ]

    -- The nodes that come satisfy P for their ids.
    abbrev pub Bring : Event S → Type 0
    Bring (arrives node_id w) = P node_id w
    Bring (takes now ttl node_id) = Unit

    happen-AllWaiting :
        (es : List (Event S)) (m : WaitingNodes S)
        → All Bring es
        → AllWaiting P m
        → AllWaiting P (happen es m)
    happen-AllWaiting [] m p h = h
    happen-AllWaiting (arrives node_id w ∷ es) m p h =
        happen-AllWaiting es (push_waiting node_id w m) p.1 (push-AllWaiting node_id w m p.0 h)
    happen-AllWaiting (takes now ttl node_id ∷ es) m p h =
        happen-AllWaiting es (select now ttl node_id m).1 p.1 (select-Served now ttl node_id m h).1

  -- A wait that gave a stream gave that of a node with P, not expired in its round.
  abbrev pub WaitedFor :
      (Bytes → WaitingNode S → Type 0)
      → ℕ
      → ℕ
      → (ℕ → Round S)
      → Bytes
      → Result RelayError S
      → Type 0
  WaitedFor P bound ttl rounds node_id (err e) = e ≡ no_node_connection
  WaitedFor P bound ttl rounds node_id (ok s) =
      (i : ℕ) × (i < bound)
      × (w : WaitingNode S) × (s ≡ w.stream)
      × P node_id w
      × ((rounds i).now - w.connected_at ≤ ttl)

  select_step :
      (P : Bytes → WaitingNode S → Type 0) (n i ttl : ℕ) (rounds : ℕ → Round S) (node_id : Bytes)
      (x : Option S × WaitingNodes S)
      (again : WaitingNodes S → Result RelayError S × WaitingNodes S)
      → Served P (rounds i).now ttl node_id x.0
      → AllWaiting P x.1
      → ((m : WaitingNodes S)
          → AllWaiting P m
          → WaitedFor P (suc n + i) ttl rounds node_id (again m).0 × AllWaiting P (again m).1)
      → WaitedFor P (suc n + i) ttl rounds node_id (selected_or x again).0
        × AllWaiting P (selected_or x again).1
  select_step P n i ttl rounds node_id (some s, m) again served kept next =
      let (w, e, p, fresh) = served in ((i, omega arith, w, e, p, fresh), kept)
  select_step P n i ttl rounds node_id (none, m) again served kept next = next m kept

  wait_rounds-WaitedFor :
      (P : Bytes → WaitingNode S → Type 0) (n i ttl : ℕ) (rounds : ℕ → Round S) (node_id : Bytes)
      (m : WaitingNodes S)
      → ((j : ℕ) → All (Bring P) (rounds j).events)
      → AllWaiting P m
      → WaitedFor P (n + i) ttl rounds node_id (wait_rounds n i ttl rounds node_id m).0
        × AllWaiting P (wait_rounds n i ttl rounds node_id m).1
  unfolding wait_rounds
  wait_rounds-WaitedFor P zero i ttl rounds node_id m a h = (refl, h)
  wait_rounds-WaitedFor P (suc n) i ttl rounds node_id m a h =
      let all = happen-AllWaiting P (rounds i).events m (a i) h in
      let (served, kept) =
        select-Served P (rounds i).now ttl node_id (happen (rounds i).events m) all in
      let sum : n + suc i ≡ suc n + i = omega arith in
      select_step P n i ttl rounds node_id _ (wait_rounds n (suc i) ttl rounds node_id) served kept
        (λ m h. rw sum at (wait_rounds-WaitedFor P n (suc i) ttl rounds node_id m a h))

  -- Whatever other clients take: if all nodes that wait, and all that come, satisfy P for their ids, then a client gets the socket
  -- of a node that satisfies P for the id it asked for and was not older than `ttl` in one of the
  -- fifty rounds, or the error that there is none; and all that still wait satisfy P.
  pub wait_for_node_stream_with_ttl-WaitedFor :
      (P : Bytes → WaitingNode S → Type 0) (ttl : ℕ) (rounds : ℕ → Round S) (node_id : Bytes)
      (m : WaitingNodes S)
      → ((j : ℕ) → All (Bring P) (rounds j).events)
      → AllWaiting P m
      → WaitedFor P 50 ttl rounds node_id (wait_for_node_stream_with_ttl ttl rounds node_id m).0
        × AllWaiting P (wait_for_node_stream_with_ttl ttl rounds node_id m).1
  unfolding wait_for_node_stream_with_ttl
  wait_for_node_stream_with_ttl-WaitedFor P ttl rounds node_id m a h =
      wait_rounds-WaitedFor P 50 0 ttl rounds node_id m a h
