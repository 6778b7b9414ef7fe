-- ===== src/Relay/Served.antt =====
-- When a client that waits is sure to get a socket.
use medium.Common.{
  any, Bool, ◌||◌, ◌++◌, ◌≢◌, false, ℕ, zero, suc, ◌+◌, ◌-◌, ◌≤◌, ◌<◌, ◌≡◌, ◌⊎◌, inl, inr, refl,
  true, List, [], ◌∷◌, arith, Option, none, some, Bytes, bytes_eq, bytes_eq_iff, bytes_eq_refl,
  Bool-cases, leb, Result, ok, All,
}
use medium.Relay.Waiting.{
  RelayError, WaitingNode, WaitingNodes, push_waiting, pop_fresh, put_back, select, Event, arrives,
  takes, happen, Round, waiting_for, selected_or, wait_rounds, wait_for_node_stream_with_ttl,
}

module _ {S : Type 0} where
  abbrev pub IsServed : Result RelayError S × WaitingNodes S → Type 0
  IsServed x = (s : S) × (x.0 ≡ ok s)

  selected-IsServed :
      (x : Option S × WaitingNodes S)
      (again : WaitingNodes S → Result RelayError S × WaitingNodes S)
      → ((s : S) × (x.0 ≡ some s)) ⊎ ((m : WaitingNodes S) → IsServed (again m))
      → IsServed (selected_or x again)
  selected-IsServed (some s, m) again h = (s, refl)
  selected-IsServed (none, m) again (inl (s, e)) = cc
  selected-IsServed (none, m) again (inr next) = next m

  -- A node that waits under this id can be taken.
  abbrev is_fresh : ℕ → ℕ → WaitingNode S → Bool
  is_fresh now ttl w = leb (now - w.connected_at) ttl

  abbrev HasFresh : ℕ → ℕ → Bytes → WaitingNodes S → Type 0
  HasFresh now ttl node_id m = any (is_fresh now ttl) (waiting_for node_id m) ≡ true

  pop_fresh-some :
      (now ttl : ℕ) (ws : List (WaitingNode S))
      → any (is_fresh now ttl) ws ≡ true
      → (s : S) × ((pop_fresh now ttl ws).0 ≡ some s)
  unfolding pop_fresh
  pop_fresh-some now ttl [] h = cc
  pop_fresh-some now ttl (w ∷ ws) h = elim (Bool-cases (leb (now - w.connected_at) ttl)) [
    | inl e ↦ rw e (w.stream, refl)
    | inr e ↦ rw e (pop_fresh-some now ttl ws (rw e at h))
  ]

  select-some :
      (now ttl : ℕ) (node_id : Bytes) (m : WaitingNodes S)
      → HasFresh now ttl node_id m
      → (s : S) × ((select now ttl node_id m).0 ≡ some s)
  unfolding select waiting_for
  select-some now ttl node_id [] h = cc
  select-some now ttl node_id ((k, ws) ∷ m) h = elim (Bool-cases (bytes_eq k node_id)) [
    | inl e ↦ rw e (pop_fresh-some now ttl ws (rw e at h))
    | inr e ↦ rw e (select-some now ttl node_id m (rw e at h))
  ]

  -- Nothing of this takes a node that waits under the id.
  abbrev pub Leaves : Bytes → Event S → Type 0
  Leaves node_id (arrives other w) = Unit
  Leaves node_id (takes now ttl other) = other ≢ node_id

  push-HasFresh :
      (now ttl : ℕ) (node_id other : Bytes) (w : WaitingNode S) (m : WaitingNodes S)
      → HasFresh now ttl node_id m
      → HasFresh now ttl node_id (push_waiting other w m)
  unfolding push_waiting waiting_for
  push-HasFresh now ttl node_id other w [] h = cc
  push-HasFresh now ttl node_id other w ((k, ws) ∷ m) h = elim (Bool-cases (bytes_eq k other)) [
    | inl same ↦ rw same (elim (Bool-cases (bytes_eq k node_id)) [
      | inl here ↦ rw here (or_true (is_fresh now ttl w) (rw here at h))
      | inr there ↦ rw there (rw there at h)
    ])
    | inr different ↦ rw different (elim (Bool-cases (bytes_eq k node_id)) [
      | inl here ↦ rw here (rw here at h)
      | inr there ↦ rw there (push-HasFresh now ttl node_id other w m (rw there at h))
    ])
  ]
    where
      or_true : (a : Bool) {b : Bool} → b ≡ true → (a || b) ≡ true
      or_true true e = refl
      or_true false e = e

  put_back-others :
      (k node_id : Bytes) (ws : List (WaitingNode S)) (m : WaitingNodes S)
      → bytes_eq k node_id ≡ false
      → waiting_for node_id (put_back k ws m) ≡ waiting_for node_id m
  unfolding waiting_for
  put_back-others k node_id [] m h = refl
  put_back-others k node_id (w ∷ ws) m h = rw h refl

  select-others :
      (now ttl : ℕ) (other node_id : Bytes) (m : WaitingNodes S)
      → other ≢ node_id
      → waiting_for node_id (select now ttl other m).1 ≡ waiting_for node_id m
  unfolding select waiting_for
  select-others now ttl other node_id [] h = refl
  select-others now ttl other node_id ((k, ws) ∷ m) h = elim (Bool-cases (bytes_eq k other)) [
    | inl same ↦
        let e : k ≡ other = (bytes_eq_iff k other).0 same in
        let off : bytes_eq k node_id ≡ false = rw e (ground (arith, bytes_eq_iff other node_id)) in
        rw (same, off) (put_back-others k node_id (pop_fresh now ttl ws).1 m off)
    | inr different ↦ rw different (elim (Bool-cases (bytes_eq k node_id)) [
      | inl here ↦ rw here refl
      | inr there ↦ rw there (select-others now ttl other node_id m h)
    ])
  ]

  happen-HasFresh :
      (now ttl : ℕ) (node_id : Bytes) (es : List (Event S)) (m : WaitingNodes S)
      → All (Leaves node_id) es
      → HasFresh now ttl node_id m
      → HasFresh now ttl node_id (happen es m)
  happen-HasFresh now ttl node_id [] m l h = h
  happen-HasFresh now ttl node_id (arrives other w ∷ es) m l h =
      happen-HasFresh now ttl node_id es _ l.1 (push-HasFresh now ttl node_id other w m h)
  happen-HasFresh now ttl node_id (takes t u other ∷ es) m l h =
      happen-HasFresh now ttl node_id es _ l.1 (rw (select-others t u other node_id m l.0) h)

  pushed-HasFresh :
      (now ttl : ℕ) (node_id : Bytes) (w : WaitingNode S) (m : WaitingNodes S)
      → now - w.connected_at ≤ ttl
      → HasFresh now ttl node_id (push_waiting node_id w m)
  unfolding push_waiting waiting_for
  pushed-HasFresh now ttl node_id w [] h =
      let fresh : leb (now - w.connected_at) ttl ≡ true = ground arith in
      rw (bytes_eq_refl node_id, fresh) refl
  pushed-HasFresh now ttl node_id w ((k, ws) ∷ m) h =
      let fresh : leb (now - w.connected_at) ttl ≡ true = ground arith in
      elim (Bool-cases (bytes_eq k node_id)) [
        | inl same ↦ rw same (rw (same, fresh) refl)
        | inr other ↦ rw other (rw other (pushed-HasFresh now ttl node_id w m h))
      ]

  -- A node came to wait under this id, and no other client took one from there since.
  abbrev pub CameLast : Bytes → WaitingNode S → List (Event S) → Type 0
  CameLast node_id w es =
      (before : List (Event S)) × (after : List (Event S)) × (es
        ≡ before ++ arrives node_id w ∷ after)
      × All (Leaves node_id) after

  happened-HasFresh :
      (now ttl : ℕ) (node_id : Bytes) (w : WaitingNode S) (before after : List (Event S))
      (m : WaitingNodes S)
      → All (Leaves node_id) after
      → now - w.connected_at ≤ ttl
      → HasFresh now ttl node_id (happen (before ++ arrives node_id w ∷ after) m)
  happened-HasFresh now ttl node_id w [] after m l h =
      happen-HasFresh now ttl node_id after _ l (pushed-HasFresh now ttl node_id w m h)
  happened-HasFresh now ttl node_id w (arrives other x ∷ before) after m l h =
      happened-HasFresh now ttl node_id w before after _ l h
  happened-HasFresh now ttl node_id w (takes t u other ∷ before) after m l h =
      happened-HasFresh now ttl node_id w before after _ l h

  wait_rounds-IsServed :
      (n i k ttl : ℕ) (rounds : ℕ → Round S) (node_id : Bytes) (w : WaitingNode S)
      (m : WaitingNodes S)
      → i ≤ k
      → k < n + i
      → CameLast node_id w (rounds k).events
      → (rounds k).now - w.connected_at ≤ ttl
      → IsServed (wait_rounds n i ttl rounds node_id m)
  unfolding wait_rounds
  wait_rounds-IsServed zero i k ttl rounds node_id w m le less came fresh = ground arith
  wait_rounds-IsServed (suc n) i k ttl rounds node_id w m le less came fresh =
      let (before, after, e, leaves) = came in
      selected-IsServed _ (wait_rounds n (suc i) ttl rounds node_id) (elim (before_or_at i k le) [
        | inl early ↦ inr (λ m.
            wait_rounds-IsServed n (suc i) k ttl rounds node_id w m early (omega arith) came fresh)
        | inr here ↦ inl (
            rw (here, e)
              (select-some (rounds k).now ttl node_id _
                (happened-HasFresh (rounds k).now ttl node_id w before after m leaves fresh)))
      ])
    where
      before_or_at : (i k : ℕ) → i ≤ k → (suc i ≤ k) ⊎ (i ≡ k)
      before_or_at i k h = ground arith

  -- If a node comes to wait in one of the fifty rounds of a client of that node, is not older than `ttl`
  -- when that round takes the lock, and no other client takes a node of this id in between, then the
  -- client gets a socket. Before that, and under other ids, other clients may take what they like.
  pub wait_for_node_stream_with_ttl-IsServed :
      (k ttl : ℕ) (rounds : ℕ → Round S) (node_id : Bytes) (w : WaitingNode S) (m : WaitingNodes S)
      → k < 50
      → CameLast node_id w (rounds k).events
      → (rounds k).now - w.connected_at ≤ ttl
      → IsServed (wait_for_node_stream_with_ttl ttl rounds node_id m)
  unfolding wait_for_node_stream_with_ttl
  wait_for_node_stream_with_ttl-IsServed k ttl rounds node_id w m less came fresh =
      wait_rounds-IsServed 50 0 k ttl rounds node_id w m (omega arith) (omega arith) came fresh
