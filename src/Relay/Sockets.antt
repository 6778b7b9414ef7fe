-- ===== src/Relay/Sockets.antt =====
-- Which waiting socket a client is given.
use medium.Common.{
  ℕ, ◌-◌, ◌≤◌, ◌<◌, ◌≡◌, inl, inr, refl, ap, true, false, List, [], ◌∷◌, ◌++◌, arith, Option, none,
  some, Bytes, bytes_eq, bytes_eq_iff, bytes_eq_refl, Bool-cases, leb, All,
}
use medium.Relay.Waiting.{WaitingNode, WaitingNodes, waiting_for, pop_fresh, put_back, select}

module _ {S : Type 0} where
  -- More than `ttl` has passed since the node connected.
  abbrev pub IsExpired : ℕ → ℕ → WaitingNode S → Type 0
  IsExpired now ttl w = ttl < now - w.connected_at

  -- What `pop_fresh` does with the nodes that wait, the newest first: those before the first that is
  -- not expired are gone, that one is taken, and the others still wait; if all are expired, all are
  -- gone.
  pub data Popped (now ttl : ℕ) (ws : List (WaitingNode S))
      : Option S → List (WaitingNode S) → Type 0 where
    found :
        (expired : List (WaitingNode S)) (w : WaitingNode S) (rest : List (WaitingNode S))
        → ws ≡ expired ++ w ∷ rest
        → All (IsExpired now ttl) expired
        → now - w.connected_at ≤ ttl
        → Popped now ttl ws (some w.stream) rest
    nothing : All (IsExpired now ttl) ws → Popped now ttl ws none []

  Popped-expired :
      (now ttl : ℕ) (w : WaitingNode S) (ws : List (WaitingNode S)) (o : Option S)
      (rest : List (WaitingNode S))
      → IsExpired now ttl w
      → Popped now ttl ws o rest
      → Popped now ttl (w ∷ ws) o rest
  Popped-expired now ttl w ws o rest h (found expired x others e all le) =
      found (w ∷ expired) x others (ap (λ l. w ∷ l) e) (h, all) le
  Popped-expired now ttl w ws o rest h (nothing all) = nothing (h, all)

  pop_fresh-Popped :
      (now ttl : ℕ) (ws : List (WaitingNode S))
      → Popped now ttl ws (pop_fresh now ttl ws).0 (pop_fresh now ttl ws).1
  unfolding pop_fresh
  pop_fresh-Popped now ttl [] = nothing tt
  pop_fresh-Popped now ttl (w ∷ ws) = elim (Bool-cases (leb (now - w.connected_at) ttl)) [
    | inl fresh ↦ rw fresh (found [] w ws refl tt (ground (arith, fresh)))
    | inr old ↦
        rw old (Popped-expired now ttl w ws _ _ (ground (arith, old)) (pop_fresh-Popped now ttl ws))
  ]

  -- No two entries of the map have the same key.
  abbrev pub IsAbsent : Bytes → WaitingNodes S → Type 0
  IsAbsent k m = All (λ e. bytes_eq e.0 k ≡ false) m

  abbrev pub IsMap : WaitingNodes S → Type 0
  IsMap [] = Unit
  IsMap (e ∷ m) = IsAbsent e.0 m × IsMap m

  IsAbsent-waiting_for : (k : Bytes) (m : WaitingNodes S) → IsAbsent k m → waiting_for k m ≡ []
  unfolding waiting_for
  IsAbsent-waiting_for k [] h = refl
  IsAbsent-waiting_for k (e ∷ m) h = rw h.0 (IsAbsent-waiting_for k m h.1)

  waiting-put_back :
      (k : Bytes) (ws : List (WaitingNode S)) (m : WaitingNodes S)
      → IsAbsent k m
      → waiting_for k (put_back k ws m) ≡ ws
  unfolding waiting_for
  waiting-put_back k [] m h = IsAbsent-waiting_for k m h
  waiting-put_back k (w ∷ ws) m h = rw (bytes_eq_refl k) refl

  waiting-put_back-other :
      (k node_id : Bytes) (ws : List (WaitingNode S)) (m : WaitingNodes S)
      → bytes_eq k node_id ≡ false
      → waiting_for node_id (put_back k ws m) ≡ waiting_for node_id m
  unfolding waiting_for
  waiting-put_back-other k node_id [] m h = refl
  waiting-put_back-other k node_id (w ∷ ws) m h = rw h refl

  -- Under the lock, a client gets what `pop_fresh` takes from the nodes that wait under its id, and
  -- the nodes under other ids wait on.
  pub record Selected (now ttl : ℕ) (node_id : Bytes) (m : WaitingNodes S)
      (x : Option S × WaitingNodes S) : Type 0 where
    popped : Popped now ttl (waiting_for node_id m) x.0 (waiting_for node_id x.1)
    others :
        (other : Bytes)
        → bytes_eq node_id other ≡ false
        → waiting_for other x.1 ≡ waiting_for other m

  select-IsAbsent :
      (now ttl : ℕ) (node_id k : Bytes) (m : WaitingNodes S)
      → IsAbsent k m
      → IsAbsent k (select now ttl node_id m).1
  unfolding select
  select-IsAbsent now ttl node_id k [] h = tt
  select-IsAbsent now ttl node_id k ((l, ws) ∷ m) h = elim (Bool-cases (bytes_eq l node_id)) [
    | inl same ↦ rw same (back (pop_fresh now ttl ws).1)
    | inr other ↦ rw other (h.0, select-IsAbsent now ttl node_id k m h.1)
  ]
    where
      back : (rest : List (WaitingNode S)) → IsAbsent k (put_back l rest m)
      back [] = h.1
      back (w ∷ rest) = (h.0, h.1)

  select-IsMap :
      (now ttl : ℕ) (node_id : Bytes) (m : WaitingNodes S)
      → IsMap m
      → IsMap (select now ttl node_id m).1
  unfolding select
  select-IsMap now ttl node_id [] h = tt
  select-IsMap now ttl node_id ((l, ws) ∷ m) h = elim (Bool-cases (bytes_eq l node_id)) [
    | inl same ↦ rw same (back (pop_fresh now ttl ws).1)
    | inr other ↦
        rw other (select-IsAbsent now ttl node_id l m h.0, select-IsMap now ttl node_id m h.1)
  ]
    where
      back : (rest : List (WaitingNode S)) → IsMap (put_back l rest m)
      back [] = h.1
      back (w ∷ rest) = (h.0, h.1)

  -- Under the lock, a client is given the newest socket of its node that is not older than `ttl`; the
  -- newer ones of that node are dropped, the older ones wait on, and those of other nodes are untouched.
  pub select-Selected :
      (now ttl : ℕ) (node_id : Bytes) (m : WaitingNodes S)
      → IsMap m
      → Selected now ttl node_id m (select now ttl node_id m)
  unfolding select waiting_for
  select-Selected now ttl node_id [] h = record { popped = nothing tt; others = λ other e. refl }
  select-Selected now ttl node_id ((l, ws) ∷ m) h = elim (Bool-cases (bytes_eq l node_id)) [
    | inl same ↦ chosen ((bytes_eq_iff l node_id).0 same) same
    | inr other ↦
        let s = select-Selected now ttl node_id m h.1 in
        rw other (record {
          popped = rw other s.popped;
          others = λ k e. elim (Bool-cases (bytes_eq l k)) [
            | inl mine ↦ rw mine refl
            | inr no_match ↦ rw no_match (s.others k e)
          ];
        })
  ]
    where
      chosen :
          l ≡ node_id
          → bytes_eq l node_id ≡ true
          → Selected now ttl node_id ((l, ws) ∷ m) (select now ttl node_id ((l, ws) ∷ m))
      chosen e same = rw (← e) (
          rw (bytes_eq_refl l) (record {
            popped =
                rw (bytes_eq_refl l, waiting-put_back l (pop_fresh now ttl ws).1 m h.0)
                  (pop_fresh-Popped now ttl ws);
            others = λ k off. rw off (waiting-put_back-other l k (pop_fresh now ttl ws).1 m off);
          }))
