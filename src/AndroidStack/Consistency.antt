-- ===== src/AndroidStack/Consistency.antt =====
-- What holds of the streams, their services and what is pending for them, at all times.
use medium.Common.{
  ℕ, ◌≤◌, ◌≡◌, refl, inl, inr, true, List, [], ◌∷◌, ◌++◌, arith, Option, none, some, Bytes,
  bytes_eq, length, length-append, leb, Bool-cases, if◌then◌else◌, Result, ok, err, Map, has,
  map_get, map_insert, map_remove, map_get-map_insert, map_get-map_remove,
}
use medium.Candidates.{IceCandidate}
use medium.AndroidStack.Backends.{
  ActiveBackend, BackendRoute, direct_target, session_grant, BackendConnectOutcome, IdlePool,
  StreamBackends, entries, idle_len, idle_push, popped, idle_pop, connected_by, connect_backend,
  keep_path, after_connect, idle_or_connect, take_or_connect_backend, keep_idle, warm_route,
  ensure_idle_backend, warm_up_all, without_stream, warm_again, remove_stream,
}

-- The streams are those with a service; what is pending is for one of them; and there is at most one
-- idle backend for each service.
abbrev pub IsConsistent : StreamBackends → Type 0
IsConsistent s =
    ((id : Bytes) → has (map_get id s.streams) ≡ has (map_get id s.stream_services))
    × ((id : Bytes) → has (map_get id s.pending_writes) ≡ true → has (map_get id s.streams) ≡ true)
    × (s.idle_backends.max_per_service ≡ 1)
    × ((service_id : Bytes) → idle_len service_id s.idle_backends ≤ 1)

abbrev pub PoolOk : IdlePool → Type 0
PoolOk p = (p.max_per_service ≡ 1) × ((service_id : Bytes) → idle_len service_id p ≤ 1)

one_more :
    (old : List ActiveBackend) (b : ActiveBackend) (m : ℕ)
    → m ≡ 1
    → length old ≤ 1
    → length (if leb m (length old) then old else old ++ b ∷ []) ≤ 1
one_more old b m e h = elim (Bool-cases (leb m (length old))) [
  | inl f ↦ rw f h
  | inr f ↦
      let none' : length old ≡ 0 = ground (arith, f, e) in
      rw f (omega (arith, length-append old (b ∷ []), none'))
]

pub idle_push-PoolOk :
    (v : Bytes) (b : ActiveBackend) (p : IdlePool) → PoolOk p → PoolOk (idle_push v b p)
unfolding idle_push idle_len
idle_push-PoolOk v b p h = (
  h.0,
  λ w.
      rw
        (map_get-map_insert w v
          (if leb p.max_per_service (length (entries (map_get v p.backends)))
            then entries (map_get v p.backends)
            else entries (map_get v p.backends) ++ b ∷ [])
          p.backends)
        (elim (Bool-cases (bytes_eq v w)) [
          | inl e ↦ rw e (one_more (entries (map_get v p.backends)) b p.max_per_service h.0 (h.1 v))
          | inr e ↦ rw e (h.1 w)
        ]),
)

shorter :
    (v : Bytes) (p : IdlePool) (o : Option (List ActiveBackend))
    → PoolOk p
    → length (entries o) ≤ 1
    → PoolOk (popped v p o).1
unfolding idle_len
shorter v p none h k = h
shorter v p (some []) h k = (
  h.0,
  λ w.
      rw (map_get-map_remove w v p.backends)
        (elim (Bool-cases (bytes_eq v w)) [ inl e ↦ rw e (omega arith) | inr e ↦ rw e (h.1 w) ]),
)
shorter v p (some (b ∷ [])) h k = (
  h.0,
  λ w.
      rw (map_get-map_remove w v p.backends)
        (elim (Bool-cases (bytes_eq v w)) [ inl e ↦ rw e (omega arith) | inr e ↦ rw e (h.1 w) ]),
)
shorter v p (some (b ∷ c ∷ bs)) h k = let impossible : ⊥ = omega (arith, k) in elim impossible [ ]

idle_pop-PoolOk : (v : Bytes) (p : IdlePool) → PoolOk p → PoolOk (idle_pop v p).1
unfolding idle_pop idle_len
idle_pop-PoolOk v p h = shorter v p (map_get v p.backends) h (h.1 v)

connect_backend-IsConsistent :
    (s : StreamBackends) → IsConsistent s → IsConsistent (connect_backend s).1
unfolding connect_backend
connect_backend-IsConsistent s h = by_list s.connects
  where
    by_list : (rs : List (Result Bytes BackendConnectOutcome)) → IsConsistent (connected_by rs s).1
    by_list [] = h
    by_list (r ∷ rs) = h

keep_path-IsConsistent :
    (v : Bytes) (c : Option IceCandidate) (s : StreamBackends)
    → IsConsistent s
    → IsConsistent (keep_path v c s)
keep_path-IsConsistent v none s h = h
keep_path-IsConsistent v (some c) s h = h

after_connect-IsConsistent :
    (v : Bytes) (r : Result Bytes BackendConnectOutcome × StreamBackends)
    → IsConsistent r.1
    → IsConsistent (after_connect v r).1
after_connect-IsConsistent v (ok outcome, s) h =
    keep_path-IsConsistent v outcome.selected_ice_path s h
after_connect-IsConsistent v (err e, s) h = h

idle_or_connect-IsConsistent :
    (v : Bytes) (r : Option ActiveBackend × IdlePool) (s : StreamBackends)
    → IsConsistent s
    → PoolOk r.1
    → IsConsistent (idle_or_connect v r s).1
idle_or_connect-IsConsistent v (some b, p) s h k = (h.0, h.1, k.0, k.1)
idle_or_connect-IsConsistent v (none, p) s h k =
    after_connect-IsConsistent v (connect_backend (record s { idle_backends = p }))
      (connect_backend-IsConsistent (record s { idle_backends = p }) (h.0, h.1, k.0, k.1))

pub take_or_connect_backend-IsConsistent :
    (v : Bytes) (s : StreamBackends) → IsConsistent s → IsConsistent (take_or_connect_backend v s).1
unfolding take_or_connect_backend
take_or_connect_backend-IsConsistent v s h =
    idle_or_connect-IsConsistent v (idle_pop v s.idle_backends) s h
      (idle_pop-PoolOk v s.idle_backends (h.2, h.3))

keep_idle-IsConsistent :
    (v : Bytes) (r : Result Bytes ActiveBackend × StreamBackends)
    → IsConsistent r.1
    → IsConsistent (keep_idle v r)
keep_idle-IsConsistent v (ok b, s) h =
    let pool = idle_push-PoolOk v b s.idle_backends (h.2, h.3) in (h.0, h.1, pool.0, pool.1)
keep_idle-IsConsistent v (err e, s) h = h

warm_route-IsConsistent :
    (v : Bytes) (route : Option BackendRoute) (s : StreamBackends)
    → IsConsistent s
    → IsConsistent (warm_route v route s)
warm_route-IsConsistent v none s h = h
warm_route-IsConsistent v (some (direct_target target)) s h = h
warm_route-IsConsistent v (some (session_grant grant pin)) s h =
    keep_idle-IsConsistent v (after_connect v (connect_backend s))
      (after_connect-IsConsistent v (connect_backend s) (connect_backend-IsConsistent s h))

pub ensure_idle_backend-IsConsistent :
    (v : Bytes) (s : StreamBackends) → IsConsistent s → IsConsistent (ensure_idle_backend v s)
unfolding ensure_idle_backend
ensure_idle_backend-IsConsistent v s h = elim (Bool-cases (leb 1 (idle_len v s.idle_backends))) [
  | inl e ↦ rw e h
  | inr e ↦ rw e (warm_route-IsConsistent v (map_get v s.routes) s h)
]

pub warm_up_all-IsConsistent :
    (routes : Map BackendRoute) (s : StreamBackends)
    → IsConsistent s
    → IsConsistent (warm_up_all routes s)
unfolding warm_up_all
warm_up_all-IsConsistent [] s h = h
warm_up_all-IsConsistent ((v, direct_target target) ∷ routes) s h =
    warm_up_all-IsConsistent routes s h
warm_up_all-IsConsistent ((v, session_grant grant pin) ∷ routes) s h =
    warm_up_all-IsConsistent routes (ensure_idle_backend v s)
      (ensure_idle_backend-IsConsistent v s h)

-- The entries of the maps behind a removal or an insertion.
pub removed-has :
    {A B : Type 0} (j k : Bytes) (m : Map A) (n : Map B)
    → has (map_get j m) ≡ has (map_get j n)
    → has (map_get j (map_remove k m)) ≡ has (map_get j (map_remove k n))
removed-has j k m n h =
    rw (map_get-map_remove j k m, map_get-map_remove j k n)
      (elim (Bool-cases (bytes_eq k j)) [ inl e ↦ rw e refl | inr e ↦ rw e h ])

pub removed-covered :
    {A B : Type 0} (j k : Bytes) (m : Map A) (n : Map B)
    → (has (map_get j m) ≡ true → has (map_get j n) ≡ true)
    → has (map_get j (map_remove k m)) ≡ true
    → has (map_get j (map_remove k n)) ≡ true
removed-covered j k m n h g = rw (map_get-map_remove j k n) (elim (Bool-cases (bytes_eq k j)) [
  | inl e ↦ let g' = rw (map_get-map_remove j k m, e) at g in cc
  | inr e ↦ rw e (h (rw (map_get-map_remove j k m, e) at g))
])

pub inserted-has :
    {A B : Type 0} (j k : Bytes) (a : A) (b : B) (m : Map A) (n : Map B)
    → has (map_get j m) ≡ has (map_get j n)
    → has (map_get j (map_insert k a m)) ≡ has (map_get j (map_insert k b n))
inserted-has j k a b m n h =
    rw (map_get-map_insert j k a m, map_get-map_insert j k b n)
      (elim (Bool-cases (bytes_eq k j)) [ inl e ↦ rw e refl | inr e ↦ rw e h ])

pub kept-covered :
    {A : Type 0} (j k : Bytes) (a : A) (m : Map A)
    → has (map_get j m) ≡ true
    → has (map_get j (map_insert k a m)) ≡ true
kept-covered j k a m h =
    rw (map_get-map_insert j k a m)
      (elim (Bool-cases (bytes_eq k j)) [ inl e ↦ rw e refl | inr e ↦ rw e h ])

pub without_stream-IsConsistent :
    (id : Bytes) (s : StreamBackends) → IsConsistent s → IsConsistent (without_stream id s)
without_stream-IsConsistent id s h = (
  λ j. removed-has j id s.streams s.stream_services (h.0 j),
  λ j. removed-covered j id s.pending_writes s.streams (h.1 j),
  h.2,
  h.3,
)

warm_again-IsConsistent :
    (v : Option Bytes) (s : StreamBackends) → IsConsistent s → IsConsistent (warm_again v s)
warm_again-IsConsistent none s h = h
warm_again-IsConsistent (some v) s h = ensure_idle_backend-IsConsistent v s h

pub remove_stream-IsConsistent :
    (id : Bytes) (s : StreamBackends) → IsConsistent s → IsConsistent (remove_stream id s)
unfolding remove_stream
remove_stream-IsConsistent id s h =
    warm_again-IsConsistent (map_get id s.stream_services) (without_stream id s)
      (without_stream-IsConsistent id s h)
