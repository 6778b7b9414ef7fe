-- ===== src/AndroidStack/Writes.antt =====
-- What is written to the backend of a stream.
use medium.Common.{
  ℕ, zero, suc, ◌≤◌, ◌≡◌, refl, sym, ap, ◌∙◌, subst, inl, inr, Bool, true, false, List, [], ◌∷◌,
  ◌++◌, arith, Option, none, some, Bytes, bytes_eq_refl, take, drop, take-append-drop, All, ◌==◌,
  Bool-cases, Map, has, map_get, map_get-map_insert, map_get-map_remove,
}
use mathlib.Core.List.{append_assoc, append-nil}
use medium.AndroidStack.Backends.{
  Wrote, wrote, would_block, interrupted, failed, ActiveBackend, StreamBackends, Flushed,
  flush_pending_to_writer, left_pending, flush_stream, flush_pending_backend, or_empty, queued,
  queue_backend_write,
}

-- A write takes no more than it is given.
abbrev pub IsWrite : Wrote → Type 0
IsWrite (wrote n) = n ≤ 8192
IsWrite would_block = Unit
IsWrite interrupted = Unit
IsWrite failed = Unit

take-take : {A : Type 0} (n m : ℕ) (xs : List A) → n ≤ m → take n (take m xs) ≡ take n xs
take-take zero m xs h = refl
take-take (suc n) zero xs h = let impossible : ⊥ = omega (arith, h) in elim impossible [ ]
take-take (suc n) (suc m) [] h = refl
take-take (suc n) (suc m) (x ∷ xs) h = ap (λ l. x ∷ l) (take-take n m xs (omega (arith, h)))

-- What was sent and what is pending make up the same bytes, and the writes that are left are writes.
abbrev pub Kept : Bytes → Flushed → Type 0
Kept all f = (f.sent ++ f.pending ≡ all) × All IsWrite f.writes

flush-Kept :
    (ws : List Wrote) (sent pending : Bytes)
    → All IsWrite ws
    → Kept (sent ++ pending) (flush_pending_to_writer ws sent pending)
unfolding flush_pending_to_writer
flush-Kept [] sent pending h = (refl, tt)
flush-Kept (w ∷ ws) sent [] h = (refl, h)
flush-Kept (wrote n ∷ ws) sent (b ∷ pending) h = elim (Bool-cases (n == 0)) [
  | inl e ↦ rw e (refl, h.1)
  | inr e ↦
      let whole : (sent ++ take n (take 8192 (b ∷ pending))) ++ drop n (b ∷ pending)
          ≡ sent ++ b ∷ pending =
        append_assoc sent (take n (take 8192 (b ∷ pending))) (drop n (b ∷ pending))
        ∙ ap (λ l. sent ++ (l ++ drop n (b ∷ pending))) (take-take n 8192 (b ∷ pending) h.0)
        ∙ ap (λ l. sent ++ l) (take-append-drop n (b ∷ pending)) in
      rw e (
        subst
          (λ all. Kept all (
            flush_pending_to_writer ws (sent ++ take n (take 8192 (b ∷ pending)))
              (drop n (b ∷ pending))))
          whole
          (flush-Kept ws (sent ++ take n (take 8192 (b ∷ pending))) (drop n (b ∷ pending)) h.1))
]
flush-Kept (would_block ∷ ws) sent (b ∷ pending) h = (refl, h.1)
flush-Kept (interrupted ∷ ws) sent (b ∷ pending) h = flush-Kept ws sent (b ∷ pending) h.1
flush-Kept (failed ∷ ws) sent (b ∷ pending) h = (refl, h.1)

-- The stream has a backend, and these are all the bytes that it has been given.
abbrev pub Given : Bytes → Bytes → StreamBackends → Type 0
Given id all s =
    (b : ActiveBackend) × (map_get id s.streams ≡ some b)
    × (b.sent ++ or_empty (map_get id s.pending_writes) ≡ all)
    × All IsWrite b.writes

left-pending :
    (id : Bytes) (fine : Bool) (pending : Bytes) (m : Map Bytes)
    → or_empty (map_get id (left_pending id fine pending m)) ≡ pending
left-pending id true [] m = rw (map_get-map_remove id id m, bytes_eq_refl id) refl
left-pending id true (b ∷ pending) m =
    rw (map_get-map_insert id id (b ∷ pending) m, bytes_eq_refl id) refl
left-pending id false pending m = rw (map_get-map_insert id id pending m, bytes_eq_refl id) refl

flush_stream-Given :
    (id all : Bytes) (b : ActiveBackend) (o : Option Bytes) (s : StreamBackends)
    → map_get id s.streams ≡ some b
    → map_get id s.pending_writes ≡ o
    → b.sent ++ or_empty o ≡ all
    → All IsWrite b.writes
    → Given id all (flush_stream id (some b) o s).1
flush_stream-Given id all b none s e f g h = (b, e, ap (λ p. b.sent ++ or_empty p) f ∙ g, h)
flush_stream-Given id all b (some pending) s e f g h =
    let k = flush-Kept b.writes b.sent pending h in
    let done = flush_pending_to_writer b.writes b.sent pending in
    (
      record b { sent = done.sent; writes = done.writes },
      map_get-map_insert id id _ s.streams ∙ rw (bytes_eq_refl id) refl,
      ap (λ l. done.sent ++ l) (left-pending id done.fine done.pending s.pending_writes) ∙ k.0 ∙ g,
      k.1,
    )

flush_pending_backend-Given :
    (id all : Bytes) (s : StreamBackends)
    → Given id all s
    → Given id all (flush_pending_backend id s).1
unfolding flush_pending_backend
flush_pending_backend-Given id all s (b, e, g, h) =
    rw e (flush_stream-Given id all b (map_get id s.pending_writes) s e refl g h)

queue_backend_write-Given :
    (id all bytes : Bytes) (s : StreamBackends)
    → Given id all s
    → Given id (all ++ bytes) (queue_backend_write id bytes s).1
unfolding queue_backend_write
queue_backend_write-Given id all bytes s (b, e, g, h) =
    let there : has (map_get id s.streams) ≡ true = rw e refl in
    let pending : map_get id (queued id bytes s).pending_writes
        ≡ some (or_empty (map_get id s.pending_writes) ++ bytes) =
      map_get-map_insert id id _ s.pending_writes ∙ rw (bytes_eq_refl id) refl in
    rw there (
      flush_pending_backend-Given id (all ++ bytes) (queued id bytes s) (
        b,
        e,
        ap (λ p. b.sent ++ or_empty p) pending
            ∙ sym (append_assoc b.sent (or_empty (map_get id s.pending_writes)) bytes)
            ∙ ap (λ l. l ++ bytes) g,
        h,
      ))

-- Bytes that come for a stream, or a turn of `pump_writes` for it.
pub data Feed : Type 0 where
  bytes_for : Bytes → Feed
  flush : Feed

unfoldable pub feed : Bytes → List Feed → StreamBackends → StreamBackends
feed id [] s = s
feed id (bytes_for bytes ∷ feeds) s = feed id feeds (queue_backend_write id bytes s).1
feed id (flush ∷ feeds) s = feed id feeds (flush_pending_backend id s).1

abbrev pub fed : List Feed → Bytes
fed [] = []
fed (bytes_for bytes ∷ feeds) = bytes ++ fed feeds
fed (flush ∷ feeds) = fed feeds

-- However the bytes for a stream and the flushes take turns, and however many bytes each write takes or whether it fails: what
-- was sent to the backend of the stream and what is pending for it after that are, in order, what was
-- before and the bytes that came.
pub feed-Given :
    (id all : Bytes) (feeds : List Feed) (s : StreamBackends)
    → Given id all s
    → Given id (all ++ fed feeds) (feed id feeds s)
unfolding feed
feed-Given id all [] s g = rw (append-nil all) g
feed-Given id all (bytes_for bytes ∷ feeds) s g =
    subst (λ l. Given id l (feed id feeds (queue_backend_write id bytes s).1))
      (append_assoc all bytes (fed feeds))
      (feed-Given id (all ++ bytes) feeds (queue_backend_write id bytes s).1
        (queue_backend_write-Given id all bytes s g))
feed-Given id all (flush ∷ feeds) s g =
    feed-Given id all feeds (flush_pending_backend id s).1 (flush_pending_backend-Given id all s g)
