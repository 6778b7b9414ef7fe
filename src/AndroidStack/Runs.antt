-- ===== src/AndroidStack/Runs.antt =====
-- The turns of `run_tun_loop` keep the streams and what belongs to them consistent.
use medium.Common.{
  ◌≡◌, refl, ◌∙◌, inl, inr, Bool, true, false, List, [], ◌∷◌, arith, Option, none, some, Bytes,
  bytes_eq, bytes_eq_iff, Bool-cases, Result, ok, err, Map, has, map_get, map_insert, map_remove,
  map_keys, map_get-map_insert, map_get-map_remove,
}
use medium.AndroidStack.Backends.{
  ActiveBackend, BackendRoute, BackendConnectOutcome, StreamBackends, TcpPumpEvent, connected,
  received, closed, idle_len, new_backends, take_or_connect_backend, warm_up,
  flush_pending_to_writer, left_pending, flush_stream, flush_pending_backend, queued,
  queue_backend_write, close_stream, close_unless,
}
use medium.AndroidStack.Consistency.{
  IsConsistent, take_or_connect_backend-IsConsistent, warm_up_all-IsConsistent, inserted-has,
  kept-covered, remove_stream-IsConsistent,
}
use medium.AndroidStack.Events.{
  opened, open_route, open_backend, handle_event, close_all, note_failed, flush_all, pump_writes,
  read_streams, pump_reads, handle_events, turn, run_turns,
}

opened-IsConsistent :
    (id v : Bytes) (r : Result Bytes ActiveBackend × StreamBackends)
    → IsConsistent r.1
    → IsConsistent (opened id v r)
opened-IsConsistent id v (ok b, s) h = (
  λ j. inserted-has j id b v s.streams s.stream_services (h.0 j),
  λ j g. kept-covered j id b s.streams (h.1 j g),
  h.2,
  h.3,
)
opened-IsConsistent id v (err e, s) h = h

open_route-IsConsistent :
    (id v : Bytes) (route : Option BackendRoute) (s : StreamBackends)
    → IsConsistent s
    → IsConsistent (open_route id v route s)
open_route-IsConsistent id v none s h = h
open_route-IsConsistent id v (some route) s h =
    opened-IsConsistent id v (take_or_connect_backend v s)
      (take_or_connect_backend-IsConsistent v s h)

-- An entry that is replaced.
reinserted-has :
    {A : Type 0} (j k : Bytes) (a b : A) (m : Map A)
    → map_get k m ≡ some b
    → has (map_get j (map_insert k a m)) ≡ has (map_get j m)
reinserted-has j k a b m e = rw (map_get-map_insert j k a m) (elim (Bool-cases (bytes_eq k j)) [
  | inl f ↦ rw (f, ← (bytes_eq_iff k j).0 f, e) refl
  | inr f ↦ rw f refl
])

was_there :
    {A : Type 0} (j k : Bytes) (m : Map A)
    → has (map_get j (map_remove k m)) ≡ true
    → has (map_get j m) ≡ true
was_there j k m g = elim (Bool-cases (bytes_eq k j)) [
  | inl e ↦ let g' = rw (map_get-map_remove j k m, e) at g in cc
  | inr e ↦ rw (map_get-map_remove j k m, e) at g
]

-- An entry that is added for a stream.
added-covered :
    {A B : Type 0} (j k : Bytes) (a : A) (m : Map A) (n : Map B)
    → has (map_get k n) ≡ true
    → (has (map_get j m) ≡ true → has (map_get j n) ≡ true)
    → has (map_get j (map_insert k a m)) ≡ true
    → has (map_get j n) ≡ true
added-covered j k a m n there h g = elim (Bool-cases (bytes_eq k j)) [
  | inl e ↦ rw (← (bytes_eq_iff k j).0 e) there
  | inr e ↦ h (rw (map_get-map_insert j k a m, e) at g)
]

left-covered :
    {B : Type 0} (j id : Bytes) (fine : Bool) (pending : Bytes) (m : Map Bytes) (n : Map B)
    → has (map_get id n) ≡ true
    → (has (map_get j m) ≡ true → has (map_get j n) ≡ true)
    → has (map_get j (left_pending id fine pending m)) ≡ true
    → has (map_get j n) ≡ true
left-covered j id true [] m n there h g = h (was_there j id m g)
left-covered j id true (b ∷ pending) m n there h g = added-covered j id (b ∷ pending) m n there h g
left-covered j id false pending m n there h g = added-covered j id pending m n there h g

flush_stream-IsConsistent :
    (id : Bytes) (o : Option ActiveBackend) (pending : Option Bytes) (s : StreamBackends)
    → map_get id s.streams ≡ o
    → IsConsistent s
    → IsConsistent (flush_stream id o pending s).1
flush_stream-IsConsistent id none pending s e h =
    (h.0, λ j g. h.1 j (was_there j id s.pending_writes g), h.2, h.3)
flush_stream-IsConsistent id (some b) none s e h = h
flush_stream-IsConsistent id (some b) (some pending) s e h =
    let f = flush_pending_to_writer b.writes b.sent pending in
    let there : has (map_get id s.streams) ≡ true = rw e refl in
    (
      λ j. reinserted-has j id _ b s.streams e ∙ h.0 j,
      λ j g.
          reinserted-has j id _ b s.streams e
          ∙ left-covered j id f.fine f.pending s.pending_writes s.streams there (h.1 j) g,
      h.2,
      h.3,
    )

flush_pending_backend-IsConsistent :
    (id : Bytes) (s : StreamBackends) → IsConsistent s → IsConsistent (flush_pending_backend id s).1
unfolding flush_pending_backend
flush_pending_backend-IsConsistent id s h =
    flush_stream-IsConsistent id (map_get id s.streams) (map_get id s.pending_writes) s refl h

queue_backend_write-IsConsistent :
    (id bytes : Bytes) (s : StreamBackends)
    → IsConsistent s
    → IsConsistent (queue_backend_write id bytes s).1
unfolding queue_backend_write
queue_backend_write-IsConsistent id bytes s h = elim (Bool-cases (has (map_get id s.streams))) [
  | inl e ↦ rw e (
      flush_pending_backend-IsConsistent id (queued id bytes s)
        (h.0, λ j. added-covered j id _ s.pending_writes s.streams e (h.1 j), h.2, h.3))
  | inr e ↦ rw e h
]

close_unless-IsConsistent :
    (id : Bytes) (r : Bool × StreamBackends) → IsConsistent r.1 → IsConsistent (close_unless id r)
close_unless-IsConsistent id (true, s) h = h
close_unless-IsConsistent id (false, s) h = remove_stream-IsConsistent id s h

handle_event-IsConsistent :
    (e : TcpPumpEvent) (s : StreamBackends) → IsConsistent s → IsConsistent (handle_event e s)
unfolding handle_event open_backend
handle_event-IsConsistent (connected id v) s h =
    open_route-IsConsistent id v (map_get v s.routes) s h
handle_event-IsConsistent (received id bytes) s h =
    close_unless-IsConsistent id (queue_backend_write id bytes s)
      (queue_backend_write-IsConsistent id bytes s h)
handle_event-IsConsistent (closed id) s h = remove_stream-IsConsistent id s h

close_all-IsConsistent :
    (ids : List Bytes) (s : StreamBackends) → IsConsistent s → IsConsistent (close_all ids s)
unfolding close_all
close_all-IsConsistent [] s h = h
close_all-IsConsistent (id ∷ ids) s h =
    close_all-IsConsistent ids (close_stream id s) (remove_stream-IsConsistent id s h)

flush_all-IsConsistent :
    (ids failures : List Bytes) (s : StreamBackends)
    → IsConsistent s
    → IsConsistent (flush_all ids failures s).1
unfolding flush_all
flush_all-IsConsistent [] failures s h = h
flush_all-IsConsistent (id ∷ ids) failures s h =
    flush_all-IsConsistent ids (note_failed id (flush_pending_backend id s).0 failures)
      (flush_pending_backend id s).1 (flush_pending_backend-IsConsistent id s h)

pump_writes-IsConsistent : (s : StreamBackends) → IsConsistent s → IsConsistent (pump_writes s)
unfolding pump_writes
pump_writes-IsConsistent s h =
    close_all-IsConsistent _ _ (flush_all-IsConsistent (map_keys s.pending_writes) [] s h)

read_streams-has :
    (j : Bytes) (m : Map ActiveBackend) → has (map_get j (read_streams m).1) ≡ has (map_get j m)
unfolding read_streams map_get
read_streams-has j [] = refl
read_streams-has j ((id, b) ∷ m) = elim (Bool-cases (bytes_eq id j)) [
  | inl e ↦ rw e refl
  | inr e ↦ rw e (read_streams-has j m)
]

pump_reads-IsConsistent : (s : StreamBackends) → IsConsistent s → IsConsistent (pump_reads s)
unfolding pump_reads
pump_reads-IsConsistent s h = close_all-IsConsistent _ _ (
  λ j. read_streams-has j s.streams ∙ h.0 j,
  λ j g. read_streams-has j s.streams ∙ h.1 j g,
  h.2,
  h.3,
)

handle_events-IsConsistent :
    (es : List TcpPumpEvent) (s : StreamBackends)
    → IsConsistent s
    → IsConsistent (handle_events es s)
unfolding handle_events
handle_events-IsConsistent [] s h = h
handle_events-IsConsistent (e ∷ es) s h =
    handle_events-IsConsistent es (handle_event e s) (handle_event-IsConsistent e s h)

turns-IsConsistent :
    (turns : List (List TcpPumpEvent)) (s : StreamBackends)
    → IsConsistent s
    → IsConsistent (run_turns turns s)
unfolding run_turns turn
turns-IsConsistent [] s h = h
turns-IsConsistent (es ∷ turns) s h = turns-IsConsistent turns (turn es s) (
    pump_writes-IsConsistent _
      (pump_reads-IsConsistent _ (pump_writes-IsConsistent _ (handle_events-IsConsistent es s h))))

-- Whatever events come and whatever the backends do, after any turns of the loop from its start: the
-- streams are those that have a service, bytes are pending only for streams, and there is at most
-- one idle backend for each service.
pub run_turns-IsConsistent :
    (routes : Map BackendRoute) (connects : List (Result Bytes BackendConnectOutcome))
    (turns : List (List TcpPumpEvent))
    → IsConsistent (run_turns turns (warm_up (new_backends routes connects)))
unfolding warm_up new_backends map_get idle_len
run_turns-IsConsistent routes connects turns = turns-IsConsistent turns _ (
    warm_up_all-IsConsistent routes (new_backends routes connects)
      (λ j. refl, λ j g. cc, refl, λ v. omega arith))
