-- ===== src/AndroidStack/Examples.antt =====
-- The theorems about the backends at a concrete input, and tests.
use medium.Common.{
  ◌≡◌, refl, [], ◌∷◌, ◌++◌, arith, none, some, Bytes, List, codes, bytes_eq, ok, Map, map_get,
  map_remove, Result,
}
use medium.ControlPlane.Grants.{SessionOpenGrant}
use medium.AndroidStack.Backends.{
  Wrote, wrote, ActiveBackend, BackendRoute, session_grant, BackendConnectOutcome, StreamBackends,
  TcpPumpEvent, connected, received, closed, new_backends, flush_pending_to_writer,
  flush_pending_backend, queue_backend_write, idle_len, idle_push, idle_pop, connect_backend,
  take_or_connect_backend, ensure_idle_backend, warm_up_all, warm_up, remove_stream,
}
use medium.AndroidStack.Events.{
  run_turns, html_escape, handle_event, open_backend, handle_events, turn, pump_writes, pump_reads,
  flush_all, close_all, read_streams, read_stream,
}
use medium.AndroidStack.Consistency.{IsConsistent}
use medium.AndroidStack.Runs.{run_turns-IsConsistent}
use medium.AndroidStack.Writes.{Feed, bytes_for, flush, feed, fed, Given, feed-Given}

abbrev grant : SessionOpenGrant
grant = record {
  session_id = [];
  service_id = [];
  node_id = [];
  relay_hint = none;
  authorization = record { token = []; expires_at = 0; candidates = []; ice = none };
}

abbrev backend : ActiveBackend
backend = record { sent = []; writes = wrote 1 ∷ Wrote.would_block ∷ wrote 2 ∷ []; reads = [] }

abbrev connects : List (Result Bytes BackendConnectOutcome)
connects =
    ok (record { backend = backend; selected_ice_path = none })
    ∷ ok (record { backend = backend; selected_ice_path = none })
    ∷ []

abbrev routes : Map BackendRoute
routes = (5 ∷ [], session_grant grant none) ∷ []

abbrev turns : List (List TcpPumpEvent)
turns =
    (connected (1 ∷ []) (5 ∷ []) ∷ received (1 ∷ []) (7 ∷ 8 ∷ 9 ∷ []) ∷ [])
    ∷ (closed (1 ∷ []) ∷ [])
    ∷ []

run_turns-IsConsistent_example :
    IsConsistent (run_turns turns (warm_up (new_backends routes connects)))
run_turns-IsConsistent_example = run_turns-IsConsistent routes connects turns

abbrev one_stream : StreamBackends
one_stream = record {
  routes = [];
  streams = (1 ∷ [], backend) ∷ [];
  stream_services = (1 ∷ [], 5 ∷ []) ∷ [];
  idle_backends = record { max_per_service = 1; backends = [] };
  pending_writes = [];
  selected_ice_paths = [];
  connects = [];
  calls = [];
}

found : map_get (1 ∷ []) one_stream.streams ≡ some backend
unfolding map_get bytes_eq
found = refl

nothing_pending : map_get (1 ∷ []) one_stream.pending_writes ≡ none
unfolding map_get
nothing_pending = refl

given : Given (1 ∷ []) [] one_stream
unfolding map_get bytes_eq
given = (backend, refl, refl, (omega arith, (tt, (omega arith, tt))))

abbrev feeds : List Feed
feeds = bytes_for (7 ∷ 8 ∷ 9 ∷ []) ∷ flush ∷ []

feed-Given_example : Given (1 ∷ []) ([] ++ fed feeds) (feed (1 ∷ []) feeds one_stream)
feed-Given_example = feed-Given (1 ∷ []) [] feeds one_stream given

sent_test :
    (feed (1 ∷ []) feeds one_stream).streams
    ≡ (1 ∷ [], record { sent = 7 ∷ 8 ∷ 9 ∷ []; writes = []; reads = [] }) ∷ []
unfolding feed queue_backend_write flush_pending_backend flush_pending_to_writer map_get map_remove
    bytes_eq
sent_test = refl

stream_test :
    (run_turns turns (warm_up (new_backends routes connects))).idle_backends.backends
    ≡ (5 ∷ [], backend ∷ []) ∷ []
unfolding run_turns turn handle_events handle_event open_backend take_or_connect_backend idle_pop
    idle_push idle_len connect_backend ensure_idle_backend warm_up_all warm_up new_backends
    remove_stream pump_writes pump_reads flush_all close_all read_streams read_stream
    queue_backend_write flush_pending_backend flush_pending_to_writer map_get map_remove bytes_eq
stream_test = refl

escape_test : html_escape (codes "a<b") ≡ codes "a&lt;b"
unfolding html_escape
escape_test = refl
