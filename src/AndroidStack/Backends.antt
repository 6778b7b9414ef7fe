-- ===== src/AndroidStack/Backends.antt =====
-- `StreamBackends` and `IdlePool` of crates/medium-android-netstack/src/lib.rs.
use medium.Common.{
  ℕ, Bool, true, false, List, [], ◌∷◌, ◌++◌, Option, none, some, Bytes, codes, length, take, drop,
  leb, ◌==◌, if◌then◌else◌, Result, ok, err, Map, has, map_get, map_insert, map_remove,
}
use medium.Candidates.{IceCandidate}
use medium.ControlPlane.Grants.{SessionOpenGrant}

pub data Wrote : Type 0 where
  wrote : ℕ → Wrote
  would_block interrupted failed : Wrote

pub data WasRead : Type 0 where
  bytes_read : Bytes → WasRead
  would_block interrupted failed : WasRead

pub record ActiveBackend : Type 0 where
  pub sent : Bytes
  pub writes : List Wrote
  pub reads : List WasRead

pub data BackendRoute : Type 0 where
  direct_target : Bytes → BackendRoute
  session_grant : SessionOpenGrant → Option Bytes → BackendRoute

pub record BackendConnectOutcome : Type 0 where
  pub backend : ActiveBackend
  pub selected_ice_path : Option IceCandidate

pub record IdlePool : Type 0 where
  pub max_per_service : ℕ
  pub backends : Map (List ActiveBackend)

pub data StackCall : Type 0 where
  send_tcp : Bytes → Bytes → StackCall
  close_tcp : Bytes → StackCall

-- `connects` is what the next calls of `connect_backend` give, the backend's configuration included;
-- `calls` are those made to the stack.
pub record StreamBackends : Type 0 where
  pub routes : Map BackendRoute
  pub streams : Map ActiveBackend
  pub stream_services : Map Bytes
  pub idle_backends : IdlePool
  pub pending_writes : Map Bytes
  pub selected_ice_paths : Map IceCandidate
  pub connects : List (Result Bytes BackendConnectOutcome)
  pub calls : List StackCall

pub data TcpPumpEvent : Type 0 where
  connected : Bytes → Bytes → TcpPumpEvent
  received : Bytes → Bytes → TcpPumpEvent
  closed : Bytes → TcpPumpEvent

abbrev pub entries : Option (List ActiveBackend) → List ActiveBackend
entries none = []
entries (some bs) = bs

unfoldable pub idle_len : Bytes → IdlePool → ℕ
idle_len service_id pool = length (entries (map_get service_id pool.backends))

unfoldable pub idle_push : Bytes → ActiveBackend → IdlePool → IdlePool
idle_push service_id backend pool =
    let old = entries (map_get service_id pool.backends) in
    record pool {
      backends =
          map_insert service_id
            (if leb pool.max_per_service (length old) then old else old ++ backend ∷ [])
            pool.backends;
    }

abbrev pub popped : Bytes → IdlePool → Option (List ActiveBackend) → Option ActiveBackend × IdlePool
popped service_id pool none = (none, pool)
popped service_id pool (some []) =
    (none, record pool { backends = map_remove service_id pool.backends })
popped service_id pool (some (b ∷ [])) =
    (some b, record pool { backends = map_remove service_id pool.backends })
popped service_id pool (some (b ∷ c ∷ bs)) =
    (some b, record pool { backends = map_insert service_id (c ∷ bs) pool.backends })

unfoldable pub idle_pop : Bytes → IdlePool → Option ActiveBackend × IdlePool
idle_pop service_id pool = popped service_id pool (map_get service_id pool.backends)

-- `StreamBackends::new`, with one idle backend for each service.
unfoldable pub new_backends :
    Map BackendRoute → List (Result Bytes BackendConnectOutcome) → StreamBackends
new_backends routes connects = record {
  routes = routes;
  streams = [];
  stream_services = [];
  idle_backends = record { max_per_service = 1; backends = [] };
  pending_writes = [];
  selected_ice_paths = [];
  connects = connects;
  calls = [];
}

abbrev pub connected_by :
    List (Result Bytes BackendConnectOutcome)
    → StreamBackends
    → Result Bytes BackendConnectOutcome × StreamBackends
connected_by [] s = (err (codes "session grant has no candidates"), s)
connected_by (r ∷ rs) s = (r, record s { connects = rs })

-- `connect_backend` and `configure_nonblocking`.
unfoldable pub connect_backend :
    StreamBackends → Result Bytes BackendConnectOutcome × StreamBackends
connect_backend s = connected_by s.connects s

abbrev pub keep_path : Bytes → Option IceCandidate → StreamBackends → StreamBackends
keep_path service_id none s = s
keep_path service_id (some c) s = record s {
  selected_ice_paths = map_insert service_id c s.selected_ice_paths;
}

abbrev pub after_connect :
    Bytes
    → Result Bytes BackendConnectOutcome × StreamBackends
    → Result Bytes ActiveBackend × StreamBackends
after_connect service_id (ok outcome, s) =
    (ok outcome.backend, keep_path service_id outcome.selected_ice_path s)
after_connect service_id (err e, s) = (err e, s)

abbrev pub idle_or_connect :
    Bytes
    → Option ActiveBackend × IdlePool
    → StreamBackends
    → Result Bytes ActiveBackend × StreamBackends
idle_or_connect service_id (some b, pool) s = (ok b, record s { idle_backends = pool })
idle_or_connect service_id (none, pool) s =
    after_connect service_id (connect_backend (record s { idle_backends = pool }))

unfoldable pub take_or_connect_backend :
    Bytes → StreamBackends → Result Bytes ActiveBackend × StreamBackends
take_or_connect_backend service_id s =
    idle_or_connect service_id (idle_pop service_id s.idle_backends) s

abbrev pub keep_idle : Bytes → Result Bytes ActiveBackend × StreamBackends → StreamBackends
keep_idle service_id (ok b, s) = record s { idle_backends = idle_push service_id b s.idle_backends }
keep_idle service_id (err e, s) = s

abbrev pub warm_route : Bytes → Option BackendRoute → StreamBackends → StreamBackends
warm_route service_id none s = s
warm_route service_id (some (direct_target target)) s = s
warm_route service_id (some (session_grant grant pin)) s =
    keep_idle service_id (after_connect service_id (connect_backend s))

-- With IDLE_BACKENDS_PER_SERVICE.
unfoldable pub ensure_idle_backend : Bytes → StreamBackends → StreamBackends
ensure_idle_backend service_id s =
    if leb 1 (idle_len service_id s.idle_backends)
    then s
    else warm_route service_id (map_get service_id s.routes) s

-- The services with a grant.
unfoldable pub warm_up_all : Map BackendRoute → StreamBackends → StreamBackends
warm_up_all [] s = s
warm_up_all ((service_id, direct_target target) ∷ rest) s = warm_up_all rest s
warm_up_all ((service_id, session_grant grant pin) ∷ rest) s =
    warm_up_all rest (ensure_idle_backend service_id s)

unfoldable pub warm_up : StreamBackends → StreamBackends
warm_up s = warm_up_all s.routes s

abbrev pub without_stream : Bytes → StreamBackends → StreamBackends
without_stream stream_id s = record s {
  streams = map_remove stream_id s.streams;
  pending_writes = map_remove stream_id s.pending_writes;
  stream_services = map_remove stream_id s.stream_services;
}

abbrev pub warm_again : Option Bytes → StreamBackends → StreamBackends
warm_again none s = s
warm_again (some service_id) s = ensure_idle_backend service_id s

unfoldable pub remove_stream : Bytes → StreamBackends → StreamBackends
remove_stream stream_id s =
    warm_again (map_get stream_id s.stream_services) (without_stream stream_id s)

abbrev pub call : StackCall → StreamBackends → StreamBackends
call c s = record s { calls = s.calls ++ c ∷ [] }

-- What became of a flush: the rest of the writes, what was sent, what is pending, and whether no write failed.
pub record Flushed : Type 0 where
  pub writes : List Wrote
  pub sent : Bytes
  pub pending : Bytes
  pub fine : Bool

-- `flush_pending_to_writer`, with its buffer of 8,192 bytes.
unfoldable pub flush_pending_to_writer : List Wrote → Bytes → Bytes → Flushed
flush_pending_to_writer [] sent pending = record {
  writes = [];
  sent = sent;
  pending = pending;
  fine = true;
}
flush_pending_to_writer (w ∷ ws) sent [] = record {
  writes = w ∷ ws;
  sent = sent;
  pending = [];
  fine = true;
}
flush_pending_to_writer (wrote n ∷ ws) sent (b ∷ pending) =
    let rest =
      flush_pending_to_writer ws (sent ++ take n (take 8192 (b ∷ pending)))
        (drop n (b ∷ pending)) in
    if n == 0 then record { writes = ws; sent = sent; pending = b ∷ pending; fine = true } else rest
flush_pending_to_writer (would_block ∷ ws) sent (b ∷ pending) = record {
  writes = ws;
  sent = sent;
  pending = b ∷ pending;
  fine = true;
}
flush_pending_to_writer (interrupted ∷ ws) sent (b ∷ pending) =
    flush_pending_to_writer ws sent (b ∷ pending)
flush_pending_to_writer (failed ∷ ws) sent (b ∷ pending) = record {
  writes = ws;
  sent = sent;
  pending = b ∷ pending;
  fine = false;
}

abbrev pub left_pending : Bytes → Bool → Bytes → Map Bytes → Map Bytes
left_pending stream_id true [] m = map_remove stream_id m
left_pending stream_id true (b ∷ pending) m = map_insert stream_id (b ∷ pending) m
left_pending stream_id false pending m = map_insert stream_id pending m

abbrev pub store_flushed : Bytes → ActiveBackend → Flushed → StreamBackends → Bool × StreamBackends
store_flushed stream_id b f s = (
  f.fine,
  record s {
    streams = map_insert stream_id (record b { sent = f.sent; writes = f.writes }) s.streams;
    pending_writes = left_pending stream_id f.fine f.pending s.pending_writes;
  },
)

abbrev pub flush_stream :
    Bytes → Option ActiveBackend → Option Bytes → StreamBackends → Bool × StreamBackends
flush_stream stream_id none pending s =
    (true, record s { pending_writes = map_remove stream_id s.pending_writes })
flush_stream stream_id (some b) none s = (true, s)
flush_stream stream_id (some b) (some pending) s =
    store_flushed stream_id b (flush_pending_to_writer b.writes b.sent pending) s

-- Whether no write failed, and the state.
unfoldable pub flush_pending_backend : Bytes → StreamBackends → Bool × StreamBackends
flush_pending_backend stream_id s =
    flush_stream stream_id (map_get stream_id s.streams) (map_get stream_id s.pending_writes) s

abbrev pub or_empty : Option Bytes → Bytes
or_empty none = []
or_empty (some pending) = pending

abbrev pub queued : Bytes → Bytes → StreamBackends → StreamBackends
queued stream_id bytes s = record s {
  pending_writes =
      map_insert stream_id (or_empty (map_get stream_id s.pending_writes) ++ bytes)
        s.pending_writes;
}

unfoldable pub queue_backend_write : Bytes → Bytes → StreamBackends → Bool × StreamBackends
queue_backend_write stream_id bytes s =
    if has (map_get stream_id s.streams)
    then flush_pending_backend stream_id (queued stream_id bytes s)
    else (true, s)

abbrev pub close_stream : Bytes → StreamBackends → StreamBackends
close_stream stream_id s = call (close_tcp stream_id) (remove_stream stream_id s)

abbrev pub close_unless : Bytes → Bool × StreamBackends → StreamBackends
close_unless stream_id (true, s) = s
close_unless stream_id (false, s) = close_stream stream_id s
