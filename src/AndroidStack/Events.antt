-- ===== src/AndroidStack/Events.antt =====
-- The events of the virtual network and the two pumps: `handle_event`, `open_backend`, `pump_writes` and
-- `pump_reads` of crates/medium-android-netstack/src/lib.rs, and the page for a service that is not
-- reached.
use medium.Common.{
  ℕ, Bool, true, false, List, [], ◌∷◌, ◌++◌, Option, none, some, Bytes, codes, length, ◌==◌,
  if◌then◌else◌, Result, ok, err, Map, map_get, map_insert, map_keys, show_nat,
}
use medium.AndroidStack.Backends.{
  WasRead, bytes_read, ActiveBackend, BackendRoute, StackCall, send_tcp, close_tcp, StreamBackends,
  TcpPumpEvent, connected, received, closed, take_or_connect_backend, remove_stream, call,
  flush_pending_backend, queue_backend_write, close_stream, close_unless,
}

abbrev pub escaped : ℕ → Bytes
escaped c =
    if c == 38
    then codes "&amp;"
    else if c == 60
    then codes "&lt;"
    else if c == 62
    then codes "&gt;"
    else if c == 34
    then codes "&quot;"
    else c ∷ []

unfoldable pub html_escape : Bytes → Bytes
html_escape [] = []
html_escape (c ∷ cs) = escaped c ++ html_escape cs

abbrev pub quote : Bytes
quote = 34 ∷ []

unfoldable pub diagnostic_body : Bytes → Bytes → Bytes
diagnostic_body title body =
    codes "<!doctype html><html><head><meta charset="
    ++ (quote
        ++ (codes "utf-8"
            ++ (quote
                ++ (codes "><title>"
                    ++ (html_escape title
                        ++ (codes "</title></head><body style="
                            ++ (quote
                                ++ (codes
                                      "font-family: sans-serif; padding: 24px; line-height: 1.45"
                                    ++ (quote
                                        ++ (codes "><h1>"
                                            ++ (html_escape title
                                                ++ (codes "</h1><pre style="
                                                    ++ (quote
                                                        ++ (codes "white-space: pre-wrap"
                                                            ++ (quote
                                                            ++ (codes ">"
                                                            ++ (html_escape body
                                                            ++ codes
                                                            "</pre></body></html>")))))))))))))))))

abbrev pub crlf : Bytes
crlf = 13 ∷ 10 ∷ []

unfoldable pub diagnostic_http_response : ℕ → Bytes → Bytes → Bytes
diagnostic_http_response status title body =
    let body = diagnostic_body title body in
    codes "HTTP/1.1 "
    ++ (show_nat status
        ++ (codes " "
            ++ (title
                ++ (crlf
                    ++ (codes "Content-Type: text/html; charset=utf-8"
                        ++ (crlf
                            ++ (codes "Content-Length: "
                                ++ (show_nat (length body)
                                    ++ (crlf
                                        ++ (codes "Connection: close"
                                            ++ (crlf ++ (crlf ++ body))))))))))))

abbrev pub blank : Bytes
blank = 10 ∷ 10 ∷ []

unfoldable pub unreachable : Bytes → Bytes → Bytes
unreachable service_id error =
    codes
      "Medium resolved the service and accepted the browser TCP connection, but no backend candidate could be reached for service `"
    ++ (service_id
        ++ (codes "`."
            ++ (blank
                ++ (codes "Last error:"
                    ++ (10
                        ∷ (error
                            ++ (blank
                                ++ codes
                                    "Check that the node-agent is running and that either direct TCP is reachable or relay/WSS relay is configured and reachable from this phone.")))))))

abbrev pub opened : Bytes → Bytes → Result Bytes ActiveBackend × StreamBackends → StreamBackends
opened stream_id service_id (ok b, s) = record s {
  streams = map_insert stream_id b s.streams;
  stream_services = map_insert stream_id service_id s.stream_services;
}
opened stream_id service_id (err e, s) = call (close_tcp stream_id) (
    call
      (send_tcp stream_id (
        diagnostic_http_response 502 (codes "Medium backend unavailable")
          (unreachable service_id e)))
      s)

abbrev pub open_route : Bytes → Bytes → Option BackendRoute → StreamBackends → StreamBackends
open_route stream_id service_id none s = call (close_tcp stream_id) s
open_route stream_id service_id (some route) s =
    opened stream_id service_id (take_or_connect_backend service_id s)

unfoldable pub open_backend : Bytes → Bytes → StreamBackends → StreamBackends
open_backend stream_id service_id s =
    open_route stream_id service_id (map_get service_id s.routes) s

unfoldable pub handle_event : TcpPumpEvent → StreamBackends → StreamBackends
handle_event (connected stream_id service_id) s = open_backend stream_id service_id s
handle_event (received stream_id bytes) s =
    close_unless stream_id (queue_backend_write stream_id bytes s)
handle_event (closed stream_id) s = remove_stream stream_id s

unfoldable pub close_all : List Bytes → StreamBackends → StreamBackends
close_all [] s = s
close_all (stream_id ∷ ids) s = close_all ids (close_stream stream_id s)

abbrev pub note_failed : Bytes → Bool → List Bytes → List Bytes
note_failed stream_id true ids = ids
note_failed stream_id false ids = ids ++ stream_id ∷ []

-- The streams whose writes failed, after those that are noted, and the state.
unfoldable pub flush_all : List Bytes → List Bytes → StreamBackends → List Bytes × StreamBackends
flush_all [] failures s = (failures, s)
flush_all (stream_id ∷ ids) failures s =
    let flushed = flush_pending_backend stream_id s in
    flush_all ids (note_failed stream_id flushed.0 failures) flushed.1

unfoldable pub pump_writes : StreamBackends → StreamBackends
pump_writes s =
    let flushed = flush_all (map_keys s.pending_writes) [] s in close_all flushed.0 flushed.1

-- The reads of one stream: the calls, the reads that are left, and whether the stream is at its end.
unfoldable pub read_stream : Bytes → List WasRead → List StackCall × List WasRead × Bool
read_stream stream_id [] = ([], [], false)
read_stream stream_id (bytes_read [] ∷ rs) = ([], rs, true)
read_stream stream_id (bytes_read (b ∷ bytes) ∷ rs) =
    let (calls, rest, end) = read_stream stream_id rs in
    (send_tcp stream_id (b ∷ bytes) ∷ calls, rest, end)
read_stream stream_id (WasRead.would_block ∷ rs) = ([], rs, false)
read_stream stream_id (WasRead.interrupted ∷ rs) = read_stream stream_id rs
read_stream stream_id (WasRead.failed ∷ rs) = ([], rs, true)

abbrev pub note_end : Bytes → Bool → List Bytes → List Bytes
note_end stream_id true ids = stream_id ∷ ids
note_end stream_id false ids = ids

-- The calls, the streams, and those at their end.
unfoldable pub read_streams : Map ActiveBackend → List StackCall × Map ActiveBackend × List Bytes
read_streams [] = ([], [], [])
read_streams ((stream_id, b) ∷ streams) =
    let (calls, reads, end) = read_stream stream_id b.reads in
    let (later, rest, ends) = read_streams streams in
    (calls ++ later, (stream_id, record b { reads = reads }) ∷ rest, note_end stream_id end ends)

unfoldable pub pump_reads : StreamBackends → StreamBackends
pump_reads s =
    let (calls, streams, ends) = read_streams s.streams in
    close_all ends (record s { streams = streams; calls = s.calls ++ calls })

unfoldable pub handle_events : List TcpPumpEvent → StreamBackends → StreamBackends
handle_events [] s = s
handle_events (e ∷ es) s = handle_events es (handle_event e s)

-- A turn of `run_tun_loop`, with the events that the stack's poll gives.
unfoldable pub turn : List TcpPumpEvent → StreamBackends → StreamBackends
turn events s = pump_writes (pump_reads (pump_writes (handle_events events s)))

unfoldable pub run_turns : List (List TcpPumpEvent) → StreamBackends → StreamBackends
run_turns [] s = s
run_turns (events ∷ turns) s = run_turns turns (turn events s)
