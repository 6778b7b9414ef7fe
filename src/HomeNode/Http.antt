-- ===== src/HomeNode/Http.antt =====
-- HTTP through the node's proxy: `complete_http_request`, the request that is read before the target is
-- connected, the error responses and `proxy_stream_to_service` of services/home-node/src/proxy.rs. The check of
-- UTF-8 and `trim` of the standard library are parameters; what a connection does is a list of events.
use medium.Common.{
  ℕ, ◌-◌, ◌^◌, Bool, true, false, ◌&&◌, List, [], ◌∷◌, ◌++◌, Option, none, some, Bytes, codes,
  length, drop, ltb, leb, ◌==◌, if◌then◌else◌, Result, ok, err, ◌>>=◌, starts_with, show_nat,
  parse_unsigned,
}
use medium.Candidates.{eq_ignore_ascii_case}
use medium.SessionToken.{split_again, split_once}
use medium.HomeNode.Proxy.{ProxyService, ServiceTlsMode, no_tls, http_tls, raw_tls}

pub record Strings : Type 0 where
  pub is_utf8 : Bytes → Bool
  pub trim : Bytes → Bytes

abbrev pub crlf : Bytes
crlf = 13 ∷ 10 ∷ []

abbrev pub line_feed : Bytes
line_feed = 10 ∷ []

abbrev pub head_end : Bytes
head_end = 13 ∷ 10 ∷ 13 ∷ 10 ∷ []

-- The headers, and what follows the empty line.
unfoldable pub split_head : Bytes → Option (Bytes × Bytes)
split_head [] = none
split_head (b ∷ bs) =
    if starts_with (b ∷ bs) head_end then some ([], drop 3 bs) else split_again b (split_head bs)

abbrev pub onto_line : ℕ → List Bytes → List Bytes
onto_line b [] = (b ∷ []) ∷ []
onto_line b (line ∷ rest) = (b ∷ line) ∷ rest

-- `lines`.
unfoldable pub lines : Bytes → List Bytes
lines [] = []
lines (b ∷ bs) =
    let rest = lines bs in
    if b == 10
    then [] ∷ rest
    else if b == 13 && starts_with bs line_feed
    then rest
    else onto_line b rest

abbrev pub largest_usize : ℕ
largest_usize = 2 ^ 64 - 1

module _ (strings : Strings) where
  abbrev pub length_in : Option (Bytes × Bytes) → Option ℕ
  length_in none = none
  length_in (some (name, value)) =
      if eq_ignore_ascii_case (strings.trim name) (codes "content-length")
      then parse_unsigned largest_usize (strings.trim value)
      else none

  abbrev pub or_length : Option ℕ → Option ℕ → Option ℕ
  or_length (some n) later = some n
  or_length none later = later

  -- `find_map` over the lines.
  unfoldable pub content_length : List Bytes → Option ℕ
  content_length [] = none
  content_length (line ∷ rest) = or_length (length_in (split_once 58 line)) (content_length rest)

  abbrev pub has_body : Option ℕ → Bytes → Bool
  has_body none body = true
  has_body (some n) body = leb n (length body)

  abbrev pub complete_head : Option (Bytes × Bytes) → Bool
  complete_head none = false
  complete_head (some (headers, body)) =
      if strings.is_utf8 headers then has_body (content_length (lines headers)) body else true

  unfoldable pub complete_http_request : Bytes → Bool
  complete_http_request bytes = complete_head (split_head bytes)

pub data ProxyError : Type 0 where
  tls_refused not_connected read_failed request_timed_out : ProxyError

-- One `read`: bytes (none at the end of the stream), or an error. When the list ends, the timer ends.
pub data Read : Type 0 where
  chunk : Bytes → Read
  broken : Read

-- What `read_http_request_for_proxy` returns, with the reads that are left.
unfoldable pub read_http_request :
    Strings → Bytes → List Read → Result ProxyError (Bytes × List Read)
read_http_request strings buffer [] = err request_timed_out
read_http_request strings buffer (broken ∷ reads) = err read_failed
read_http_request strings buffer (chunk [] ∷ reads) = ok (buffer, reads)
read_http_request strings buffer (chunk (b ∷ bytes) ∷ reads) =
    let more = buffer ++ b ∷ bytes in
    let rest = read_http_request strings more reads in
    if complete_http_request strings more
    then ok (more, reads)
    else if ltb 65536 (length more)
    then ok (more, reads)
    else rest

unfoldable pub http_error_response : Bytes → Bytes → Bytes
http_error_response status body =
    codes "HTTP/1.1 "
    ++ (status
        ++ (crlf
            ++ (codes "content-type: text/plain; charset=utf-8"
                ++ (crlf
                    ++ (codes "content-length: "
                        ++ (show_nat (length body)
                            ++ (crlf
                                ++ (codes "connection: close" ++ (crlf ++ (crlf ++ body))))))))))

module _ {T : Type 0} (service : ProxyService T) where
  -- The text about a service, with more lines at its end.
  unfoldable pub error_body : Bytes → Bytes → Bytes
  error_body what more =
      what
      ++ (line_feed
          ++ (line_feed
              ++ (codes "service: "
                  ++ (service.id
                      ++ (line_feed
                          ++ (codes "target: " ++ (service.target ++ (line_feed ++ more))))))))

  abbrev pub error_line : Bytes → Bytes
  error_line error = codes "error: " ++ (error ++ line_feed)

  unfoldable pub service_unavailable_response : Bytes → Bytes
  service_unavailable_response error =
      http_error_response (codes "502 Bad Gateway")
        (error_body (codes "Medium service target unavailable") (error_line error))

  unfoldable pub service_closed_response : Bytes → Bytes
  service_closed_response error = http_error_response (codes "502 Bad Gateway") (
      error_body (codes "Medium service target closed before returning a response")
        (error_line error))

  unfoldable pub service_timeout_response : Bytes
  service_timeout_response =
      http_error_response (codes "504 Gateway Timeout")
        (error_body (codes "Medium service target did not return a response in time") [])

  -- The first read from the target.
  abbrev pub target_closed : Bytes
  target_closed = codes "service target closed before returning a response"

pub data FirstRead : Type 0 where
  response : Bytes → FirstRead
  read_error : Bytes → FirstRead
  timed_out : FirstRead

-- What was written to the client, the request if all of it was written to the target, and whether the
-- two were joined after that.
pub record Proxied : Type 0 where
  pub to_client : Bytes
  pub to_target : Bytes
  pub joined : Bool

-- What TLS, the target and its connection do; an error has a text.
pub record Connections : Type 0 where
  pub accepts_tls : Bool
  pub reads : List Read
  pub connect : Option Bytes
  pub write : Option Bytes
  pub first : FirstRead

module _ {T : Type 0} (strings : Strings) (n : Connections) (service : ProxyService T) where
  abbrev pub refuse : Bytes → Bytes → Result ProxyError Proxied
  refuse bytes request = ok (record { to_client = bytes; to_target = request; joined = false })

  abbrev pub join : Bytes → Bytes → Result ProxyError Proxied
  join bytes request = ok (record { to_client = bytes; to_target = request; joined = true })

  unfoldable pub forward_first_http_response_chunk : Bytes → FirstRead → Result ProxyError Proxied
  forward_first_http_response_chunk request (response []) =
      refuse (service_closed_response service (target_closed service)) request
  forward_first_http_response_chunk request (response (b ∷ bytes)) = join (b ∷ bytes) request
  forward_first_http_response_chunk request (read_error error) =
      refuse (service_closed_response service error) request
  forward_first_http_response_chunk request timed_out =
      refuse (service_timeout_response service) request

  abbrev pub write_request : Bytes → Option Bytes → Result ProxyError Proxied
  write_request request none = forward_first_http_response_chunk request n.first
  write_request request (some error) = refuse (service_closed_response service error) []

  abbrev pub connect_http : Bytes → Option Bytes → Result ProxyError Proxied
  connect_http request none = write_request request n.write
  connect_http request (some error) = refuse (service_unavailable_response service error) []

  abbrev pub connect_raw : Option Bytes → Result ProxyError Proxied
  connect_raw none = join [] []
  connect_raw (some error) = err not_connected

  abbrev pub proxy_http : Result ProxyError Proxied
  proxy_http = read_http_request strings [] n.reads >>= λ r. connect_http r.0 n.connect

  abbrev pub proxy_tls : ServiceTlsMode → Result ProxyError Proxied
  proxy_tls raw_tls = connect_raw n.connect
  proxy_tls http_tls = proxy_http
  proxy_tls no_tls = proxy_http

  abbrev pub with_tls : Option T → Result ProxyError Proxied
  with_tls none = connect_raw n.connect
  with_tls (some config) = if n.accepts_tls then proxy_tls service.tls_mode else err tls_refused

  unfoldable pub proxy_stream_to_service : Result ProxyError Proxied
  proxy_stream_to_service = with_tls service.tls_config

-- One `read` of `copy_blocking`.
pub data Copied : Type 0 where
  copied : Bytes → Copied
  would_block timed_out interrupted : Copied
  failed : Copied

-- The bytes that are written, and whether the copy ended without an error; `none` while it still waits.
unfoldable pub copy_blocking : List Copied → Bytes × Option Bool
copy_blocking [] = ([], none)
copy_blocking (copied [] ∷ reads) = ([], some true)
copy_blocking (copied (b ∷ bytes) ∷ reads) =
    let rest = copy_blocking reads in ((b ∷ bytes) ++ rest.0, rest.1)
copy_blocking (Copied.would_block ∷ reads) = copy_blocking reads
copy_blocking (Copied.timed_out ∷ reads) = copy_blocking reads
copy_blocking (Copied.interrupted ∷ reads) = copy_blocking reads
copy_blocking (Copied.failed ∷ reads) = ([], some false)
