-- ===== src/Candidates/Greeting.antt =====
-- Where a WebSocket to the relay connects, and the greeting of a session that is sent on it:
-- `websocket_tcp_addr` and `session_hello_frame` of crates/medium-session/src/lib.rs.
-- The parser of URLs, which gives the host and the port, known by default or written, the decimal form
-- of a port and serde_json are parameters.
use medium.Common.{
  ℕ, ◌≡◌, refl, [], ◌∷◌, ◌++◌, Option, none, some, Bytes, codes, Result, ok, ◌>>=◌, ok_or,
}

pub data UrlError : Type 0 where
  not_a_url missing_host missing_port not_serialized : UrlError

pub record Url : Type 0 where
  pub host : Option Bytes
  pub port : Option ℕ

unfoldable pub websocket_tcp_addr :
    (Bytes → Option Url) → (ℕ → Bytes) → Bytes → Result UrlError Bytes
websocket_tcp_addr parse show_port relay_url = ok_or (parse relay_url) not_a_url >>= λ url.
    ok_or url.host missing_host >>= λ host.
    ok_or url.port missing_port >>= λ port. ok (host ++ codes ":" ++ show_port port)

pub record SessionHello : Type 0 where
  pub token : Bytes
  pub service_id : Bytes
  pub transport : Option Bytes

-- The grant's token and service, as a line of JSON.
unfoldable pub session_hello_frame :
    (SessionHello → Option Bytes) → Bytes → Bytes → Result UrlError Bytes
session_hello_frame to_json token service_id =
    ok_or (to_json (record { token = token; service_id = service_id; transport = none }))
      not_serialized
    >>= λ payload. ok (payload ++ 10 ∷ [])

addr_test :
    websocket_tcp_addr
      (λ url. some (record { host = some url; port = some 443 }))
      (λ port. codes "443")
      (codes "relay")
    ≡ ok (codes "relay:443")
unfolding websocket_tcp_addr
addr_test = refl

frame_test :
    session_hello_frame (λ hello. some (hello.token ++ hello.service_id)) (1 ∷ []) (2 ∷ [])
    ≡ ok (1 ∷ 2 ∷ 10 ∷ [])
unfolding session_hello_frame
frame_test = refl
