-- ===== src/WssStream.antt =====
-- The bytes of a WebSocket to the relay: `WssByteStream` of crates/medium-session/src/lib.rs.
-- What the socket gives is a list of messages and errors, what is sent on it a list of messages, with
-- what becomes of each send.
mod Reads
mod Examples
use medium.Common.{
  ℕ, Bool, true, false, List, [], ◌∷◌, ◌++◌, Option, none, some, Bytes, min, length, take, drop,
  Result, ok, err,
}

pub data Message : Type 0 where
  binary text ping pong : Bytes → Message
  frame closing : Message

pub data WssError : Type 0 where
  receive_failed send_failed : WssError

-- `sends` says whether each of the next sends succeeds; all after them do. Behind the last message
-- the socket fails.
pub record WssByteStream : Type 0 where
  pub pending_read : Bytes
  pub incoming : List (Option Message)
  pub outgoing : List Message
  pub sends : List Bool

abbrev pub Outcome : Type 0 → Type 0
Outcome A = Result WssError A × WssByteStream

abbrev pub transmit : Message → List Bool → WssByteStream → Bool × WssByteStream
transmit m [] s = (true, record s { outgoing = s.outgoing ++ m ∷ [] })
transmit m (true ∷ sends) s = (true, record s { outgoing = s.outgoing ++ m ∷ []; sends = sends })
transmit m (false ∷ sends) s = (false, record s { sends = sends })

-- Bytes that came: what fits into the buffer is returned, the rest is kept.
unfoldable pub deliver : ℕ → Bytes → List (Option Message) → WssByteStream → Outcome Bytes
deliver size bytes incoming s =
    let n = min size (length bytes) in
    (ok (take n bytes), record s { pending_read = drop n bytes; incoming = incoming })

abbrev pub if_sent : Bool × WssByteStream → (WssByteStream → Outcome Bytes) → Outcome Bytes
if_sent (true, s) again = again s
if_sent (false, s) again = (err send_failed, s)

-- The loop of `read`, with nothing pending.
unfoldable pub read_socket : ℕ → List (Option Message) → WssByteStream → Outcome Bytes
read_socket size [] s = (err receive_failed, record s { incoming = [] })
read_socket size (none ∷ ms) s = (err receive_failed, record s { incoming = ms })
read_socket size (some (binary bytes) ∷ ms) s = deliver size bytes ms s
read_socket size (some (text bytes) ∷ ms) s = deliver size bytes ms s
read_socket size (some closing ∷ ms) s = (ok [], record s { incoming = ms })
read_socket size (some (ping payload) ∷ ms) s =
    if_sent (transmit (pong payload) s.sends (record s { incoming = ms })) (read_socket size ms)
read_socket size (some (pong payload) ∷ ms) s = read_socket size ms s
read_socket size (some frame ∷ ms) s = read_socket size ms s

abbrev pub read_from : ℕ → Bytes → WssByteStream → Outcome Bytes
read_from size [] s = read_socket size s.incoming s
read_from size (b ∷ pending) s = deliver size (b ∷ pending) s.incoming s

-- `read` into a buffer of `size` bytes: the bytes that it puts there.
unfoldable pub read : ℕ → WssByteStream → Outcome Bytes
read size s = read_from size s.pending_read s

abbrev pub written : Bytes → Bool × WssByteStream → Outcome ℕ
written bytes (true, s) = (ok (length bytes), s)
written bytes (false, s) = (err send_failed, s)

-- `write`: the number of bytes that it reports.
unfoldable pub write : Bytes → WssByteStream → Outcome ℕ
write bytes s = written bytes (transmit (binary bytes) s.sends s)
