-- ===== src/HomeNode/Hello.antt =====
-- The greeting of a session on a WebSocket, and what follows it: `read_wss_session_hello` and the
-- direction from the WebSocket of `handle_wss_connection`, in services/home-node/src/proxy.rs.
-- serde_json is a parameter.
use medium.Common.{
  ℕ, ◌≤◌, ◌≡◌, List, [], ◌∷◌, ◌++◌, Option, none, some, Bytes, length, ltb, if◌then◌else◌, Result,
  ok, err, ◌>>=◌, ok_or,
}
use medium.SessionToken.{split_once}
use medium.Candidates.Greeting.{SessionHello}

pub data Message : Type 0 where
  binary : Bytes → Message
  close other failed : Message

pub data HelloError : Type 0 where
  missing_hello too_large closed invalid_hello broken : HelloError

abbrev pub newline : ℕ
newline = 10

-- What became of the line, with what follows it in its frame and the messages that are left.
abbrev pub hello_of :
    (Bytes → Option SessionHello)
    → Bytes
    → Bytes
    → List Message
    → Result HelloError (SessionHello × Bytes × List Message)
hello_of from_json [] remaining ms = err missing_hello
hello_of from_json (b ∷ line) remaining ms =
    ok_or (from_json (b ∷ line)) invalid_hello >>= λ hello. ok (hello, remaining, ms)

module _ (from_json : Bytes → Option SessionHello) where
  abbrev pub after_frame :
      Bytes
      → List Message
      → Option (Bytes × Bytes)
      → Result HelloError (SessionHello × Bytes × List Message)
      → Result HelloError (SessionHello × Bytes × List Message)
  after_frame payload ms (some (line, remaining)) again = hello_of from_json line remaining ms
  after_frame payload ms none again = if ltb 16384 (length payload) then err too_large else again

  unfoldable pub read_hello :
      Bytes → List Message → Result HelloError (SessionHello × Bytes × List Message)
  read_hello payload [] = err missing_hello
  read_hello payload (binary frame ∷ ms) =
      after_frame (payload ++ frame) ms (split_once newline (payload ++ frame))
        (read_hello (payload ++ frame) ms)
  read_hello payload (close ∷ ms) = err closed
  read_hello payload (other ∷ ms) = read_hello payload ms
  read_hello payload (failed ∷ ms) = err broken

  unfoldable pub read_wss_session_hello :
      List Message → Result HelloError (SessionHello × Bytes × List Message)
  read_wss_session_hello ms = read_hello [] ms

-- `ws_to_tcp`: the bytes that it writes into `bridge_tx`, as long as the proxy takes them: what came with
-- the greeting, then the frames. `handle_wss_connection` ends when this ends, whether or not the proxy has
-- read all of them.
unfoldable pub ws_to_tcp : Bytes → List Message → Result HelloError Bytes
ws_to_tcp initial [] = ok initial
ws_to_tcp initial (binary frame ∷ ms) = ws_to_tcp (initial ++ frame) ms
ws_to_tcp initial (close ∷ ms) = ok initial
ws_to_tcp initial (other ∷ ms) = ws_to_tcp initial ms
ws_to_tcp initial (failed ∷ ms) = err broken

-- The bytes of the messages up to the close.
abbrev pub stream : List Message → Bytes
stream [] = []
stream (binary frame ∷ ms) = frame ++ stream ms
stream (close ∷ ms) = []
stream (other ∷ ms) = stream ms
stream (failed ∷ ms) = []

-- No message up to the close fails.
abbrev pub IsUnbroken : List Message → Type 0
IsUnbroken [] = Unit
IsUnbroken (binary frame ∷ ms) = IsUnbroken ms
IsUnbroken (close ∷ ms) = Unit
IsUnbroken (other ∷ ms) = IsUnbroken ms
IsUnbroken (failed ∷ ms) = ⊥

module _ (from_json : Bytes → Option SessionHello) (line rest : Bytes)
    (h : length line ≤ 16384) where
  abbrev pub ReadsLine : Result HelloError (SessionHello × Bytes × List Message) → Type 0
  ReadsLine r =
      (left : Bytes) × (ms : List Message) × (r ≡ hello_of from_json line left ms)
      × (ws_to_tcp left ms ≡ ok rest)
