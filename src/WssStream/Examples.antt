-- ===== src/WssStream/Examples.antt =====
-- The theorems about the WebSocket stream at a concrete input, and a test.
use medium.Common.{◌≡◌, refl, [], ◌∷◌, ◌++◌, none, some}
use medium.WssStream.{binary, text, ping, WssByteStream, read, read_socket, deliver}
use medium.WssStream.Reads.{read_all, left, read_all-left}

abbrev greeted : WssByteStream
greeted = record {
  pending_read = 1 ∷ [];
  incoming = some (ping []) ∷ some (binary (2 ∷ 3 ∷ 4 ∷ [])) ∷ none ∷ some (text (5 ∷ [])) ∷ [];
  outgoing = [];
  sends = [];
}

read_test : (read_all (2 ∷ 2 ∷ 2 ∷ []) greeted).0 ≡ 1 ∷ 2 ∷ 3 ∷ 4 ∷ []
unfolding read_all read read_socket deliver
read_test = refl

read_all-left_example :
    (read_all (2 ∷ 2 ∷ []) greeted).0 ++ left (read_all (2 ∷ 2 ∷ []) greeted).1 ≡ left greeted
read_all-left_example = read_all-left (2 ∷ 2 ∷ []) greeted
