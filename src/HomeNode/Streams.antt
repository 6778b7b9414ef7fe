-- ===== src/HomeNode/Streams.antt =====
-- The theorems about the streams of a session at a concrete input, and tests.
use medium.Common.{
  ◌≡◌, refl, true, [], ◌∷◌, ◌++◌, none, some, Option, Bytes, List, codes, ◌==◌, ok,
  trim_start_matches,
}
use medium.Candidates.Greeting.{SessionHello}
use medium.SessionToken.{split_once}
use medium.HomeNode.Hello.{Message, binary, close, other, read_hello, read_wss_session_hello}
use medium.HomeNode.Http.{Strings, crlf, Read, chunk}

abbrev hello : SessionHello
hello = record { token = 1 ∷ []; service_id = 2 ∷ []; transport = none }

abbrev from_json : Bytes → Option SessionHello
from_json bytes = some hello

abbrev messages : List Message
messages = binary (5 ∷ []) ∷ other ∷ binary (6 ∷ 10 ∷ 7 ∷ []) ∷ binary (8 ∷ []) ∷ close ∷ []

hello_test :
    read_wss_session_hello from_json messages ≡ ok (hello, 7 ∷ [], binary (8 ∷ []) ∷ close ∷ [])
unfolding read_wss_session_hello read_hello split_once
hello_test = refl

abbrev strings : Strings
strings = record {
  is_utf8 = λ bytes. true;
  trim = λ bytes. trim_start_matches (λ c. c == 32) bytes;
}

abbrev head : Bytes
head = codes "GET /" ++ (crlf ++ (codes "Content-Length: 2" ++ (crlf ++ crlf)))

abbrev reads : List Read
reads = chunk head ∷ chunk (65 ∷ []) ∷ chunk (66 ∷ []) ∷ chunk (67 ∷ []) ∷ []
