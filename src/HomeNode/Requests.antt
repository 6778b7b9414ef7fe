-- ===== src/HomeNode/Requests.antt =====
-- How much of a stream is read as a request before the target is connected.
use medium.Common.{◌+◌, ◌≤◌, ◌<◌, ◌≡◌, ◌⊎◌, true, List, [], ◌∷◌, ◌++◌, Bytes, length}
use medium.HomeNode.Http.{Strings, complete_http_request, Read, chunk, broken}

-- The bytes up to the end of the stream or an error.
abbrev pub stream : List Read → Bytes
stream [] = []
stream (broken ∷ reads) = []
stream (chunk [] ∷ reads) = []
stream (chunk (b ∷ bytes) ∷ reads) = (b ∷ bytes) ++ stream reads

-- A read gives at most 1,024 bytes.
abbrev pub IsSmall : Read → Type 0
IsSmall (chunk bytes) = length bytes ≤ 1024
IsSmall broken = Unit

module _ (strings : Strings) where
  -- The request is what the stream begins with; it is whole, or all of the stream, or large.
  abbrev pub IsRequest : Bytes → Bytes → Type 0
  IsRequest bytes request =
      (rest : Bytes) × (bytes ≡ request ++ rest)
      × (length request ≤ 65536 + 1024)
      × ((complete_http_request strings request ≡ true) ⊎ ((rest ≡ []) ⊎ (65536 < length request)))
