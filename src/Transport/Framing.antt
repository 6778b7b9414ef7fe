-- ===== src/Transport/Framing.antt =====
-- Greetings as lines of JSON: `write_json_line` and `read_json_line` of
-- crates/overlay-transport/src/session.rs. serde_json is a pair of parameters.
use medium.Common.{
  ℕ, ◌≤◌, ◌≡◌, ◌≢◌, refl, sym, ap, ◌∙◌, false, [], ◌∷◌, ◌++◌, arith, Option, some, Bytes, length,
  length-append, All, ltb, ◌==◌, if◌then◌else◌, Result, ok, err, ◌>>=◌, ok_or,
}
use mathlib.Core.List.{append_assoc, append-nil}

pub data FrameError : Type 0 where
  not_serialized unexpected_eof too_large missing not_deserialized : FrameError

abbrev pub line_end : ℕ
line_end = 10

module _ {A : Type 0} where
  unfoldable pub write_json_line : (A → Option Bytes) → A → Result FrameError Bytes
  write_json_line to_json value =
      ok_or (to_json value) not_serialized >>= λ payload. ok (payload ++ line_end ∷ [])

-- The loop of `read_json_line`, with the line so far: the line, and what follows it.
unfoldable pub read_line : Bytes → Bytes → Result FrameError (Bytes × Bytes)
read_line line [] = err unexpected_eof
read_line line (b ∷ input) =
    let rest = read_line (line ++ b ∷ []) input in
    if b == line_end
    then ok (line, input)
    else if ltb 16384 (length (line ++ b ∷ []))
    then err too_large
    else rest

module _ {A : Type 0} (from_json : Bytes → Option A) where
  abbrev pub value_of : Bytes × Bytes → Result FrameError (A × Bytes)
  value_of ([], rest) = err missing
  value_of (b ∷ line, rest) =
      ok_or (from_json (b ∷ line)) not_deserialized >>= λ value. ok (value, rest)

  unfoldable pub read_json_line : Bytes → Result FrameError (A × Bytes)
  read_json_line input = read_line [] input >>= value_of

read_line-line :
    (line more rest : Bytes)
    → All (λ b. b ≢ line_end) more
    → length (line ++ more) ≤ 16384
    → read_line line (more ++ line_end ∷ rest) ≡ ok (line ++ more, rest)
unfolding read_line
read_line-line line [] rest h k = ap (λ l. ok (l, rest)) (sym (append-nil line))
read_line-line line (b ∷ more) rest h k =
    let other : (b == line_end) ≡ false = ground (arith, h.0) in
    let joined : (line ++ b ∷ []) ++ more ≡ line ++ b ∷ more = append_assoc line (b ∷ []) more in
    let small : ltb 16384 (length (line ++ b ∷ [])) ≡ false =
      fits (omega (arith, k, length-append line (b ∷ more), length-append line (b ∷ []))) in
    rw (other, small)
      (read_line-line (line ++ b ∷ []) more rest h.1 (rw joined k) ∙ ap (λ l. ok (l, rest)) joined)
  where
    fits : {n : ℕ} → n ≤ 16384 → ltb 16384 n ≡ false
    fits h = ground (arith, h)

-- What the greetings rely on of serde_json: a value is read back from its text, and the text is not
-- empty and has no line end.
pub record IsJson {A : Type 0} (to_json : A → Option Bytes) (from_json : Bytes → Option A)
    : Type 0 where
  pub from_json-to_json : (a : A) (text : Bytes) → to_json a ≡ some text → from_json text ≡ some a
  pub one_line : (a : A) (text : Bytes) → to_json a ≡ some text → All (λ b. b ≢ line_end) text
  pub not_empty : (a : A) (text : Bytes) → to_json a ≡ some text → text ≢ []

module _ {A : Type 0} (to_json : A → Option Bytes) (from_json : Bytes → Option A)
    (laws : IsJson to_json from_json) where
  value_of-text :
      (a : A) (text rest : Bytes)
      → from_json text ≡ some a
      → text ≢ []
      → value_of from_json (text, rest) ≡ ok (a, rest)
  value_of-text a [] rest e n = elim (n refl) [ ]
  value_of-text a (b ∷ text) rest e n = rw e refl

  -- A greeting of at most 16 KiB is written as its text and a line end, and read back whatever follows it,
  -- which is left for the reads that come next.
  pub read_json_line-write_json_line :
      (a : A) (text rest : Bytes)
      → to_json a ≡ some text
      → length text ≤ 16384
      → (frame : Bytes) × (write_json_line to_json a ≡ ok frame)
        × (read_json_line from_json (frame ++ rest) ≡ ok (a, rest))
  unfolding write_json_line read_json_line
  read_json_line-write_json_line a text rest e h = (
    text ++ line_end ∷ [],
    rw e refl,
    ap (λ input. read_line [] input >>= value_of from_json) (append_assoc text (line_end ∷ []) rest)
        ∙ ap (λ r. r >>= value_of from_json)
            (read_line-line [] text rest (laws.one_line a text e) h)
        ∙ value_of-text a text rest (laws.from_json-to_json a text e) (laws.not_empty a text e),
  )
