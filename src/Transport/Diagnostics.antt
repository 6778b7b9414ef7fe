-- ===== src/Transport/Diagnostics.antt =====
-- A line of diagnostics: crates/overlay-transport/src/p2p_diag.rs.
use medium.Common.{
  ℕ, Bool, true, false, ◌&&◌, not, List, [], ◌∷◌, ◌++◌, Bytes, codes, leb, ◌==◌, if◌then◌else◌,
}

-- `is_ascii_graphic`, and neither a quote nor a backslash.
abbrev pub is_plain : ℕ → Bool
is_plain b = leb 33 b && leb b 126 && not (b == 34) && not (b == 92)

abbrev pub all_plain : Bytes → Bool
all_plain [] = true
all_plain (b ∷ bytes) = is_plain b && all_plain bytes

abbrev pub escaped_char : ℕ → Bytes
escaped_char c =
    if c == 92
    then 92 ∷ 92 ∷ []
    else if c == 34
    then 92 ∷ 34 ∷ []
    else if c == 10
    then 92 ∷ 110 ∷ []
    else if c == 13
    then 92 ∷ 114 ∷ []
    else if c == 9
    then 92 ∷ 116 ∷ []
    else c ∷ []

unfoldable pub escape_all : Bytes → Bytes
escape_all [] = []
escape_all (c ∷ cs) = escaped_char c ++ escape_all cs

abbrev pub is_blank : Bytes → Bool
is_blank [] = true
is_blank (b ∷ bytes) = false

unfoldable pub format_value : Bytes → Bytes
format_value value =
    if not (is_blank value) && all_plain value then value else 34 ∷ (escape_all value ++ 34 ∷ [])

unfoldable pub format_fields : List (Bytes × Bytes) → Bytes
format_fields [] = []
format_fields ((key, value) ∷ fields) =
    32 ∷ (key ++ (61 ∷ (format_value value ++ format_fields fields)))

unfoldable pub line : Bytes → Bytes → List (Bytes × Bytes) → Bytes
line phase result fields =
    codes "p2p_diag phase="
    ++ (format_value phase ++ (codes " result=" ++ (format_value result ++ format_fields fields)))
