-- ===== src/Common/Texts.antt =====
-- Parts of a text: `rsplit_once`, `trim_matches`, `starts_with`.
use Prim.Native.Nat.{ℕ}
use mathlib.Core.Bool.{Bool, true, false, ◌&&◌}
use mathlib.Core.List.{[], ◌∷◌, reverse}
use mathlib.Core.Option.{Option, none, some}
use medium.Common.Tests.{◌==◌, if◌then◌else◌}
use medium.Common.ByteStrings.{Bytes}

abbrev pub rsplit_later : ℕ → ℕ → Bytes → Option (Bytes × Bytes) → Option (Bytes × Bytes)
rsplit_later c b bs (some (before, after)) = some (b ∷ before, after)
rsplit_later c b bs none = if b == c then some ([], bs) else none

-- `rsplit_once`: around the last `c`.
unfoldable pub rsplit_once : ℕ → Bytes → Option (Bytes × Bytes)
rsplit_once c [] = none
rsplit_once c (b ∷ bs) = rsplit_later c b bs (rsplit_once c bs)

unfoldable pub starts_with : Bytes → Bytes → Bool
starts_with bytes [] = true
starts_with [] (p ∷ prefix) = false
starts_with (b ∷ bytes) (p ∷ prefix) = b == p && starts_with bytes prefix

unfoldable pub trim_start_matches : (ℕ → Bool) → Bytes → Bytes
trim_start_matches p [] = []
trim_start_matches p (b ∷ bytes) =
    let rest = trim_start_matches p bytes in if p b then rest else b ∷ bytes

unfoldable pub trim_matches : (ℕ → Bool) → Bytes → Bytes
trim_matches p bytes = reverse (trim_start_matches p (reverse (trim_start_matches p bytes)))
