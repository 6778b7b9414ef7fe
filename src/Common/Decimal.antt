-- ===== src/Common/Decimal.antt =====
-- Decimal numbers as Rust prints them (`to_string`) and reads them (`parse` of an unsigned integer
-- type with this largest value).
use Prim.Native.Nat.{ℕ, zero, suc, ◌+◌, ◌-◌, ◌*◌, ◌/◌, ◌%◌, ◌≤◌, ◌<◌}
use mathlib.Core.Path.{◌≡◌, refl, ap, ◌∙◌}
use mathlib.Core.Logic.{inl, inr}
use mathlib.Core.Bool.{true, false, ◌&&◌}
use mathlib.Core.List.{[], ◌∷◌}
use mathlib.Core.Option.{Option, none, some}
use native.Mathlib.Omega.{arith}
use medium.Common.Tests.{ltb, leb, ◌==◌, if◌then◌else◌, Bool-cases}
use medium.Common.ByteStrings.{Bytes}

show_digits : ℕ → ℕ → Bytes → Bytes
show_digits zero n out = out
show_digits (suc fuel) n out =
    let more = show_digits fuel (n / 10) ((48 + n % 10) ∷ out) in
    if ltb n 10 then (48 + n % 10) ∷ out else more

-- The digits of a number.
unfoldable pub show_nat : ℕ → Bytes
unfolding show_digits
show_nat n = show_digits (suc n) n []

unfoldable pub scan : ℕ → ℕ → Bytes → Option ℕ
scan largest n [] = some n
scan largest n (c ∷ cs) =
    let rest = scan largest (n * 10 + (c - 48)) cs in
    if leb 48 c && leb c 57 then (if leb (n * 10 + (c - 48)) largest then rest else none) else none

-- Behind the sign that the number may have.
unfoldable pub parse_unsigned : ℕ → Bytes → Option ℕ
parse_unsigned largest [] = none
parse_unsigned largest (c ∷ []) = scan largest 0 (c ∷ [])
parse_unsigned largest (c ∷ d ∷ cs) =
    if c == 43 then scan largest 0 (d ∷ cs) else scan largest 0 (c ∷ d ∷ cs)

scan-digit :
    (largest n d : ℕ) (cs : Bytes)
    → d < 10
    → n * 10 + d ≤ largest
    → scan largest n ((48 + d) ∷ cs) ≡ scan largest (n * 10 + d) cs
unfolding scan
scan-digit largest n d cs h k =
    let low : leb 48 (48 + d) ≡ true = ground arith in
    let high : leb (48 + d) 57 ≡ true = ground arith in
    let same : 48 + d - 48 ≡ d = omega arith in
    let fits : leb (n * 10 + d) largest ≡ true = ground arith in rw (low, high, same, fits) refl

scan-show_digits :
    (largest fuel n : ℕ) (out : Bytes)
    → n < fuel
    → n ≤ largest
    → scan largest 0 (show_digits fuel n out) ≡ scan largest n out
unfolding show_digits
scan-show_digits largest zero n out h k = elim h [ ]
scan-show_digits largest (suc fuel) n out h k = elim (Bool-cases (ltb n 10)) [
  | inl small ↦
      let below : n < 10 = ground arith in
      let digit : 0 * 10 + n % 10 ≡ n = omega arith in
      rw small (
        scan-digit largest 0 (n % 10) out (omega arith) (omega arith)
        ∙ ap (λ m. scan largest m out) digit)
  | inr large ↦
      let above : 10 ≤ n = ground arith in
      let digits : n / 10 * 10 + n % 10 ≡ n = omega arith in
      rw large (
        scan-show_digits largest fuel (n / 10) ((48 + n % 10) ∷ out) (omega arith) (omega arith)
        ∙ scan-digit largest (n / 10) (n % 10) out (omega arith) (omega arith)
        ∙ ap (λ m. scan largest m out) digits)
]

abbrev Unsigned : Bytes → Type 0
Unsigned [] = ⊥
Unsigned (c ∷ cs) = 48 ≤ c

show_digits-Unsigned : (fuel n : ℕ) (out : Bytes) → n < fuel → Unsigned (show_digits fuel n out)
unfolding show_digits
show_digits-Unsigned zero n out h = elim h [ ]
show_digits-Unsigned (suc fuel) n out h = elim (Bool-cases (ltb n 10)) [
  | inl small ↦ rw small (omega arith)
  | inr large ↦
      let above : 10 ≤ n = ground arith in
      rw large (show_digits-Unsigned fuel (n / 10) ((48 + n % 10) ∷ out) (omega arith))
]

parse_unsigned-scan :
    (largest : ℕ) (bytes : Bytes)
    → Unsigned bytes
    → parse_unsigned largest bytes ≡ scan largest 0 bytes
unfolding parse_unsigned
parse_unsigned-scan largest [] h = elim h [ ]
parse_unsigned-scan largest (c ∷ []) h = refl
parse_unsigned-scan largest (c ∷ d ∷ cs) h =
    let other : (c == 43) ≡ false = ground arith in rw other refl

-- A number that fits is read back from its digits.
pub parse_unsigned-show_nat :
    (largest n : ℕ) → n ≤ largest → parse_unsigned largest (show_nat n) ≡ some n
unfolding show_nat scan
parse_unsigned-show_nat largest n h =
    parse_unsigned-scan largest (show_digits (suc n) n [])
      (show_digits-Unsigned (suc n) n [] (omega arith))
    ∙ scan-show_digits largest (suc n) n [] (omega arith) h
