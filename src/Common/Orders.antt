-- ===== src/Common/Orders.antt =====
-- Integers, and orderings as the standard library has them.
use Prim.Native.Nat.{ℕ, compare, Ordering}
use mathlib.Core.Path.{◌≡◌, refl}
use mathlib.Core.Bool.{Bool, true, false}
use mathlib.Core.List.{[], ◌∷◌}
use native.Mathlib.Omega.{arith}
use medium.Common.ByteStrings.{Bytes}

-- An `i32`.
pub data ℤ : Type 0 where
  pos : ℕ → ℤ
  negsuc : ℕ → ℤ

abbrev pub swapped : Ordering → Ordering
swapped Ordering.lt = Ordering.gt
swapped Ordering.eq = Ordering.eq
swapped Ordering.gt = Ordering.lt

unfoldable pub compare_int : ℤ → ℤ → Ordering
compare_int (pos a) (pos b) = compare a b
compare_int (pos a) (negsuc b) = Ordering.gt
compare_int (negsuc a) (pos b) = Ordering.lt
compare_int (negsuc a) (negsuc b) = compare b a

-- `Ordering::then_with`.
unfoldable pub then_with : Ordering → Ordering → Ordering
then_with Ordering.eq o = o
then_with Ordering.lt o = Ordering.lt
then_with Ordering.gt o = Ordering.gt

-- `str::cmp`.
unfoldable pub compare_bytes : Bytes → Bytes → Ordering
compare_bytes [] [] = Ordering.eq
compare_bytes [] (y ∷ ys) = Ordering.lt
compare_bytes (x ∷ xs) [] = Ordering.gt
compare_bytes (x ∷ xs) (y ∷ ys) = then_with (compare x y) (compare_bytes xs ys)

abbrev pub not_greater : Ordering → Bool
not_greater Ordering.gt = false
not_greater _ = true

pub compare-swapped : (a b : ℕ) → compare b a ≡ swapped (compare a b)
compare-swapped a b = ground arith

pub compare_int-swapped : (a b : ℤ) → compare_int b a ≡ swapped (compare_int a b)
unfolding compare_int
compare_int-swapped (pos a) (pos b) = compare-swapped a b
compare_int-swapped (pos a) (negsuc b) = refl
compare_int-swapped (negsuc a) (pos b) = refl
compare_int-swapped (negsuc a) (negsuc b) = compare-swapped b a

pub then_with-swapped :
    (o o' p p' : Ordering)
    → o' ≡ swapped o
    → p' ≡ swapped p
    → then_with o' p' ≡ swapped (then_with o p)
unfolding then_with
then_with-swapped Ordering.lt o' p p' e f = rw e refl
then_with-swapped Ordering.eq o' p p' e f = rw e f
then_with-swapped Ordering.gt o' p p' e f = rw e refl

pub compare_bytes-swapped : (a b : Bytes) → compare_bytes b a ≡ swapped (compare_bytes a b)
unfolding compare_bytes
compare_bytes-swapped [] [] = refl
compare_bytes-swapped [] (y ∷ ys) = refl
compare_bytes-swapped (x ∷ xs) [] = refl
compare_bytes-swapped (x ∷ xs) (y ∷ ys) =
    then_with-swapped (compare x y) (compare y x) _ _ (compare-swapped x y)
      (compare_bytes-swapped xs ys)
