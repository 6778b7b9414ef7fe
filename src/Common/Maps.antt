-- ===== src/Common/Maps.antt =====
-- A `HashMap` with texts as keys: the list of its entries, at most one for each key.
use mathlib.Core.Path.{◌≡◌, refl, ◌∙◌}
use mathlib.Core.Logic.{inl, inr}
use mathlib.Core.Bool.{Bool, true, false}
use mathlib.Core.List.{List, [], ◌∷◌}
use mathlib.Core.Option.{Option, none, some}
use medium.Common.Tests.{if◌then◌else◌, Bool-cases}
use medium.Common.ByteStrings.{Bytes, bytes_eq, bytes_eq_iff, bytes_eq_refl}

abbrev pub Map : Type 0 → Type 0
Map V = List (Bytes × V)

abbrev pub has : {A : Type 0} → Option A → Bool
has none = false
has (some a) = true

other_key : (l k j : Bytes) → bytes_eq l k ≡ true → bytes_eq k j ≡ false → bytes_eq l j ≡ false
other_key l k j e f = rw ((bytes_eq_iff l k).0 e) f

module _ {V : Type 0} where
  unfoldable pub map_get : Bytes → Map V → Option V
  map_get k [] = none
  map_get k ((l, v) ∷ m) = if bytes_eq l k then some v else map_get k m

  unfoldable pub map_remove : Bytes → Map V → Map V
  map_remove k [] = []
  map_remove k ((l, v) ∷ m) =
      let rest = map_remove k m in if bytes_eq l k then rest else (l, v) ∷ rest

  abbrev pub map_insert : Bytes → V → Map V → Map V
  map_insert k v m = (k, v) ∷ map_remove k m

  abbrev pub map_keys : Map V → List Bytes
  map_keys [] = []
  map_keys ((k, v) ∷ m) = k ∷ map_keys m

  pub map_get-map_remove :
      (j k : Bytes) (m : Map V)
      → map_get j (map_remove k m) ≡ (if bytes_eq k j then none else map_get j m)
  unfolding map_get map_remove
  map_get-map_remove j k [] = elim (Bool-cases (bytes_eq k j)) [
    | inl e ↦ rw e refl
    | inr e ↦ rw e refl
  ]
  map_get-map_remove j k ((l, v) ∷ m) = elim (Bool-cases (bytes_eq l k)) [
    | inl e ↦ elim (Bool-cases (bytes_eq k j)) [
      | inl f ↦ rw (e, f) (map_get-map_remove j k m ∙ rw f refl)
      | inr f ↦ rw (e, f, other_key l k j e f) (map_get-map_remove j k m ∙ rw f refl)
    ]
    | inr e ↦ elim (Bool-cases (bytes_eq l j)) [
      | inl f ↦
          let apart : bytes_eq k j ≡ false = elim (Bool-cases (bytes_eq k j)) [
            | inl g ↦
                let same : bytes_eq l k ≡ true =
                  rw ((bytes_eq_iff l j).0 f, (bytes_eq_iff k j).0 g) (bytes_eq_refl j) in
                cc
            | inr g ↦ g
          ] in
          rw (e, f, apart) refl
      | inr f ↦ rw (e, f) (map_get-map_remove j k m)
    ]
  ]

  pub map_get-map_insert :
      (j k : Bytes) (v : V) (m : Map V)
      → map_get j (map_insert k v m) ≡ (if bytes_eq k j then some v else map_get j m)
  unfolding map_get
  map_get-map_insert j k v m = elim (Bool-cases (bytes_eq k j)) [
    | inl e ↦ rw e refl
    | inr e ↦ rw e (map_get-map_remove j k m ∙ rw e refl)
  ]
