-- ===== src/Common/Sorting.antt =====
-- `sort_by`, `retain` and `filter`.
use Prim.Native.Nat.{ℕ, ◌+◌, Ordering}
use mathlib.Core.Path.{◌≡◌, refl, ap, ◌∙◌}
use mathlib.Core.Logic.{inl, inr}
use mathlib.Core.Bool.{Bool, true, false, ◌&&◌}
use mathlib.Core.List.{List, [], ◌∷◌, ◌++◌, map}
use native.Mathlib.Omega.{arith}
use medium.Common.Tests.{if◌then◌else◌, Bool-cases}
use medium.Common.Lists.{All}
use medium.Common.Orders.{swapped, not_greater}

module _ {A : Type 0} (cmp : A → A → Ordering) where
  unfoldable pub insert : A → List A → List A
  insert x [] = x ∷ []
  insert x (y ∷ ys) =
      let rest = insert x ys in if not_greater (cmp x y) then x ∷ y ∷ ys else y ∷ rest

  -- `sort_by`, which is stable.
  unfoldable pub sort_by : List A → List A
  sort_by [] = []
  sort_by (x ∷ xs) = insert x (sort_by xs)

module _ {A : Type 0} (p : A → Bool) where
  -- `retain`, and `filter`.
  unfoldable pub retain : List A → List A
  retain [] = []
  retain (x ∷ xs) = let rest = retain xs in if p x then x ∷ rest else rest

module _ {A : Type 0} where
  -- How many entries pass a test.
  unfoldable pub count : (A → Bool) → List A → ℕ
  count p [] = 0
  count p (x ∷ xs) = (if p x then 1 else 0) + count p xs

  pub count-retain :
      (p q : A → Bool) (xs : List A) → count p (retain q xs) ≡ count (λ x. q x && p x) xs
  unfolding count retain
  count-retain p q [] = refl
  count-retain p q (x ∷ xs) = elim (Bool-cases (q x)) [
    | inl e ↦ rw e (ap (λ n. (if p x then 1 else 0) + n) (count-retain p q xs))
    | inr e ↦ rw e (count-retain p q xs ∙ omega arith)
  ]

  pub count-same : (p q : A → Bool) (xs : List A) → ((x : A) → p x ≡ q x) → count p xs ≡ count q xs
  unfolding count
  count-same p q [] h = refl
  count-same p q (x ∷ xs) h = rw (h x, count-same p q xs h) refl

  pub All-retain :
      (P : A → Type 0) (q : A → Bool) (xs : List A)
      → ((x : A) → q x ≡ true → P x)
      → All P (retain q xs)
  unfolding retain
  All-retain P q [] h = tt
  All-retain P q (x ∷ xs) h = elim (Bool-cases (q x)) [
    | inl e ↦ rw e (h x e, All-retain P q xs h)
    | inr e ↦ rw e (All-retain P q xs h)
  ]

  module _ (cmp : A → A → Ordering) where
    abbrev pub Starts : A → List A → Type 0
    Starts x [] = Unit
    Starts x (y ∷ ys) = not_greater (cmp x y) ≡ true

    -- No entry is greater than the next one.
    abbrev pub IsSorted : List A → Type 0
    IsSorted [] = Unit
    IsSorted (x ∷ xs) = Starts x xs × IsSorted xs

    count-insert :
        (p : A → Bool) (x : A) (xs : List A) → count p (insert cmp x xs) ≡ count p (x ∷ xs)
    unfolding count insert
    count-insert p x [] = refl
    count-insert p x (y ∷ ys) = elim (Bool-cases (not_greater (cmp x y))) [
      | inl e ↦ rw e refl
      | inr e ↦ rw e (omega (arith, count-insert p x ys))
    ]

    pub count-sort_by : (p : A → Bool) (xs : List A) → count p (sort_by cmp xs) ≡ count p xs
    unfolding count sort_by
    count-sort_by p [] = refl
    count-sort_by p (x ∷ xs) =
        count-insert p x (sort_by cmp xs)
        ∙ ap (λ n. (if p x then 1 else 0) + n) (count-sort_by p xs)

    insert-All : (P : A → Type 0) (x : A) (xs : List A) → P x → All P xs → All P (insert cmp x xs)
    unfolding insert
    insert-All P x [] h k = (h, tt)
    insert-All P x (y ∷ ys) h k = elim (Bool-cases (not_greater (cmp x y))) [
      | inl e ↦ rw e (h, k)
      | inr e ↦ rw e (k.0, insert-All P x ys h k.1)
    ]

    pub sort_by-All : (P : A → Type 0) (xs : List A) → All P xs → All P (sort_by cmp xs)
    unfolding sort_by
    sort_by-All P [] h = tt
    sort_by-All P (x ∷ xs) h = insert-All P x (sort_by cmp xs) h.0 (sort_by-All P xs h.1)

    module _ (swaps : (x y : A) → cmp y x ≡ swapped (cmp x y)) where
      other_way : (o : Ordering) → not_greater o ≡ false → not_greater (swapped o) ≡ true
      other_way Ordering.lt e = cc
      other_way Ordering.eq e = cc
      other_way Ordering.gt e = refl

      insert-Starts :
          (y x : A) (ys : List A)
          → not_greater (cmp x y) ≡ false
          → Starts y ys
          → Starts y (insert cmp x ys)
      unfolding insert
      insert-Starts y x [] e h = rw (swaps x y) (other_way (cmp x y) e)
      insert-Starts y x (z ∷ zs) e h = elim (Bool-cases (not_greater (cmp x z))) [
        | inl f ↦ rw f (rw (swaps x y) (other_way (cmp x y) e))
        | inr f ↦ rw f h
      ]

      insert-IsSorted : (x : A) (xs : List A) → IsSorted xs → IsSorted (insert cmp x xs)
      unfolding insert
      insert-IsSorted x [] h = (tt, tt)
      insert-IsSorted x (y ∷ ys) h = elim (Bool-cases (not_greater (cmp x y))) [
        | inl e ↦ rw e (e, h)
        | inr e ↦ rw e (insert-Starts y x ys e h.0, insert-IsSorted x ys h.1)
      ]

      pub sort_by-IsSorted : (xs : List A) → IsSorted (sort_by cmp xs)
      unfolding sort_by
      sort_by-IsSorted [] = tt
      sort_by-IsSorted (x ∷ xs) = insert-IsSorted x (sort_by cmp xs) (sort_by-IsSorted xs)

-- How `retain` and `sort_by` go with the other functions on lists.
module _ {A : Type 0} where
  pub retain-append :
      (p : A → Bool) (xs ys : List A) → retain p (xs ++ ys) ≡ retain p xs ++ retain p ys
  unfolding retain
  retain-append p [] ys = refl
  retain-append p (x ∷ xs) ys = elim (Bool-cases (p x)) [
    | inl e ↦ rw e (ap (λ l. x ∷ l) (retain-append p xs ys))
    | inr e ↦ rw e (retain-append p xs ys)
  ]

  pub retain-weaker :
      (p q : A → Bool) (xs : List A)
      → ((x : A) → p x ≡ true → q x ≡ true)
      → retain p (retain q xs) ≡ retain p xs
  unfolding retain
  retain-weaker p q [] h = refl
  retain-weaker p q (x ∷ xs) h = elim (Bool-cases (q x)) [
    | inl e ↦ rw e (ap (λ l. if p x then x ∷ l else l) (retain-weaker p q xs h))
    | inr e ↦ elim (Bool-cases (p x)) [
      | inl f ↦ let e' = h x f in cc
      | inr f ↦ rw (e, f) (retain-weaker p q xs h)
    ]
  ]

  pub retain-both :
      (p q : A → Bool) (xs : List A) → retain (λ x. q x && p x) xs ≡ retain p (retain q xs)
  unfolding retain
  retain-both p q [] = refl
  retain-both p q (x ∷ xs) = elim (Bool-cases (q x)) [
    | inl e ↦ rw e (ap (λ l. if p x then x ∷ l else l) (retain-both p q xs))
    | inr e ↦ rw e (retain-both p q xs)
  ]

  pub retain-none : (xs : List A) → retain (λ x. false) xs ≡ []
  unfolding retain
  retain-none [] = refl
  retain-none (x ∷ xs) = retain-none xs

  pub retain-nothing : (p : A → Bool) (xs : List A) → All (λ x. p x ≡ false) xs → retain p xs ≡ []
  unfolding retain
  retain-nothing p [] h = refl
  retain-nothing p (x ∷ xs) h = rw h.0 (retain-nothing p xs h.1)

  pub retain-everything : (p : A → Bool) (xs : List A) → All (λ x. p x ≡ true) xs → retain p xs ≡ xs
  unfolding retain
  retain-everything p [] h = refl
  retain-everything p (x ∷ xs) h = rw (h.0, retain-everything p xs h.1) refl

module _ {A B : Type 0} (f : A → B) where
  pub retain-map :
      (p : B → Bool) (xs : List A) → retain p (map f xs) ≡ map f (retain (λ x. p (f x)) xs)
  unfolding retain
  retain-map p [] = refl
  retain-map p (x ∷ xs) = elim (Bool-cases (p (f x))) [
    | inl e ↦ rw e (ap (λ l. f x ∷ l) (retain-map p xs))
    | inr e ↦ rw e (retain-map p xs)
  ]

  module _ (cmp : A → A → Ordering) (cmp' : B → B → Ordering) where
    insert-map :
        (x : A) (xs : List A)
        → All (λ y. not_greater (cmp' (f x) (f y)) ≡ not_greater (cmp x y)) xs
        → insert cmp' (f x) (map f xs) ≡ map f (insert cmp x xs)
    unfolding insert
    insert-map x [] h = refl
    insert-map x (y ∷ ys) h = elim (Bool-cases (not_greater (cmp x y))) [
      | inl e ↦ rw (h.0, e) refl
      | inr e ↦ rw (h.0, e) (ap (λ l. f y ∷ l) (insert-map x ys h.1))
    ]

    -- Every entry stays before those behind it where its image does.
    abbrev pub Compares : List A → Type 0
    Compares [] = Unit
    Compares (x ∷ xs) =
        All (λ y. not_greater (cmp' (f x) (f y)) ≡ not_greater (cmp x y)) xs × Compares xs

    pub sort_by-map : (xs : List A) → Compares xs → sort_by cmp' (map f xs) ≡ map f (sort_by cmp xs)
    unfolding sort_by
    sort_by-map [] h = refl
    sort_by-map (x ∷ xs) h =
        ap (insert cmp' (f x)) (sort_by-map xs h.1)
        ∙ insert-map x (sort_by cmp xs) (sort_by-All cmp _ xs h.0)

module _ {A : Type 0} where
  -- Every entry stands in this relation to the next one.
  abbrev pub Leads : (A → A → Type 0) → A → List A → Type 0
  Leads R x [] = Unit
  Leads R x (y ∷ ys) = R x y

  abbrev pub Chain : (A → A → Type 0) → List A → Type 0
  Chain R [] = Unit
  Chain R (x ∷ xs) = Leads R x xs × Chain R xs

  pub IsSorted-Chain :
      (cmp : A → A → Ordering) (R : A → A → Type 0) (xs : List A)
      → ((x y : A) → not_greater (cmp x y) ≡ true → R x y)
      → IsSorted cmp xs
      → Chain R xs
  IsSorted-Chain cmp R [] f h = tt
  IsSorted-Chain cmp R (x ∷ xs) f h = (leads xs h.0, IsSorted-Chain cmp R xs f h.1)
    where
      leads : (ys : List A) → Starts cmp x ys → Leads R x ys
      leads [] k = tt
      leads (y ∷ ys) k = f x y k
