-- ===== src/Common/Sorting.antt =====
-- Insertion sort by a test: JavaScript's stable `sort`, and SQL's ORDER BY.
use Prim.Native.Nat.{suc}
use mathlib.Core.Path.{◌≡◌, refl, ap}
use mathlib.Core.Logic.{inl, inr}
use mathlib.Core.Bool.{Bool, true, false}
use mathlib.Core.List.{List, [], ◌∷◌}
use native.Mathlib.Omega.{arith}
use yearn_prices.Common.Tests.{Bool-cases, if◌then◌else◌}
use yearn_prices.Common.Lists.{All, In, keep, length}

module _ {A : Type 0} (before : A → A → Bool) where
  -- `x` goes before the first element that it does not come after: `before a b` is "a > b is false".
  abbrev pub insert : A → List A → List A
  insert x [] = x ∷ []
  insert x (y ∷ ys) = if before x y then x ∷ y ∷ ys else y ∷ insert x ys

  abbrev pub sort : List A → List A
  sort [] = []
  sort (x ∷ xs) = insert x (sort xs)

  pub length-insert : (x : A) (ys : List A) → length (insert x ys) ≡ suc (length ys)
  length-insert x [] = refl
  length-insert x (y ∷ ys) = ground (arith, length-insert x ys)

  pub length-sort : (xs : List A) → length (sort xs) ≡ length xs
  length-sort [] = refl
  length-sort (x ∷ xs) = rw length-insert (ap suc (length-sort xs))

  module _ (P : A → Type 0) where
    pub All-insert : (x : A) (ys : List A) → P x → All P ys → All P (insert x ys)
    All-insert x [] p h = (p, tt)
    All-insert x (y ∷ ys) p (q, h) = elim (Bool-cases (before x y)) [
      | inl first ↦ rw first (p, (q, h))
      | inr later ↦ rw later (q, All-insert x ys p h)
    ]

    pub All-sort : (xs : List A) → All P xs → All P (sort xs)
    All-sort [] h = tt
    All-sort (x ∷ xs) (p, h) = All-insert x (sort xs) p (All-sort xs h)

  In-insert : (x y : A) (ys : List A) → In x (y ∷ ys) → In x (insert y ys)
  In-insert x y [] m = m
  In-insert x y (z ∷ ys) m = elim (Bool-cases (before y z)) [
    | inl first ↦ rw first m
    | inr later ↦ rw later (elim m [
      | inl e ↦ inr (In-insert x y ys (inl e))
      | inr n ↦ elim n [ inl e ↦ inl e | inr k ↦ inr (In-insert x y ys (inr k)) ]
    ])
  ]

  pub In-sort : (x : A) (xs : List A) → In x xs → In x (sort xs)
  In-sort x [] m = m
  In-sort x (y ∷ xs) (inl e) = In-insert x y (sort xs) (inl e)
  In-sort x (y ∷ xs) (inr m) = In-insert x y (sort xs) (inr (In-sort x xs m))

  -- A stable sort keeps the order of elements that a test cannot tell apart.
  module _ (test : A → Bool)
      (same : (x y : A) → test x ≡ true → test y ≡ true → before x y ≡ true) where
    keep-insert : (x : A) (ys : List A) → keep test (insert x ys) ≡ keep test (x ∷ ys)
    keep-insert x [] = refl
    keep-insert x (y ∷ ys) = ground (arith, same x y, keep-insert x ys)

    pub keep-sort : (xs : List A) → keep test (sort xs) ≡ keep test xs
    keep-sort [] = refl
    keep-sort (x ∷ xs) = ground (arith, keep-insert x (sort xs), keep-sort xs)

  abbrev pub IsSorted : List A → Type 0
  IsSorted [] = Unit
  IsSorted (x ∷ xs) = All (λ y. before x y ≡ true) xs × IsSorted xs

  module _ (total : (x y : A) → before x y ≡ false → before y x ≡ true)
      (trans : (x y z : A) → before x y ≡ true → before y z ≡ true → before x z ≡ true) where
    All-trans :
        (x y : A) (ys : List A)
        → before x y ≡ true
        → All (λ z. before y z ≡ true) ys
        → All (λ z. before x z ≡ true) ys
    All-trans x y [] e h = tt
    All-trans x y (z ∷ ys) e (p, h) = (trans x y z e p, All-trans x y ys e h)

    insert-IsSorted : (x : A) (ys : List A) → IsSorted ys → IsSorted (insert x ys)
    insert-IsSorted x [] h = (tt, tt)
    insert-IsSorted x (y ∷ ys) (p, h) = elim (Bool-cases (before x y)) [
      | inl first ↦ rw first ((first, All-trans x y ys first p), (p, h))
      | inr later ↦
          rw later
            (All-insert (λ z. before y z ≡ true) x ys (total x y later) p, insert-IsSorted x ys h)
    ]

    pub sort-IsSorted : (xs : List A) → IsSorted (sort xs)
    sort-IsSorted [] = tt
    sort-IsSorted (x ∷ xs) = insert-IsSorted x (sort xs) (sort-IsSorted xs)
