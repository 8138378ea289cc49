-- ===== src/Common/Parts.antt =====
-- Members of the parts of a list, and predicates on them.
use Prim.Native.Nat.{ℕ, zero, suc}
use mathlib.Core.Path.{◌≡◌, ap, refl, subst, sym}
use mathlib.Core.Logic.{◌⊎◌, inl, inr}
use mathlib.Core.Bool.{Bool, true, ◌||◌}
use mathlib.Core.List.{List, [], ◌∷◌, ◌++◌, map}
use native.Mathlib.Omega.{arith}
use yearn_prices.Common.Tests.{Bool-cases}
use yearn_prices.Common.Lists.{All, In, any, drop, keep, take}

pub All-take : {A : Type 0} (P : A → Type 0) (n : ℕ) (xs : List A) → All P xs → All P (take n xs)
All-take P zero xs h = tt
All-take P (suc n) [] h = tt
All-take P (suc n) (x ∷ xs) (p, h) = (p, All-take P n xs h)

pub All-drop : {A : Type 0} (P : A → Type 0) (n : ℕ) (xs : List A) → All P xs → All P (drop n xs)
All-drop P zero xs h = h
All-drop P (suc n) [] h = tt
All-drop P (suc n) (x ∷ xs) (p, h) = All-drop P n xs h

pub All-kept :
    {A : Type 0} (P : A → Type 0) (test : A → Bool) (xs : List A) → All P xs → All P (keep test xs)
All-kept P test [] h = tt
All-kept P test (x ∷ xs) (p, h) = elim (Bool-cases (test x)) [
  | inl kept ↦ rw kept (p, All-kept P test xs h)
  | inr dropped ↦ rw dropped (All-kept P test xs h)
]

pub any-witness :
    {A : Type 0} (test : A → Bool) (xs : List A)
    → any test xs ≡ true
    → (a : A) × In a xs × (test a ≡ true)
any-witness test [] e = absurd (ground (arith, e))
any-witness test (x ∷ xs) e = elim (Bool-cases (test x)) [
  | inl found ↦ (x, inl refl, found)
  | inr other ↦
      let (a, m, t) = any-witness test xs (subst (λ b. (b || any test xs) ≡ true) other e) in
      (a, inr m, t)
]

pub In-keep :
    {A : Type 0} (test : A → Bool) (x : A) (xs : List A)
    → In x (keep test xs)
    → In x xs × (test x ≡ true)
In-keep test x [] m = absurd m
In-keep test x (y ∷ xs) m = elim (Bool-cases (test y)) [
  | inl kept ↦ elim (rw kept at m) [
    | inl e ↦ (inl e, subst (λ z. test z ≡ true) (sym e) kept)
    | inr later ↦ let (n, t) = In-keep test x xs later in (inr n, t)
  ]
  | inr dropped ↦ let (n, t) = In-keep test x xs (rw dropped at m) in (inr n, t)
]

pub keep-In :
    {A : Type 0} (test : A → Bool) (x : A) (xs : List A)
    → In x xs
    → test x ≡ true
    → In x (keep test xs)
keep-In test x [] m t = absurd m
keep-In test x (y ∷ xs) (inl e) t = rw (subst (λ z. test z ≡ true) e t) (inl e)
keep-In test x (y ∷ xs) (inr m) t = elim (Bool-cases (test y)) [
  | inl kept ↦ rw kept (inr (keep-In test x xs m t))
  | inr dropped ↦ rw dropped (keep-In test x xs m t)
]

pub In-map : {A B : Type 0} (f : A → B) (x : A) (xs : List A) → In x xs → In (f x) (map f xs)
In-map f x [] m = absurd m
In-map f x (y ∷ xs) (inl e) = inl (ap f e)
In-map f x (y ∷ xs) (inr m) = inr (In-map f x xs m)

pub map-In :
    {A B : Type 0} (f : A → B) (z : B) (xs : List A)
    → In z (map f xs)
    → (x : A) × In x xs × (z ≡ f x)
map-In f z [] m = absurd m
map-In f z (y ∷ xs) (inl e) = (y, inl refl, e)
map-In f z (y ∷ xs) (inr m) = let (x, n, e) = map-In f z xs m in (x, inr n, e)

pub append-In : {A : Type 0} (x : A) (xs ys : List A) → In x (xs ++ ys) → In x xs ⊎ In x ys
append-In x [] ys m = inr m
append-In x (z ∷ xs) ys (inl e) = inl (inl e)
append-In x (z ∷ xs) ys (inr m) = elim (append-In x xs ys m) [
  | inl left ↦ inl (inr left)
  | inr right ↦ inr right
]
