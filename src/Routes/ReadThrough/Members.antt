-- ===== src/Routes/ReadThrough/Members.antt =====
-- Members of what is served.
use yearn_prices.Common.{
  All, All-implies, Bool, Bool-cases, In, List, [], ap, arith, inl, inr, refl, true, ◌&&◌, ◌∷◌, ◌≡◌,
  ◌≤◌,
}
use yearn_prices.Db.PriceReads.{ExactPriceRecord}
use yearn_prices.Routes.ReadThrough.{Served}
use yearn_prices.Routes.ReadThrough.Run.{prices_of}
use yearn_prices.Routes.ReadThrough.Pools.{tally}
use yearn_prices.Routes.ReadThrough.Judged.{guarded_count}

pub In-prices_of :
    (s : Served) (served : List Served) → In s served → In s.fetched.price (prices_of served)
In-prices_of s [] m = absurd m
In-prices_of s (t ∷ served) (inl e) = inl (ap (λ (s : Served). s.fetched.price) e)
In-prices_of s (t ∷ served) (inr m) = inr (In-prices_of s served m)

pub guarded_tally :
    (test : ExactPriceRecord → Bool) (served : List Served)
    → All (λ (s : Served). test s.fetched.price ≡ true → s.guarded ≡ true) served
    → tally test (prices_of served) ≤ guarded_count served
guarded_tally test [] h = omega arith
guarded_tally test (s ∷ served) (p, h) = elim (Bool-cases (test s.fetched.price)) [
  | inl pool ↦ rw (pool, p pool) (omega (arith, guarded_tally test served h))
  | inr other ↦ rw other (omega (arith, guarded_tally test served h))
]

pub All-prices_of :
    (P : ExactPriceRecord → Type 0) (served : List Served)
    → All (λ (s : Served). P s.fetched.price) served
    → All P (prices_of served)
All-prices_of P [] h = tt
All-prices_of P (s ∷ served) (p, h) = (p, All-prices_of P served h)

pub All-self : {A : Type 0} (P : A → Type 0) (xs : List A) → All P xs → All (λ x. In x xs × P x) xs
All-self P [] h = tt
All-self P (x ∷ xs) (p, h) = (
  (inl refl, p),
  All-implies (λ y. In y xs × P y) (λ y. In y (x ∷ xs) × P y) xs (λ y (m, q). (inr m, q))
      (All-self P xs h),
)

pub both : (a b : Bool) → (a && b) ≡ true → (a ≡ true) × (b ≡ true)
both a b t = ground (arith, t)

pub All-both :
    {A : Type 0} (P Q : A → Type 0) (xs : List A) → All P xs → All Q xs → All (λ x. P x × Q x) xs
All-both P Q [] h k = tt
All-both P Q (x ∷ xs) (p, h) (q, k) = ((p, q), All-both P Q xs h k)
