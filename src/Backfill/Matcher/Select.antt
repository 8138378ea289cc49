-- ===== src/Backfill/Matcher/Select.antt =====
-- What the selected observation is: the nearest to the day's end, the earlier one of two.
use yearn_prices.Common.{
  All, Bool-cases, In, List, Option, [], arith, false, inl, inr, none, refl, some, true, ℕ, ◌∷◌,
  ◌≡◌, ◌⊎◌,
}
use yearn_prices.Utils.Number.{Number}
use yearn_prices.Backfill.Matcher.{MatchOptions, is_nearer, select}

module _ (eod : ℕ) (options : MatchOptions) where
  abbrev pub IsNearest : ℕ × Number → List (ℕ × Number) → Type 0
  IsNearest best candidates = All (λ c. is_nearer eod options (c.0) (best.0) ≡ false) candidates

  nearer_trans :
      (s t u : ℕ)
      → is_nearer eod options s t ≡ false
      → is_nearer eod options t u ≡ false
      → is_nearer eod options s u ≡ false
  nearer_trans s t u h k = ground (arith, h, k)

  nearer_asym : (s t : ℕ) → is_nearer eod options s t ≡ true → is_nearer eod options t s ≡ false
  nearer_asym s t h = ground (arith, h)

  nearer_irrefl : (s : ℕ) → is_nearer eod options s s ≡ false
  nearer_irrefl s = ground arith

  -- The selected one is the first or one of the rest, and nothing is nearer.
  abbrev SelectsFrom : ℕ × Number → List (ℕ × Number) → Type 0
  SelectsFrom first rest =
      (best : ℕ × Number) × (select eod options (some first) rest ≡ some best)
      × ((best ≡ first) ⊎ In best rest)
      × (is_nearer eod options (first.0) (best.0) ≡ false)
      × IsNearest best rest

  select_some-IsNearest : (first : ℕ × Number) (rest : List (ℕ × Number)) → SelectsFrom first rest
  unfolding select
  select_some-IsNearest (t, p) [] = ((t, p), refl, inl refl, nearer_irrefl t, tt)
  select_some-IsNearest (t, p) ((s, q) ∷ rest) = elim (Bool-cases (is_nearer eod options s t)) [
    | inl nearer ↦
        let (best, e, m, n, h) = select_some-IsNearest (s, q) rest in
        rw nearer (best, e, inr m, nearer_trans t s (best.0) (nearer_asym s t nearer) n, (n, h))
    | inr farther ↦
        let (best, e, m, n, h) = select_some-IsNearest (t, p) rest in
        rw farther (
          best,
          e,
          elim m [ inl same ↦ inl same | inr later ↦ inr (inr later) ],
          n,
          (nearer_trans s t (best.0) farther n, h),
        )
  ]

  abbrev pub Selects : List (ℕ × Number) → Option (ℕ × Number) → Type 0
  Selects candidates none = candidates ≡ []
  Selects candidates (some best) = In best candidates × IsNearest best candidates

  -- Nothing is selected only from nothing; else a candidate to which no other is nearer.
  pub select-Selects :
      (candidates : List (ℕ × Number)) → Selects candidates (select eod options none candidates)
  unfolding select
  select-Selects [] = refl
  select-Selects (c ∷ candidates) =
      let (best, e, m, n, h) = select_some-IsNearest c candidates in rw e (m, (n, h))
