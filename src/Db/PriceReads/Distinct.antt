-- ===== src/Db/PriceReads/Distinct.antt =====
-- DISTINCT ON: one row for each place, of the lowest rank.
use yearn_prices.Common.{
  All, All-In, All-implies, Bool, Bool-cases, In, In-keep, List, Option, [], arith, inl, inr,
  keep-In, none, not, refl, some, subst, sym, true, ◌∙◌, ◌∷◌, ◌≡◌,
}
use yearn_prices.Common.Sorting.{All-sort, In-sort, sort}
use yearn_prices.Db.Prices.{PriceRow, PriceSource}
use yearn_prices.Db.PriceReads.{by_rank, distinct_on, place_of, same_place, select_rows}
use yearn_prices.Db.PriceReads.Ordered.{
  IsPlaced, RankLe, eq_place, place_eq, same_place_refl, sort-IsPlaced,
}

pub same_place_sym : (a b : PriceRow) → same_place a b ≡ true → same_place b a ≡ true
same_place_sym a b h = eq_place b a (sym (place_eq a b h))

pub same_place_trans :
    (a b c : PriceRow) → same_place a b ≡ true → same_place b c ≡ true → same_place a c ≡ true
same_place_trans a b c h k = eq_place a c (place_eq a b h ∙ place_eq b c k)

-- Of the rows of its place, this one has the lowest rank.
abbrev pub IsLeast : PriceRow → List PriceRow → Type 0
IsLeast x rows = (y : PriceRow) → In y rows → same_place x y ≡ true → RankLe x y

distinct_on-In : (x : PriceRow) (rows : List PriceRow) → In x (distinct_on rows) → In x rows
unfolding distinct_on
distinct_on-In x [] m = m
distinct_on-In x (row ∷ rows) (inl e) = inl e
distinct_on-In x (row ∷ rows) (inr m) =
    inr (distinct_on-In x rows (In-keep _ x (distinct_on rows) m).0)

distinct_on-IsLeast :
    (x : PriceRow) (rows : List PriceRow) → IsPlaced rows → In x (distinct_on rows) → IsLeast x rows
unfolding distinct_on
distinct_on-IsLeast x [] h m = absurd m
distinct_on-IsLeast x (row ∷ rows) (p, h) (inl e) = λ y n s. elim n [
  | inl d ↦ rw (d, e) (omega arith)
  | inr later ↦
      subst (λ z. RankLe z y) (sym e)
        (All-In _ rows p later (subst (λ z. same_place z y ≡ true) e s))
]
distinct_on-IsLeast x (row ∷ rows) (p, h) (inr m) =
    let (n, apart) = In-keep (λ other. not (same_place row other)) x (distinct_on rows) m in
    λ y k s. elim k [
      | inl d ↦
          let meets = same_place_sym x row (subst (λ z. same_place x z ≡ true) d s) in
          absurd (ground (arith, apart, meets))
      | inr later ↦ distinct_on-IsLeast x rows h n y later s
    ]

distinct_on-covers :
    (y : PriceRow) (rows : List PriceRow)
    → In y rows
    → (x : PriceRow) × In x (distinct_on rows) × (same_place x y ≡ true)
unfolding distinct_on
distinct_on-covers y [] m = absurd m
distinct_on-covers y (row ∷ rows) (inl e) = (row, inl refl, rw e (same_place_refl row))
distinct_on-covers y (row ∷ rows) (inr m) =
    let (x, n, s) = distinct_on-covers y rows m in
    elim (Bool-cases (same_place row x)) [
      | inl same ↦ (row, inl refl, same_place_trans row x y same s)
      | inr other ↦ (x, inr (keep-In _ x (distinct_on rows) n (rw other refl)), s)
    ]

In-sorted :
    (before : PriceRow → PriceRow → Bool) (x : PriceRow) (rows : List PriceRow)
    → In x (sort before rows)
    → In x rows
In-sorted before x rows m =
    All-In (λ y. In y rows) (sort before rows) (All-sort before (λ y. In y rows) rows (each rows)) m
  where
    each : (ys : List PriceRow) → All (λ y. In y ys) ys
    each [] = tt
    each (y ∷ ys) = (inl refl, All-implies _ _ ys (λ z n. inr n) (each ys))

module _ (before : PriceRow → PriceRow → Bool)
    (refl_at : (a b : PriceRow) → place_of a ≡ place_of b → before a b ≡ true) where
  -- A selected row is one of the rows, and of its place the least where no source is asked for.
  pub select_rows-In :
      (source : Option PriceSource) (x : PriceRow) (rows : List PriceRow)
      → In x (select_rows before source rows)
      → In x rows × ((source ≡ none) → IsLeast x rows)
  unfolding select_rows
  select_rows-In none x rows m =
      let sorted = sort before (sort by_rank rows) in
      (
        In-sorted by_rank x rows
            (In-sorted before x (sort by_rank rows) (distinct_on-In x sorted m)),
        λ e y n s.
            distinct_on-IsLeast x sorted (sort-IsPlaced before refl_at rows) m y
              (In-sort before y (sort by_rank rows) (In-sort by_rank y rows n)) s,
      )
  select_rows-In (some source) x rows m = (In-sorted before x rows m, λ e. absurd (cc))

  pub select_rows-covers :
      (source : Option PriceSource) (y : PriceRow) (rows : List PriceRow)
      → In y rows
      → (x : PriceRow) × In x (select_rows before source rows) × (same_place x y ≡ true)
  unfolding select_rows
  select_rows-covers none y rows m =
      distinct_on-covers y (sort before (sort by_rank rows))
        (In-sort before y (sort by_rank rows) (In-sort by_rank y rows m))
  select_rows-covers (some source) y rows m = (y, In-sort before y rows m, same_place_refl y)
