-- ===== src/Db/PriceReads/Ordered.antt =====
-- ORDER BY: the rows of one place stand in the order of their ranks.
use yearn_prices.Utils.Text.{text_eq}
use yearn_prices.Common.{
  All, All-implies, Bool, Bool-cases, List, [], arith, eqb_iff, eqb_refl, inl, inr, keep,
  leb_false→lt, leb→le, le→leb, nat_eq, option_eq, pair_eq, string_eq, sym, true, ◌∙◌, ◌∷◌, ◌≡◌,
  ◌≤◌,
}
use yearn_prices.Common.Sorting.{IsSorted, keep-sort, sort, sort-IsSorted}
use yearn_prices.Db.Prices.{PriceRow, price_key_eq, source_rank}
use yearn_prices.Db.PriceReads.{by_rank, place_of, same_place}

abbrev pub RankLe : PriceRow → PriceRow → Type 0
RankLe a b = source_rank a.source ≤ source_rank b.source

pub same_place_refl : (a : PriceRow) → same_place a a ≡ true
same_place_refl a = eqb_refl (place_of a)

pub place_eq : (a b : PriceRow) → same_place a b ≡ true → place_of a ≡ place_of b
place_eq a b h = (eqb_iff (place_of a) (place_of b)).0 h

pub eq_place : (a b : PriceRow) → place_of a ≡ place_of b → same_place a b ≡ true
eq_place a b h = (eqb_iff (place_of a) (place_of b)).1 h

-- Of two rows of one place, the earlier has the lower rank.
abbrev pub IsPlaced : List PriceRow → Type 0
IsPlaced [] = Unit
IsPlaced (x ∷ xs) = All (λ y. same_place x y ≡ true → RankLe x y) xs × IsPlaced xs

abbrev IsRanked : List PriceRow → Type 0
IsRanked = IsSorted by_rank

All-keep :
    (P : PriceRow → Type 0) (test : PriceRow → Bool) (xs : List PriceRow)
    → All P xs
    → All P (keep test xs)
All-keep P test [] h = tt
All-keep P test (x ∷ xs) (p, h) = elim (Bool-cases (test x)) [
  | inl kept ↦ rw kept (p, All-keep P test xs h)
  | inr dropped ↦ rw dropped (All-keep P test xs h)
]

keep-IsRanked :
    (test : PriceRow → Bool) (xs : List PriceRow) → IsRanked xs → IsRanked (keep test xs)
keep-IsRanked test [] h = tt
keep-IsRanked test (x ∷ xs) (p, h) = elim (Bool-cases (test x)) [
  | inl kept ↦ rw kept (All-keep _ test xs p, keep-IsRanked test xs h)
  | inr dropped ↦ rw dropped (keep-IsRanked test xs h)
]

All-kept :
    (P : PriceRow → Type 0) (test : PriceRow → Bool) (xs : List PriceRow)
    → All P (keep test xs)
    → All (λ y. test y ≡ true → P y) xs
All-kept P test [] h = tt
All-kept P test (x ∷ xs) h = elim (Bool-cases (test x)) [
  | inl kept ↦ let (p, rest) = (rw kept at h) in ((λ e. p), All-kept P test xs rest)
  | inr dropped ↦
      let rest = (rw dropped at h) in
      ((λ e. absurd (ground (arith, sym dropped ∙ e))), All-kept P test xs rest)
]

IsPlaced-IsRanked :
    (xs : List PriceRow) → ((p : PriceRow) → IsRanked (keep (same_place p) xs)) → IsPlaced xs
IsPlaced-IsRanked [] h = tt
IsPlaced-IsRanked (x ∷ xs) h = (
  All-kept (RankLe x) (same_place x) xs
      (All-implies _ _ (keep (same_place x) xs) (λ y e. leb→le _ _ e) (first_of (h x)).0),
  IsPlaced-IsRanked xs (λ p. rest_of p (h p)),
)
  where
    first_of : IsRanked (keep (same_place x) (x ∷ xs)) → IsRanked (x ∷ keep (same_place x) xs)
    first_of r = rw (same_place_refl x) at r

    rest_of :
        (p : PriceRow) → IsRanked (keep (same_place p) (x ∷ xs)) → IsRanked (keep (same_place p) xs)
    rest_of p r = elim (Bool-cases (same_place p x)) [
      | inl kept ↦ (rw kept at r).1
      | inr dropped ↦ (rw dropped at r)
    ]

module _ (before : PriceRow → PriceRow → Bool)
    (refl_at : (a b : PriceRow) → place_of a ≡ place_of b → before a b ≡ true) where
  pub sort-IsPlaced : (rows : List PriceRow) → IsPlaced (sort before (sort by_rank rows))
  sort-IsPlaced rows = IsPlaced-IsRanked _ (λ p.
      rw
        (keep-sort before (same_place p)
          (λ x y h k. refl_at x y (sym (place_eq p x h) ∙ place_eq p y k)) (sort by_rank rows))
        (keep-IsRanked (same_place p) (sort by_rank rows) (
          sort-IsSorted by_rank (λ x y h. le→leb _ _ (omega (arith, leb_false→lt _ _ h)))
            (λ x y z h k. le→leb _ _ (omega (arith, leb→le _ _ h, leb→le _ _ k))) rows)))
