-- ===== src/Backfill/Ranges/Whole.antt =====
-- The groups and the ranges of src/backfill/ranges.ts as wholes.
use Prim.Native.String.{String}
use yearn_prices.Common.{
  All, All-append, Bool-cases, List, [], arith, eqb, eqb_iff, inl, inr, leb, nat_eq, option_eq,
  or_else, pair_eq, refl, string_eq, subst, sym, ℕ, ◌&&◌, ◌++◌, ◌+◌, ◌==◌, ◌||◌, ◌∷◌, ◌≡◌,
}
use yearn_prices.Common.OrderedMap.{get, set}
use yearn_prices.Common.Sorting.{All-sort}
use yearn_prices.Utils.Time.{day_seconds}
use yearn_prices.Backfill.Ranges.{
  ContiguousRange, by_eod, extend_range, group_contiguous_ranges, group_items, new_range,
  ranges_of_group, ranges_of_groups, span_days, with_item,
}
use yearn_prices.Backfill.Ranges.Contiguous.{
  IsContiguous, new_range-IsContiguous, with_item-IsContiguous,
}

module _ {Item : Type 0} (identifier_of : Item → String) (eod_of : Item → ℕ)
    (maximum_span_days : ℕ) where
  abbrev IsNamed : String → List Item → Type 0
  IsNamed identifier = All (λ item. identifier_of item ≡ identifier)

  abbrev AllNamed : List (String × List Item) → Type 0
  AllNamed [] = Unit
  AllNamed ((identifier, group) ∷ groups) = IsNamed identifier group × AllNamed groups

  get-IsNamed :
      (k : String) (groups : List (String × List Item))
      → AllNamed groups
      → IsNamed k (or_else (get k groups) [])
  get-IsNamed k [] h = tt
  get-IsNamed k ((j, group) ∷ groups) (p, h) = elim (Bool-cases (eqb j k)) [
    | inl e ↦ rw e (subst (λ i. IsNamed i group) ((eqb_iff j k).0 e) p)
    | inr e ↦ rw e (get-IsNamed k groups h)
  ]

  set-AllNamed :
      (k : String) (v : List Item) (groups : List (String × List Item))
      → IsNamed k v
      → AllNamed groups
      → AllNamed (set k v groups)
  set-AllNamed k v [] p h = (p, tt)
  set-AllNamed k v ((j, group) ∷ groups) p (q, h) = elim (Bool-cases (eqb j k)) [
    | inl e ↦ rw e (subst (λ i. IsNamed i v) (sym ((eqb_iff j k).0 e)) p, h)
    | inr e ↦ rw e (q, set-AllNamed k v groups p h)
  ]

  group_items-AllNamed :
      (items : List Item) (groups : List (String × List Item))
      → AllNamed groups
      → AllNamed (group_items identifier_of eod_of maximum_span_days items groups)
  unfolding group_items
  group_items-AllNamed [] groups h = h
  group_items-AllNamed (item ∷ items) groups h = group_items-AllNamed items _ (
      set-AllNamed (identifier_of item) (or_else (get (identifier_of item) groups) [] ++ item ∷ [])
        groups
        (All-append _ (or_else (get (identifier_of item) groups) []) (item ∷ [])
          (get-IsNamed (identifier_of item) groups h) (refl, tt))
        h)

  extend_range-IsContiguous :
      (current : ContiguousRange Item) (sorted : List Item)
      → IsContiguous identifier_of eod_of maximum_span_days current
      → IsNamed current.identifier sorted
      → All
          (IsContiguous identifier_of eod_of maximum_span_days)
          (extend_range identifier_of eod_of maximum_span_days current sorted)
  unfolding extend_range
  extend_range-IsContiguous current [] h n = (h, tt)
  extend_range-IsContiguous current (item ∷ sorted) h (e, n) =
      elim (Bool-cases (
        eod_of item == current.range_end
        || eod_of item == current.range_end + day_seconds
          && leb (span_days identifier_of eod_of maximum_span_days current (eod_of item))
              maximum_span_days)) [
                | inl fits ↦ rw fits (
                    extend_range-IsContiguous
                      (with_item identifier_of eod_of maximum_span_days current item) sorted
                      (with_item-IsContiguous identifier_of eod_of maximum_span_days current item e
                        (ground (arith, fits)) h)
                      n)
                | inr apart ↦ rw apart (
                  h,
                  extend_range-IsContiguous
                      (new_range identifier_of eod_of maximum_span_days current.identifier item)
                      sorted
                      (new_range-IsContiguous identifier_of eod_of maximum_span_days
                        current.identifier item e)
                      n,
                )
              ]

  ranges_of_group-IsContiguous :
      (identifier : String) (group : List Item)
      → IsNamed identifier group
      → All
          (IsContiguous identifier_of eod_of maximum_span_days)
          (ranges_of_group identifier_of eod_of maximum_span_days (identifier, group))
  unfolding ranges_of_group
  ranges_of_group-IsContiguous identifier group n =
      split_sorted _ (All-sort (by_eod identifier_of eod_of maximum_span_days) _ group n)
    where
      split_sorted :
          (sorted : List Item)
          → IsNamed identifier sorted
          → All (IsContiguous identifier_of eod_of maximum_span_days) (elim sorted [
            | [] ↦ []
            | item ∷ rest ↦
                extend_range identifier_of eod_of maximum_span_days
                  (new_range identifier_of eod_of maximum_span_days identifier item)
                  rest
          ])
      split_sorted [] _ = tt
      split_sorted (item ∷ rest) (e, m) =
          extend_range-IsContiguous _ rest
            (new_range-IsContiguous identifier_of eod_of maximum_span_days identifier item e) m

  ranges_of_groups-IsContiguous :
      (groups : List (String × List Item))
      → AllNamed groups
      → All
          (IsContiguous identifier_of eod_of maximum_span_days)
          (ranges_of_groups identifier_of eod_of maximum_span_days groups)
  unfolding ranges_of_groups
  ranges_of_groups-IsContiguous [] h = tt
  ranges_of_groups-IsContiguous ((identifier, group) ∷ groups) (n, h) =
      All-append _ (ranges_of_group identifier_of eod_of maximum_span_days (identifier, group))
        (ranges_of_groups identifier_of eod_of maximum_span_days groups)
        (ranges_of_group-IsContiguous identifier group n) (ranges_of_groups-IsContiguous groups h)

  -- Every range runs over a whole number of days, no more than the maximum span or one, has an item
  -- on each of these days, and only items of its identifier.
  pub group_contiguous_ranges-IsContiguous :
      (items : List Item)
      → All
          (IsContiguous identifier_of eod_of maximum_span_days)
          (group_contiguous_ranges identifier_of eod_of maximum_span_days items)
  unfolding group_contiguous_ranges
  group_contiguous_ranges-IsContiguous items =
      ranges_of_groups-IsContiguous _ (group_items-AllNamed items [] tt)
