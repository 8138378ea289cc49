-- ===== src/Backfill/Ranges/Covers.antt =====
-- Where the items of src/backfill/ranges.ts go.
use Prim.Native.String.{String}
use yearn_prices.Common.{
  Bool-cases, In, In-append_left, In-append_right, List, [], eqb, inl, inr, leb, nat_eq, option_eq,
  or_else, pair_eq, refl, string_eq, subst, ℕ, ◌&&◌, ◌+◌, ◌==◌, ◌||◌, ◌∷◌, ◌⊎◌,
}
use yearn_prices.Common.OrderedMap.{get, set}
use yearn_prices.Common.Sorting.{In-sort}
use yearn_prices.Utils.Time.{day_seconds}
use yearn_prices.Backfill.Ranges.{
  ContiguousRange, by_eod, extend_range, group_contiguous_ranges, group_items, new_range,
  ranges_of_group, ranges_of_groups, span_days, with_item,
}

module _ {Item : Type 0} (identifier_of : Item → String) (eod_of : Item → ℕ)
    (maximum_span_days : ℕ) where
  -- The item is in one of the groups.
  abbrev Groups : Item → List (String × List Item) → Type 0
  Groups item groups = (k : String) × (group : List Item) × In (k, group) groups × In item group

  -- The item is in one of the ranges.
  abbrev pub Covers : Item → List (ContiguousRange Item) → Type 0
  Covers item ranges = (r : ContiguousRange Item) × In r ranges × In item r.items

  set-Groups_new :
      (k : String) (v : List Item) (item : Item) (groups : List (String × List Item))
      → In item v
      → Groups item (set k v groups)
  set-Groups_new k v item [] n = (k, v, inl refl, n)
  set-Groups_new k v item ((j, group) ∷ groups) n = elim (Bool-cases (eqb j k)) [
    | inl e ↦ rw e (j, v, inl refl, n)
    | inr e ↦ let (i, w, m, l) = set-Groups_new k v item groups n in rw e (i, w, inr m, l)
  ]

  set-Groups_old :
      (k : String) (v : List Item) (old : Item) (groups : List (String × List Item))
      → (In old (or_else (get k groups) []) → In old v)
      → Groups old groups
      → Groups old (set k v groups)
  set-Groups_old k v old [] f (i, w, m, n) = elim m [ ]
  set-Groups_old k v old ((j, group) ∷ groups) f (i, w, inl same, n) = elim (Bool-cases (eqb j k)) [
    | inl e ↦ rw e (j, v, inl refl, f (rw e (subst (λ p. In old p.1) same n)))
    | inr e ↦ rw e (i, w, inl same, n)
  ]
  set-Groups_old k v old ((j, group) ∷ groups) f (i, w, inr m, n) = elim (Bool-cases (eqb j k)) [
    | inl e ↦ rw e (i, w, inr m, n)
    | inr e ↦
        let (x, y, l, o) = set-Groups_old k v old groups (λ q. f (rw e q)) (i, w, m, n) in
        rw e (x, y, inr l, o)
  ]

  group_items-Groups :
      (old : Item) (items : List Item) (groups : List (String × List Item))
      → In old items ⊎ Groups old groups
      → Groups old (group_items identifier_of eod_of maximum_span_days items groups)
  unfolding group_items
  group_items-Groups old [] groups (inl m) = elim m [ ]
  group_items-Groups old [] groups (inr h) = h
  group_items-Groups old (item ∷ items) groups (inl (inl e)) = group_items-Groups old items _ (
      inr (
        set-Groups_new (identifier_of item) _ old groups
          (In-append_right old (or_else (get (identifier_of item) groups) []) (item ∷ []) (inl e))))
  group_items-Groups old (item ∷ items) groups (inl (inr m)) =
      group_items-Groups old items _ (inl m)
  group_items-Groups old (item ∷ items) groups (inr h) = group_items-Groups old items _ (
      inr (
        set-Groups_old (identifier_of item) _ old groups
          (In-append_left old (or_else (get (identifier_of item) groups) []) (item ∷ [])) h))

  Covers-tail :
      (old : Item) (r : ContiguousRange Item) (ranges : List (ContiguousRange Item))
      → Covers old ranges
      → Covers old (r ∷ ranges)
  Covers-tail old r ranges (s, m, n) = (s, inr m, n)

  extend_range-Covers :
      (old : Item) (current : ContiguousRange Item) (sorted : List Item)
      → In old current.items ⊎ In old sorted
      → Covers old (extend_range identifier_of eod_of maximum_span_days current sorted)
  unfolding extend_range
  extend_range-Covers old current [] (inl m) = (current, inl refl, m)
  extend_range-Covers old current [] (inr m) = elim m [ ]
  extend_range-Covers old current (item ∷ sorted) m =
      elim (Bool-cases (
        eod_of item == current.range_end
        || eod_of item == current.range_end + day_seconds
          && leb (span_days identifier_of eod_of maximum_span_days current (eod_of item))
              maximum_span_days)) [
                | inl fits ↦ rw fits (
                    extend_range-Covers old
                      (with_item identifier_of eod_of maximum_span_days current item) sorted
                      (elim m [
                        | inl before ↦ inl (In-append_left old current.items (item ∷ []) before)
                        | inr after ↦ elim after [
                          | inl e ↦ inl (In-append_right old current.items (item ∷ []) (inl e))
                          | inr later ↦ inr later
                        ]
                      ]))
                | inr apart ↦ rw apart (elim m [
                  | inl before ↦ (current, inl refl, before)
                  | inr after ↦ Covers-tail old current _ (
                      extend_range-Covers old
                        (new_range identifier_of eod_of maximum_span_days current.identifier item)
                        sorted (elim after [ inl e ↦ inl (inl e) | inr later ↦ inr later ]))
                ])
              ]

  ranges_of_group-Covers :
      (old : Item) (identifier : String) (group : List Item)
      → In old group
      → Covers old (ranges_of_group identifier_of eod_of maximum_span_days (identifier, group))
  unfolding ranges_of_group
  ranges_of_group-Covers old identifier group m =
      split_sorted _ (In-sort (by_eod identifier_of eod_of maximum_span_days) old group m)
    where
      split_sorted :
          (sorted : List Item)
          → In old sorted
          → Covers old (elim sorted [
            | [] ↦ []
            | item ∷ rest ↦
                extend_range identifier_of eod_of maximum_span_days
                  (new_range identifier_of eod_of maximum_span_days identifier item)
                  rest
          ])
      split_sorted [] m = elim m [ ]
      split_sorted (item ∷ rest) (inl e) = extend_range-Covers old _ rest (inl (inl e))
      split_sorted (item ∷ rest) (inr n) = extend_range-Covers old _ rest (inr n)

  ranges_of_groups-Covers :
      (old : Item) (groups : List (String × List Item))
      → Groups old groups
      → Covers old (ranges_of_groups identifier_of eod_of maximum_span_days groups)
  unfolding ranges_of_groups
  ranges_of_groups-Covers old [] (k, v, m, n) = elim m [ ]
  ranges_of_groups-Covers old ((j, group) ∷ groups) (k, v, inl same, n) =
      let (r, m, i) = ranges_of_group-Covers old j group (subst (λ p. In old p.1) same n) in
      (r, In-append_left r _ (ranges_of_groups identifier_of eod_of maximum_span_days groups) m, i)
  ranges_of_groups-Covers old ((j, group) ∷ groups) (k, v, inr m, n) =
      let (r, l, i) = ranges_of_groups-Covers old groups (k, v, m, n) in
      (
        r,
        In-append_right r (ranges_of_group identifier_of eod_of maximum_span_days (j, group))
            (ranges_of_groups identifier_of eod_of maximum_span_days groups) l,
        i,
      )

  -- Every item that is given is in one of the ranges.
  pub group_contiguous_ranges-Covers :
      (item : Item) (items : List Item)
      → In item items
      → Covers item (group_contiguous_ranges identifier_of eod_of maximum_span_days items)
  unfolding group_contiguous_ranges
  group_contiguous_ranges-Covers item items m =
      ranges_of_groups-Covers item _ (group_items-Groups item items [] (inl m))
