-- ===== src/Backfill/Ranges.antt =====
-- src/backfill/ranges.ts: days grouped into ranges without a gap. Timestamps are non-negative
-- integers. `extend_range` holds the range that the loop still extends.
pub mod Contiguous
pub mod Whole
pub mod Covers
use Prim.Native.String.{String}
use yearn_prices.Common.{
  Bool, List, [], if◌then◌else◌, leb, nat_eq, option_eq, or_else, pair_eq, string_eq, ℕ, ◌&&◌, ◌++◌,
  ◌+◌, ◌-◌, ◌/◌, ◌==◌, ◌||◌, ◌∷◌,
}
use yearn_prices.Common.OrderedMap.{get, set}
use yearn_prices.Common.Sorting.{sort}
use yearn_prices.Utils.Time.{day_seconds}

pub record ContiguousRange (Item : Type 0) : Type 0 where
  pub identifier : String
  pub range_start : ℕ
  pub range_end : ℕ
  pub items : List Item

module _ {Item : Type 0} (identifier_of : Item → String) (eod_of : Item → ℕ)
    (maximum_span_days : ℕ) where
  -- The range is a whole number of days, where the division is exact.
  abbrev pub range_span_days : ContiguousRange Item → ℕ
  range_span_days r = (r.range_end - r.range_start) / day_seconds + 1

  -- The first loop: the map of groups.
  unfoldable pub group_items : List Item → List (String × List Item) → List (String × List Item)
  group_items [] groups = groups
  group_items (item ∷ items) groups =
      group_items items (
        set (identifier_of item) (or_else (get (identifier_of item) groups) [] ++ item ∷ []) groups)

  abbrev pub by_eod : Item → Item → Bool
  by_eod left right = leb (eod_of left) (eod_of right)

  abbrev pub new_range : String → Item → ContiguousRange Item
  new_range identifier item = record {
    identifier = identifier;
    range_start = eod_of item;
    range_end = eod_of item;
    items = item ∷ [];
  }

  -- The span with one more day, in days: it is read only where the division is exact.
  abbrev pub span_days : ContiguousRange Item → ℕ → ℕ
  span_days current eod = (eod - current.range_start) / day_seconds + 1

  abbrev pub with_item : ContiguousRange Item → Item → ContiguousRange Item
  with_item current item = record current {
    range_end = eod_of item;
    items = current.items ++ item ∷ [];
  }

  -- The inner loop, once there is a current range.
  unfoldable pub extend_range : ContiguousRange Item → List Item → List (ContiguousRange Item)
  extend_range current [] = current ∷ []
  extend_range current (item ∷ sorted) =
      let extended = extend_range (with_item current item) sorted in
      let next = extend_range (new_range current.identifier item) sorted in
      if eod_of item == current.range_end
        || eod_of item == current.range_end + day_seconds
          && leb (span_days current (eod_of item)) maximum_span_days
      then extended
      else current ∷ next

  unfoldable pub ranges_of_group : String × List Item → List (ContiguousRange Item)
  unfolding extend_range
  ranges_of_group (identifier, group) = elim (sort by_eod group) [
    | [] ↦ []
    | item ∷ sorted ↦ extend_range (new_range identifier item) sorted
  ]

  unfoldable pub ranges_of_groups : List (String × List Item) → List (ContiguousRange Item)
  unfolding ranges_of_group
  ranges_of_groups [] = []
  ranges_of_groups (group ∷ groups) = ranges_of_group group ++ ranges_of_groups groups

  unfoldable pub group_contiguous_ranges : List Item → List (ContiguousRange Item)
  unfolding group_items ranges_of_groups
  group_contiguous_ranges items = ranges_of_groups (group_items items [])
