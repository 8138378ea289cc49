-- ===== src/Tests/Days.antt =====
-- Days of two tokens in ranges.
use Prim.Native.String.{String}
use yearn_prices.Common.{All, List, [], inl, inr, map, refl, ℕ, ◌∷◌, ◌≡◌}
use yearn_prices.Backfill.Ranges.{ContiguousRange, group_contiguous_ranges}
use yearn_prices.Backfill.Ranges.Contiguous.{IsContiguous}
use yearn_prices.Backfill.Ranges.Whole.{group_contiguous_ranges-IsContiguous}
use yearn_prices.Backfill.Ranges.Covers.{Covers, group_contiguous_ranges-Covers}

abbrev item_token : String × ℕ → String
item_token (token, _) = token

abbrev item_eod : String × ℕ → ℕ
item_eod (_, eod) = eod

-- Three days in a row in the wrong order, another token, one gap; two days at most in a range.
abbrev sample_items : List (String × ℕ)
sample_items = ("a", 259199) ∷ ("b", 86399) ∷ ("a", 86399) ∷ ("a", 172799) ∷ ("a", 604799) ∷ []

abbrev bounds_of : ContiguousRange (String × ℕ) → String × ℕ × ℕ
bounds_of r = (r.identifier, r.range_start, r.range_end)

group_contiguous_ranges_test :
    map bounds_of (group_contiguous_ranges item_token item_eod 2 sample_items)
    ≡ ("a", 86399, 172799)
      ∷ ("a", 259199, 259199)
      ∷ ("a", 604799, 604799)
      ∷ ("b", 86399, 86399)
      ∷ []
unfolding group_contiguous_ranges
group_contiguous_ranges_test = refl

group_contiguous_ranges-IsContiguous_example :
    All
      (IsContiguous item_token item_eod 2)
      (group_contiguous_ranges item_token item_eod 2 sample_items)
group_contiguous_ranges-IsContiguous_example =
    group_contiguous_ranges-IsContiguous item_token item_eod 2 sample_items

group_contiguous_ranges-Covers_example :
    Covers item_token item_eod 2
      ("b", 86399)
      (group_contiguous_ranges item_token item_eod 2 sample_items)
group_contiguous_ranges-Covers_example =
    group_contiguous_ranges-Covers item_token item_eod 2 ("b", 86399) sample_items (inr (inl refl))
