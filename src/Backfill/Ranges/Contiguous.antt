-- ===== src/Backfill/Ranges/Contiguous.antt =====
-- What a range is.
use Prim.Native.String.{String}
use yearn_prices.Common.{
  All, All-append, In, In-append_left, In-append_right, [], arith, dec_le, inl, inr, max, refl, ℕ,
  ◌%◌, ◌*◌, ◌+◌, ◌-◌, ◌∷◌, ◌≡◌, ◌≤◌, ◌⊎◌,
}
use yearn_prices.Utils.Time.{day_seconds}
use yearn_prices.Backfill.Ranges.{ContiguousRange, new_range, range_span_days, span_days, with_item}

module _ {Item : Type 0} (identifier_of : Item → String) (eod_of : Item → ℕ)
    (maximum_span_days : ℕ) where
  -- A whole number of days, no more than the span allows or one, with an item on each of them; all
  -- items have the identifier of the range.
  pub record IsContiguous (r : ContiguousRange Item) : Type 0 where
    pub ordered : r.range_start ≤ r.range_end
    pub whole : (r.range_end - r.range_start) % day_seconds ≡ 0
    pub short : range_span_days identifier_of eod_of maximum_span_days r ≤ max maximum_span_days 1
    pub filled :
        (k : ℕ)
        → r.range_start + k * day_seconds ≤ r.range_end
        → (item : Item) × In item r.items × (eod_of item ≡ r.range_start + k * day_seconds)
    pub named : All (λ item. identifier_of item ≡ r.identifier) r.items

  pub new_range-IsContiguous :
      (identifier : String) (item : Item)
      → identifier_of item ≡ identifier
      → IsContiguous (new_range identifier_of eod_of maximum_span_days identifier item)
  new_range-IsContiguous identifier item e = record {
    ordered = omega arith;
    whole = omega arith;
    short = omega arith;
    filled = λ k h. (item, inl refl, omega (arith, h));
    named = (e, tt);
  }

  pub with_item-IsContiguous :
      (r : ContiguousRange Item) (item : Item)
      → identifier_of item ≡ r.identifier
      → (eod_of item ≡ r.range_end)
        ⊎ ((eod_of item ≡ r.range_end + day_seconds)
            × (span_days identifier_of eod_of maximum_span_days r (eod_of item)
                ≤ maximum_span_days))
      → IsContiguous r
      → IsContiguous (with_item identifier_of eod_of maximum_span_days r item)
  with_item-IsContiguous r item e (inl same) h = record {
    ordered = omega (arith, same, h.ordered);
    whole = omega (arith, same, h.whole);
    short = omega (arith, same, h.short);
    filled = λ k b.
        let (i, m, d) = h.filled k (omega (arith, same, b)) in
        (i, In-append_left i r.items (item ∷ []) m, d);
    named = All-append _ r.items (item ∷ []) h.named (e, tt);
  }
  with_item-IsContiguous r item e (inr (next, short)) h = record {
    ordered = omega (arith, next, h.ordered);
    whole = omega (arith, next, h.whole, h.ordered);
    short = omega (arith, short);
    filled = λ k b. elim (dec_le (r.range_start + k * day_seconds) r.range_end) [
      | yes within ↦
          let (i, m, d) = h.filled k within in (i, In-append_left i r.items (item ∷ []) m, d)
      | no last ↦ (
        item,
        In-append_right item r.items (item ∷ []) (inl refl),
        omega (arith, last, next, b, h.whole, h.ordered),
      )
    ];
    named = All-append _ r.items (item ∷ []) h.named (e, tt);
  }
