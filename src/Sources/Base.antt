-- ===== src/Sources/Base.antt =====
-- src/sources/base.ts and src/sources/types.ts: what a source answers, and when a price is usable.
use Prim.Native.String.{String}
use yearn_prices.Common.{Bool, Option, leb, ltb, ℕ, ◌&&◌}
use yearn_prices.Utils.Number.{Number, exceeds_zero, is_finite, max_safe_integer}

pub record HistoricalPriceResult : Type 0 where
  pub price : Number
  pub timestamp : ℕ
  pub symbol : Option String
  pub confidence : Option Number

-- `isUsablePrice` at a number and a non-negative integer.
abbrev pub is_usable_price : Number → ℕ → Bool
is_usable_price price timestamp =
    is_finite price && exceeds_zero price && leb timestamp max_safe_integer && ltb 0 timestamp
