-- ===== src/Cache/Headers/Lifetimes.antt =====
-- The lifetimes of src/cache/headers.ts by the days of the timestamps.
use yearn_prices.Common.{
  All, Bool, List, [], any, arith, false, leb_false→lt, refl, true, ℕ, ◌+◌, ◌/◌, ◌<◌, ◌↔◌, ◌∷◌, ◌≡◌,
  ◌≤◌, ◌⊎◌,
}
use yearn_prices.Utils.Time.{current_utc_day_end, day_seconds, normalize_to_end_of_day}
use yearn_prices.Cache.Headers.{
  cache_control_for_batch, cache_control_for_range, may_be_provisional, s_maxage,
}

-- The timestamp's day ended before yesterday began.
abbrev pub IsSettled : ℕ → ℕ → Type 0
IsSettled now timestamp = timestamp / day_seconds + 1 < now / day_seconds

may_be_provisional-eq-false_iff :
    (now timestamp : ℕ) → (may_be_provisional now timestamp ≡ false) ↔ IsSettled now timestamp
unfolding current_utc_day_end normalize_to_end_of_day
may_be_provisional-eq-false_iff now timestamp =
    ((λ h. omega (arith, leb_false→lt _ _ h)), λ h. ground (arith, h))

any-eq-false_iff :
    (now : ℕ) (timestamps : List ℕ)
    → (any (may_be_provisional now) timestamps ≡ false) ↔ All (IsSettled now) timestamps
any-eq-false_iff now [] = ((λ _. tt), λ _. refl)
any-eq-false_iff now (timestamp ∷ timestamps) =
    grind (arith, may_be_provisional-eq-false_iff now timestamp, any-eq-false_iff now timestamps)

-- A batch's answer is kept for 30 days exactly where all its pairs have a price and the days of all
-- its timestamps ended before yesterday began; any other is kept for five minutes at most. A
-- range's answer is kept as long as that of a batch of its ends.
pub cache_control_for_batch_lifetime :
    (now : ℕ) (timestamps : List ℕ) (all_resolved : Bool)
    → ((s_maxage (cache_control_for_batch now timestamps all_resolved) ≡ 2_592_000)
        ↔ ((all_resolved ≡ true) × All (IsSettled now) timestamps))
      × ((s_maxage (cache_control_for_batch now timestamps all_resolved) ≡ 2_592_000)
          ⊎ (s_maxage (cache_control_for_batch now timestamps all_resolved) ≤ 300))
      × (cache_control_for_range now timestamps all_resolved
          ≡ cache_control_for_batch now timestamps all_resolved)
cache_control_for_batch_lifetime now timestamps all_resolved =
    (ground (arith, any-eq-false_iff now timestamps), ground arith, refl)
