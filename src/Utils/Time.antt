-- ===== src/Utils/Time.antt =====
-- src/utils/time.ts: UTC days by their last second. A timestamp is a non-negative integer number
-- of seconds; NaN, fractions and negative times are outside these functions' callers.
pub mod Days
pub mod Ranges
use yearn_prices.Common.{
  ℕ, zero, suc, ◌+◌, ◌-◌, ◌*◌, ◌/◌, Bool, List, [], ◌∷◌, leb, ltb, ◌==◌, if◌then◌else◌,
}
use yearn_prices.Common.Int.{ℤ, pos, sub_ℕ}

abbrev pub day_seconds : ℕ
day_seconds = 86_400

unfoldable pub normalize_to_end_of_day : ℕ → ℕ
normalize_to_end_of_day timestamp = timestamp / day_seconds * day_seconds + (day_seconds - 1)

unfoldable pub current_utc_day_end : ℕ → ℕ
unfolding normalize_to_end_of_day
current_utc_day_end now = normalize_to_end_of_day now

-- Milliseconds are told from seconds by their size.
unfoldable pub to_unix_seconds : ℕ → ℕ
to_unix_seconds timestamp = if leb 1_000_000_000_000 timestamp then timestamp / 1000 else timestamp

unfoldable pub is_today_normalized : ℕ → ℕ → Bool
unfolding normalize_to_end_of_day current_utc_day_end
is_today_normalized timestamp now = normalize_to_end_of_day timestamp == current_utc_day_end now

unfoldable pub is_closed_day : ℕ → ℕ → Bool
unfolding normalize_to_end_of_day current_utc_day_end
is_closed_day timestamp now = ltb (normalize_to_end_of_day timestamp) (current_utc_day_end now)

unfoldable pub to_fetch_timestamp : ℕ → ℕ → ℕ
unfolding is_today_normalized
to_fetch_timestamp timestamp current =
    if is_today_normalized timestamp current then current else timestamp

-- `Math.floor((end - start) / DAY_SECONDS) + 1`, which is at most 0 where the end comes first.
unfoldable pub normalized_range_day_count : ℕ → ℕ → ℤ
normalized_range_day_count start end =
    if leb start end
    then pos ((end - start) / day_seconds + 1)
    else sub_ℕ 1 ((start - end + (day_seconds - 1)) / day_seconds)

-- `for (cursor = start; cursor <= end; cursor += DAY_SECONDS)`
days_from : ℕ → ℕ → ℕ → List ℕ
days_from zero cursor end = []
days_from (suc fuel) cursor end =
    let rest = days_from fuel (cursor + day_seconds) end in
    if leb cursor end then cursor ∷ rest else []

-- One round for each day, and the round that fails the test.
unfoldable pub normalized_days_in_range : ℕ → ℕ → List ℕ
unfolding days_from
normalized_days_in_range start end = days_from ((end - start) / day_seconds + 2) start end
