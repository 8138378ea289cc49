-- ===== src/Cache/Headers.antt =====
-- src/cache/headers.ts: the Cache-Control of historical answers. The clock is an argument.
pub mod Lifetimes
use yearn_prices.Common.{Bool, List, any, if◌then◌else◌, leb, ℕ, ◌-◌}
use yearn_prices.Utils.Time.{current_utc_day_end, normalize_to_end_of_day}

-- The header texts by their names.
pub data CacheControl : Type 0 where
  cache_control_historical : CacheControl
  cache_control_today : CacheControl
  cache_control_partial : CacheControl
  cache_control_not_found : CacheControl
  cache_control_spot : CacheControl
  cache_control_no_store : CacheControl

-- `s-maxage` of a text, in seconds; 0 where nothing is stored.
abbrev pub s_maxage : CacheControl → ℕ
s_maxage cache_control_historical = 2_592_000
s_maxage cache_control_today = 60
s_maxage cache_control_partial = 300
s_maxage cache_control_not_found = 300
s_maxage cache_control_spot = 120
s_maxage cache_control_no_store = 0

-- Before the first day of the epoch the difference is negative in the source and 0 here, and the
-- test holds for both.
abbrev pub may_be_provisional : ℕ → ℕ → Bool
may_be_provisional now timestamp =
    leb (current_utc_day_end now - 86_400) (normalize_to_end_of_day timestamp)

abbrev pub cache_control_for_historical : ℕ → ℕ → CacheControl
cache_control_for_historical now timestamp =
    if may_be_provisional now timestamp then cache_control_today else cache_control_historical

abbrev pub cache_control_for_batch : ℕ → List ℕ → Bool → CacheControl
cache_control_for_batch now timestamps all_resolved =
    if any (may_be_provisional now) timestamps
    then cache_control_today
    else if all_resolved
    then cache_control_historical
    else cache_control_partial

abbrev pub cache_control_for_range : ℕ → List ℕ → Bool → CacheControl
cache_control_for_range now range_ends all_resolved =
    if any (may_be_provisional now) range_ends
    then cache_control_today
    else if all_resolved
    then cache_control_historical
    else cache_control_partial
