-- ===== src/Utils/Time/Days.antt =====
-- What the last second of a day is, and how two timestamps compare by day.
use yearn_prices.Common.{==_iff, arith, ltb→lt, lt→ltb, true, ℕ, ◌%◌, ◌+◌, ◌/◌, ◌<◌, ◌↔◌, ◌≡◌, ◌≤◌}
use yearn_prices.Utils.Time.{
  day_seconds, is_closed_day, is_today_normalized, normalize_to_end_of_day,
}

-- The end of a timestamp's day is the only number at or after it, less than a day away, that is a
-- last second of a day.
pub normalize_to_end_of_day_iff :
    (timestamp eod : ℕ)
    → (normalize_to_end_of_day timestamp ≡ eod)
      ↔ ((timestamp ≤ eod) × (eod < timestamp + day_seconds) × (eod % day_seconds ≡ 86_399))
unfolding normalize_to_end_of_day
normalize_to_end_of_day_iff timestamp eod =
    ((λ e. (omega arith, omega arith, omega arith)), λ h. omega arith)

-- A day end is its own day end.
pub normalize_to_end_of_day_idem :
    (timestamp : ℕ)
    → normalize_to_end_of_day (normalize_to_end_of_day timestamp)
      ≡ normalize_to_end_of_day timestamp
unfolding normalize_to_end_of_day
normalize_to_end_of_day_idem timestamp = omega arith

-- A timestamp lies on a closed day exactly when its day number is below that of the clock, and on
-- today exactly when the two are equal; no timestamp is both.
pub day_order :
    (timestamp now : ℕ)
    → ((is_closed_day timestamp now ≡ true) ↔ (timestamp / day_seconds < now / day_seconds))
      × ((is_today_normalized timestamp now ≡ true) ↔ (timestamp / day_seconds ≡ now / day_seconds))
unfolding is_closed_day is_today_normalized
day_order timestamp now = (
  ((λ h. omega (arith, ltb→lt _ _ h)), λ h. lt→ltb _ _ (omega arith)),
  ((λ h. omega (arith, (==_iff _ _).0 h)), λ h. (==_iff _ _).1 (omega arith)),
)
