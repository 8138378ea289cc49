-- ===== src/Clients/RateLimiter.antt =====
-- src/clients/http-client.ts: `SlidingWindowRateLimiter`, `SharedCooldownRateLimiter` and
-- `parseRetryAfter`. Times and delays are non-negative integers of milliseconds. Abort signals are
-- left out. `Date.parse` is the parameter `parse_date`.
pub mod Window
pub mod Waiting
use yearn_prices.Common.{
  Bool, List, Option, [], all, if◌then◌else◌, leb, length, ltb, max, min, none, some, ℕ, ◌&&◌, ◌*◌,
  ◌++◌, ◌+◌, ◌-◌, ◌==◌, ◌∷◌,
}
use yearn_prices.Utils.Text.{Text}

-- `while (timestamps.length > 0 && now - timestamps[0] >= intervalMs) timestamps.shift()`
unfoldable pub shift_expired : ℕ → ℕ → List ℕ → List ℕ
shift_expired interval now [] = []
shift_expired interval now (t ∷ timestamps) =
    let rest = shift_expired interval now timestamps in
    if leb (t + interval) now then rest else t ∷ timestamps

-- One round of `waitTurn`: the turn is taken, or the caller sleeps.
pub data Turn : Type 0 where
  taken : List ℕ → Turn
  sleeps : ℕ → List ℕ → Turn

-- `intervalMs - (now - timestamps[0])`; the list is not empty where the limit is positive.
abbrev pub wait_for : ℕ → ℕ → List ℕ → ℕ
wait_for interval now [] = 0
wait_for interval now (t ∷ timestamps) = t + interval - now

unfoldable pub turn_round : ℕ → ℕ → ℕ → List ℕ → Turn
unfolding shift_expired
turn_round limit interval now timestamps =
    let current = shift_expired interval now timestamps in
    if ltb (length current) limit
    then taken (current ++ now ∷ [])
    else sleeps (max (wait_for interval now current) 25) current

-- `extendCooldown`
unfoldable pub extend_cooldown : ℕ → ℕ → ℕ → ℕ
extend_cooldown now delay cooldown_until =
    if delay == 0 then cooldown_until else max cooldown_until (now + delay)

-- The gate at the head of the shared limiter's loop: it refuses, or waits for so long. `none` is no
-- bound.
pub data Gate : Type 0 where
  unavailable : Gate
  passes_after : ℕ → Gate

unfoldable pub cooldown_gate : ℕ → Option ℕ → ℕ → Gate
cooldown_gate now max_wait cooldown_until = elim max_wait [
  | none ↦ passes_after (cooldown_until - now)
  | some bound ↦
      if ltb bound (cooldown_until - now) then unavailable else passes_after (cooldown_until - now)
]

abbrev pub is_digit : ℕ → Bool
is_digit c = leb b'0' c && leb c b'9'

-- `Number(trimmed)`, of decimal digits.
abbrev pub digits_value : ℕ → Text → ℕ
digits_value n [] = n
digits_value n (c ∷ digits) = digits_value (n * 10 + (c - b'0')) digits

-- `trimmed` is `value.trim()`; `none` for no header.
unfoldable pub parse_retry_after : (Text → Option ℕ) → Option Text → ℕ → ℕ → Option ℕ
parse_retry_after parse_date none cap now = none
parse_retry_after parse_date (some []) cap now = none
parse_retry_after parse_date (some (c ∷ trimmed)) cap now =
    if all is_digit (c ∷ trimmed)
    then some (min (digits_value 0 (c ∷ trimmed) * 1000) cap)
    else elim (parse_date (c ∷ trimmed)) [ none ↦ none | some date ↦ some (min (date - now) cap) ]
