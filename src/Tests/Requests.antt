-- ===== src/Tests/Requests.antt =====
-- The rate limiter and the retries at concrete values.
use yearn_prices.Common.{
  All, List, [], arith, false, if◌then◌else◌, length, refl, some, true, ℕ, ◌+◌, ◌==◌, ◌∷◌, ◌≡◌, ◌≤◌,
}
use yearn_prices.Utils.Json.{null}
use yearn_prices.Clients.RateLimiter.{shift_expired, taken, turn_round}
use yearn_prices.Clients.RateLimiter.Window.{
  Turns, Turns-paced, count_window, sleep, start, take_turn,
}
use yearn_prices.Clients.RateLimiter.Waiting.{
  Waits-served, arrives, other_turn, passes, sleeps_again, still,
}
use yearn_prices.Clients.HttpClient.{
  FetchConfig, FetchOutcome, attempt_step, attempts_from, fails, fetch_json_with_retry, refuses,
  responds, value,
}
use yearn_prices.Clients.HttpClient.Retries.{
  fetch_json_with_retry-final, final_result, requests_made,
}

-- Two turns at time 0 are the limit; a third caller sleeps.
three_callers : Turns 2 100 (0 ∷ 0 ∷ []) (0 ∷ 0 ∷ []) 0
unfolding turn_round shift_expired
three_callers =
    sleep 100 (0 ∷ 0 ∷ []) refl (take_turn (0 ∷ 0 ∷ []) refl (take_turn (0 ∷ []) refl (start 0)))

Turns-paced_example : All (λ g. count_window 2 100 g (0 ∷ 0 ∷ []) ≤ 2) (0 ∷ 0 ∷ [])
Turns-paced_example = Turns-paced 2 100 three_callers

-- Another caller takes a turn during the first of two sleeps.
Waits-served_example : (ts' : List ℕ) × (turn_round 2 100 125 (5 ∷ 100 ∷ []) ≡ taken ts')
unfolding turn_round shift_expired
Waits-served_example =
    Waits-served 2 100 (0 ∷ 5 ∷ []) (5 ∷ 100 ∷ []) 10 2 1 125 (omega arith) (omega arith)
      (sleeps_again 25
        (sleeps_again 90 arrives refl
          (other_turn (5 ∷ 100 ∷ []) refl (passes 100 (omega arith) still)) (omega arith))
        refl (passes 125 (omega arith) still) (omega arith))
      (omega arith)

abbrev patient : FetchConfig
patient = record {
  not_found_as_error = true;
  honor_retry_after = true;
  retry_rate_limits = true;
  retry_transport_errors = true;
  retry_invalid_json = false;
}

-- A rate limit, then a transport failure, then a value.
abbrev flaky : ℕ → FetchOutcome
flaky n = if n == 1 then refuses 429 (some 5000) else if n == 2 then fails false else responds null

fetch_json_with_retry-final_example :
    ((fetch_json_with_retry patient flaky).0
      ≡ final_result patient (requests_made patient flaky) (flaky (requests_made patient flaky)))
    × (length (fetch_json_with_retry patient flaky).1 + 1 ≡ requests_made patient flaky)
    × All (λ d. 1000 ≤ d) (fetch_json_with_retry patient flaky).1
fetch_json_with_retry-final_example = fetch_json_with_retry-final patient flaky

third_succeeds : fetch_json_with_retry patient flaky ≡ (value null, 5000 ∷ 2000 ∷ [])
unfolding fetch_json_with_retry attempts_from attempt_step
third_succeeds = refl
