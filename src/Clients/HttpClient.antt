-- ===== src/Clients/HttpClient.antt =====
-- src/clients/http-client.ts: `fetchJsonWithRetry`. The rate limiter's turns and abort signals are
-- left out; a call is the list of what its requests come to, and gives a value or an error with the
-- delays that were slept, in order. Messages and the callbacks' arguments are left out.
pub mod Retries
use yearn_prices.Common.{
  Bool, List, Option, [], false, if◌then◌else◌, leb, max, none, not, or_else, some, true, ℕ, ◌&&◌,
  ◌+◌, ◌==◌, ◌||◌, ◌∷◌,
}
use yearn_prices.Http.{ErrorCode, internal_error, not_found}
use yearn_prices.Utils.Json.{Json}

pub data DiagnosticCode : Type 0 where
  timeout provider_response invalid_json transport : DiagnosticCode

-- What one request comes to: a rejection, of the fetch or while the body streams; a body that is
-- not JSON; a value; or a status that is not in the range of success, with its parsed `retry-after`.
pub data FetchOutcome : Type 0 where
  fails : (aborted : Bool) → FetchOutcome
  bad_json : (status : ℕ) → FetchOutcome
  responds : Json → FetchOutcome
  refuses : (status : ℕ) (retry_after : Option ℕ) → FetchOutcome

pub record FetchConfig : Type 0 where
  pub not_found_as_error : Bool
  pub honor_retry_after : Bool
  pub retry_rate_limits : Bool
  pub retry_transport_errors : Bool
  pub retry_invalid_json : Bool

-- `raw` is the error of fetch or of the parser, thrown as it is.
pub data FetchError : Type 0 where
  raw : FetchError
  api : ErrorCode → FetchError
  http_request : DiagnosticCode → ℕ → Option ℕ → FetchError

pub data FetchResult : Type 0 where
  value : Json → FetchResult
  error : FetchError → FetchResult

abbrev pub retry_delays : List ℕ
retry_delays = 1000 ∷ 2000 ∷ 4000 ∷ []

-- What one attempt leads to: an end, or a sleep before the next.
pub data Step : Type 0 where
  ends : FetchResult → Step
  retries : ℕ → Step

-- `last_attempt` says whether `attempt === lastAttempt`; `n` is `attempt + 1`.
abbrev pub fail_or_retry_transport : FetchConfig → Bool → ℕ → ℕ → Bool → Step
fail_or_retry_transport config last_attempt n delay aborted =
    if not config.retry_transport_errors
    then ends (error raw)
    else if last_attempt
    then ends (error (http_request (if aborted then timeout else transport) n none))
    else retries delay

abbrev pub fail_or_retry_json : FetchConfig → Bool → ℕ → ℕ → ℕ → Step
fail_or_retry_json config last_attempt n delay status =
    if not config.retry_invalid_json
    then ends (error raw)
    else if last_attempt
    then ends (error (http_request invalid_json n (some status)))
    else retries delay

abbrev pub should_retry : FetchConfig → ℕ → Bool
should_retry config status = status == 429 && config.retry_rate_limits || leb 500 status

abbrev pub fail_or_retry_status : FetchConfig → Bool → ℕ → ℕ → ℕ → Option ℕ → Step
fail_or_retry_status config last_attempt n delay status retry_after =
    let after = if config.honor_retry_after then retry_after else none in
    if config.not_found_as_error && status == 404
    then ends (error (api not_found))
    else if not (should_retry config status) || last_attempt
    then ends (error (http_request provider_response n (some status)))
    else retries (max (or_else after 0) delay)

unfoldable pub attempt_step : FetchConfig → Bool → ℕ → ℕ → FetchOutcome → Step
attempt_step config last_attempt n delay (fails aborted) =
    fail_or_retry_transport config last_attempt n delay aborted
attempt_step config last_attempt n delay (bad_json status) =
    fail_or_retry_json config last_attempt n delay status
attempt_step config last_attempt n delay (responds json) = ends (value json)
attempt_step config last_attempt n delay (refuses status retry_after) =
    fail_or_retry_status config last_attempt n delay status retry_after

abbrev pub is_last : List ℕ → Bool
is_last [] = true
is_last (delay ∷ delays) = false

abbrev pub and_then : Step → (ℕ → FetchResult × List ℕ) → FetchResult × List ℕ
and_then (ends result) next = (result, [])
and_then (retries delay) next = next delay

-- The loop over the attempts that are left; `request n` is what the n-th request comes to, from 1.
unfoldable pub attempts_from : FetchConfig → (ℕ → FetchOutcome) → ℕ → List ℕ → FetchResult × List ℕ
unfolding attempt_step
attempts_from config request n [] = (error (api internal_error), [])
attempts_from config request n (delay ∷ delays) =
    and_then (attempt_step config (is_last delays) n delay (request n)) (λ slept.
      let (result, later) = attempts_from config request (n + 1) delays in (result, slept ∷ later))

unfoldable pub fetch_json_with_retry : FetchConfig → (ℕ → FetchOutcome) → FetchResult × List ℕ
unfolding attempts_from
fetch_json_with_retry config request = attempts_from config request 1 retry_delays
