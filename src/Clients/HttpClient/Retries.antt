-- ===== src/Clients/HttpClient/Retries.antt =====
-- What a call with retries comes to.
use yearn_prices.Common.{
  All, Bool, arith, false, if◌then◌else◌, length, none, not, some, ℕ, ◌&&◌, ◌+◌, ◌==◌, ◌≡◌, ◌≤◌,
}
use yearn_prices.Http.{not_found}
use yearn_prices.Clients.HttpClient.{
  FetchConfig, FetchOutcome, FetchResult, api, attempt_step, attempts_from, bad_json, error, fails,
  fetch_json_with_retry, http_request, invalid_json, provider_response, raw, refuses, responds,
  should_retry, timeout, transport, value,
}

module _ (config : FetchConfig) where
  -- An outcome that another attempt may mend, by the caller's configuration.
  abbrev pub is_transient : FetchOutcome → Bool
  is_transient (fails aborted) = config.retry_transport_errors
  is_transient (bad_json status) = config.retry_invalid_json
  is_transient (responds json) = false
  is_transient (refuses status retry_after) =
      not (config.not_found_as_error && status == 404) && should_retry config status

  -- What an outcome comes to where it is the last, at the n-th request.
  abbrev pub final_result : ℕ → FetchOutcome → FetchResult
  final_result n (responds json) = value json
  final_result n (fails aborted) = error (
      if config.retry_transport_errors
      then http_request (if aborted then timeout else transport) n none
      else raw)
  final_result n (bad_json status) =
      error (if config.retry_invalid_json then http_request invalid_json n (some status) else raw)
  final_result n (refuses status retry_after) = error (
      if config.not_found_as_error && status == 404
      then api not_found
      else http_request provider_response n (some status))

  -- The number of requests that a call makes: up to the first outcome that is not transient, and
  -- three at most.
  abbrev pub requests_made : (ℕ → FetchOutcome) → ℕ
  requests_made request =
      if not (is_transient (request 1)) then 1 else if not (is_transient (request 2)) then 2 else 3

  -- A call makes requests until an outcome is not transient, three at most; its result is that of
  -- its last request; between two requests it sleeps one second at least.
  pub fetch_json_with_retry-final :
      (request : ℕ → FetchOutcome)
      → ((fetch_json_with_retry config request).0
          ≡ final_result (requests_made request) (request (requests_made request)))
        × (length (fetch_json_with_retry config request).1 + 1 ≡ requests_made request)
        × All (λ d. 1000 ≤ d) (fetch_json_with_retry config request).1
  unfolding fetch_json_with_retry attempts_from attempt_step
  fetch_json_with_retry-final request = ground arith
