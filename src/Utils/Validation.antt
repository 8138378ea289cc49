-- ===== src/Utils/Validation.antt =====
-- src/utils/validation.ts: the query parameters of the routes. A `coins` parameter is what
-- `JSON.parse` makes of it; `none` stands for a parameter that is missing or not JSON.
pub mod Accepted
pub mod Errors
use yearn_prices.Common.{
  Bool, List, Option, [], all, any, eqb, false, if◌then◌else◌, leb, ltb, nat_eq, none, not,
  option_eq, pair_eq, some, string_eq, ℕ, ◌&&◌, ◌*◌, ◌++◌, ◌+◌, ◌-◌, ◌/◌, ◌==◌, ◌∷◌,
}
use yearn_prices.Common.Int.{pos}
use yearn_prices.Http.{Result, ensure, invalid_input, ok, throw, ◌>>=◌, ◌>>◌}
use yearn_prices.Utils.Text.{Text, text_eq, to_lower_case}
use yearn_prices.Utils.Time.{day_seconds, normalize_to_end_of_day, normalized_range_day_count}
use yearn_prices.Utils.Number.{integer, max_safe_integer}
use yearn_prices.Utils.Json.{
  Elements, Json, Members, array, element, member, no_elements, no_members, number, object, string,
}
use yearn_prices.Utils.Chains.{ParsedTokenKey, parse_token_key}

abbrev pub max_batch_tokens : ℕ
max_batch_tokens = 50

abbrev pub max_batch_timestamps_per_token : ℕ
max_batch_timestamps_per_token = 90

abbrev pub max_range_tokens : ℕ
max_range_tokens = 50

abbrev pub max_range_days : ℕ
max_range_days = 366

abbrev pub max_spot_tokens : ℕ
max_spot_tokens = 50

pub record HistoricalRequestTuple : Type 0 where
  pub chain : Text
  pub token : Text
  pub timestamp : ℕ

pub record RangeRequest : Type 0 where
  pub chain : Text
  pub token : Text
  pub start_timestamp : ℕ
  pub end_timestamp : ℕ

pub record SpotRequest : Type 0 where
  pub chain : Text
  pub token : Text
  pub original_key : Text

abbrev pub is_decimal : Text → Bool
is_decimal [] = false
is_decimal digits = all (λ c. leb b'0' c && leb c b'9') digits

abbrev pub decimal_value : ℕ → Text → ℕ
decimal_value n [] = n
decimal_value n (c ∷ digits) = decimal_value (n * 10 + (c - b'0')) digits

-- The number that a request's timestamp is, where it is a safe integer and not negative.
abbrev pub request_timestamp : Json → Option ℕ
request_timestamp (number (integer (pos n))) = if leb n max_safe_integer then some n else none
request_timestamp (string s) =
    if is_decimal s && leb (decimal_value 0 s) max_safe_integer
    then some (decimal_value 0 s)
    else none
request_timestamp _ = none

-- The last millisecond of a `Date`.
abbrev pub max_date : ℕ
max_date = 8_640_000_000_000_000

unfoldable pub normalize_request_timestamp : Json → Result ℕ
unfolding normalize_to_end_of_day
normalize_request_timestamp value = elim (request_timestamp value) [
  | none ↦ throw invalid_input
  | some timestamp ↦
      if leb (normalize_to_end_of_day timestamp * 1000) max_date
      then ok (normalize_to_end_of_day timestamp)
      else throw invalid_input
]

abbrev pub count_elements : Elements → ℕ
count_elements no_elements = 0
count_elements (element value values) = count_elements values + 1

abbrev pub count_members : Members → ℕ
count_members no_members = 0
count_members (member name value members) = count_members members + 1

-- The set of a token's timestamps, in the order of their first mention.
unfoldable pub normalize_timestamps : Elements → List ℕ → Result (List ℕ)
unfolding normalize_request_timestamp
normalize_timestamps no_elements seen = ok seen
normalize_timestamps (element value values) seen = do
  timestamp ← normalize_request_timestamp value
  normalize_timestamps values
      (if any (λ t. t == timestamp) seen then seen else seen ++ timestamp ∷ [])

abbrev pub is_seen : Text → List Text → Bool
is_seen key seen = any (λ k. eqb k key) seen

abbrev pub tuples_of : ParsedTokenKey → List ℕ → List HistoricalRequestTuple
tuples_of key [] = []
tuples_of key (t ∷ timestamps) =
    record { chain = key.chain; token = key.token; timestamp = t } ∷ tuples_of key timestamps

-- `typeof parsed === 'object'` and not an array; then its entries.
abbrev pub entries_of : Option Json → ℕ → Result Members
entries_of (some (object members)) most =
    if leb (count_members members) most then ok members else throw invalid_input
entries_of _ most = throw invalid_input

abbrev pub bounded_array : Json → ℕ → Result Elements
bounded_array (array values) most =
    if leb (count_elements values) most then ok values else throw invalid_input
bounded_array _ most = throw invalid_input

abbrev pub two_elements : Json → Result (Json × Json)
two_elements (array (element a (element b no_elements))) = ok (a, b)
two_elements _ = throw invalid_input

module _ (checksum : Text → Text) where
  -- The loop of `parseSpotCoins`: a key that was seen is passed over.
  unfoldable pub spot_requests : Elements → List Text → Result (List SpotRequest)
  spot_requests no_elements seen = ok []
  spot_requests (element (string entry) entries) seen = do
    key ← parse_token_key checksum entry
    if is_seen key.token_key seen then spot_requests entries seen else do
      requests ← spot_requests entries (key.token_key ∷ seen)
      ok (record { chain = key.chain; token = key.token; original_key = entry } ∷ requests)
  spot_requests (element other entries) seen = throw invalid_input

  abbrev pub spot_array : Option Json → Result Elements
  spot_array (some (array entries)) =
      if ltb 0 (count_elements entries) && leb (count_elements entries) max_spot_tokens
      then ok entries
      else throw invalid_input
  spot_array _ = throw invalid_input

  unfoldable pub parse_spot_coins : Option Json → Result (List SpotRequest)
  unfolding spot_requests
  parse_spot_coins raw = do entries ← spot_array raw; spot_requests entries []

  -- The loop of `parseBatchCoins`; a second key for one token is an error.
  unfoldable pub batch_requests : Members → List Text → Result (List HistoricalRequestTuple)
  unfolding normalize_timestamps
  batch_requests no_members seen = ok []
  batch_requests (member token_key timestamps members) seen = do
    values ← bounded_array timestamps max_batch_timestamps_per_token
    key ← parse_token_key checksum token_key
    ensure (not (is_seen (to_lower_case key.token_key) seen)) invalid_input
    normalized ← normalize_timestamps values []
    requests ← batch_requests members (to_lower_case key.token_key ∷ seen)
    ok (tuples_of key normalized ++ requests)

  unfoldable pub parse_batch_coins : Option Json → Result (List HistoricalRequestTuple)
  unfolding batch_requests
  parse_batch_coins raw = do members ← entries_of raw max_batch_tokens; batch_requests members []

  -- The loop of `parseRangeCoins`.
  unfoldable pub range_requests : Members → List Text → Result (List RangeRequest)
  unfolding normalize_request_timestamp
  range_requests no_members seen = ok []
  range_requests (member token_key range members) seen = do
    (start_raw, end_raw) ← two_elements range
    start ← normalize_request_timestamp start_raw
    end ← normalize_request_timestamp end_raw
    ensure (leb start end) invalid_input
    -- `normalizedRangeDayCount`, of a range in order
    ensure (leb ((end - start) / day_seconds + 1) max_range_days) invalid_input
    key ← parse_token_key checksum token_key
    ensure (not (is_seen (to_lower_case key.token_key) seen)) invalid_input
    requests ← range_requests members (to_lower_case key.token_key ∷ seen)
    ok (
        record {
          chain = key.chain;
          token = key.token;
          start_timestamp = start;
          end_timestamp = end;
        }
        ∷ requests)

  unfoldable pub parse_range_coins : Option Json → Result (List RangeRequest)
  unfolding range_requests
  parse_range_coins raw = do members ← entries_of raw max_range_tokens; range_requests members []
