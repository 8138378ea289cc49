-- ===== src/Backfill/Matcher.antt =====
-- src/backfill/matcher.ts: the observation of a chart that stands for a day. Day ends and offsets
-- are non-negative integers of seconds. An absent option is its default.
pub mod Collect
pub mod Select
pub mod Correct
use yearn_prices.Common.{
  Bool, List, Option, [], false, if◌then◌else◌, leb, length, ltb, nat_eq, none, not, pair_eq, some,
  string_eq, true, ℕ, ◌&&◌, ◌==◌, ◌||◌, ◌∷◌,
}
use yearn_prices.Common.Int.{distance, sub_ℕ, ℤ}
use yearn_prices.Common.OrderedMap.{get, set}
use yearn_prices.Utils.Text.{Text, text, text_eq}
use yearn_prices.Utils.Number.{Number, exceeds_zero, is_finite, number_beq, safe_positive}
use yearn_prices.Utils.Json.{
  Elements, Json, Members, array, element, no_elements, null, number, object, read_member, string,
  undefined,
}

abbrev pub maximum_symbol_length : ℕ
maximum_symbol_length = 64

pub record MatchOptions : Type 0 where
  pub maximum_offset_seconds : ℕ
  pub is_eligible_observation : ℕ → Bool

pub data MatchResult : Type 0 where
  matched : Number → Option Text → Option Number → ℕ → ℤ → MatchResult
  not_found : MatchResult
  invalid_response : MatchResult

-- `isObservationTimestamp`, and the timestamp.
abbrev pub observation_timestamp : Json → Option ℕ
observation_timestamp (number n) = safe_positive n
observation_timestamp _ = none

-- `isObservationPrice`, and the price.
abbrev pub observation_price : Json → Option Number
observation_price (number n) = if is_finite n && exceeds_zero n then some n else none
observation_price _ = none

abbrev pub is_valid_symbol : Json → Bool
is_valid_symbol undefined = true
is_valid_symbol null = true
is_valid_symbol (string s) = leb (length s) maximum_symbol_length
is_valid_symbol _ = false

abbrev pub is_valid_confidence : Json → Bool
is_valid_confidence undefined = true
is_valid_confidence null = true
is_valid_confidence (number n) = is_finite n
is_valid_confidence _ = false

abbrev pub pair_up : Option ℕ → Option Number → Option (ℕ × Number)
pair_up (some t) (some p) = some (t, p)
pair_up _ _ = none

-- The guards on one raw observation; `none` where it is malformed.
unfoldable pub read_observation : Json → Option (ℕ × Number)
unfolding read_member
read_observation (object fields) =
    pair_up (observation_timestamp (read_member (text "timestamp") fields))
      (observation_price (read_member (text "price") fields))
read_observation _ = none

-- The filters on a well-formed observation.
abbrev pub is_in_window : ℕ → MatchOptions → ℕ → Bool
is_in_window eod options timestamp =
    leb (distance timestamp eod) options.maximum_offset_seconds
    && options.is_eligible_observation timestamp

module _ (eod : ℕ) (options : MatchOptions) where
  -- The first loop, with the map of candidates and `sawMalformedObservation`; `none` is its early
  -- return of an invalid response.
  unfoldable pub collect : Elements → List (ℕ × Number) → Bool → Option (List (ℕ × Number) × Bool)
  collect no_elements candidates saw_malformed = some (candidates, saw_malformed)
  collect (element raw prices) candidates saw_malformed = elim (read_observation raw) [
    | none ↦ collect prices candidates true
    | some (timestamp, price) ↦
        if not (is_in_window eod options timestamp)
        then collect prices candidates saw_malformed
        else elim (get timestamp candidates) [
          | some collapsed ↦
              if number_beq collapsed price then collect prices candidates saw_malformed else none
          | none ↦ collect prices (set timestamp price candidates) saw_malformed
        ]
  ]

  -- `distance < selectedDistance || (distance === selectedDistance && timestamp < …)`
  abbrev pub is_nearer : ℕ → ℕ → Bool
  is_nearer timestamp selected =
      ltb (distance timestamp eod) (distance selected eod)
      || distance timestamp eod == distance selected eod && ltb timestamp selected

  -- The second loop, from what is selected so far.
  unfoldable pub select : Option (ℕ × Number) → List (ℕ × Number) → Option (ℕ × Number)
  select selected [] = selected
  select none (candidate ∷ candidates) = select (some candidate) candidates
  select (some (t, p)) ((timestamp, price) ∷ candidates) =
      select (some (if is_nearer timestamp t then (timestamp, price) else (t, p))) candidates

  abbrev pub string_of : Json → Option Text
  string_of (string s) = some s
  string_of _ = none

  abbrev pub number_of : Json → Option Number
  number_of (number n) = some n
  number_of _ = none

  -- What follows the loops.
  abbrev pub answer : Members → Bool → Option (ℕ × Number) → MatchResult
  answer entry saw_malformed none = if saw_malformed then invalid_response else not_found
  answer entry saw_malformed (some (timestamp, price)) =
      matched price (string_of (read_member (text "symbol") entry))
        (number_of (read_member (text "confidence") entry)) timestamp (sub_ℕ timestamp eod)

  abbrev pub finish : Members → Option (List (ℕ × Number) × Bool) → MatchResult
  finish entry none = invalid_response
  finish entry (some (candidates, saw_malformed)) =
      answer entry saw_malformed (select none candidates)

  abbrev pub match_prices : Members → Json → MatchResult
  match_prices entry (array prices) =
      if is_valid_symbol (read_member (text "symbol") entry)
        && is_valid_confidence (read_member (text "confidence") entry)
      then finish entry (collect prices [] false)
      else invalid_response
  match_prices entry _ = invalid_response

  unfoldable pub match_chart_observation : Json → MatchResult
  unfolding collect select read_observation read_member
  match_chart_observation undefined = not_found
  match_chart_observation (object entry) = match_prices entry (read_member (text "prices") entry)
  match_chart_observation _ = invalid_response

  -- The loop of `windowEligibleObservations`.
  unfoldable pub window_of : Elements → List (ℕ × Number)
  window_of no_elements = []
  window_of (element raw prices) = elim (read_observation raw) [
    | none ↦ window_of prices
    | some (timestamp, price) ↦
        if is_in_window eod options timestamp
        then (timestamp, price) ∷ window_of prices
        else window_of prices
  ]

  abbrev pub window_of_prices : Json → List (ℕ × Number)
  window_of_prices (array prices) = window_of prices
  window_of_prices _ = []

  unfoldable pub window_eligible_observations : Json → List (ℕ × Number)
  unfolding window_of read_observation read_member
  window_eligible_observations (object entry) = window_of_prices (read_member (text "prices") entry)
  window_eligible_observations _ = []
