-- ===== src/Tests/Parameters.antt =====
-- The parsers of query parameters at concrete values, with lower case in the place of a checksum.
use yearn_prices.Common.{All, List, [], length, refl, some, ◌∷◌, ◌≤◌}
use yearn_prices.Common.Int.{pos}
use yearn_prices.Utils.Text.{is_hex, lower_code, split_colon, text, to_lower_case}
use yearn_prices.Utils.Time.{normalize_to_end_of_day}
use yearn_prices.Utils.Number.{integer}
use yearn_prices.Utils.Json.{
  Json, array, element, member, no_elements, no_members, number, object, string,
}
use yearn_prices.Utils.Chains.{
  id_of_name, is_supported_chain, is_token_address, normalize_token_address, parse_token_key,
}
use yearn_prices.Utils.Validation.{
  HistoricalRequestTuple, RangeRequest, batch_requests, normalize_request_timestamp,
  normalize_timestamps, parse_batch_coins, parse_range_coins, range_requests,
}
use yearn_prices.Utils.Validation.Accepted.{
  IsBatchRequest, IsRangeRequest, parse_batch_coins-IsBatchRequest,
  parse_range_coins-IsRangeRequest,
}
use yearn_prices.Tests.Basics.{key, lower-IsChecksum, parsed}

parsers : Unit {0}
unfolding parse_batch_coins batch_requests parse_range_coins range_requests normalize_timestamps
    normalize_request_timestamp normalize_to_end_of_day parse_token_key normalize_token_address
    is_token_address is_supported_chain id_of_name to_lower_case lower_code split_colon is_hex
parsers = tt

abbrev batch : Json
batch = object (
    member key
      (array (element (number (integer (pos 5))) (element (string (text "100000")) no_elements)))
      no_members)

abbrev batch_tuples : List HistoricalRequestTuple
batch_tuples =
    record { chain = parsed.chain; token = parsed.token; timestamp = 86_399 }
    ∷ record { chain = parsed.chain; token = parsed.token; timestamp = 172_799 }
    ∷ []

parse_batch_coins-IsBatchRequest_example :
    All IsBatchRequest batch_tuples × (length batch_tuples ≤ 4500)
unfolding parsers
parse_batch_coins-IsBatchRequest_example =
    parse_batch_coins-IsBatchRequest lower-IsChecksum (some batch) batch_tuples refl

abbrev range : Json
range = object (
    member key
      (array
        (element (number (integer (pos 5))) (element (number (integer (pos 100_000))) no_elements)))
      no_members)

abbrev range_tuples : List RangeRequest
range_tuples =
    record {
      chain = parsed.chain;
      token = parsed.token;
      start_timestamp = 86_399;
      end_timestamp = 172_799;
    }
    ∷ []

parse_range_coins-IsRangeRequest_example :
    All IsRangeRequest range_tuples × (length range_tuples ≤ 50)
unfolding parsers
parse_range_coins-IsRangeRequest_example =
    parse_range_coins-IsRangeRequest lower-IsChecksum (some range) range_tuples refl
