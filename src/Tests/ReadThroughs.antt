-- ===== src/Tests/ReadThroughs.antt =====
-- A read through: today's price is given live, and one closed day by the history.
use Prim.Native.String.{String}
use yearn_prices.Db.PriceStore.{
  finalize_token_prices, finalized_by, insert_provisional_token_prices,
}
use yearn_prices.Common.{Bool, List, [], false, none, refl, some, true, ℕ, ◌-◌, ◌∷◌, ◌≡◌}
use yearn_prices.Common.Int.{pos}
use yearn_prices.Utils.Number.{Number, integer}
use yearn_prices.Utils.Text.{text, to_lower_case}
use yearn_prices.Utils.Time.{is_closed_day, is_today_normalized}
use yearn_prices.Utils.Chains.{chain_id_to_name, chain_name_to_id}
use yearn_prices.Utils.Validation.{HistoricalRequestTuple}
use yearn_prices.Db.Prices.{
  Numeric, PriceRow, PriceSource, curve, defillama, is_rejected_price, scaled,
}
use yearn_prices.Sources.Base.{HistoricalPriceResult}
use yearn_prices.Routes.ReadThrough.{ClosedTarget, Upstream}
use yearn_prices.Routes.ReadThrough.Run.{read_through, verdict}
use yearn_prices.Routes.ReadThrough.Serves.{
  Serves, Stores, read_through-Serves, read_through-Stores,
}

abbrev number_text : Number → Numeric
number_text (integer z) = scaled z 0
number_text _ = Numeric.nan

abbrev quote_at : ℕ → HistoricalPriceResult
quote_at timestamp = record {
  price = integer (pos 5);
  timestamp = timestamp;
  symbol = none;
  confidence = none;
}

abbrev history : List ClosedTarget → List (ClosedTarget × HistoricalPriceResult)
history [] = []
history (target ∷ targets) = (target, quote_at (target.timestamp - 60)) ∷ history targets

abbrev services : Upstream
services = record {
  current = λ targets. some (((text "base", text "0xab"), quote_at 199_990) ∷ []);
  historical = λ targets. some (history targets, false);
  current_fallback = none;
  is_plausible = λ chain_id token timestamp price. true;
}

abbrev request_at : ℕ → HistoricalRequestTuple
request_at timestamp = record { chain = text "base"; token = text "0xab"; timestamp = timestamp }

abbrev asked_for : List HistoricalRequestTuple
asked_for = request_at 86_399 ∷ request_at 259_199 ∷ []

abbrev row_at : ℕ → ℕ → Bool → PriceSource → String → PriceRow
row_at timestamp observed finalized source endpoint = record {
  chain = text "base";
  token = text "0xab";
  timestamp = timestamp;
  price = scaled (pos 5) 0;
  source = source;
  finalized = finalized;
  symbol = none;
  confidence = none;
  observed_at = some observed;
  observation_endpoint = some endpoint;
}

-- The token is known as a Curve pool.
abbrev curve_table : List PriceRow
curve_table = row_at 172_799 172_790 true curve "/curve" ∷ []

-- The closed day becomes final, today does not.
read_through_test :
    (read_through number_text [] 200_000 services asked_for [] none curve_table).table
    ≡ row_at 172_799 172_790 true curve "/curve"
      ∷ row_at 259_199 199_990 false defillama "/prices/current"
      ∷ row_at 86_399 86_339 true defillama "/batchHistorical"
      ∷ []
unfolding read_through is_today_normalized insert_provisional_token_prices to_lower_case
    is_closed_day chain_name_to_id chain_id_to_name verdict is_rejected_price finalize_token_prices
    finalized_by
read_through_test = refl

read_through-Serves_example :
    Serves number_text [] 200_000 services asked_for [] curve_table
      (read_through number_text [] 200_000 services asked_for [] none curve_table).rows
read_through-Serves_example =
    read_through-Serves number_text [] 200_000 services asked_for [] curve_table none

read_through-Stores_example :
    Stores number_text [] 200_000 services asked_for [] curve_table
      (read_through number_text [] 200_000 services asked_for [] none curve_table)
read_through-Stores_example =
    read_through-Stores number_text [] 200_000 services asked_for [] curve_table none
