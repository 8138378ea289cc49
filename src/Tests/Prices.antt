-- ===== src/Tests/Prices.antt =====
-- Prices that are written and read.
use yearn_prices.Common.{Bool, In, List, [], false, inr, none, refl, some, true, ℕ, ◌∷◌, ◌≡◌}
use yearn_prices.Common.Int.{pos}
use yearn_prices.Utils.Number.{Number, integer}
use yearn_prices.Utils.Text.{text}
use yearn_prices.Utils.Time.{current_utc_day_end, is_today_normalized, normalize_to_end_of_day}
use yearn_prices.Utils.Validation.{HistoricalRequestTuple}
use yearn_prices.Db.Prices.{
  Numeric, PriceKey, PriceRow, PriceSource, TokenPriceWrite, curve, defillama, is_rejected_price,
  not_rejected, scaled, write_key,
}
use yearn_prices.Db.PriceStore.{finalize_token_prices, finalized_by}
use yearn_prices.Db.PriceStore.Tables.{find}
use yearn_prices.Db.PriceStore.Writers.{Refines, finalizes, run, run-Refines}
use yearn_prices.Db.PriceStore.Final.{Keeps, Reach-Keeps, call, here, next}
use yearn_prices.Db.PriceReads.{
  ExactPriceRecord, get_batch_historical_prices, get_exact_historical_price, to_record,
}
use yearn_prices.Db.PriceReads.Candidates.{IsCandidate}
use yearn_prices.Db.PriceReads.Best.{IsAnswered, IsBest, get_batch_historical_prices-IsBest}
use yearn_prices.Db.PriceReads.RoundTrip.{finalize-get_exact, request_of}

abbrev integer_text : Number → Numeric
integer_text (integer z) = scaled z 0
integer_text _ = Numeric.nan

abbrev integer_of : Numeric → Number
integer_of (scaled z k) = integer z
integer_of _ = Number.nan

abbrev any_order : PriceRow → PriceRow → Bool
any_order a b = true

abbrev priced : PriceSource → ℕ → TokenPriceWrite
priced source price = record {
  chain = text "base";
  token = text "0xab";
  timestamp = 86_399;
  price = integer (pos price);
  symbol = none;
  confidence = none;
  source = source;
  observed_timestamp = some 86_390;
  observation_endpoint = some "/batchHistorical";
}

abbrev writes : List TokenPriceWrite
writes = priced curve 5 ∷ priced defillama 6 ∷ priced curve 7 ∷ []

abbrev curve_key : PriceKey
curve_key = write_key (priced curve 7)

abbrev stored : PriceSource → ℕ → Bool → PriceRow
stored source price finalized = record {
  chain = text "base";
  token = text "0xab";
  timestamp = 86_399;
  price = scaled (pos price) 0;
  source = source;
  finalized = finalized;
  symbol = none;
  confidence = none;
  observed_at = some 86_390;
  observation_endpoint = some "/batchHistorical";
}

abbrev provisional_table : List PriceRow
provisional_table = stored curve 4 false ∷ []

abbrev final_table : List PriceRow
final_table = stored curve 7 true ∷ stored defillama 6 true ∷ []

-- The last write of a key counts.
finalize_token_prices_test :
    finalize_token_prices integer_text [] 200_000 writes provisional_table
    ≡ record { table = final_table; succeeded = true }
unfolding finalize_token_prices is_rejected_price finalized_by is_today_normalized
    normalize_to_end_of_day current_utc_day_end
finalize_token_prices_test = refl

run-Refines_example :
    Refines integer_text [] 200_000 finalizes writes provisional_table
      (run integer_text [] 200_000 finalizes writes provisional_table)
run-Refines_example = run-Refines integer_text [] 200_000 finalizes writes provisional_table

Reach-Keeps_example :
    Keeps integer_text (stored curve 7 true) (
      find curve_key
        (run integer_text [] 300_000 finalizes (priced curve 9 ∷ []) final_table).table)
Reach-Keeps_example =
    Reach-Keeps integer_text curve_key (stored curve 7 true)
      (next here (call [] 300_000 finalizes (priced curve 9 ∷ []) final_table (λ e. cc))) refl

abbrev asked : HistoricalRequestTuple
asked = request_of curve_key

-- The better source is served.
get_exact_historical_price_test :
    get_exact_historical_price any_order integer_of [] 300_000 final_table asked none
    ≡ some (to_record any_order integer_of [] 300_000 (stored defillama 6 true))
unfolding get_exact_historical_price not_rejected
get_exact_historical_price_test = refl

get_batch_historical_prices-IsBest_example :
    (records : List ExactPriceRecord) × (get_batch_historical_prices any_order integer_of [] 300_000
        final_table
        (asked ∷ [])
        none
        false
      ≡ some records)
    × ((rec : ExactPriceRecord)
        → In rec records
        → IsBest any_order
            (λ a b e. refl)
            integer_of
            []
            300_000
            final_table
            none
            false
            (asked ∷ [])
            rec)
    × ((y : PriceRow)
        → IsCandidate [] 300_000 false none final_table (asked ∷ []) y
        → IsAnswered any_order
            (λ a b e. refl)
            integer_of
            []
            300_000
            final_table
            none
            false
            records
            y)
get_batch_historical_prices-IsBest_example =
    get_batch_historical_prices-IsBest any_order (λ a b e. refl) integer_of [] 300_000 final_table
      none false (asked ∷ [])

finalize-get_exact_example :
    (rec : ExactPriceRecord) × (get_exact_historical_price any_order integer_of [] 300_000
        (finalize_token_prices integer_text [] 200_000 writes provisional_table).table
        (request_of curve_key)
        (some curve)
      ≡ some rec)
    × (rec.price ≡ integer (pos 7))
    × (rec.observed_timestamp ≡ some 86_390)
unfolding finalize_token_prices is_rejected_price finalized_by is_today_normalized
    normalize_to_end_of_day current_utc_day_end not_rejected
finalize-get_exact_example =
    finalize-get_exact any_order (λ a b e. refl) integer_of integer_text [] 200_000 writes
      provisional_table curve_key (priced curve 7) 300_000 (refl, tt) refl refl refl
      (inr (stored curve 4 false, refl, refl))
