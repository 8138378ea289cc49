-- ===== src/Db/PriceReads.antt =====
-- src/db/queries.ts, the reads: an INNER JOIN of the requests with the accepted rows, DISTINCT ON the
-- place of a price unless a source is asked for. `now` is the clock's second. The collation of the
-- texts and the numbers of a response are parameters.
pub mod Ordered
pub mod Distinct
pub mod Candidates
pub mod Best
pub mod RoundTrip
use Prim.Native.String.{String}
use mathlib.Core.Option
use yearn_prices.Common.{
  Bool, List, Option, [], eqb, false, if◌then◌else◌, keep, leb, length, ltb, map, nat_eq, none, not,
  option_eq, pair_eq, some, string_eq, true, ℕ, ◌&&◌, ◌*◌, ◌++◌, ◌-◌, ◌/◌, ◌==◌, ◌||◌, ◌∷◌,
}
use yearn_prices.Common.Sorting.{sort}
use yearn_prices.Utils.Number.{Number}
use yearn_prices.Utils.Text.{Text, text_eq, to_lower_case}
use yearn_prices.Utils.Collections.{chunk}
use yearn_prices.Utils.Validation.{HistoricalRequestTuple}
use yearn_prices.Db.Prices.{
  Numeric, PriceRow, PriceSource, Rejection, not_rejected, price_key_eq, source_beq, source_rank,
}

pub record ExactPriceRecord : Type 0 where
  pub chain : Text
  pub token : Text
  pub timestamp : ℕ
  pub price : Number
  pub symbol : Option String
  pub confidence : Option Number
  pub source : PriceSource
  pub observed_timestamp : Option ℕ
  pub observation_endpoint : Option String

abbrev pub max_exact_requests_per_query : ℕ
max_exact_requests_per_query = 10_000

-- `SERVED_PRICE_SQL`
abbrev pub is_served : List Rejection → ℕ → PriceRow → Bool
is_served rejected now tp =
    not_rejected rejected tp && (tp.finalized || leb (now / 86_400 * 86_400 - 1) tp.timestamp)

-- `acceptedSql`
abbrev pub is_accepted_for : List Rejection → ℕ → Bool → PriceRow → Bool
is_accepted_for rejected now finalized_only tp =
    if finalized_only then tp.finalized && not_rejected rejected tp else is_served rejected now tp

-- The place of a price: what DISTINCT ON names.
abbrev pub Place : Type 0
Place = Text × (Text × ℕ)

abbrev pub place_of : PriceRow → Place
place_of row = (row.chain, (row.token, row.timestamp))

abbrev pub same_place : PriceRow → PriceRow → Bool
same_place a b = eqb (place_of a) (place_of b)

-- `ON tp.chain = r.chain AND … AND tp.timestamp = r.timestamp`
abbrev pub joins : Bool → HistoricalRequestTuple → PriceRow → Bool
joins finalized_only r tp =
    eqb tp.chain r.chain
    && (if finalized_only
        then eqb (to_lower_case tp.token) (to_lower_case r.token)
        else eqb tp.token r.token)
    && tp.timestamp == r.timestamp

-- The token column of the answer.
abbrev pub answered : Bool → HistoricalRequestTuple → PriceRow → PriceRow
answered finalized_only r tp = if finalized_only then record tp { token = r.token } else tp

abbrev pub has_source : Option PriceSource → PriceRow → Bool
has_source none tp = true
has_source (some source) tp = source_beq tp.source source

abbrev pub by_rank : PriceRow → PriceRow → Bool
by_rank a b = leb (source_rank a.source) (source_rank b.source)

-- `rows[0] ?? null`
abbrev pub head : {A : Type 0} → List A → Option A
head [] = none
head (x ∷ xs) = some x

abbrev pub first_record : Option (List ExactPriceRecord) → Option ExactPriceRecord
first_record none = none
first_record (some records) = head records

-- `DISTINCT ON (chain, token, timestamp)`: the first row of each place.
unfoldable pub distinct_on : List PriceRow → List PriceRow
distinct_on [] = []
distinct_on (row ∷ rows) = row ∷ keep (λ other. not (same_place row other)) (distinct_on rows)

module _ (rejected : List Rejection) (now : ℕ) (finalized_only : Bool)
    (source : Option PriceSource) where
  abbrev pub is_candidate : HistoricalRequestTuple → PriceRow → Bool
  is_candidate r tp =
      joins finalized_only r tp
      && is_accepted_for rejected now finalized_only tp
      && has_source source tp

  -- The rows of FROM and WHERE.
  unfoldable pub joined : List HistoricalRequestTuple → List PriceRow → List PriceRow
  joined [] table = []
  joined (r ∷ requests) table =
      map (answered finalized_only r) (keep (is_candidate r) table) ++ joined requests table

-- `before` orders by chain, token and timestamp; rows are ordered by rank first, and stably.
module _ (before : PriceRow → PriceRow → Bool) where
  unfoldable pub select_rows : Option PriceSource → List PriceRow → List PriceRow
  unfolding distinct_on
  select_rows none rows = distinct_on (sort before (sort by_rank rows))
  select_rows (some source) rows = sort before rows

  -- `number_of` stands for `toResponseNumber`.
  module _ (number_of : Numeric → Number) (rejected : List Rejection) (now : ℕ) where
    -- `mapDbRowToExactRecord`
    abbrev pub to_record : PriceRow → ExactPriceRecord
    to_record row = record {
      chain = row.chain;
      token = row.token;
      timestamp = row.timestamp;
      price = number_of row.price;
      symbol = row.symbol;
      confidence = Option.map number_of row.confidence;
      source = row.source;
      observed_timestamp = row.observed_at;
      observation_endpoint = row.observation_endpoint;
    }

    -- One SELECT.
    unfoldable pub query_prices :
        List PriceRow
        → Option PriceSource
        → Bool
        → List HistoricalRequestTuple
        → List ExactPriceRecord
    unfolding joined select_rows
    query_prices table source finalized_only requests =
        map to_record
          (select_rows source (joined rejected now finalized_only source requests table))

    unfoldable pub query_parts :
        List PriceRow
        → Option PriceSource
        → Bool
        → List (List HistoricalRequestTuple)
        → List ExactPriceRecord
    unfolding query_prices
    query_parts table source finalized_only [] = []
    query_parts table source finalized_only (part ∷ parts) =
        query_prices table source finalized_only part
        ++ query_parts table source finalized_only parts

    -- None where the fuel of `chunk` runs out.
    unfoldable pub get_batch_historical_prices :
        List PriceRow
        → List HistoricalRequestTuple
        → Option PriceSource
        → Bool
        → Option (List ExactPriceRecord)
    unfolding query_parts chunk
    get_batch_historical_prices table requests source finalized_only =
        if length requests == 0
        then some []
        else if ltb max_exact_requests_per_query (length requests)
        then Option.map (query_parts table source finalized_only)
            (chunk requests max_exact_requests_per_query)
        else some (query_prices table source finalized_only requests)

    unfoldable pub get_exact_historical_price :
        List PriceRow → HistoricalRequestTuple → Option PriceSource → Option ExactPriceRecord
    unfolding get_batch_historical_prices
    get_exact_historical_price table request source =
        first_record (get_batch_historical_prices table (request ∷ []) source false)
