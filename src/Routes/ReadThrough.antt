-- ===== src/Routes/ReadThrough.antt =====
-- src/routes/historical/read-through.ts: prices that the table lacks are fetched, served and stored.
-- `now` is the clock's second. A key of texts joined by colons is the tuple of the texts. Upstreams
-- and the guard of Curve pools are parameters; a query that fails is not modelled.
pub mod Run
pub mod Collected
pub mod Judged
pub mod Pools
pub mod Quoted
pub mod Members
pub mod Columns
pub mod Stored
pub mod Serves
use Prim.Native.String.{String}
use mathlib.Core.Option
use yearn_prices.Common.{
  Bool, List, Option, [], drop, false, if◌then◌else◌, keep, length, ltb, nat_eq, none, not,
  option_eq, pair_eq, some, string_eq, take, true, ℕ, ◌%◌, ◌&&◌, ◌++◌, ◌/◌, ◌∷◌,
}
use yearn_prices.Common.OrderedMap.{get, has, set}
use yearn_prices.Utils.Number.{Number}
use yearn_prices.Utils.Text.{Text, text_eq, to_lower_case}
use yearn_prices.Utils.Time.{current_utc_day_end, is_closed_day, is_today_normalized}
use yearn_prices.Utils.Chains.{chain_id_to_name, chain_name_to_id}
use yearn_prices.Utils.Validation.{HistoricalRequestTuple}
use yearn_prices.Db.Prices.{PriceSource, defillama, price_key_eq}
use yearn_prices.Db.PriceReads.{ExactPriceRecord}
use yearn_prices.Sources.Base.{HistoricalPriceResult}

abbrev pub max_read_through_targets : ℕ
max_read_through_targets = 200

abbrev pub max_current_fallback_targets : ℕ
max_current_fallback_targets = 8

abbrev pub max_guarded_records : ℕ
max_guarded_records = 8

abbrev pub ExactKey : Type 0
ExactKey = Text × (Text × ℕ)

abbrev pub exact_key : Text → Text → ℕ → ExactKey
exact_key chain token timestamp = (chain, (to_lower_case token, timestamp))

abbrev pub record_key : ExactPriceRecord → ExactKey
record_key row = exact_key row.chain row.token row.timestamp

-- `currentPriceKey` and `lpKey`
abbrev pub TokenKey : Type 0
TokenKey = Text × Text

abbrev pub current_price_key : Text → Text → TokenKey
current_price_key chain token = (chain, to_lower_case token)

pub record CurrentTarget : Type 0 where
  pub chain : Text
  pub token : Text

-- `HistoricalPriceTarget`
pub record ClosedTarget : Type 0 where
  pub chain_id : ℕ
  pub token : Text
  pub timestamp : ℕ

-- `CurrentFallbackQuote`
pub record FallbackQuote : Type 0 where
  pub quote : HistoricalPriceResult
  pub source : PriceSource
  pub observation_endpoint : String

-- `ReadThroughUpstream`: no value where a promise is rejected. The second part of an answer says
-- whether a part of it has failed. There is no fallback where none is given.
pub record Upstream : Type 0 where
  pub current : List CurrentTarget → Option (List (TokenKey × HistoricalPriceResult))
  pub historical : List ClosedTarget → Option (List (ClosedTarget × HistoricalPriceResult) × Bool)
  pub current_fallback : Option (
      List CurrentTarget
      → List (TokenKey × HistoricalPriceResult)
      → Option (List (TokenKey × FallbackQuote) × Bool))
  pub is_plausible : ℕ → Text → ℕ → Number → Bool

-- `new Map(rows.map((row) => [exactKey(…), row]))`
unfoldable pub stored_by_key :
    List (ExactKey × ExactPriceRecord) → List ExactPriceRecord → List (ExactKey × ExactPriceRecord)
stored_by_key stored [] = stored
stored_by_key stored (row ∷ rows) = stored_by_key (set (record_key row) row stored) rows

-- The targets of the first loop: today's, and the requests of closed days that are missing.
pub record Targets : Type 0 where
  pub today : List (TokenKey × CurrentTarget)
  pub missing : List (ExactKey × HistoricalRequestTuple)

abbrev pub request_key : HistoricalRequestTuple → ExactKey
request_key r = exact_key r.chain r.token r.timestamp

abbrev pub mapped : {K V : Type 0} → List (K × V) → List V
mapped [] = []
mapped ((_, v) ∷ m) = v ∷ mapped m

abbrev pub closed_target : HistoricalRequestTuple → List ClosedTarget
closed_target r = elim (chain_name_to_id r.chain) [
  | none ↦ []
  | some chain_id ↦ record { chain_id = chain_id; token = r.token; timestamp = r.timestamp } ∷ []
]

abbrev pub closed_targets_of : List HistoricalRequestTuple → List ClosedTarget
closed_targets_of [] = []
closed_targets_of (r ∷ requests) = closed_target r ++ closed_targets_of requests

abbrev pub closed_targets : Targets → List ClosedTarget
closed_targets targets = closed_targets_of (take max_read_through_targets (mapped targets.missing))

-- `toRecord`
abbrev pub to_price_record :
    Text → Text → ℕ → HistoricalPriceResult → String → PriceSource → ExactPriceRecord
to_price_record chain token timestamp price endpoint source = record {
  chain = chain;
  token = token;
  timestamp = timestamp;
  price = price.price;
  symbol = price.symbol;
  confidence = price.confidence;
  source = source;
  observed_timestamp = some price.timestamp;
  observation_endpoint = some endpoint;
}

-- A record, and whether it is of a closed day.
pub record Fetched : Type 0 where
  pub price : ExactPriceRecord
  pub closed : Bool

-- A record that is served, and whether the guard has checked it.
pub record Served : Type 0 where
  pub fetched : Fetched
  pub guarded : Bool

abbrev pub is_newer : HistoricalPriceResult → Option ℕ → Bool
is_newer price none = false
is_newer price (some observed) = ltb price.timestamp observed

abbrev pub is_newer_row : HistoricalPriceResult → Option ExactPriceRecord → Bool
is_newer_row price none = false
is_newer_row price (some row) = is_newer price row.observed_timestamp

module _ (now : ℕ) where
  abbrev pub is_missing : List (ExactKey × ExactPriceRecord) → HistoricalRequestTuple → Bool
  is_missing stored r =
      not (is_today_normalized r.timestamp now)
      && is_closed_day r.timestamp now
      && not (has (request_key r) stored)

  abbrev pub add_target :
      List (ExactKey × ExactPriceRecord) → Targets → HistoricalRequestTuple → Targets
  add_target stored targets r = record {
    today =
        if is_today_normalized r.timestamp now
        then set (current_price_key r.chain r.token) (record { chain = r.chain; token = r.token })
            targets.today
        else targets.today;
    missing =
        if is_missing stored r then set (request_key r) r targets.missing else targets.missing;
  }

  unfoldable pub collect_targets :
      List (ExactKey × ExactPriceRecord) → Targets → List HistoricalRequestTuple → Targets
  collect_targets stored targets [] = targets
  collect_targets stored targets (r ∷ requests) =
      collect_targets stored (add_target stored targets r) requests

  -- The window rotates by the minute where there are more misses than it holds.
  abbrev pub rotation : ℕ → ℕ
  rotation misses = if ltb max_current_fallback_targets misses then now / 60 % misses else 0

  abbrev pub fallback_targets :
      List (TokenKey × CurrentTarget)
      → List (TokenKey × HistoricalPriceResult)
      → List (TokenKey × CurrentTarget)
  fallback_targets today live =
      let misses = keep (λ e. not (has e.0 live)) today in
      let start = rotation (length misses) in
      take max_current_fallback_targets (drop start misses ++ take start misses)

  -- Whether the table holds a newer observation of today than the quote.
  abbrev pub is_superseded :
      List (ExactKey × ExactPriceRecord) → Text → Text → HistoricalPriceResult → Bool
  is_superseded stored chain token price =
      is_newer_row price (get (exact_key chain token (current_utc_day_end now)) stored)

  abbrev pub today_record :
      List (ExactKey × ExactPriceRecord)
      → CurrentTarget
      → HistoricalPriceResult
      → String
      → PriceSource
      → List Fetched
  today_record stored target price endpoint source =
      if is_superseded stored target.chain target.token price
      then []
      else record {
        price =
            to_price_record target.chain target.token (current_utc_day_end now) price endpoint
              source;
        closed = false;
      }
        ∷ []

  unfoldable pub live_records :
      List (ExactKey × ExactPriceRecord)
      → List (TokenKey × HistoricalPriceResult)
      → List (TokenKey × CurrentTarget)
      → List Fetched
  live_records stored live [] = []
  live_records stored live ((key, target) ∷ today) =
      elim (get key live) [
        | none ↦ []
        | some price ↦ today_record stored target price "/prices/current" defillama
      ]
      ++ live_records stored live today

  unfoldable pub fallback_records :
      List (ExactKey × ExactPriceRecord)
      → List (TokenKey × FallbackQuote)
      → List (TokenKey × CurrentTarget)
      → List Fetched
  fallback_records stored quotes [] = []
  fallback_records stored quotes ((key, target) ∷ targets) =
      elim (get (current_price_key target.chain target.token) quotes) [
        | none ↦ []
        | some q ↦ today_record stored target q.quote q.observation_endpoint q.source
      ]
      ++ fallback_records stored quotes targets

abbrev pub closed_record : HistoricalRequestTuple → HistoricalPriceResult → Fetched
closed_record r price = record {
  price = to_price_record r.chain r.token r.timestamp price "/batchHistorical" defillama;
  closed = true;
}

abbrev pub missing_request :
    List (ExactKey × HistoricalRequestTuple) → ClosedTarget → Option HistoricalRequestTuple
missing_request missing target = elim (chain_id_to_name target.chain_id) [
  | none ↦ none
  | some chain ↦ get (exact_key chain target.token target.timestamp) missing
]

unfoldable pub closed_records :
    List (ExactKey × HistoricalRequestTuple)
    → List (ClosedTarget × HistoricalPriceResult)
    → List Fetched
closed_records missing [] = []
closed_records missing ((target, price) ∷ closed) =
    elim (missing_request missing target) [ none ↦ [] | some r ↦ closed_record r price ∷ [] ]
    ++ closed_records missing closed
