-- ===== src/Routes/ReadThrough/Run.antt =====
-- src/routes/historical/read-through.ts: what is fetched, judged, stored and served.
use yearn_prices.Db.PriceStore.{and_then, finalize_token_prices, insert_provisional_token_prices}
use yearn_prices.Common.{
  Bool, List, Option, [], any, eqb, false, if◌then◌else◌, keep, length, ltb, map, nat_eq, none, not,
  option_eq, pair_eq, some, string_eq, true, ℕ, ◌&&◌, ◌*◌, ◌++◌, ◌+◌, ◌/◌, ◌==◌, ◌||◌, ◌∷◌,
}
use yearn_prices.Common.OrderedMap.{set}
use yearn_prices.Utils.Number.{Number}
use yearn_prices.Utils.Text.{text_eq}
use yearn_prices.Utils.Chains.{chain_name_to_id}
use yearn_prices.Utils.Validation.{HistoricalRequestTuple}
use yearn_prices.Db.Prices.{
  Numeric, PriceRow, PriceSource, Rejection, TokenPriceWrite, curve, is_rejected_price,
  not_rejected, price_key_eq, source_beq,
}
use yearn_prices.Db.PriceReads.{ExactPriceRecord}
use yearn_prices.Sources.Base.{HistoricalPriceResult}
use yearn_prices.Routes.ReadThrough.{
  ClosedTarget, CurrentTarget, ExactKey, FallbackQuote, Fetched, Served, Targets, TokenKey,
  Upstream, closed_records, closed_targets, collect_targets, current_price_key, fallback_records,
  fallback_targets, live_records, mapped, max_guarded_records, record_key, stored_by_key,
}

-- `ACCEPTED_PRICE_SQL`
abbrev pub is_accepted_at : List Rejection → ℕ → PriceRow → Bool
is_accepted_at rejected now tp =
    not_rejected rejected tp && (tp.finalized || tp.timestamp == now / 86_400 * 86_400 + 86_399)

abbrev pub lp_key : ExactPriceRecord → TokenKey
lp_key row = current_price_key row.chain row.token

unfoldable pub pairs_of :
    List (TokenKey × ExactPriceRecord) → List Fetched → List (TokenKey × ExactPriceRecord)
pairs_of pairs [] = pairs
pairs_of pairs (f ∷ records) = pairs_of (set (lp_key f.price) f.price pairs) records

pub record ReadThroughResult : Type 0 where
  pub rows : List ExactPriceRecord
  pub upstream_failed : Bool
  pub table : List PriceRow

abbrev pub writes_of : List Served → List TokenPriceWrite
writes_of [] = []
writes_of (s ∷ served) =
    record {
      chain = s.fetched.price.chain;
      token = s.fetched.price.token;
      timestamp = s.fetched.price.timestamp;
      price = s.fetched.price.price;
      symbol = s.fetched.price.symbol;
      confidence = s.fetched.price.confidence;
      source = s.fetched.price.source;
      observed_timestamp = s.fetched.price.observed_timestamp;
      observation_endpoint = s.fetched.price.observation_endpoint;
    }
    ∷ writes_of served

abbrev pub is_closed_write : Served → Bool
is_closed_write s = s.fetched.closed && s.guarded

abbrev pub prices_of : List Served → List ExactPriceRecord
prices_of [] = []
prices_of (s ∷ served) = s.fetched.price ∷ prices_of served

module _ (numeric_of : Number → Numeric) (rejected : List Rejection) (now : ℕ)
    (upstream : Upstream) where
  -- `knownCurveLps`
  unfoldable pub known_curve_lps : List PriceRow → List Fetched → List TokenKey
  unfolding pairs_of not_rejected
  known_curve_lps table records = map lp_key (
      keep
        (λ p.
          any
            (λ tp.
              eqb tp.chain p.chain
              && eqb tp.token p.token
              && source_beq tp.source curve
              && is_accepted_at rejected now tp)
            table)
        (mapped (pairs_of [] records)))

  -- A verdict of `plausibleWrites`.
  unfoldable pub verdict : ExactPriceRecord → Bool
  verdict row =
      if is_rejected_price rejected row.chain row.token row.timestamp row.source
      then false
      else elim (chain_name_to_id row.chain) [
        | none ↦ true
        | some chain_id ↦ upstream.is_plausible chain_id row.token row.timestamp row.price
      ]

  -- `checked` counts the candidates so far: the guard checks the first of them, the rest are dropped.
  unfoldable pub judge : List TokenKey → ℕ → List Fetched → List Served
  judge lps checked [] = []
  judge lps checked (f ∷ records) =
      let is_lp = any (λ k. eqb k (lp_key f.price)) lps in
      let rest = judge lps (if is_lp then checked + 1 else checked) records in
      if is_lp
      then if ltb checked max_guarded_records && verdict f.price
        then record { fetched = f; guarded = true } ∷ rest
        else rest
      else record { fetched = f; guarded = false } ∷ rest

  abbrev pub settled : {A : Type 0} → Option A → A → A × Bool
  settled none default = (default, true)
  settled (some a) default = (a, false)

  abbrev pub settled_partly : {A : Type 0} → Option (A × Bool) → A → A × Bool
  settled_partly none default = (default, true)
  settled_partly (some (a, failed)) default = (a, failed)

  -- `upstream.current`, and whether it has failed.
  abbrev pub live_prices : Targets → List (TokenKey × HistoricalPriceResult) × Bool
  live_prices targets =
      if length targets.today == 0
      then ([], false)
      else settled (upstream.current (mapped targets.today)) []

  abbrev pub closed_prices : Targets → List (ClosedTarget × HistoricalPriceResult) × Bool
  closed_prices targets =
      if length (closed_targets targets) == 0
      then ([], false)
      else settled_partly (upstream.historical (closed_targets targets)) []

  abbrev pub fallback_prices :
      List (TokenKey × CurrentTarget)
      → List (TokenKey × HistoricalPriceResult)
      → List (TokenKey × FallbackQuote) × Bool
  fallback_prices targets live = elim upstream.current_fallback [
    | none ↦ ([], false)
    | some current_fallback ↦
        if length targets == 0
        then ([], false)
        else settled_partly (current_fallback (mapped targets) live) []
  ]

  -- The two writes; an error of the first skips the second, and is only logged.
  unfoldable pub persist : List Served → List PriceRow → List PriceRow
  persist served table =
      (and_then numeric_of rejected now
        (insert_provisional_token_prices numeric_of rejected now
          (writes_of (keep (λ s. not (is_closed_write s)) served)) table)
        (finalize_token_prices numeric_of rejected now
          (writes_of (keep is_closed_write served)))).table

  -- From the records that were fetched on.
  unfoldable pub finish :
      List ExactPriceRecord → List Fetched → Bool → List PriceRow → ReadThroughResult
  unfolding known_curve_lps judge persist
  finish rows records failed table =
      let served = judge (known_curve_lps table records) 0 records in
      let prices = prices_of served in
      record {
        rows =
            keep (λ row. not (any (λ p. eqb (record_key p) (record_key row)) prices)) rows
            ++ prices;
        upstream_failed = failed;
        table = persist served table;
      }

  abbrev pub fetched_records :
      List (ExactKey × ExactPriceRecord)
      → Targets
      → List (TokenKey × HistoricalPriceResult)
      → List (ClosedTarget × HistoricalPriceResult)
      → List (TokenKey × FallbackQuote)
      → List Fetched
  fetched_records stored targets live closed quotes =
      (live_records now stored live targets.today
        ++ fallback_records now stored quotes (fallback_targets now targets.today live))
      ++ closed_records targets.missing closed

  unfoldable pub read_through :
      List HistoricalRequestTuple
      → List ExactPriceRecord
      → Option PriceSource
      → List PriceRow
      → ReadThroughResult
  unfolding finish collect_targets stored_by_key live_records fallback_records closed_records
  read_through requests rows (some source) table = record {
    rows = rows;
    upstream_failed = false;
    table = table;
  }
  read_through requests rows none table =
      let stored = stored_by_key [] rows in
      let targets = collect_targets now stored (record { today = []; missing = [] }) requests in
      let (live, live_failed) = live_prices targets in
      let (closed, closed_failed) = closed_prices targets in
      let (quotes, fallback_failed) =
        fallback_prices (fallback_targets now targets.today live) live in
      if length targets.today == 0 && length (closed_targets targets) == 0
      then record { rows = rows; upstream_failed = false; table = table }
      else finish rows (fetched_records stored targets live closed quotes)
          (live_failed || closed_failed || fallback_failed) table
