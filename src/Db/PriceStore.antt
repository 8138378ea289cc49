-- ===== src/Db/PriceStore.antt =====
-- src/db/queries.ts, the writes: rows of `token_prices` are inserted in four modes. A table is a list
-- of rows with the primary key of Db.Prices; `now` is the clock's second. The text that the driver
-- sends for a number is a parameter. `updated_at` is left out.
pub mod Tables
pub mod Merge
pub mod Upserts
pub mod Writers
pub mod Unique
pub mod Final
use Prim.Native.String.{String}
use mathlib.Core.Option
use yearn_prices.Common.{
  Bool, List, Option, [], all, any, eqb, false, if◌then◌else◌, keep, leb, map, nat_eq, none, not,
  option_eq, pair_eq, some, string_eq, true, ℕ, ◌&&◌, ◌∷◌,
}
use yearn_prices.Common.OrderedMap.{set}
use yearn_prices.Utils.Number.{Number, exceeds_zero, is_finite, max_safe_integer}
use yearn_prices.Utils.Text.{text_eq}
use yearn_prices.Utils.Time.{is_today_normalized}
use yearn_prices.Db.Prices.{
  Numeric, PriceKey, PriceRow, Rejection, TokenPriceWrite, is_positive, is_rejected_price, key_of,
  price_key_eq, write_key,
}

pub data InsertMode : Type 0 where
  insert_only mutable_current_day finalize_provisional write_provisional force : InsertMode

-- The column `finalized` of a row that is written.
unfoldable pub finalized_by : InsertMode → ℕ → ℕ → Bool
finalized_by finalize_provisional now timestamp = true
finalized_by write_provisional now timestamp = false
finalized_by mutable_current_day now timestamp = false
finalized_by insert_only now timestamp = not (is_today_normalized timestamp now)
finalized_by force now timestamp = not (is_today_normalized timestamp now)

-- `COALESCE(EXCLUDED.symbol, token_prices.symbol)`
abbrev pub coalesce : Option String → Option String → Option String
coalesce none old = old
coalesce (some new) old = some new

-- `DO UPDATE SET`
abbrev pub updated : PriceRow → PriceRow → PriceRow
updated row excluded = record row {
  price = excluded.price;
  symbol = coalesce excluded.symbol row.symbol;
  confidence = excluded.confidence;
  finalized = excluded.finalized;
  observed_at = excluded.observed_at;
  observation_endpoint = excluded.observation_endpoint;
}

-- `ON CONFLICT (chain, token, timestamp, source)`
abbrev pub on_conflict : InsertMode → PriceRow → PriceRow → PriceRow
on_conflict insert_only row excluded = row
on_conflict force row excluded = updated row excluded
on_conflict mutable_current_day row excluded = if row.finalized then row else updated row excluded
on_conflict finalize_provisional row excluded = if row.finalized then row else updated row excluded
on_conflict write_provisional row excluded = if row.finalized then row else updated row excluded

unfoldable pub upsert : InsertMode → PriceRow → List PriceRow → List PriceRow
upsert mode excluded [] = excluded ∷ []
upsert mode excluded (row ∷ rows) =
    if eqb (key_of row) (key_of excluded)
    then on_conflict mode row excluded ∷ rows
    else row ∷ upsert mode excluded rows

unfoldable pub upsert_all : InsertMode → List PriceRow → List PriceRow → List PriceRow
unfolding upsert
upsert_all mode [] table = table
upsert_all mode (excluded ∷ rows) table = upsert_all mode rows (upsert mode excluded table)

-- The table after a statement, and whether none has thrown.
pub record Written : Type 0 where
  pub table : List PriceRow
  pub succeeded : Bool

-- `Number.isFinite(price) && price > 0`, and a safe observation time.
abbrev pub is_valid_write : TokenPriceWrite → Bool
is_valid_write row =
    is_finite row.price
    && exceeds_zero row.price
    && elim row.observed_timestamp [ none ↦ true | some observed ↦ leb observed max_safe_integer ]

-- `assertFinitePositivePrices`: whether it does not throw.
abbrev pub assert_finite_positive_prices : List TokenPriceWrite → Bool
assert_finite_positive_prices rows = all is_valid_write rows

-- The loop of `dedupeTokenPriceWrites` over its map.
unfoldable pub dedupe_onto :
    List Rejection
    → List (PriceKey × TokenPriceWrite)
    → List TokenPriceWrite
    → List (PriceKey × TokenPriceWrite)
dedupe_onto rejected keyed [] = keyed
dedupe_onto rejected keyed (row ∷ rows) =
    dedupe_onto rejected
      (if is_rejected_price rejected row.chain row.token row.timestamp row.source
        then keyed
        else set (write_key row) row keyed)
      rows

abbrev pub values : List (PriceKey × TokenPriceWrite) → List TokenPriceWrite
values [] = []
values ((_, row) ∷ keyed) = row ∷ values keyed

unfoldable pub dedupe_token_price_writes :
    List Rejection → List TokenPriceWrite → List TokenPriceWrite
unfolding dedupe_onto
dedupe_token_price_writes rejected rows = values (dedupe_onto rejected [] rows)

-- `numeric_of` stands for the driver's text of a number, read as a numeric.
module _ (numeric_of : Number → Numeric) (rejected : List Rejection) (now : ℕ) where
  abbrev pub row_of : InsertMode → TokenPriceWrite → PriceRow
  row_of mode row = record {
    chain = row.chain;
    token = row.token;
    timestamp = row.timestamp;
    price = numeric_of row.price;
    source = row.source;
    finalized = finalized_by mode now row.timestamp;
    symbol = row.symbol;
    confidence = Option.map numeric_of row.confidence;
    observed_at = row.observed_timestamp;
    observation_endpoint = row.observation_endpoint;
  }

  -- One statement: none of its rows is written where one breaks the table's CHECK. The trigger
  -- `quarantine_rejected_price` is left out: its table and the rejections of `dedupe_onto` are filled
  -- from one manifest, so it meets no row that this check has let through.
  unfoldable pub insert_rows : InsertMode → List TokenPriceWrite → List PriceRow → Written
  unfolding upsert_all
  insert_rows mode rows table =
      let new = map (row_of mode) rows in
      if all (λ row. is_positive row.price) new
      then record { table = upsert_all mode new table; succeeded = true }
      else record { table = table; succeeded = false }

  abbrev pub and_then : Written → (List PriceRow → Written) → Written
  and_then w rest = if w.succeeded then rest w.table else w

  abbrev pub unchanged : Bool → List PriceRow → Written
  unchanged succeeded table = record { table = table; succeeded = succeeded }

  unfoldable pub insert_token_prices : List TokenPriceWrite → Bool → List PriceRow → Written
  unfolding insert_rows dedupe_token_price_writes
  insert_token_prices rows force_update table =
      let deduped = dedupe_token_price_writes rejected rows in
      let immutable_rows = keep (λ row. not (is_today_normalized row.timestamp now)) deduped in
      let mutable_rows = keep (λ row. is_today_normalized row.timestamp now) deduped in
      if assert_finite_positive_prices deduped
      then if force_update
        then insert_rows force deduped table
        else and_then (insert_rows insert_only immutable_rows table)
            (insert_rows mutable_current_day mutable_rows)
      else unchanged false table

  unfoldable pub finalize_token_prices : List TokenPriceWrite → List PriceRow → Written
  unfolding insert_rows dedupe_token_price_writes
  finalize_token_prices rows table =
      let deduped = dedupe_token_price_writes rejected rows in
      if any (λ row. is_today_normalized row.timestamp now) rows
      then unchanged false table
      else if assert_finite_positive_prices deduped
      then insert_rows finalize_provisional deduped table
      else unchanged false table

  unfoldable pub insert_provisional_token_prices : List TokenPriceWrite → List PriceRow → Written
  unfolding insert_rows dedupe_token_price_writes
  insert_provisional_token_prices rows table =
      let deduped = dedupe_token_price_writes rejected rows in
      if assert_finite_positive_prices deduped
      then insert_rows write_provisional deduped table
      else unchanged false table
