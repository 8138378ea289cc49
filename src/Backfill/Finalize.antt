-- ===== src/Backfill/Finalize.antt =====
-- src/backfill/finalize.ts, priced-keys.ts and inventory.ts: prices of closed days are finalized, in
-- transactions that hold the lock of `token_prices`, so each is one step on the tables. The plausibility
-- check and what each attempt at the lock gives are parameters; waiting times and callbacks are left
-- out. The CHECKs of the inventory are taken to hold; a key of texts joined by colons is their tuple.
pub mod Runs
pub mod Rounds
pub mod Batches
pub mod Counts
pub mod Steps
pub mod Ends
pub mod Accounts
pub mod Rows
pub mod Stores
pub mod Inventory
pub mod Retries
use Prim.Native.String.{String}
use mathlib.Core.Option
use yearn_prices.Common.{
  Bool, Eq, List, Option, [], any, eqb, false, if◌then◌else◌, is_some, keep, nat_eq, not, option_eq,
  pair_eq, string_eq, true, ℕ, ◌&&◌, ◌++◌, ◌==◌, ◌||◌, ◌∷◌,
}
use yearn_prices.Utils.Number.{Number}
use yearn_prices.Utils.Text.{Text, text_eq}
use yearn_prices.Utils.Validation.{HistoricalRequestTuple}
use yearn_prices.Db.Prices.{PriceRow, PriceSource, key_of, price_key_eq}
use yearn_prices.Db.PriceReads.{ExactPriceRecord}
use yearn_prices.Db.PriceStore.{finalize_provisional, upsert}

-- `FinalizationResolution`
pub record Resolution : Type 0 where
  pub price : Number
  pub symbol : Option String
  pub confidence : Option Number
  pub source : PriceSource
  pub observed_timestamp : Option ℕ
  pub observation_endpoint : Option String

pub record FinalizationTarget : Type 0 where
  pub chain_id : ℕ
  pub chain : Text
  pub token : Text
  pub token_lowercase : Text
  pub eod_timestamp : ℕ
  pub resolution : Option Resolution

pub data FinalizationStatus : Type 0 where
  inserted skipped_concurrent_existing unresolved rejected_implausible : FinalizationStatus

abbrev pub is_unresolved : FinalizationStatus → Bool
is_unresolved unresolved = true
is_unresolved _ = false

pub record FinalizationTargetResult : Type 0 where
  pub chain_id : ℕ
  pub chain : Text
  pub token : Text
  pub token_lowercase : Text
  pub eod_timestamp : ℕ
  pub status : FinalizationStatus

abbrev pub to_result : FinalizationTarget → FinalizationStatus → FinalizationTargetResult
to_result target status = record {
  chain_id = target.chain_id;
  chain = target.chain;
  token = target.token;
  token_lowercase = target.token_lowercase;
  eod_timestamp = target.eod_timestamp;
  status = status;
}

-- `priceKey`
abbrev pub PricedKey : Type 0
PricedKey = Text × (Text × ℕ)

abbrev pub priced_key : FinalizationTarget → PricedKey
priced_key target = (target.chain, (target.token, target.eod_timestamp))

abbrev pub result_key : FinalizationTargetResult → PricedKey
result_key result = (result.chain, (result.token, result.eod_timestamp))

abbrev pub InventoryKey : Type 0
InventoryKey = ℕ × (Text × ℕ)

abbrev pub inventory_key : FinalizationTarget → InventoryKey
inventory_key target = (target.chain_id, (target.token_lowercase, target.eod_timestamp))

-- `token_prices` and `historical_price_gap_inventory`
pub record Tables : Type 0 where
  pub prices : List PriceRow
  pub inventory : List InventoryKey

abbrev pub has_key : {K : Type 0} → ⦃e : Eq K⦄ → K → List K → Bool
has_key k keys = any (λ j. eqb j k) keys

abbrev pub delete_inventory_rows : List InventoryKey → List InventoryKey → List InventoryKey
delete_inventory_rows keys inventory = keep (λ k. not (has_key k keys)) inventory

-- `ON CONFLICT DO NOTHING`
unfoldable pub upsert_inventory_rows : List InventoryKey → List InventoryKey → List InventoryKey
upsert_inventory_rows [] inventory = inventory
upsert_inventory_rows (k ∷ keys) inventory =
    upsert_inventory_rows keys (if has_key k inventory then inventory else inventory ++ k ∷ [])

abbrev pub request_of_target : FinalizationTarget → HistoricalRequestTuple
request_of_target target = record {
  chain = target.chain;
  token = target.token;
  timestamp = target.eod_timestamp;
}

abbrev pub key_of_record : ExactPriceRecord → PricedKey
key_of_record row = (row.chain, (row.token, row.timestamp))

abbrev pub key_of_row : PriceRow → PricedKey
key_of_row row = (row.chain, (row.token, row.timestamp))

abbrev pub has_resolution : FinalizationTarget → Bool
has_resolution target = is_some target.resolution

-- `WHERE token_prices.finalized = FALSE` refuses the row.
abbrev pub is_refused : PriceRow → List PriceRow → Bool
is_refused excluded table = any (λ row. eqb (key_of row) (key_of excluded) && row.finalized) table

-- The rows of one statement, and the keys that it returns.
unfoldable pub insert_returning : List PriceRow → List PriceRow → List PricedKey × List PriceRow
unfolding upsert
insert_returning [] table = ([], table)
insert_returning (excluded ∷ rows) table =
    let (keys, new) = insert_returning rows (upsert finalize_provisional excluded table) in
    (if is_refused excluded table then keys else key_of_row excluded ∷ keys, new)

-- Two rows of one key: `ON CONFLICT DO UPDATE command cannot affect row a second time`.
abbrev pub affects_twice : List PriceRow → Bool
affects_twice [] = false
affects_twice (row ∷ rows) =
    any (λ other. eqb (key_of other) (key_of row)) rows || affects_twice rows

-- What comes of an attempt: its statements run, a lock is not available to one of them (55P03, at
-- `LOCK TABLE` or later), or another error ends it.
pub data LockAttempt : Type 0 where
  acquired lock_timeout broken : LockAttempt

-- No tables where the transaction was rolled back; `endless` where a read of it never ends.
pub data BatchOutcome : Type 0 where
  committed : Tables → List FinalizationTargetResult → ℕ → BatchOutcome
  lock_error : ℕ → BatchOutcome
  failed endless : BatchOutcome

-- What `isPlausible` gives, or that it throws.
pub data Plausibility : Type 0 where
  plausible implausible unknown : Plausibility

abbrev pub is_implausible : Plausibility → Bool
is_implausible implausible = true
is_implausible _ = false

pub record FinalizationOptions : Type 0 where
  pub dry_run : Bool
  pub finalized_only : Bool
  pub batch_size : ℕ
  pub lock_retry_limit : ℕ
  pub read_chunk_size : ℕ

-- The results, or the error that ends the run, a lock error with its number of attempts; and the tables
-- that are left. `never_ends` where a batch never does.
pub data Finished : Type 0 where
  returned : Tables → List FinalizationTargetResult → ℕ → Finished
  thrown : Tables → Option ℕ → Finished
  never_ends : Tables → Finished

abbrev pub tables_of : Finished → Tables
tables_of (returned tables results retries) = tables
tables_of (thrown tables error) = tables
tables_of (never_ends tables) = tables

abbrev pub status_rank : FinalizationStatus → ℕ
status_rank inserted = 0
status_rank skipped_concurrent_existing = 1
status_rank unresolved = 2
status_rank rejected_implausible = 3

abbrev pub status_beq : FinalizationStatus → FinalizationStatus → Bool
status_beq a b = status_rank a == status_rank b
