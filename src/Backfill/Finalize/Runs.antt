-- ===== src/Backfill/Finalize/Runs.antt =====
-- src/backfill/finalize.ts: a batch and its transaction.
use mathlib.Core.Option
use yearn_prices.Common.{
  Bool, List, Option, [], all, if◌then◌else◌, keep, map, nat_eq, none, not, option_eq, pair_eq,
  some, string_eq, suc, true, zero, ℕ, ◌&&◌, ◌++◌, ◌+◌, ◌>>=◌, ◌∷◌,
}
use yearn_prices.Utils.Number.{Number}
use yearn_prices.Utils.Validation.{HistoricalRequestTuple}
use yearn_prices.Utils.Collections.{chunk}
use yearn_prices.Db.Prices.{Numeric, PriceRow, Rejection, is_positive, price_key_eq}
use yearn_prices.Db.PriceReads.{get_batch_historical_prices}
use yearn_prices.Utils.Text.{text_eq}
use yearn_prices.Backfill.Finalize.{
  BatchOutcome, FinalizationStatus, FinalizationTarget, FinalizationTargetResult, InventoryKey,
  LockAttempt, PricedKey, Resolution, Tables, acquired, affects_twice, broken, committed,
  delete_inventory_rows, failed, has_key, has_resolution, insert_returning, inserted, inventory_key,
  is_unresolved, key_of_record, lock_error, lock_timeout, endless, priced_key, request_of_target,
  skipped_concurrent_existing, to_result, unresolved, upsert_inventory_rows,
}

module _ (before : PriceRow → PriceRow → Bool) (number_of : Numeric → Number)
    (numeric_of : Number → Numeric) (rejected : List Rejection) (now : ℕ) where
  abbrev pub finalized_row : FinalizationTarget → Resolution → PriceRow
  finalized_row target r = record {
    chain = target.chain;
    token = target.token;
    timestamp = target.eod_timestamp;
    price = numeric_of r.price;
    source = r.source;
    finalized = true;
    symbol = r.symbol;
    confidence = Option.map numeric_of r.confidence;
    observed_at = r.observed_timestamp;
    observation_endpoint = r.observation_endpoint;
  }

  abbrev pub rows_of : List FinalizationTarget → List PriceRow
  rows_of [] = []
  rows_of (target ∷ targets) =
      elim target.resolution [ none ↦ [] | some r ↦ finalized_row target r ∷ [] ] ++ rows_of targets

  -- None where the statement throws.
  unfoldable pub insert_resolved_targets :
      List FinalizationTarget → List PriceRow → Option (List PricedKey × List PriceRow)
  unfolding insert_returning
  insert_resolved_targets targets table =
      if all (λ row. is_positive row.price) (rows_of targets)
        && not (affects_twice (rows_of targets))
      then some (insert_returning (rows_of targets) table)
      else none

  -- The keys of the chunks of requests; none where a read never ends.
  abbrev pub priced_in :
      List PriceRow → Bool → List (List HistoricalRequestTuple) → Option (List PricedKey)
  priced_in table finalized_only [] = some []
  priced_in table finalized_only (requests ∷ chunks) = do
    rows ←
        get_batch_historical_prices before number_of rejected now table requests none finalized_only
    keys ← priced_in table finalized_only chunks
    some (map key_of_record rows ++ keys)

  -- None where `chunk` never ends, as it does for a size of zero and a target.
  unfoldable pub read_priced_keys :
      List PriceRow → List FinalizationTarget → ℕ → Bool → Option (List PricedKey)
  unfolding chunk get_batch_historical_prices
  read_priced_keys table targets read_chunk_size finalized_only = do
    chunks ← chunk (map request_of_target targets) read_chunk_size
    priced_in table finalized_only chunks

  -- The state of a target that is not priced and has a resolution, after the insertion.
  abbrev pub status_after :
      List PricedKey → List PricedKey → FinalizationTarget → FinalizationStatus
  status_after inserted_keys contested_priced target =
      if has_key (priced_key target) inserted_keys
      then inserted
      else if has_key (priced_key target) contested_priced
      then skipped_concurrent_existing
      else unresolved

  abbrev pub concurrent : List PricedKey → List FinalizationTarget → List FinalizationTarget
  concurrent priced batch = keep (λ t. has_key (priced_key t) priced) batch

  abbrev pub resolved : List PricedKey → List FinalizationTarget → List FinalizationTarget
  resolved priced batch = keep (λ t. not (has_key (priced_key t) priced) && has_resolution t) batch

  abbrev pub missing : List PricedKey → List FinalizationTarget → List FinalizationTarget
  missing priced batch =
      keep (λ t. not (has_key (priced_key t) priced) && not (has_resolution t)) batch

  abbrev pub results_of :
      List PricedKey
      → (FinalizationTarget → FinalizationStatus)
      → List FinalizationTarget
      → List FinalizationTargetResult
  results_of priced status batch =
      map (λ t. to_result t skipped_concurrent_existing) (concurrent priced batch)
      ++ map (λ t. to_result t (status t)) (resolved priced batch)
      ++ map (λ t. to_result t unresolved) (missing priced batch)

  abbrev pub new_inventory :
      List PricedKey
      → (FinalizationTarget → FinalizationStatus)
      → List FinalizationTarget
      → List InventoryKey
      → List InventoryKey
  new_inventory priced status batch inventory =
      let settled =
        concurrent priced batch
        ++ keep (λ t. not (is_unresolved (status t))) (resolved priced batch) in
      let still_unresolved =
        missing priced batch ++ keep (λ t. is_unresolved (status t)) (resolved priced batch) in
      upsert_inventory_rows (map inventory_key still_unresolved)
        (delete_inventory_rows (map inventory_key settled) inventory)

  -- `applyBatch` without `write`; none where a read never ends.
  unfoldable pub dry_batch :
      ℕ → Bool → List FinalizationTarget → Tables → Option (List FinalizationTargetResult)
  unfolding read_priced_keys
  dry_batch read_chunk_size finalized_only batch tables = do
    priced ← read_priced_keys tables.prices batch read_chunk_size finalized_only
    some (results_of priced (λ t. inserted) batch)

  -- `applyBatch` with `write`, from the keys that are read on, and from the insertion on: none where a
  -- read never ends, `some none` where the statement throws.
  abbrev pub settled_batch :
      List FinalizationTarget
      → Tables
      → List PricedKey
      → List PricedKey × List PriceRow
      → List PricedKey
      → Tables × List FinalizationTargetResult
  settled_batch batch tables priced (inserted_keys, prices) contested_priced =
      let status = status_after inserted_keys contested_priced in
      (
        record { prices = prices; inventory = new_inventory priced status batch tables.inventory },
        results_of priced status batch,
      )

  unfoldable pub after_insert :
      ℕ
      → Bool
      → List FinalizationTarget
      → Tables
      → List PricedKey
      → List PricedKey × List PriceRow
      → Option (Option (Tables × List FinalizationTargetResult))
  unfolding read_priced_keys upsert_inventory_rows
  after_insert read_chunk_size finalized_only batch tables priced (inserted_keys, prices) = do
    contested_priced ←
        read_priced_keys prices
          (keep (λ t. not (has_key (priced_key t) inserted_keys)) (resolved priced batch))
          read_chunk_size finalized_only
    some (some (settled_batch batch tables priced (inserted_keys, prices) contested_priced))

  unfoldable pub after_read :
      ℕ
      → Bool
      → List FinalizationTarget
      → Tables
      → List PricedKey
      → Option (Option (Tables × List FinalizationTargetResult))
  unfolding insert_resolved_targets after_insert
  after_read read_chunk_size finalized_only batch tables priced =
      elim (insert_resolved_targets (resolved priced batch) tables.prices) [
        | none ↦ some none
        | some insertion ↦ after_insert read_chunk_size finalized_only batch tables priced insertion
      ]

  unfoldable pub apply_batch :
      ℕ
      → Bool
      → List FinalizationTarget
      → Tables
      → Option (Option (Tables × List FinalizationTargetResult))
  unfolding read_priced_keys after_read
  apply_batch read_chunk_size finalized_only batch tables = do
    priced ← read_priced_keys tables.prices batch read_chunk_size finalized_only
    after_read read_chunk_size finalized_only batch tables priced

  abbrev pub transaction :
      Option (Option (Tables × List FinalizationTargetResult)) → ℕ → BatchOutcome
  transaction none retries = endless
  transaction (some none) retries = failed
  transaction (some (some (new, results))) retries = committed new results retries

  -- The loop of `finalizeBatch`: `left` retries are left, `retries` are done, and `attempt` gives what
  -- comes of each.
  unfoldable pub finalize_batch :
      ℕ → Bool → (ℕ → LockAttempt) → ℕ → ℕ → List FinalizationTarget → Tables → BatchOutcome
  unfolding apply_batch
  finalize_batch read_chunk_size finalized_only attempt zero retries batch tables =
      elim (attempt retries) [
        | acquired ↦ transaction (apply_batch read_chunk_size finalized_only batch tables) retries
        | lock_timeout ↦ lock_error (retries + 1)
        | broken ↦ failed
      ]
  finalize_batch read_chunk_size finalized_only attempt (suc left) retries batch tables =
      elim (attempt retries) [
        | acquired ↦ transaction (apply_batch read_chunk_size finalized_only batch tables) retries
        | lock_timeout ↦
            finalize_batch read_chunk_size finalized_only attempt left (retries + 1) batch tables
        | broken ↦ failed
      ]
