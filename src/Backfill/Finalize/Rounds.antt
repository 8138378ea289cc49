-- ===== src/Backfill/Finalize/Rounds.antt =====
-- src/backfill/finalize.ts: a run over the batches, and the check of their targets.
use yearn_prices.Common.{
  Bool, List, Option, [], false, if◌then◌else◌, keep, length, map, nat_eq, none, option_eq, pair_eq,
  some, string_eq, ℕ, ◌&&◌, ◌++◌, ◌+◌, ◌>>=◌, ◌||◌, ◌∷◌,
}
use yearn_prices.Utils.Number.{Number}
use yearn_prices.Utils.Collections.{chunk}
use yearn_prices.Db.Prices.{
  Numeric, PriceRow, Rejection, is_defillama_source, is_rejected_price, price_key_eq,
}
use yearn_prices.Utils.Text.{text_eq}
use yearn_prices.Backfill.Finalize.{
  BatchOutcome, FinalizationOptions, FinalizationStatus, FinalizationTarget,
  FinalizationTargetResult, Finished, LockAttempt, Plausibility, PricedKey, Resolution, Tables,
  committed, endless, failed, never_ends, has_key, is_implausible, is_unresolved, lock_error,
  priced_key, rejected_implausible, result_key, returned, status_beq, thrown,
}
use yearn_prices.Backfill.Finalize.Runs.{dry_batch, finalize_batch}

module _ (before : PriceRow → PriceRow → Bool) (number_of : Numeric → Number)
    (numeric_of : Number → Numeric) (rejected : List Rejection) (now : ℕ) where
  module _ (is_plausible : Option (FinalizationTarget → Resolution → Plausibility)) where
    abbrev pub is_dropped : FinalizationTarget → Resolution → Bool
    is_dropped target r =
        is_defillama_source r.source
        && (is_rejected_price rejected target.chain target.token target.eod_timestamp r.source
            || elim is_plausible [ none ↦ false | some check ↦ is_implausible (check target r) ])

    abbrev pub is_dropped_target : FinalizationTarget → Bool
    is_dropped_target target = elim target.resolution [
      | none ↦ false
      | some r ↦ is_dropped target r
    ]

    abbrev pub checked_target : FinalizationTarget → FinalizationTarget
    checked_target target =
        if is_dropped_target target then record target { resolution = none } else target

    abbrev pub dropped_keys : List FinalizationTarget → List PricedKey
    dropped_keys unchecked = map priced_key (keep is_dropped_target unchecked)

    abbrev pub remap_result : List PricedKey → FinalizationTargetResult → FinalizationTargetResult
    remap_result dropped result =
        if is_unresolved result.status && has_key (result_key result) dropped
        then record result { status = rejected_implausible }
        else result

    abbrev pub remap :
        List PricedKey → List FinalizationTargetResult → List FinalizationTargetResult
    remap dropped results = map (remap_result dropped) results

    abbrev pub remapped : List PricedKey → BatchOutcome → BatchOutcome
    remapped dropped (committed tables results retries) =
        committed tables (remap dropped results) retries
    remapped dropped (lock_error attempts) = lock_error attempts
    remapped dropped failed = failed
    remapped dropped endless = endless

    abbrev pub dry_outcome : Tables → Option (List FinalizationTargetResult) → BatchOutcome
    dry_outcome tables none = endless
    dry_outcome tables (some results) = committed tables results 0

    unfoldable pub run_batch :
        FinalizationOptions → (ℕ → LockAttempt) → List FinalizationTarget → Tables → BatchOutcome
    unfolding finalize_batch dry_batch
    run_batch o attempt unchecked tables =
        let batch = map checked_target unchecked in
        remapped (dropped_keys unchecked) (
          if o.dry_run
          then dry_outcome tables (
              dry_batch before number_of numeric_of rejected now o.read_chunk_size o.finalized_only
                batch tables)
          else finalize_batch before number_of numeric_of rejected now o.read_chunk_size
              o.finalized_only attempt o.lock_retry_limit 0 batch tables)

    -- The batches from a number on; an error leaves what was committed before it.
    unfoldable pub run_batches :
        FinalizationOptions
        → (ℕ → ℕ → LockAttempt)
        → ℕ
        → List (List FinalizationTarget)
        → Tables
        → List FinalizationTargetResult
        → ℕ
        → Finished
    unfolding run_batch
    run_batches o attempt n [] tables results retries = returned tables results retries
    run_batches o attempt n (unchecked ∷ batches) tables results retries =
        elim (run_batch o (attempt n) unchecked tables) [
          | committed new more again ↦
              run_batches o attempt (n + 1) batches new (results ++ more) (retries + again)
          | lock_error attempts ↦ thrown tables (some attempts)
          | failed ↦ thrown tables none
          | endless ↦ never_ends tables
        ]

    -- None where the division into batches never ends.
    unfoldable pub finalize_backfill_targets :
        FinalizationOptions
        → (ℕ → ℕ → LockAttempt)
        → List FinalizationTarget
        → Tables
        → Option Finished
    unfolding chunk run_batches
    finalize_backfill_targets o attempt targets tables = do
      batches ← chunk targets o.batch_size
      some (run_batches o attempt 0 batches tables [] 0)

-- The counts of an outcome.
abbrev pub count_status : FinalizationStatus → List FinalizationTargetResult → ℕ
count_status status results = length (keep (λ r. status_beq r.status status) results)
