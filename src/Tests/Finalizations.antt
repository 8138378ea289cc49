-- ===== src/Tests/Finalizations.antt =====
-- A run that finalizes one of two targets at its second attempt at the lock.
use yearn_prices.Common.{
  Bool, List, Option, [], arith, false, if◌then◌else◌, nat_eq, none, not, option_eq, pair_eq, refl,
  some, string_eq, true, ℕ, ◌&&◌, ◌==◌, ◌||◌, ◌∷◌, ◌≡◌,
}
use yearn_prices.Common.Int.{pos}
use yearn_prices.Utils.Number.{Number, integer}
use yearn_prices.Utils.Text.{text, text_eq}
use yearn_prices.Db.Prices.{Numeric, PriceRow, curve, price_key_eq, scaled}
use yearn_prices.Backfill.Finalize.{
  FinalizationOptions, FinalizationTarget, FinalizationTargetResult, Finished, LockAttempt,
  Resolution, Tables, acquired, has_key, inserted, inventory_key, lock_timeout, returned, to_result,
  unresolved,
}
use yearn_prices.Backfill.Finalize.Rounds.{finalize_backfill_targets}
use yearn_prices.Backfill.Finalize.Runs.{apply_batch}
use yearn_prices.Backfill.Finalize.Batches.{applied}
use yearn_prices.Backfill.Finalize.Accounts.{IsAccounted, finalize_backfill_targets-IsAccounted}
use yearn_prices.Backfill.Finalize.Stores.{StoresAll, finalize_backfill_targets-Stores}
use yearn_prices.Backfill.Finalize.Inventory.{apply_batch-inventory, has_settled, has_unresolved}

abbrev as_text : Number → Numeric
as_text (integer z) = scaled z 0
as_text _ = Numeric.nan

abbrev as_number : Numeric → Number
as_number (scaled z k) = integer z
as_number _ = Number.nan

abbrev no_order : PriceRow → PriceRow → Bool
no_order a b = true

abbrev of_curve : Resolution
of_curve = record {
  price = integer (pos 5);
  symbol = none;
  confidence = none;
  source = curve;
  observed_timestamp = none;
  observation_endpoint = none;
}

abbrev target_at : ℕ → Option Resolution → FinalizationTarget
target_at timestamp resolution = record {
  chain_id = 8_453;
  chain = text "base";
  token = text "0xAb";
  token_lowercase = text "0xab";
  eod_timestamp = timestamp;
  resolution = resolution;
}

abbrev two_targets : List FinalizationTarget
two_targets = target_at 86_399 (some of_curve) ∷ target_at 172_799 none ∷ []

abbrev finalized_curve : PriceRow
finalized_curve = record {
  chain = text "base";
  token = text "0xAb";
  timestamp = 86_399;
  price = scaled (pos 5) 0;
  source = curve;
  finalized = true;
  symbol = none;
  confidence = none;
  observed_at = none;
  observation_endpoint = none;
}

abbrev gaps : Tables
gaps = record { prices = []; inventory = inventory_key (target_at 86_399 none) ∷ [] }

abbrev filled : Tables
filled = record {
  prices = finalized_curve ∷ [];
  inventory = inventory_key (target_at 172_799 none) ∷ [];
}

abbrev second_time : ℕ → LockAttempt
second_time n = if n == 0 then lock_timeout else acquired

abbrev in_one_batch : FinalizationOptions
in_one_batch = record {
  dry_run = false;
  finalized_only = false;
  batch_size = 100;
  lock_retry_limit = 3;
  read_chunk_size = 5_000;
}

abbrev two_results : List FinalizationTargetResult
two_results =
    to_result (target_at 86_399 none) inserted ∷ to_result (target_at 172_799 none) unresolved ∷ []

-- The first target leaves the inventory, the second enters it.
finalize_backfill_targets_test :
    finalize_backfill_targets no_order as_number as_text [] 300_000 none in_one_batch
      (λ n. second_time)
      two_targets
      gaps
    ≡ some (returned filled two_results 1)
unfolding finalize_backfill_targets
finalize_backfill_targets_test = refl

apply_batch_test :
    applied no_order as_number as_text [] 300_000 5_000 false two_targets gaps
    ≡ some (some (filled, two_results))
unfolding apply_batch
apply_batch_test = refl

apply_batch-inventory_example : has_key (inventory_key (target_at 86_399 none)) filled.inventory ≡ (
    has_unresolved (inventory_key (target_at 86_399 none)) two_results
    || (has_key (inventory_key (target_at 86_399 none)) gaps.inventory
        && not (has_settled (inventory_key (target_at 86_399 none)) two_results)))
apply_batch-inventory_example =
    apply_batch-inventory no_order as_number as_text [] 300_000 5_000 false two_targets gaps filled
      two_results (inventory_key (target_at 86_399 none)) apply_batch_test

finalize_backfill_targets-IsAccounted_example :
    (f : Finished) × (finalize_backfill_targets no_order as_number as_text [] 300_000 none
        in_one_batch
        (λ n. second_time)
        two_targets
        gaps
      ≡ some f)
    × IsAccounted no_order as_number as_text [] 300_000 none in_one_batch
        (λ name. true)
        two_targets
        f
finalize_backfill_targets-IsAccounted_example =
    finalize_backfill_targets-IsAccounted no_order as_number as_text [] 300_000 none in_one_batch
      (λ name. true) (λ n. second_time) two_targets gaps (omega arith) (omega arith)

finalize_backfill_targets-Stores_example :
    StoresAll no_order as_number as_text [] 300_000 none in_one_batch two_targets gaps (
      finalize_backfill_targets no_order as_number as_text [] 300_000 none in_one_batch
        (λ n. second_time)
        two_targets
        gaps)
finalize_backfill_targets-Stores_example =
    finalize_backfill_targets-Stores no_order as_number as_text [] 300_000 none in_one_batch
      two_targets (λ n. second_time) gaps (omega arith)
