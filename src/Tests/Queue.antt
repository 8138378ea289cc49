-- ===== src/Tests/Queue.antt =====
-- The repair queue at concrete values: one row enqueued, claimed and failed.
use yearn_prices.Common.{
  All, List, [], any, false, inl, length, none, refl, some, true, ◌↔◌, ◌∷◌, ◌≡◌, ◌≤◌, ◌⊎◌,
}
use yearn_prices.Utils.Text.{is_hex, lower_code, text, to_lower_case}
use yearn_prices.Utils.Chains.{chain_id_to_name, is_token_address}
use yearn_prices.Utils.Time.{current_utc_day_end, is_closed_day, normalize_to_end_of_day}
use yearn_prices.Db.Prices.{not_rejected}
use yearn_prices.Db.RepairQueue.{
  RepairTarget, invalid, missing, normalize_target, repair_retry_delay_seconds, target_key,
}
use yearn_prices.Db.RepairQueue.Policy.{
  IsRepairTarget, normalize_target-canonical, repair_retry_delay_seconds-bounds,
}
use yearn_prices.Db.RepairQueue.Statements.{
  QueueRow, RepairLease, enqueue_repair_targets, fresh_row, has_final_price, is_accepted,
  is_finalized, normalize_targets, unique_targets, upsert_target, upsert_targets,
}
use yearn_prices.Db.RepairQueue.Leases.{
  claim_repair_queue, claim_rows, comes_first, due_rows, failed_with, is_due, is_held, lease_of,
  leased, settle_repair_failure,
}
use yearn_prices.Db.RepairQueue.Leases.Keys.{HasPrimaryKey, Rowwise}
use yearn_prices.Db.RepairQueue.Leases.Claims.{IsClaimed, IsLeaseOf, claim_repair_queue-exclusive}
use yearn_prices.Db.RepairQueue.Leases.Settlements.{IsFailure, settle_repair_failure-fenced}
use yearn_prices.Db.RepairQueue.Workers.{Reach, System, claim, enqueue, fail, here, next}
use yearn_prices.Db.RepairQueue.Workers.Reachable.{IsSafeRow, Reach-IsSafeRow}

queue : Unit {0}
unfolding claim_repair_queue claim_rows due_rows is_due comes_first is_held settle_repair_failure
    repair_retry_delay_seconds
queue = tt

enqueuing : Unit {0}
unfolding enqueue_repair_targets normalize_targets normalize_target unique_targets upsert_targets
    upsert_target is_finalized has_final_price is_accepted not_rejected is_token_address is_hex
    chain_id_to_name is_closed_day normalize_to_end_of_day current_utc_day_end to_lower_case
    lower_code
enqueuing = tt

abbrev target : RepairTarget
target = record {
  chain_id = 1;
  token = text "0xABcdef0123456789abcdef0123456789abcdef01";
  timestamp = 86_399;
}

abbrev lower_target : RepairTarget
lower_target = record target { token = text "0xabcdef0123456789abcdef0123456789abcdef01" }

repair_retry_delay_seconds-bounds_example :
    (60 ≤ repair_retry_delay_seconds invalid 4)
    × (repair_retry_delay_seconds invalid 4 ≤ 604_800)
    × (repair_retry_delay_seconds invalid 4 ≤ repair_retry_delay_seconds invalid 5)
    × (repair_retry_delay_seconds invalid 4 ≤ repair_retry_delay_seconds missing 4)
repair_retry_delay_seconds-bounds_example = repair_retry_delay_seconds-bounds invalid 4

normalize_target-canonical_example :
    ((normalize_target 200_000 target ≡ some lower_target) ↔ (
      IsRepairTarget 200_000 target
      × (lower_target ≡ record target { token = to_lower_case target.token })))
    × (normalize_target 200_000 target ≡ some lower_target
        → IsRepairTarget 200_000 lower_target
          × (target_key lower_target ≡ target_key target)
          × (normalize_target 200_000 lower_target ≡ some lower_target))
normalize_target-canonical_example = normalize_target-canonical 200_000 target lower_target

-- The example's target is accepted.
normalize_target_test : normalize_target 200_000 target ≡ some lower_target
unfolding enqueuing
normalize_target_test = refl

abbrev row : QueueRow
row = fresh_row 200_000 lower_target

abbrev leased_row : QueueRow
leased_row = leased 200_001 60 "w" "t1" row

abbrev lease : RepairLease
lease = lease_of "w" "t1" row

claim_repair_queue-exclusive_example :
    Rowwise (IsClaimed 200_001 60 "w" "t1" (lease ∷ [])) (row ∷ []) (leased_row ∷ [])
    × (length (lease ∷ []) ≤ 5)
    × All (IsLeaseOf 200_001 60 "w" "t1" (row ∷ []) (leased_row ∷ [])) (lease ∷ [])
unfolding queue
claim_repair_queue-exclusive_example =
    claim_repair_queue-exclusive 200_001 5 "w" 60 "t1" (row ∷ []) (leased_row ∷ []) (lease ∷ [])
      (tt, tt) refl

settle_repair_failure-fenced_example :
    Rowwise
      (λ r s.
        ((is_held lease r ≡ false) × (s ≡ r))
        ⊎ ((is_held lease r ≡ true) × IsFailure 200_009 lease invalid r s))
      (leased_row ∷ [])
      (settle_repair_failure 200_009 lease invalid none (leased_row ∷ [])).0
    × (((settle_repair_failure 200_009 lease invalid none (leased_row ∷ [])).1 ≡ true)
        ↔ (any (is_held lease) (leased_row ∷ []) ≡ true))
settle_repair_failure-fenced_example =
    settle_repair_failure-fenced 200_009 lease invalid none (leased_row ∷ []) (tt, tt)

abbrev system_of : List QueueRow → List RepairLease → System
system_of rows leases = record {
  database = record { queue = rows; token_prices = []; rejected = [] };
  issued = leases;
}

-- The row is enqueued, claimed, and its repair fails.
one_repair :
    Reach
      (system_of [] [])
      (system_of (failed_with 200_009 lease invalid none leased_row ∷ []) (lease ∷ []))
unfolding queue enqueuing
one_repair =
    next
      (next
        (next here (
          enqueue (system_of [] []) 200_000 (target ∷ []) (system_of (row ∷ []) []).database 1
            refl))
        (claim (system_of (row ∷ []) []) 200_001 5 "w" 60 "t1" (leased_row ∷ []) (lease ∷ []) tt
          refl))
      (fail (system_of (leased_row ∷ []) (lease ∷ [])) 200_009 lease invalid none (inl refl))

Reach-IsSafeRow_example :
    HasPrimaryKey (failed_with 200_009 lease invalid none leased_row ∷ [])
    × All (IsSafeRow (lease ∷ [])) (failed_with 200_009 lease invalid none leased_row ∷ [])
Reach-IsSafeRow_example = Reach-IsSafeRow one_repair
