-- ===== src/Db/RepairQueue.antt =====
-- src/db/repair-queue.ts: the durable queue of prices to repair; its targets and its retry policy.
pub mod Statements
pub mod Policy
pub mod Leases
pub mod Workers
use Prim.Native.String.{String}
use yearn_prices.Common.{
  Bool, List, Option, [], false, if◌then◌else◌, is_some, length, ltb, min, none, some, suc, true,
  zero, ℕ, ◌&&◌, ◌*◌, ◌+◌, ◌-◌, ◌/◌, ◌==◌, ◌∷◌,
}
use yearn_prices.Utils.Text.{Text, text_eq, to_lower_case}
use yearn_prices.Utils.Time.{is_closed_day}
use yearn_prices.Utils.Chains.{chain_id_to_name, is_token_address}

pub record RepairTarget : Type 0 where
  pub chain_id : ℕ
  pub token : Text
  pub timestamp : ℕ

pub data RepairOutcome : Type 0 where
  missing retryable invalid : RepairOutcome

abbrev pub is_invalid : RepairOutcome → Bool
is_invalid invalid = true
is_invalid _ = false

abbrev pub max_invalid_attempts : ℕ
max_invalid_attempts = 3

abbrev pub transient_backoff_seconds : List ℕ
transient_backoff_seconds = 60 ∷ 300 ∷ 1_800 ∷ 7_200 ∷ 21_600 ∷ 86_400 ∷ []

abbrev pub missing_backoff_seconds : List ℕ
missing_backoff_seconds = 300 ∷ 1_800 ∷ 10_800 ∷ 43_200 ∷ 172_800 ∷ 604_800 ∷ []

abbrev pub schedule : RepairOutcome → List ℕ
schedule missing = missing_backoff_seconds
schedule _ = transient_backoff_seconds

-- `list[i]`, where the index is in range.
abbrev pub nth : List ℕ → ℕ → ℕ
nth [] i = 0
nth (x ∷ xs) zero = x
nth (x ∷ xs) (suc i) = nth xs i

-- The number of attempts is a natural number: the throw for another one is left out.
unfoldable pub repair_retry_delay_seconds : RepairOutcome → ℕ → ℕ
repair_retry_delay_seconds outcome attempts =
    nth (schedule outcome) (min attempts (length (schedule outcome) - 1))

-- The key that `targetKey` spells.
abbrev pub target_key : RepairTarget → ℕ × Text × ℕ
target_key t = (t.chain_id, to_lower_case t.token, t.timestamp)

-- `none` is an error that is thrown.
unfoldable pub normalize_target : ℕ → RepairTarget → Option RepairTarget
normalize_target now target =
    if ltb 0 target.chain_id
      && is_some (chain_id_to_name target.chain_id)
      && is_token_address target.token
      && ltb 0 target.timestamp
      && is_closed_day target.timestamp now
      && target.timestamp / 86_400 * 86_400 + 86_399 == target.timestamp
    then some (record target { token = to_lower_case target.token })
    else none
