-- ===== src/Db/RepairQueue/Statements.antt =====
-- src/db/repair-queue.ts: the statements on the table `historical_price_repair_queue`, each one
-- atomic step. A table is its list of rows; `now` is `NOW()` in seconds; 1,000 keys to a query
-- change nothing in the effect and are left out. Expiry by a fraction of a second is left out.
use Prim.Native.String.{String}
use yearn_prices.Common.{
  Bool, List, Option, [], any, eqb, false, if◌then◌else◌, is_some, keep, nat_eq, none, not, pair_eq,
  some, str_eq, string_eq, true, ℕ, ◌&&◌, ◌+◌, ◌==◌, ◌∷◌,
}
use yearn_prices.Utils.Text.{Text, text_eq, to_lower_case}
use yearn_prices.Utils.Time.{is_closed_day}
use yearn_prices.Utils.Chains.{chain_id_to_name}
use yearn_prices.Db.Prices.{PriceRow, Rejection, is_positive, not_rejected}
use yearn_prices.Db.RepairQueue.{
  RepairOutcome, RepairTarget, is_invalid, normalize_target, target_key,
}

pub record QueueRow : Type 0 where
  pub chain_id : ℕ
  pub token : Text
  pub timestamp : ℕ
  pub attempts : ℕ
  pub next_attempt_at : ℕ
  pub lease_owner : Option String
  pub lease_token : Option String
  pub lease_expires_at : Option ℕ
  pub last_outcome : Option RepairOutcome
  pub last_error : Option String
  pub updated_at : ℕ
  pub completed_at : Option ℕ

pub record RepairLease : Type 0 where
  pub chain_id : ℕ
  pub token : Text
  pub timestamp : ℕ
  pub attempts : ℕ
  pub lease_owner : String
  pub lease_token : String

abbrev pub row_key : QueueRow → ℕ × Text × ℕ
row_key row = (row.chain_id, row.token, row.timestamp)

abbrev pub key_beq : ℕ × Text × ℕ → ℕ × Text × ℕ → Bool
key_beq (a, t, s) (b, u, r) = a == b && eqb t u && s == r

-- `lease_owner = $4`: false where the column is null.
abbrev pub holds : Option String → String → Bool
holds none s = false
holds (some t) s = str_eq t s

-- `UPDATE … SET change WHERE test`: the table, and the row count.
abbrev pub update_where :
    (QueueRow → Bool) → (QueueRow → QueueRow) → List QueueRow → List QueueRow × ℕ
update_where test change [] = ([], 0)
update_where test change (row ∷ rows) =
    let (rows', n) = update_where test change rows in
    if test row then (change row ∷ rows', n + 1) else (row ∷ rows', n)

-- The tables that the statements read and write.
pub record Database : Type 0 where
  pub queue : List QueueRow
  pub token_prices : List PriceRow
  pub rejected : List Rejection

-- Whether an accepted, finalized price is stored under the chain's name.
unfoldable pub is_accepted : List Rejection → PriceRow → Bool
is_accepted rejected tp = tp.finalized && is_positive tp.price && not_rejected rejected tp

unfoldable pub has_final_price : Database → Text → Text → ℕ → Bool
has_final_price db chain token timestamp =
    any
      (λ tp.
        eqb tp.chain chain
        && eqb (to_lower_case tp.token) token
        && tp.timestamp == timestamp
        && is_accepted db.rejected tp)
      db.token_prices

-- `readFinalizedRepairKeys`, as the test that its callers make of the set.
unfoldable pub is_finalized : Database → RepairTarget → Bool
is_finalized db t = elim (chain_id_to_name t.chain_id) [
  | none ↦ false
  | some chain ↦ has_final_price db chain t.token t.timestamp
]

-- `REOPENABLE_SQL`; `IS DISTINCT FROM` is true of a null.
abbrev pub is_reopenable : QueueRow → Bool
is_reopenable row =
    is_some row.completed_at
    && elim row.last_outcome [ none ↦ true | some outcome ↦ not (is_invalid outcome) ]

abbrev pub fresh_row : ℕ → RepairTarget → QueueRow
fresh_row now t = record {
  chain_id = t.chain_id;
  token = t.token;
  timestamp = t.timestamp;
  attempts = 0;
  next_attempt_at = now;
  lease_owner = none;
  lease_token = none;
  lease_expires_at = none;
  last_outcome = none;
  last_error = none;
  updated_at = now;
  completed_at = none;
}

-- `INSERT … ON CONFLICT (token, "timestamp", chain_id) DO UPDATE …`, for one target.
unfoldable pub upsert_target : ℕ → RepairTarget → List QueueRow → List QueueRow × ℕ
upsert_target now t [] = (fresh_row now t ∷ [], 1)
upsert_target now t (row ∷ rows) =
    let (rows', n) = upsert_target now t rows in
    if key_beq (row_key row) (t.chain_id, t.token, t.timestamp)
    then if is_reopenable row then (fresh_row now t ∷ rows, 1) else (row ∷ rows, 0)
    else (row ∷ rows', n)

unfoldable pub upsert_targets : ℕ → List RepairTarget → List QueueRow → List QueueRow × ℕ
upsert_targets now [] rows = (rows, 0)
upsert_targets now (t ∷ ts) rows =
    let (rows', n) = upsert_target now t rows in
    let (rows'', m) = upsert_targets now ts rows' in (rows'', n + m)

-- `targets.map(normalizeTarget)`: one error is thrown for all.
unfoldable pub normalize_targets : ℕ → List RepairTarget → Option (List RepairTarget)
normalize_targets now [] = some []
normalize_targets now (t ∷ ts) = elim (normalize_target now t) [
  | none ↦ none
  | some t' ↦ elim (normalize_targets now ts) [ none ↦ none | some ts' ↦ some (t' ∷ ts') ]
]

-- `new Map(targets.map(value => [targetKey(value), value])).values()`: normalised targets of one
-- key are equal, so the first stands for all.
abbrev pub has_target : RepairTarget → List RepairTarget → Bool
has_target t ts = any (λ u. key_beq (target_key u) (target_key t)) ts

unfoldable pub unique_targets : List RepairTarget → List RepairTarget → List RepairTarget
unique_targets seen [] = []
unique_targets seen (t ∷ ts) =
    let rest = unique_targets (t ∷ seen) ts in
    let skipped = unique_targets seen ts in if has_target t seen then skipped else t ∷ rest

-- `none` is a thrown error, before anything is written.
unfoldable pub enqueue_repair_targets : ℕ → List RepairTarget → Database → Option (Database × ℕ)
unfolding normalize_targets unique_targets upsert_targets upsert_target
enqueue_repair_targets now targets db = elim (normalize_targets now targets) [
  | none ↦ none
  | some normalized ↦
      let pending = keep (λ t. not (is_finalized db t)) (unique_targets [] normalized) in
      let (queue, affected) = upsert_targets now pending db.queue in
      some (record db { queue = queue }, affected)
]

unfoldable pub enqueue_closed_repair_targets :
    ℕ → List RepairTarget → Database → Option (Database × ℕ)
unfolding enqueue_repair_targets
enqueue_closed_repair_targets now targets db =
    enqueue_repair_targets now (keep (λ t. is_closed_day t.timestamp now) targets) db
