-- ===== src/Db/RepairQueue/Leases.antt =====
-- src/db/repair-queue.ts: claims and settlements, which hand out leases and take them back. Each
-- is one atomic statement. `FOR UPDATE SKIP LOCKED` makes concurrent claims take turns on a row,
-- so interleavings are sequences of these steps.
pub mod Keys
pub mod Claims
pub mod Settlements
use Prim.Native.String.{String}
use yearn_prices.Common.{
  Bool, List, Option, [], any, eqb, false, if◌then◌else◌, is_some, keep, leb, ltb, nat_eq, none,
  not, pair_eq, some, string_eq, take, true, ℕ, ◌&&◌, ◌*◌, ◌+◌, ◌/◌, ◌==◌, ◌||◌, ◌∷◌,
}
use yearn_prices.Common.Sorting.{sort}
use yearn_prices.Utils.Text.{Text, text_eq}
use yearn_prices.Utils.Chains.{chain_id_to_name}
use yearn_prices.Db.RepairQueue.{
  RepairOutcome, is_invalid, max_invalid_attempts, repair_retry_delay_seconds,
}
use yearn_prices.Db.RepairQueue.Statements.{
  Database, QueueRow, RepairLease, has_final_price, holds, key_beq, row_key, update_where,
}

-- The WHERE of the common table expression `due`.
unfoldable pub is_due : ℕ → QueueRow → Bool
is_due now row =
    not (is_some row.completed_at)
    && ltb row.timestamp (now / 86_400 * 86_400 + 86_399)
    && leb row.next_attempt_at now
    && elim row.lease_expires_at [ none ↦ true | some expires ↦ leb expires now ]

abbrev pub text_leb : Text → Text → Bool
text_leb [] t = true
text_leb (c ∷ s) [] = false
text_leb (c ∷ s) (d ∷ t) = ltb c d || c == d && text_leb s t

-- ORDER BY next_attempt_at, updated_at, chain_id, token, "timestamp"
unfoldable pub comes_first : QueueRow → QueueRow → Bool
comes_first a b =
    ltb a.next_attempt_at b.next_attempt_at
    || a.next_attempt_at == b.next_attempt_at
      && (ltb a.updated_at b.updated_at
          || a.updated_at == b.updated_at
            && (ltb a.chain_id b.chain_id
                || a.chain_id == b.chain_id
                  && (not (text_leb b.token a.token)
                      || eqb a.token b.token && leb a.timestamp b.timestamp)))

-- The rows that a claim takes.
unfoldable pub due_rows : ℕ → ℕ → List QueueRow → List QueueRow
due_rows now limit rows = take limit (sort comes_first (keep (is_due now) rows))

abbrev pub is_among : List QueueRow → QueueRow → Bool
is_among due row = any (λ d. key_beq (row_key d) (row_key row)) due

abbrev pub leased : ℕ → ℕ → String → String → QueueRow → QueueRow
leased now seconds owner token row = record row {
  lease_owner = some owner;
  lease_token = some token;
  lease_expires_at = some (now + seconds);
  updated_at = now;
}

abbrev pub lease_of : String → String → QueueRow → RepairLease
lease_of owner token row = record {
  chain_id = row.chain_id;
  token = row.token;
  timestamp = row.timestamp;
  attempts = row.attempts;
  lease_owner = owner;
  lease_token = token;
}

-- UPDATE … FROM due … RETURNING queue.*
unfoldable pub claim_rows :
    ℕ → ℕ → String → String → List QueueRow → List QueueRow → List QueueRow × List RepairLease
claim_rows now seconds owner token due [] = ([], [])
claim_rows now seconds owner token due (row ∷ rows) =
    let (rows', leases) = claim_rows now seconds owner token due rows in
    if is_among due row
    then (leased now seconds owner token row ∷ rows', lease_of owner token row ∷ leases)
    else (row ∷ rows', leases)

-- `none` is a thrown error. `token` is the caller's lease token or a random one.
unfoldable pub claim_repair_queue :
    ℕ → ℕ → String → ℕ → String → List QueueRow → Option (List QueueRow × List RepairLease)
unfolding claim_rows
claim_repair_queue now limit owner seconds token rows =
    if ltb 0 limit && ltb 0 seconds
    then some (claim_rows now seconds owner token (due_rows now limit rows) rows)
    else none

-- The WHERE that every settlement has: the row is open and its lease is the caller's.
unfoldable pub is_held : RepairLease → QueueRow → Bool
is_held lease row =
    key_beq (row_key row) (lease.chain_id, lease.token, lease.timestamp)
    && not (is_some row.completed_at)
    && holds row.lease_owner lease.lease_owner
    && holds row.lease_token lease.lease_token

abbrev pub without_lease : ℕ → QueueRow → QueueRow
without_lease now row = record row {
  lease_owner = none;
  lease_token = none;
  lease_expires_at = none;
  updated_at = now;
}

-- `(result.rowCount ?? 0) === 1`
abbrev pub one_row : List QueueRow × ℕ → List QueueRow × Bool
one_row (rows, count) = (rows, count == 1)

-- The SET lists of a success and of a failure.
abbrev pub succeeded : ℕ → QueueRow → QueueRow
succeeded now row = record (without_lease now row) {
  completed_at = some now;
  last_outcome = none;
  last_error = none;
}

abbrev pub failed_with : ℕ → RepairLease → RepairOutcome → Option String → QueueRow → QueueRow
failed_with now lease outcome error row =
    let delay = repair_retry_delay_seconds outcome lease.attempts in
    let parked = is_invalid outcome && leb max_invalid_attempts (lease.attempts + 1) in
    record (without_lease now row) {
      attempts = row.attempts + 1;
      next_attempt_at = now + delay;
      completed_at = if parked then some now else none;
      last_outcome = some outcome;
      last_error = error;
    }

unfoldable pub settle_repair_success : ℕ → RepairLease → Database → List QueueRow × Bool
settle_repair_success now lease db = elim (chain_id_to_name lease.chain_id) [
  | none ↦ (db.queue, false)
  | some chain ↦ one_row (
      update_where (λ row. is_held lease row && has_final_price db chain row.token row.timestamp)
        (succeeded now) db.queue)
]

unfoldable pub settle_repair_failure :
    ℕ → RepairLease → RepairOutcome → Option String → List QueueRow → List QueueRow × Bool
settle_repair_failure now lease outcome error rows =
    one_row (update_where (is_held lease) (failed_with now lease outcome error) rows)

unfoldable pub release_repair_lease : ℕ → RepairLease → List QueueRow → List QueueRow × Bool
release_repair_lease now lease rows =
    one_row (update_where (is_held lease) (without_lease now) rows)
