-- ===== src/Db/RepairQueue/Leases/Settlements.antt =====
-- Settlements, row by row.
use Prim.Native.String.{String}
use yearn_prices.Db.RepairQueue.Policy.{repair_retry_delay_seconds-bounds}
use yearn_prices.Common.{
  Bool, Bool-cases, List, Option, [], any, arith, eqb_iff, false, inl, inr, none, refl, some, true,
  ℕ, ◌+◌, ◌<◌, ◌↔◌, ◌∷◌, ◌≡◌, ◌≢◌, ◌≤◌, ◌⊎◌,
}
use yearn_prices.Utils.Text.{Text, text_eq}
use yearn_prices.Db.RepairQueue.{RepairOutcome, invalid, max_invalid_attempts}
use yearn_prices.Db.RepairQueue.Statements.{QueueRow, RepairLease, key_beq, row_key, update_where}
use yearn_prices.Db.RepairQueue.Leases.{failed_with, is_held, one_row, settle_repair_failure}
use yearn_prices.Db.RepairQueue.Leases.Keys.{
  HasPrimaryKey, Rowwise, Rowwise-implies, count_key, count_rows,
}

-- A row after an UPDATE: changed where the test holds, else the same.
abbrev pub IsUpdated : (QueueRow → Bool) → (QueueRow → QueueRow) → QueueRow → QueueRow → Type 0
IsUpdated test change r s = ((test r ≡ false) × (s ≡ r)) ⊎ ((test r ≡ true) × (s ≡ change r))

pub update_where-IsUpdated :
    (test : QueueRow → Bool) (change : QueueRow → QueueRow) (rows : List QueueRow)
    → Rowwise (IsUpdated test change) rows (update_where test change rows).0
update_where-IsUpdated test change [] = tt
update_where-IsUpdated test change (r ∷ rows) = elim (Bool-cases (test r)) [
  | inl hit ↦ rw hit (inr (hit, refl), update_where-IsUpdated test change rows)
  | inr miss ↦ rw miss (inl (miss, refl), update_where-IsUpdated test change rows)
]

count-update_where :
    (test : QueueRow → Bool) (change : QueueRow → QueueRow) (rows : List QueueRow)
    → (update_where test change rows).1 ≡ count_rows test rows
count-update_where test change [] = refl
count-update_where test change (r ∷ rows) = ground (arith, count-update_where test change rows)

count-implies :
    (p q : QueueRow → Bool) (rows : List QueueRow)
    → ((r : QueueRow) → p r ≡ true → q r ≡ true)
    → count_rows p rows ≤ count_rows q rows
count-implies p q [] f = omega arith
count-implies p q (r ∷ rows) f = ground (arith, f r, count-implies p q rows f)

abbrev pub lease_key : RepairLease → ℕ × Text × ℕ
lease_key l = (l.chain_id, l.token, l.timestamp)

pub is_held-key :
    (l : RepairLease) (r : QueueRow) → is_held l r ≡ true → key_beq (lease_key l) (row_key r) ≡ true
unfolding is_held
is_held-key l r h = ground (arith, eqb_iff l.token r.token, eqb_iff r.token l.token)

count_held :
    (l : RepairLease) (test : QueueRow → Bool) (rows : List QueueRow)
    → HasPrimaryKey rows
    → ((r : QueueRow) → test r ≡ true → is_held l r ≡ true)
    → count_rows test rows ≤ 1
count_held l test rows u f = omega (
  arith,
  count-implies test (λ r. key_beq (lease_key l) (row_key r)) rows (λ r h. is_held-key l r (f r h)),
  count_key (lease_key l) rows u,
)

any-count :
    (test : QueueRow → Bool) (rows : List QueueRow)
    → (0 < count_rows test rows) ↔ (any test rows ≡ true)
any-count test [] = ground arith
any-count test (r ∷ rows) = ground (arith, any-count test rows)

-- A settlement reports success exactly where some row passed its test.
settled_iff :
    (l : RepairLease) (test : QueueRow → Bool) (change : QueueRow → QueueRow) (rows : List QueueRow)
    → HasPrimaryKey rows
    → ((r : QueueRow) → test r ≡ true → is_held l r ≡ true)
    → ((one_row (update_where test change rows)).1 ≡ true) ↔ (any test rows ≡ true)
settled_iff l test change rows u f =
    ground
      (arith, count-update_where test change rows, count_held l test rows u f, any-count test rows)

-- A failed repair, as it is recorded in a row.
abbrev pub IsFailure : ℕ → RepairLease → RepairOutcome → QueueRow → QueueRow → Type 0
IsFailure now l outcome r s =
    (row_key s ≡ row_key r)
    × (s.attempts ≡ r.attempts + 1)
    × (now + 60 ≤ s.next_attempt_at)
    × (s.next_attempt_at ≤ now + 604_800)
    × (s.lease_token ≡ none)
    × (s.last_outcome ≡ some outcome)
    × ((s.completed_at ≢ none) ↔ ((outcome ≡ invalid) × (max_invalid_attempts ≤ l.attempts + 1)))

failed_with-IsFailure :
    (now : ℕ) (l : RepairLease) (outcome : RepairOutcome) (error : Option String) (r s : QueueRow)
    → IsUpdated (is_held l) (failed_with now l outcome error) r s
    → ((is_held l r ≡ false) × (s ≡ r)) ⊎ ((is_held l r ≡ true) × IsFailure now l outcome r s)
failed_with-IsFailure now l outcome error r s (inl same) = inl same
failed_with-IsFailure now l outcome error r s (inr (held, e)) =
    inr (held, rw e (ground (arith, repair_retry_delay_seconds-bounds outcome l.attempts)))

-- A failure is written to the row that the caller's lease holds and to no other: one attempt more,
-- the lease given back, the next attempt between a minute and a week away, and the row parked
-- exactly where the outcome is invalid and this was the third attempt or a later one. It reports
-- success exactly where there is such a row.
pub settle_repair_failure-fenced :
    (now : ℕ) (l : RepairLease) (outcome : RepairOutcome) (error : Option String)
    (rows : List QueueRow)
    → HasPrimaryKey rows
    → Rowwise
        (λ r s.
          ((is_held l r ≡ false) × (s ≡ r)) ⊎ ((is_held l r ≡ true) × IsFailure now l outcome r s))
        rows
        (settle_repair_failure now l outcome error rows).0
      × (((settle_repair_failure now l outcome error rows).1 ≡ true)
          ↔ (any (is_held l) rows ≡ true))
unfolding settle_repair_failure
settle_repair_failure-fenced now l outcome error rows u = (
  Rowwise-implies _ _ rows _ (failed_with-IsFailure now l outcome error)
      (update_where-IsUpdated (is_held l) (failed_with now l outcome error) rows),
  settled_iff l (is_held l) (failed_with now l outcome error) rows u (λ r h. h),
)
