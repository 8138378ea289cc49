-- ===== src/Db/RepairQueue/Leases/Claims.antt =====
-- What a claim takes.
use Prim.Native.String.{String}
use yearn_prices.Common.Sorting.{All-sort, sort}
use yearn_prices.Common.{
  All, All-In, All-implies, Bool-cases, In, List, [], arith, inl, inr, keep, length, length-take,
  refl, some, subst, suc, take, true, zero, ℕ, ◌∷◌, ◌≡◌, ◌≤◌, ◌⊎◌,
}
use yearn_prices.Db.RepairQueue.Statements.{QueueRow, RepairLease, key_beq, row_key}
use yearn_prices.Db.RepairQueue.Leases.{
  claim_repair_queue, claim_rows, comes_first, due_rows, is_among, is_due, lease_of, leased,
}
use yearn_prices.Db.RepairQueue.Leases.Keys.{
  HasPrimaryKey, Rowwise, Rowwise-implies, count_among, count_rows, key_beq_iff, row-eq_of_key,
}

-- How a row stands to the same row after a claim.
abbrev pub IsClaimed : ℕ → ℕ → String → String → List RepairLease → QueueRow → QueueRow → Type 0
IsClaimed now seconds owner token leases r s =
    (s ≡ r)
    ⊎ ((is_due now r ≡ true)
        × (s ≡ leased now seconds owner token r)
        × In (lease_of owner token r) leases)

IsClaimed-cons :
    (now seconds : ℕ) (owner token : String) (l : RepairLease) (leases : List RepairLease)
    (r s : QueueRow)
    → IsClaimed now seconds owner token leases r s
    → IsClaimed now seconds owner token (l ∷ leases) r s
IsClaimed-cons now seconds owner token l leases r s (inl same) = inl same
IsClaimed-cons now seconds owner token l leases r s (inr (d, e, m)) = inr (d, e, inr m)

module _ (now seconds : ℕ) (owner token : String) where
  -- What a returned lease stands for: a row that was due, and that now carries the lease.
  abbrev pub IsLeaseOf : List QueueRow → List QueueRow → RepairLease → Type 0
  IsLeaseOf rows rows' l =
      (r : QueueRow) × In r rows
      × (is_due now r ≡ true)
      × (l ≡ lease_of owner token r)
      × In (leased now seconds owner token r) rows'

module _ (now seconds : ℕ) (owner token : String) (due : List QueueRow) where
  claim_rows-IsClaimed :
      (rows : List QueueRow)
      → All (λ r. is_among due r ≡ true → is_due now r ≡ true) rows
      → Rowwise
          (IsClaimed now seconds owner token (claim_rows now seconds owner token due rows).1)
          rows
          (claim_rows now seconds owner token due rows).0
  unfolding claim_rows
  claim_rows-IsClaimed [] h = tt
  claim_rows-IsClaimed (r ∷ rows) (p, h) = elim (Bool-cases (is_among due r)) [
    | inl taken ↦ rw taken (
      inr (p taken, refl, inl refl),
      Rowwise-implies _ _ rows _ (IsClaimed-cons now seconds owner token (lease_of owner token r) _)
          (claim_rows-IsClaimed rows h),
    )
    | inr left ↦ rw left (inl refl, claim_rows-IsClaimed rows h)
  ]

  IsLeaseOf-cons :
      (r s : QueueRow) (rows rows' : List QueueRow) (l : RepairLease)
      → IsLeaseOf now seconds owner token rows rows' l
      → IsLeaseOf now seconds owner token (r ∷ rows) (s ∷ rows') l
  IsLeaseOf-cons r s rows rows' l (q, m, d, e, m') = (q, inr m, d, e, inr m')

  claim_rows-IsLeaseOf :
      (rows : List QueueRow)
      → All (λ r. is_among due r ≡ true → is_due now r ≡ true) rows
      → All
          (IsLeaseOf now seconds owner token rows (claim_rows now seconds owner token due rows).0)
          (claim_rows now seconds owner token due rows).1
  unfolding claim_rows
  claim_rows-IsLeaseOf [] h = tt
  claim_rows-IsLeaseOf (r ∷ rows) (p, h) = elim (Bool-cases (is_among due r)) [
    | inl taken ↦ rw taken (
      (r, inl refl, p taken, refl, inl refl),
      All-implies _ _ _ (IsLeaseOf-cons r _ rows _) (claim_rows-IsLeaseOf rows h),
    )
    | inr left ↦
        rw left (All-implies _ _ _ (IsLeaseOf-cons r _ rows _) (claim_rows-IsLeaseOf rows h))
  ]

  length-claim_rows :
      (rows : List QueueRow)
      → length (claim_rows now seconds owner token due rows).1 ≡ count_rows (is_among due) rows
  unfolding claim_rows
  length-claim_rows [] = refl
  length-claim_rows (r ∷ rows) = ground (arith, length-claim_rows rows)

-- A row that a claim may take: due, and in the table.
abbrev IsCandidate : ℕ → List QueueRow → QueueRow → Type 0
IsCandidate now rows d = (is_due now d ≡ true) × In d rows

keep-IsCandidate :
    (now : ℕ) (rows : List QueueRow) → All (IsCandidate now rows) (keep (is_due now) rows)
keep-IsCandidate now [] = tt
keep-IsCandidate now (r ∷ rows) =
    let rest =
      All-implies (IsCandidate now rows) (IsCandidate now (r ∷ rows)) (keep (is_due now) rows)
        (λ d c. (c.0, inr c.1)) (keep-IsCandidate now rows) in
    elim (Bool-cases (is_due now r)) [
      | inl due ↦ rw due ((due, inl refl), rest)
      | inr other ↦ rw other rest
    ]

All-take : (P : QueueRow → Type 0) (n : ℕ) (rows : List QueueRow) → All P rows → All P (take n rows)
All-take P zero rows h = tt
All-take P (suc n) [] h = tt
All-take P (suc n) (r ∷ rows) (p, h) = (p, All-take P n rows h)

due_rows-IsCandidate :
    (now limit : ℕ) (rows : List QueueRow) → All (IsCandidate now rows) (due_rows now limit rows)
unfolding due_rows
due_rows-IsCandidate now limit rows =
    All-take (IsCandidate now rows) limit _
      (All-sort comes_first (IsCandidate now rows) _ (keep-IsCandidate now rows))

length-due_rows : (now limit : ℕ) (rows : List QueueRow) → length (due_rows now limit rows) ≤ limit
unfolding due_rows
length-due_rows now limit rows =
    omega (arith, length-take limit (sort comes_first (keep (is_due now) rows)))

is_among-eq-true :
    (due : List QueueRow) (r : QueueRow)
    → is_among due r ≡ true
    → (d : QueueRow) × In d due × (row_key d ≡ row_key r)
is_among-eq-true [] r h = cc
is_among-eq-true (d ∷ due) r h = elim (Bool-cases (key_beq (row_key d) (row_key r))) [
  | inl same ↦ (d, inl refl, (key_beq_iff (row_key d) (row_key r)).0 same)
  | inr other ↦ let (q, m, e) = is_among-eq-true due r (rw other at h) in (q, inr m, e)
]

among-due :
    (now : ℕ) (due rows : List QueueRow) (r : QueueRow)
    → HasPrimaryKey rows
    → All (IsCandidate now rows) due
    → In r rows
    → is_among due r ≡ true
    → is_due now r ≡ true
among-due now due rows r u c m h =
    let (d, n, e) = is_among-eq-true due r h in
    let (taken, listed) = All-In (IsCandidate now rows) due c n in
    rw (← row-eq_of_key rows d r u listed m e) taken

All-listed :
    (P : QueueRow → Type 0) (rows : List QueueRow) → ((r : QueueRow) → In r rows → P r) → All P rows
All-listed P [] f = tt
All-listed P (r ∷ rows) f = (f r (inl refl), All-listed P rows (λ q m. f q (inr m)))

-- A claim that is not refused changes only rows that are due, and these only in their lease, which
-- is the caller's, runs for the seconds asked for and is returned; it returns at most `limit`
-- leases, and each is of a row that was due and now carries it.
pub claim_repair_queue-exclusive :
    (now limit : ℕ) (owner : String) (seconds : ℕ) (token : String) (rows rows' : List QueueRow)
    (leases : List RepairLease)
    → HasPrimaryKey rows
    → claim_repair_queue now limit owner seconds token rows ≡ some (rows', leases)
    → Rowwise (IsClaimed now seconds owner token leases) rows rows'
      × (length leases ≤ limit)
      × All (IsLeaseOf now seconds owner token rows rows') leases
unfolding claim_repair_queue
claim_repair_queue-exclusive now limit owner seconds token rows rows' leases u e =
    let due : List QueueRow = due_rows now limit rows in
    let same : claim_rows now seconds owner token due rows ≡ (rows', leases) = ground (arith, e) in
    let only_due =
      All-listed (λ r. is_among due r ≡ true → is_due now r ≡ true) rows
        (λ r m. among-due now due rows r u (due_rows-IsCandidate now limit rows) m) in
    let changed = claim_rows-IsClaimed now seconds owner token due rows only_due in
    let given = claim_rows-IsLeaseOf now seconds owner token due rows only_due in
    let count = length-claim_rows now seconds owner token due rows in
    subst
      (λ p.
        Rowwise (IsClaimed now seconds owner token p.1) rows p.0
        × (length p.1 ≤ limit)
        × All (IsLeaseOf now seconds owner token rows p.0) p.1)
      same
      (changed, omega (arith, count, count_among due rows u, length-due_rows now limit rows), given)
