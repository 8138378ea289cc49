-- ===== src/Backfill/Finalize/Batches.antt =====
-- What a batch that is committed has done.
use mathlib.Core.Option
use yearn_prices.Common.{
  Bool, List, Option, ap, arith, inl, inr, none, refl, some, subst, suc, sym, two_steps, zero, ℕ,
  ◌+◌, ◌∙◌, ◌≡◌, ◌⊎◌,
}
use yearn_prices.Utils.Number.{Number}
use yearn_prices.Db.Prices.{Numeric, PriceRow, Rejection}
use yearn_prices.Backfill.Finalize.{
  LockAttempt, BatchOutcome, FinalizationTarget, FinalizationTargetResult, PricedKey, Tables,
  acquired, broken, committed, failed, lock_error, lock_timeout,
}
use yearn_prices.Backfill.Finalize.Runs.{
  after_insert, after_read, apply_batch, finalize_batch, insert_resolved_targets, read_priced_keys,
  resolved, settled_batch, transaction,
}

abbrev pub outcome_of : LockAttempt → BatchOutcome → BatchOutcome → BatchOutcome
outcome_of a done late = elim a [ acquired ↦ done | lock_timeout ↦ late | broken ↦ failed ]

pub outcome-cases :
    (a : LockAttempt) (done late : BatchOutcome)
    → (a ≡ acquired) × (outcome_of a done late ≡ done)
      ⊎ (a ≡ lock_timeout) × (outcome_of a done late ≡ late)
      ⊎ (a ≡ broken) × (outcome_of a done late ≡ failed)
outcome-cases acquired done late = inl (refl, refl)
outcome-cases lock_timeout done late = inr (inl (refl, refl))
outcome-cases broken done late = inr (inr (refl, refl))

module _ (before : PriceRow → PriceRow → Bool) (number_of : Numeric → Number)
    (numeric_of : Number → Numeric) (rejected : List Rejection) (now : ℕ) where
  -- The insertion that a commit has made.
  thrown_or :
      {A B : Type 0} (o : Option A) (next : A → Option (Option B)) (b : B)
      → elim o [ none ↦ some none | some a ↦ next a ] ≡ some (some b)
      → (a : A) × (o ≡ some a) × (next a ≡ some (some b))
  thrown_or none next b e = absurd (ground (arith, e))
  thrown_or (some a) next b e = (a, refl, e)

  transaction-committed :
      (o : Option (Option (Tables × List FinalizationTargetResult))) (n m : ℕ) (new : Tables)
      (results : List FinalizationTargetResult)
      → transaction before number_of numeric_of rejected now o n ≡ committed new results m
      → o ≡ some (some (new, results))
  transaction-committed none n m new results e = absurd (ground (arith, e))
  transaction-committed (some none) n m new results e = absurd (ground (arith, e))
  transaction-committed (some (some (t, r))) n m new results e = ground (arith, e)

  abbrev pub applied :
      ℕ
      → Bool
      → List FinalizationTarget
      → Tables
      → Option (Option (Tables × List FinalizationTargetResult))
  applied = apply_batch before number_of numeric_of rejected now

  pub finalize_batch-committed :
      (size : ℕ) (finalized_only : Bool) (attempt : ℕ → LockAttempt) (left retries m : ℕ)
      (batch : List FinalizationTarget) (tables new : Tables)
      (results : List FinalizationTargetResult)
      → finalize_batch before number_of numeric_of rejected now size finalized_only attempt left
          retries batch tables
        ≡ committed new results m
      → applied size finalized_only batch tables ≡ some (some (new, results))
  unfolding finalize_batch
  finalize_batch-committed size f attempt zero retries m batch tables new results e =
      elim (outcome-cases (attempt retries)
        (transaction before number_of numeric_of rejected now (applied size f batch tables) retries)
        (lock_error (retries + 1))) [
          | inl (_, d) ↦ transaction-committed _ retries m new results (sym d ∙ e)
          | inr (inl (_, d)) ↦ absurd (ground (arith, sym d ∙ e))
          | inr (inr (_, d)) ↦ absurd (ground (arith, sym d ∙ e))
        ]
  finalize_batch-committed size f attempt (suc left) retries m batch tables new results e =
      elim (outcome-cases (attempt retries)
        (transaction before number_of numeric_of rejected now (applied size f batch tables) retries)
        (finalize_batch before number_of numeric_of rejected now size f attempt left (retries + 1)
          batch tables)) [
            | inl (_, d) ↦ transaction-committed _ retries m new results (sym d ∙ e)
            | inr (inl (_, d)) ↦
                finalize_batch-committed size f attempt left (retries + 1) m batch tables new
                  results (sym d ∙ e)
            | inr (inr (_, d)) ↦ absurd (ground (arith, sym d ∙ e))
          ]

  -- The keys that were read, the insertion, and the keys that were read then.
  pub record IsApplied (size : ℕ) (finalized_only : Bool) (batch : List FinalizationTarget)
      (tables new : Tables) (results : List FinalizationTargetResult) : Type 0 where
    pub priced : List PricedKey
    pub inserted_keys : List PricedKey
    pub contested_priced : List PricedKey
    pub insert :
        insert_resolved_targets before number_of numeric_of rejected now
          (resolved before number_of numeric_of rejected now priced batch)
          tables.prices
        ≡ some (inserted_keys, new.prices)
    pub settled :
        settled_batch before number_of numeric_of rejected now batch tables priced
          (inserted_keys, new.prices)
          contested_priced
        ≡ (new, results)

  pub apply_batch-IsApplied :
      (size : ℕ) (finalized_only : Bool) (batch : List FinalizationTarget) (tables new : Tables)
      (results : List FinalizationTargetResult)
      → applied size finalized_only batch tables ≡ some (some (new, results))
      → IsApplied size finalized_only batch tables new results
  unfolding apply_batch after_read after_insert
  apply_batch-IsApplied size f batch tables new results e =
      let (priced, _, r) =
        two_steps
          (read_priced_keys before number_of numeric_of rejected now tables.prices batch size f)
          (after_read before number_of numeric_of rejected now size f batch tables)
          (some (new, results)) e in
      let (insertion, i, r') =
        thrown_or
          (insert_resolved_targets before number_of numeric_of rejected now
            (resolved before number_of numeric_of rejected now priced batch) tables.prices)
          (after_insert before number_of numeric_of rejected now size f batch tables priced)
          (new, results) r in
      let (contested, _, s) =
        two_steps _
          (λ contested. some (
            some (
              settled_batch before number_of numeric_of rejected now batch tables priced insertion
                contested)))
          (some (new, results)) r' in
      let done = Option.some-injective _ _ (Option.some-injective _ _ s) in
      let same = ap (λ (p : Tables × List FinalizationTargetResult). p.0.prices) done in
      record {
        priced = priced;
        inserted_keys = insertion.0;
        contested_priced = contested;
        insert = i ∙ ap (λ (p : List PriceRow). some (insertion.0, p)) same;
        settled =
            subst
              (λ (p : List PriceRow).
                settled_batch before number_of numeric_of rejected now batch tables priced
                  (insertion.0, p) contested
                ≡ (new, results))
              same done;
      }
