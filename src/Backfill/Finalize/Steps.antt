-- ===== src/Backfill/Finalize/Steps.antt =====
-- A batch of a run, taken apart by its outcome.
use yearn_prices.Common.{
  All, Bool, List, Option, [], arith, false, if◌then◌else◌, inl, inr, map, none, refl, some, true,
  ℕ, ◌++◌, ◌+◌, ◌∷◌, ◌≡◌, ◌⊎◌,
}
use yearn_prices.Utils.Number.{Number}
use yearn_prices.Db.Prices.{Numeric, PriceRow, Rejection}
use yearn_prices.Backfill.Finalize.{
  BatchOutcome, FinalizationOptions, FinalizationTarget, FinalizationTargetResult, Finished,
  LockAttempt, Plausibility, PricedKey, Resolution, Tables, committed, endless, failed, lock_error,
  never_ends, tables_of, thrown,
}
use yearn_prices.Backfill.Finalize.Rounds.{
  checked_target, dropped_keys, dry_outcome, remap, remapped, run_batch, run_batches,
}
use yearn_prices.Backfill.Finalize.Runs.{dry_batch, finalize_batch}
use yearn_prices.Backfill.Finalize.Batches.{applied, finalize_batch-committed}

-- What a run makes of the outcome of a batch.
abbrev pub after_outcome :
    Tables → (Tables → List FinalizationTargetResult → ℕ → Finished) → BatchOutcome → Finished
after_outcome tables go outcome = elim outcome [
  | committed new more again ↦ go new more again
  | lock_error attempts ↦ thrown tables (some attempts)
  | failed ↦ thrown tables none
  | endless ↦ never_ends tables
]

module _ (before : PriceRow → PriceRow → Bool) (number_of : Numeric → Number)
    (numeric_of : Number → Numeric) (rejected : List Rejection) (now : ℕ)
    (is_plausible : Option (FinalizationTarget → Resolution → Plausibility))
    (o : FinalizationOptions) where
  abbrev pub batch_of : List FinalizationTarget → List FinalizationTarget
  batch_of unchecked =
      map (checked_target before number_of numeric_of rejected now is_plausible) unchecked

  -- The results of a committed batch before its rejected targets are marked; the tables are those of
  -- the transaction, or are left by a dry run.
  pub record IsCommitted (unchecked : List FinalizationTarget) (tables new : Tables)
      (more : List FinalizationTargetResult) : Type 0 where
    pub results : List FinalizationTargetResult
    pub marked :
        more
        ≡ remap before number_of numeric_of rejected now is_plausible
            (dropped_keys before number_of numeric_of rejected now is_plausible unchecked)
            results
    pub from :
        (new ≡ tables)
          × (dry_batch before number_of numeric_of rejected now o.read_chunk_size o.finalized_only
                (batch_of unchecked)
                tables
              ≡ some results)
        ⊎ (applied before number_of numeric_of rejected now o.read_chunk_size o.finalized_only
              (batch_of unchecked)
              tables
            ≡ some (some (new, results)))

  remapped-committed :
      (dropped : List PricedKey) (out : BatchOutcome) (new : Tables)
      (more : List FinalizationTargetResult) (n : ℕ)
      → remapped before number_of numeric_of rejected now is_plausible dropped out
        ≡ committed new more n
      → (results : List FinalizationTargetResult) × (out ≡ committed new results n)
        × (more ≡ remap before number_of numeric_of rejected now is_plausible dropped results)
  remapped-committed dropped (committed t r m) new more n e =
      (r, ground (arith, e), ground (arith, e))
  remapped-committed dropped (lock_error a) new more n e = absurd (ground (arith, e))
  remapped-committed dropped failed new more n e = absurd (ground (arith, e))
  remapped-committed dropped endless new more n e = absurd (ground (arith, e))

  dry_outcome-committed :
      (tables new : Tables) (r : Option (List FinalizationTargetResult))
      (results : List FinalizationTargetResult) (n : ℕ)
      → dry_outcome before number_of numeric_of rejected now is_plausible tables r
        ≡ committed new results n
      → (new ≡ tables) × (r ≡ some results)
  dry_outcome-committed tables new none results n e = absurd (ground (arith, e))
  dry_outcome-committed tables new (some r) results n e = (ground (arith, e), ground (arith, e))

  from_either :
      (b : Bool) (unchecked : List FinalizationTarget) (attempt : ℕ → LockAttempt)
      (tables new : Tables) (results : List FinalizationTargetResult) (n : ℕ)
      → (if b
          then dry_outcome before number_of numeric_of rejected now is_plausible tables (
              dry_batch before number_of numeric_of rejected now o.read_chunk_size o.finalized_only
                (batch_of unchecked)
                tables)
          else finalize_batch before number_of numeric_of rejected now o.read_chunk_size
              o.finalized_only attempt o.lock_retry_limit 0
              (batch_of unchecked)
              tables)
        ≡ committed new results n
      → (new ≡ tables)
          × (dry_batch before number_of numeric_of rejected now o.read_chunk_size o.finalized_only
                (batch_of unchecked)
                tables
              ≡ some results)
        ⊎ (applied before number_of numeric_of rejected now o.read_chunk_size o.finalized_only
              (batch_of unchecked)
              tables
            ≡ some (some (new, results)))
  from_either true unchecked attempt tables new results n e =
      inl (dry_outcome-committed tables new _ results n e)
  from_either false unchecked attempt tables new results n e = inr (
      finalize_batch-committed before number_of numeric_of rejected now o.read_chunk_size
        o.finalized_only attempt o.lock_retry_limit 0 n (batch_of unchecked) tables new results e)

  pub run_batch-IsCommitted :
      (attempt : ℕ → LockAttempt) (unchecked : List FinalizationTarget) (tables new : Tables)
      (more : List FinalizationTargetResult) (n : ℕ)
      → run_batch before number_of numeric_of rejected now is_plausible o attempt unchecked tables
        ≡ committed new more n
      → IsCommitted unchecked tables new more
  unfolding run_batch
  run_batch-IsCommitted attempt unchecked tables new more n e =
      let (results, c, m) = remapped-committed _ _ new more n e in
      record {
        results = results;
        marked = m;
        from = from_either o.dry_run unchecked attempt tables new results n c;
      }

  abbrev pub outcome_at : (ℕ → LockAttempt) → List FinalizationTarget → Tables → BatchOutcome
  outcome_at attempt unchecked tables =
      run_batch before number_of numeric_of rejected now is_plausible o attempt unchecked tables

  -- A relation of tables that committed batches keep is kept by a run.
  pub run_batches-keeps :
      (R : Tables → Tables → Type 0)
      → ((t : Tables) → R t t)
      → ((t u v : Tables) → R t u → R u v → R t v)
      → (attempt : ℕ → ℕ → LockAttempt) (n : ℕ) (batches : List (List FinalizationTarget))
        (tables : Tables) (results : List FinalizationTargetResult) (retries : ℕ)
      → All
          (λ unchecked.
            (t u : Tables) (more : List FinalizationTargetResult)
            → IsCommitted unchecked t u more
            → R t u)
          batches
      → R tables (
          tables_of (
            run_batches before number_of numeric_of rejected now is_plausible o attempt n batches
              tables results retries))
  unfolding run_batches
  run_batches-keeps R r t attempt n [] tables results retries h = r tables
  run_batches-keeps R r t attempt n (unchecked ∷ batches) tables results retries (h, hs) =
      go (outcome_at (attempt n) unchecked tables) refl (λ new more again.
        run_batches-keeps R r t attempt (n + 1) batches new (results ++ more) (retries + again) hs)
    where
      go :
          (out : BatchOutcome)
          → outcome_at (attempt n) unchecked tables ≡ out
          → ((new : Tables) (more : List FinalizationTargetResult) (again : ℕ)
              → R new (
                  tables_of (
                    run_batches before number_of numeric_of rejected now is_plausible o attempt
                      (n + 1)
                      batches
                      new
                      (results ++ more)
                      (retries + again))))
          → R tables (
              tables_of (
                after_outcome tables
                  (λ new more again.
                    run_batches before number_of numeric_of rejected now is_plausible o attempt
                      (n + 1)
                      batches
                      new
                      (results ++ more)
                      (retries + again))
                  out))
      go (committed new more again) e later =
          t tables new _
            (h tables new more
              (run_batch-IsCommitted (attempt n) unchecked tables new more again e))
            (later new more again)
      go (lock_error attempts) e later = r tables
      go failed e later = r tables
      go endless e later = r tables
