-- ===== src/Backfill/Finalize/Accounts.antt =====
-- The results of a run that returns.
use yearn_prices.Common.{
  Bool, List, Option, [], all, ap, arith, inl, inr, refl, some, ℕ, ◌++◌, ◌+◌, ◌<◌, ◌∙◌, ◌∷◌, ◌≡◌,
}
use yearn_prices.Utils.Number.{Number}
use yearn_prices.Utils.Collections.Chunks.{chunk-CutsInto, flatten}
use yearn_prices.Db.Prices.{Numeric, PriceRow, Rejection}
use yearn_prices.Backfill.Finalize.{
  BatchOutcome, FinalizationOptions, FinalizationTarget, FinalizationTargetResult, Finished,
  LockAttempt, Plausibility, Resolution, Tables, committed, endless, failed, lock_error, never_ends,
  returned, thrown,
}
use yearn_prices.Backfill.Finalize.Ends.{IsOver, run_batch-IsOver}
use yearn_prices.Backfill.Finalize.Rounds.{finalize_backfill_targets, run_batches}
use yearn_prices.Backfill.Finalize.Counts.{
  TargetName, apply_batch-tally, checked-tally, dry_batch-tally, name_of, of_results, of_targets,
  remap-tally, result_name, tally-append,
}
use yearn_prices.Backfill.Finalize.Steps.{
  IsCommitted, after_outcome, outcome_at, run_batch-IsCommitted,
}

module _ (before : PriceRow → PriceRow → Bool) (number_of : Numeric → Number)
    (numeric_of : Number → Numeric) (rejected : List Rejection) (now : ℕ)
    (is_plausible : Option (FinalizationTarget → Resolution → Plausibility))
    (o : FinalizationOptions) (test : TargetName → Bool) where
  abbrev results_count : List FinalizationTargetResult → ℕ
  results_count = of_results before number_of numeric_of rejected now test

  abbrev targets_count : List FinalizationTarget → ℕ
  targets_count = of_targets before number_of numeric_of rejected now test

  IsCommitted-tally :
      (unchecked : List FinalizationTarget) (tables new : Tables)
      (more : List FinalizationTargetResult)
      → IsCommitted before number_of numeric_of rejected now is_plausible o unchecked tables new
          more
      → results_count more ≡ targets_count unchecked
  IsCommitted-tally unchecked tables new more c =
      ap results_count c.marked
      ∙ remap-tally before number_of numeric_of rejected now test is_plausible _ c.results
      ∙ elim c.from [
        | inl (_, dry) ↦
            dry_batch-tally before number_of numeric_of rejected now test _ _ _ tables c.results dry
        | inr done ↦
            apply_batch-tally before number_of numeric_of rejected now test _ _ _ tables new
              c.results done
      ]
      ∙ checked-tally before number_of numeric_of rejected now test is_plausible unchecked

  abbrev Accounts :
      List (List FinalizationTarget) → List FinalizationTargetResult → Finished → Type 0
  Accounts batches results (returned tables all retries) =
      results_count all ≡ results_count results + targets_count (flatten batches)
  Accounts batches results (thrown tables error) = Unit
  Accounts batches results (never_ends tables) = ⊥

  Accounts-later :
      (unchecked : List FinalizationTarget) (batches : List (List FinalizationTarget))
      (results more : List FinalizationTargetResult) (f : Finished)
      → results_count more ≡ targets_count unchecked
      → Accounts batches (results ++ more) f
      → Accounts (unchecked ∷ batches) results f
  Accounts-later unchecked batches results more (returned tables all retries) e h = omega (
    arith,
    e,
    h,
    tally-append (λ r. test (result_name r)) results more,
    tally-append (λ t. test (name_of t)) unchecked (flatten batches),
  )
  Accounts-later unchecked batches results more (thrown tables error) e h = tt
  Accounts-later unchecked batches results more (never_ends tables) e h = h

  Accounts-none :
      (results : List FinalizationTargetResult) (tables : Tables) (retries : ℕ)
      → Accounts [] results (returned tables results retries)
  Accounts-none results tables retries = omega arith

  run_batches-Accounts :
      (attempt : ℕ → ℕ → LockAttempt) (n : ℕ) (batches : List (List FinalizationTarget))
      (tables : Tables) (results : List FinalizationTargetResult) (retries : ℕ)
      → 0 < o.read_chunk_size
      → Accounts batches results (
          run_batches before number_of numeric_of rejected now is_plausible o attempt n batches
            tables results retries)
  unfolding run_batches
  run_batches-Accounts attempt n [] tables results retries p = Accounts-none results tables retries
  run_batches-Accounts attempt n (unchecked ∷ batches) tables results retries p =
      go
        (outcome_at before number_of numeric_of rejected now is_plausible o (attempt n) unchecked
          tables)
        refl
        (run_batch-IsOver before number_of numeric_of rejected now is_plausible o p (attempt n)
          unchecked tables)
        (λ new more again.
          run_batches-Accounts attempt (n + 1) batches new (results ++ more) (retries + again) p)
    where
      go :
          (out : BatchOutcome)
          → outcome_at before number_of numeric_of rejected now is_plausible o
              (attempt n)
              unchecked
              tables
            ≡ out
          → IsOver out
          → ((new : Tables) (more : List FinalizationTargetResult) (again : ℕ)
              → Accounts batches (results ++ more) (
                  run_batches before number_of numeric_of rejected now is_plausible o attempt
                    (n + 1)
                    batches
                    new
                    (results ++ more)
                    (retries + again)))
          → Accounts (unchecked ∷ batches) results (
              after_outcome tables
                (λ new more again.
                  run_batches before number_of numeric_of rejected now is_plausible o attempt
                    (n + 1)
                    batches
                    new
                    (results ++ more)
                    (retries + again))
                out)
      go (committed new more again) e over later =
          Accounts-later unchecked batches results more _
            (IsCommitted-tally unchecked tables new more (
              run_batch-IsCommitted before number_of numeric_of rejected now is_plausible o
                (attempt n) unchecked tables new more again e))
            (later new more again)
      go (lock_error attempts) e over later = tt
      go failed e over later = tt
      go endless e over later = over

  -- The run ends; and where it returns, there are as many results as targets, by the test on their
  -- names.
  abbrev pub IsAccounted : List FinalizationTarget → Finished → Type 0
  IsAccounted targets (returned tables results retries) =
      results_count results ≡ targets_count targets
  IsAccounted targets (thrown tables error) = Unit
  IsAccounted targets (never_ends tables) = ⊥

  Accounts-whole :
      (batches : List (List FinalizationTarget)) (targets : List FinalizationTarget) (f : Finished)
      → flatten batches ≡ targets
      → Accounts batches [] f
      → IsAccounted targets f
  Accounts-whole batches targets (returned tables results retries) e h =
      omega (arith, h, ap targets_count e)
  Accounts-whole batches targets (thrown tables error) e h = tt
  Accounts-whole batches targets (never_ends tables) e h = h

  -- With positive sizes of batches and of the chunks that are read a run ends; and where it returns, dry
  -- or not, the results are for the targets: by chain, token and day, each has as many results as it is
  -- given times.
  pub finalize_backfill_targets-IsAccounted :
      (attempt : ℕ → ℕ → LockAttempt) (targets : List FinalizationTarget) (tables : Tables)
      → 0 < o.batch_size
      → 0 < o.read_chunk_size
      → (f : Finished) × (finalize_backfill_targets before number_of numeric_of rejected now
            is_plausible o attempt targets tables
          ≡ some f)
        × IsAccounted targets f
  unfolding finalize_backfill_targets
  finalize_backfill_targets-IsAccounted attempt targets tables p q =
      let (batches, e, whole, _) = chunk-CutsInto targets o.batch_size p in
      let f =
        run_batches before number_of numeric_of rejected now is_plausible o attempt 0 batches tables
          [] 0 in
      (
        f,
        rw e refl,
        Accounts-whole batches targets f whole
            (run_batches-Accounts attempt 0 batches tables [] 0 q),
      )
