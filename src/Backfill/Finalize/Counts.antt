-- ===== src/Backfill/Finalize/Counts.antt =====
-- Targets and results, one for one.
use mathlib.Core.Option
use yearn_prices.Common.{
  Bool, Bool-cases, List, Option, [], ap, arith, false, if◌then◌else◌, inl, inr, keep, map, nat_eq,
  none, not, option_eq, pair_eq, refl, some, string_eq, subst, sym, true, two_steps, ℕ, ◌&&◌, ◌++◌,
  ◌+◌, ◌∙◌, ◌∷◌, ◌≡◌,
}
use yearn_prices.Utils.Number.{Number}
use yearn_prices.Utils.Text.{Text, text_eq}
use yearn_prices.Db.Prices.{Numeric, PriceRow, Rejection, price_key_eq}
use yearn_prices.Backfill.Finalize.{
  FinalizationStatus, FinalizationTarget, FinalizationTargetResult, Plausibility, PricedKey,
  Resolution, Tables, has_key, has_resolution, inserted, is_unresolved, priced_key,
  rejected_implausible, result_key, skipped_concurrent_existing, to_result, unresolved,
}
use yearn_prices.Backfill.Finalize.Rounds.{checked_target, is_dropped_target, remap, remap_result}
use yearn_prices.Backfill.Finalize.Runs.{
  concurrent, dry_batch, missing, read_priced_keys, resolved, results_of,
}
use yearn_prices.Backfill.Finalize.Batches.{applied, apply_batch-IsApplied}

module _ {A : Type 0} where
  -- How many members pass a test.
  abbrev pub tally : (A → Bool) → List A → ℕ
  tally test [] = 0
  tally test (x ∷ xs) = (if test x then 1 else 0) + tally test xs

  pub tally-append :
      (test : A → Bool) (xs ys : List A) → tally test (xs ++ ys) ≡ tally test xs + tally test ys
  tally-append test [] ys = omega arith
  tally-append test (x ∷ xs) ys = omega (arith, tally-append test xs ys)

pub tally-map :
    {A B : Type 0} (f : A → B) (test : B → Bool) (other : A → Bool) (xs : List A)
    → ((x : A) → test (f x) ≡ other x)
    → tally test (map f xs) ≡ tally other xs
tally-map f test other [] same = refl
tally-map f test other (x ∷ xs) same = rw (same x, tally-map f test other xs same) refl

-- What names a target, in it and in its result.
abbrev pub TargetName : Type 0
TargetName = ℕ × (Text × (Text × (Text × ℕ)))

abbrev pub name_of : FinalizationTarget → TargetName
name_of t = (t.chain_id, (t.chain, (t.token, (t.token_lowercase, t.eod_timestamp))))

abbrev pub result_name : FinalizationTargetResult → TargetName
result_name r = (r.chain_id, (r.chain, (r.token, (r.token_lowercase, r.eod_timestamp))))

module _ (before : PriceRow → PriceRow → Bool) (number_of : Numeric → Number)
    (numeric_of : Number → Numeric) (rejected : List Rejection) (now : ℕ)
    (test : TargetName → Bool) where
  abbrev pub of_results : List FinalizationTargetResult → ℕ
  of_results results = tally (λ r. test (result_name r)) results

  abbrev pub of_targets : List FinalizationTarget → ℕ
  of_targets targets = tally (λ t. test (name_of t)) targets

  split_by :
      (p r : FinalizationTarget → Bool) (batch : List FinalizationTarget)
      → of_targets (keep p batch)
          + (of_targets (keep (λ t. not (p t) && r t) batch)
              + of_targets (keep (λ t. not (p t) && not (r t)) batch))
        ≡ of_targets batch
  split_by p r [] = refl
  split_by p r (t ∷ batch) = elim (Bool-cases (p t)) [
    | inl priced ↦ rw priced (omega (arith, split_by p r batch))
    | inr other ↦ elim (Bool-cases (r t)) [
      | inl has ↦ rw (other, has) (omega (arith, split_by p r batch))
      | inr hasnt ↦ rw (other, hasnt) (omega (arith, split_by p r batch))
    ]
  ]

  three :
      (x y z : List FinalizationTargetResult) (a b c : List FinalizationTarget)
      → of_results x ≡ of_targets a
      → of_results y ≡ of_targets b
      → of_results z ≡ of_targets c
      → of_results ((x ++ y) ++ z) ≡ of_targets a + (of_targets b + of_targets c)
  three x y z a b c d e f =
      let q = λ (r : FinalizationTargetResult). test (result_name r) in
      omega (arith, d, e, f, tally-append q (x ++ y) z, tally-append q x y)

  with_status :
      (status : FinalizationTarget → FinalizationStatus) (targets : List FinalizationTarget)
      → of_results (map (λ t. to_result t (status t)) targets) ≡ of_targets targets
  with_status status targets =
      tally-map (λ t. to_result t (status t)) (λ r. test (result_name r)) (λ t. test (name_of t))
        targets (λ t. refl)

  results_of-tally :
      (priced : List PricedKey) (status : FinalizationTarget → FinalizationStatus)
      (batch : List FinalizationTarget)
      → of_results (results_of before number_of numeric_of rejected now priced status batch)
        ≡ of_targets batch
  results_of-tally priced status batch =
      three _ _ _ _ _ _
        (with_status (λ t. skipped_concurrent_existing)
          (concurrent before number_of numeric_of rejected now priced batch))
        (with_status status (resolved before number_of numeric_of rejected now priced batch))
        (with_status (λ t. unresolved)
          (missing before number_of numeric_of rejected now priced batch))
      ∙ split_by (λ t. has_key (priced_key t) priced) has_resolution batch

  pub apply_batch-tally :
      (size : ℕ) (finalized_only : Bool) (batch : List FinalizationTarget) (tables new : Tables)
      (results : List FinalizationTargetResult)
      → applied before number_of numeric_of rejected now size finalized_only batch tables
        ≡ some (some (new, results))
      → of_results results ≡ of_targets batch
  apply_batch-tally size f batch tables new results e =
      let a =
        apply_batch-IsApplied before number_of numeric_of rejected now size f batch tables new
          results e in
      ap (λ (p : Tables × List FinalizationTargetResult). of_results (p.1)) (sym a.settled)
      ∙ results_of-tally a.priced _ batch

  pub dry_batch-tally :
      (size : ℕ) (finalized_only : Bool) (batch : List FinalizationTarget) (tables : Tables)
      (results : List FinalizationTargetResult)
      → dry_batch before number_of numeric_of rejected now size finalized_only batch tables
        ≡ some results
      → of_results results ≡ of_targets batch
  unfolding dry_batch
  dry_batch-tally size f batch tables results e =
      let (priced, _, r) =
        two_steps
          (read_priced_keys before number_of numeric_of rejected now tables.prices batch size f)
          (λ priced.
            some (results_of before number_of numeric_of rejected now priced (λ t. inserted) batch))
          results e in
      subst (λ rs. of_results rs ≡ of_targets batch) (Option.some-injective _ _ r)
        (results_of-tally priced (λ t. inserted) batch)

  module _ (is_plausible : Option (FinalizationTarget → Resolution → Plausibility)) where
    pub remap-tally :
        (dropped : List PricedKey) (results : List FinalizationTargetResult)
        → of_results (remap before number_of numeric_of rejected now is_plausible dropped results)
          ≡ of_results results
    remap-tally dropped results =
        tally-map (remap_result before number_of numeric_of rejected now is_plausible dropped) _ _
          results (λ r. kept r (is_unresolved r.status && has_key (result_key r) dropped))
      where
        kept :
            (r : FinalizationTargetResult) (b : Bool)
            → test (result_name (if b then record r { status = rejected_implausible } else r))
              ≡ test (result_name r)
        kept r true = refl
        kept r false = refl

    pub checked-tally :
        (batch : List FinalizationTarget)
        → of_targets
            (map (checked_target before number_of numeric_of rejected now is_plausible) batch)
          ≡ of_targets batch
    checked-tally batch =
        tally-map (checked_target before number_of numeric_of rejected now is_plausible) _ _ batch
          (λ t. kept t (is_dropped_target before number_of numeric_of rejected now is_plausible t))
      where
        kept :
            (t : FinalizationTarget) (b : Bool)
            → test (name_of (if b then record t { resolution = none } else t)) ≡ test (name_of t)
        kept t true = refl
        kept t false = refl
