-- ===== src/Backfill/Finalize/Ends.antt =====
-- With a positive size of chunks the reads of a batch end.
use yearn_prices.Common.{
  Bool, Bool-cases, List, Option, [], arith, false, if◌then◌else◌, inl, inr, keep, length, ltb, map,
  nat_eq, none, not, option_eq, pair_eq, refl, some, string_eq, subst, suc, sym, true, zero, ℕ,
  ◌++◌, ◌+◌, ◌<◌, ◌==◌, ◌>>=◌, ◌∷◌, ◌≡◌,
}
use yearn_prices.Utils.Text.{text_eq}
use yearn_prices.Utils.Number.{Number}
use yearn_prices.Utils.Validation.{HistoricalRequestTuple}
use yearn_prices.Utils.Collections.Chunks.{chunk-CutsInto}
use yearn_prices.Db.Prices.{Numeric, PriceRow, Rejection, price_key_eq}
use yearn_prices.Db.PriceReads.{
  ExactPriceRecord, get_batch_historical_prices, max_exact_requests_per_query, query_parts,
  query_prices,
}
use yearn_prices.Backfill.Finalize.{
  BatchOutcome, FinalizationOptions, FinalizationTarget, FinalizationTargetResult, LockAttempt,
  Plausibility, PricedKey, Resolution, Tables, committed, endless, failed, has_key, key_of_record,
  lock_error, priced_key, request_of_target,
}
use yearn_prices.Backfill.Finalize.Runs.{
  after_insert, after_read, apply_batch, dry_batch, finalize_batch, insert_resolved_targets,
  priced_in, read_priced_keys, resolved, transaction,
}
use yearn_prices.Backfill.Finalize.Rounds.{remapped, run_batch}
use yearn_prices.Backfill.Finalize.Batches.{applied, outcome-cases}
use yearn_prices.Backfill.Finalize.Steps.{batch_of, outcome_at}

abbrev pub IsOver : BatchOutcome → Type 0
IsOver (committed tables results retries) = Unit
IsOver (lock_error attempts) = Unit
IsOver failed = Unit
IsOver endless = ⊥

then_some :
    {A B : Type 0} (o : Option A) (next : A → Option B)
    → ((a : A) × (o ≡ some a))
    → ((a : A) → (b : B) × (next a ≡ some b))
    → (b : B) × ((o >>= next) ≡ some b)
then_some o next (a, e) f = let (b, k) = f a in (b, rw e k)

module _ (before : PriceRow → PriceRow → Bool) (number_of : Numeric → Number)
    (numeric_of : Number → Numeric) (rejected : List Rejection) (now : ℕ) where
  get_batch_historical_prices-some :
      (table : List PriceRow) (requests : List HistoricalRequestTuple) (finalized_only : Bool)
      → (rows : List ExactPriceRecord) × (get_batch_historical_prices before number_of rejected now
            table requests none finalized_only
          ≡ some rows)
  unfolding get_batch_historical_prices
  get_batch_historical_prices-some table [] f = ([], refl)
  get_batch_historical_prices-some table (r ∷ requests) f =
      let some_requests : (length (r ∷ requests) == 0) ≡ false = ground arith in
      elim (Bool-cases (ltb max_exact_requests_per_query (length (r ∷ requests)))) [
        | inl many ↦
            let (parts, cut, whole, sized) =
              chunk-CutsInto (r ∷ requests) max_exact_requests_per_query (omega arith) in
            (
              query_parts before number_of rejected now table none f parts,
              rw (some_requests, many, cut) refl,
            )
        | inr few ↦ (
          query_prices before number_of rejected now table none f (r ∷ requests),
          rw (some_requests, few) refl,
        )
      ]

  priced_in-some :
      (table : List PriceRow) (finalized_only : Bool) (chunks : List (List HistoricalRequestTuple))
      → (keys : List PricedKey) × (priced_in before number_of numeric_of rejected now table
            finalized_only chunks
          ≡ some keys)
  priced_in-some table f [] = ([], refl)
  priced_in-some table f (requests ∷ chunks) =
      let (rows, e) = get_batch_historical_prices-some table requests f in
      let (keys, k) = priced_in-some table f chunks in
      (map key_of_record rows ++ keys, rw (e, k) refl)

  module _ (size : ℕ) (p : 0 < size) (finalized_only : Bool) where
    pub read_priced_keys-some :
        (table : List PriceRow) (targets : List FinalizationTarget)
        → (keys : List PricedKey) × (read_priced_keys before number_of numeric_of rejected now table
              targets size finalized_only
            ≡ some keys)
    unfolding read_priced_keys
    read_priced_keys-some table targets =
        let (chunks, cut, _, _) = chunk-CutsInto (map request_of_target targets) size p in
        let (keys, k) = priced_in-some table finalized_only chunks in (keys, rw cut k)

    dry_batch-some :
        (batch : List FinalizationTarget) (tables : Tables)
        → (results : List FinalizationTargetResult) × (dry_batch before number_of numeric_of
              rejected now size finalized_only batch tables
            ≡ some results)
    unfolding dry_batch
    dry_batch-some batch tables =
        then_some _ _ (read_priced_keys-some tables.prices batch) (λ priced. (_, refl))

    after_read-some :
        (batch : List FinalizationTarget) (tables : Tables) (priced : List PricedKey)
        → (x : Option (Tables × List FinalizationTargetResult)) × (after_read before number_of
              numeric_of rejected now size finalized_only batch tables priced
            ≡ some x)
    unfolding after_read after_insert
    after_read-some batch tables priced = go (
        insert_resolved_targets before number_of numeric_of rejected now
          (resolved before number_of numeric_of rejected now priced batch) tables.prices)
      where
        go :
            (i : Option (List PricedKey × List PriceRow))
            → (x : Option (Tables × List FinalizationTargetResult)) × (elim i [
              | none ↦ some none
              | some insertion ↦
                  after_insert before number_of numeric_of rejected now size finalized_only batch
                    tables priced insertion
            ]
                ≡ some x)
        go none = (none, refl)
        go (some (keys, prices)) =
            then_some _ _
              (read_priced_keys-some prices (
                keep (λ t. not (has_key (priced_key t) keys))
                  (resolved before number_of numeric_of rejected now priced batch)))
              (λ contested. (_, refl))

    applied-some :
        (batch : List FinalizationTarget) (tables : Tables)
        → (x : Option (Tables × List FinalizationTargetResult)) × (applied before number_of
              numeric_of rejected now size finalized_only batch tables
            ≡ some x)
    unfolding apply_batch
    applied-some batch tables =
        let (keys, k) = read_priced_keys-some tables.prices batch in
        let (x, e) = after_read-some batch tables keys in (x, rw k e)

    transaction-IsOver :
        (retries : ℕ) (x : Option (Tables × List FinalizationTargetResult))
        → IsOver (transaction before number_of numeric_of rejected now (some x) retries)
    transaction-IsOver retries none = tt
    transaction-IsOver retries (some (new, results)) = tt

    finalize_batch-IsOver :
        (attempt : ℕ → LockAttempt) (left retries : ℕ) (batch : List FinalizationTarget)
        (tables : Tables)
        → IsOver (
            finalize_batch before number_of numeric_of rejected now size finalized_only attempt left
              retries batch tables)
    unfolding finalize_batch
    finalize_batch-IsOver attempt zero retries batch tables =
        let (x, e) = applied-some batch tables in
        elim (outcome-cases (attempt retries)
          (transaction before number_of numeric_of rejected now
            (applied before number_of numeric_of rejected now size finalized_only batch tables)
            retries)
          (lock_error (retries + 1))) [
            | inl (_, d) ↦ subst IsOver (sym d) (rw e (transaction-IsOver retries x))
            | inr (inl (_, d)) ↦ subst IsOver (sym d) tt
            | inr (inr (_, d)) ↦ subst IsOver (sym d) tt
          ]
    finalize_batch-IsOver attempt (suc left) retries batch tables =
        let (x, e) = applied-some batch tables in
        elim (outcome-cases (attempt retries)
          (transaction before number_of numeric_of rejected now
            (applied before number_of numeric_of rejected now size finalized_only batch tables)
            retries)
          (finalize_batch before number_of numeric_of rejected now size finalized_only attempt left
            (retries + 1) batch tables)) [
              | inl (_, d) ↦ subst IsOver (sym d) (rw e (transaction-IsOver retries x))
              | inr (inl (_, d)) ↦
                  subst IsOver (sym d)
                    (finalize_batch-IsOver attempt left (retries + 1) batch tables)
              | inr (inr (_, d)) ↦ subst IsOver (sym d) tt
            ]

  module _ (is_plausible : Option (FinalizationTarget → Resolution → Plausibility))
      (o : FinalizationOptions) (p : 0 < o.read_chunk_size) where
    remapped-IsOver :
        (dropped : List PricedKey) (out : BatchOutcome)
        → IsOver out
        → IsOver (remapped before number_of numeric_of rejected now is_plausible dropped out)
    remapped-IsOver dropped (committed tables results retries) h = tt
    remapped-IsOver dropped (lock_error attempts) h = tt
    remapped-IsOver dropped failed h = tt
    remapped-IsOver dropped endless h = h

    either-IsOver :
        (b : Bool) (x y : BatchOutcome) → IsOver x → IsOver y → IsOver (if b then x else y)
    either-IsOver true x y h k = h
    either-IsOver false x y h k = k

    pub run_batch-IsOver :
        (attempt : ℕ → LockAttempt) (unchecked : List FinalizationTarget) (tables : Tables)
        → IsOver (
            outcome_at before number_of numeric_of rejected now is_plausible o attempt unchecked
              tables)
    unfolding run_batch
    run_batch-IsOver attempt unchecked tables =
        let batch = batch_of before number_of numeric_of rejected now is_plausible o unchecked in
        let (results, e) = dry_batch-some o.read_chunk_size p o.finalized_only batch tables in
        remapped-IsOver _ _ (
          either-IsOver o.dry_run _ _ (rw e tt) (
            finalize_batch-IsOver o.read_chunk_size p o.finalized_only attempt o.lock_retry_limit 0
              batch tables))
