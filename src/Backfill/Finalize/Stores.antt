-- ===== src/Backfill/Finalize/Stores.antt =====
-- The stored prices after a run.
use mathlib.Core.Option
use yearn_prices.Common.{
  All, Bool, In, In-append_left, In-append_right, In-keep, List, Option, [], ap, append-In, arith,
  false, if◌then◌else◌, inl, inr, map-In, none, refl, some, subst, sym, true, ℕ, ◌<◌, ◌∙◌, ◌∷◌, ◌≡◌,
  ◌⊎◌,
}
use yearn_prices.Utils.Number.{Number}
use yearn_prices.Db.Prices.{Numeric, PriceKey, PriceRow, Rejection, key_of}
use yearn_prices.Backfill.Finalize.Batches.{apply_batch-IsApplied}
use yearn_prices.Utils.Collections.Chunks.{chunk-CutsInto, flatten}
use yearn_prices.Db.PriceStore.Tables.{find}
use yearn_prices.Backfill.Finalize.{
  FinalizationOptions, FinalizationTarget, FinalizationTargetResult, Finished, InventoryKey,
  LockAttempt, Plausibility, PricedKey, Resolution, Tables, insert_returning, tables_of,
}
use yearn_prices.Backfill.Finalize.Rounds.{
  checked_target, finalize_backfill_targets, is_dropped, is_dropped_target,
}
use yearn_prices.Backfill.Finalize.Runs.{finalized_row, insert_resolved_targets, resolved, rows_of}
use yearn_prices.Backfill.Finalize.Steps.{IsCommitted, batch_of, run_batches-keeps}
use yearn_prices.Backfill.Finalize.Rows.{
  IsInserted, KeepsAll, KeepsAll-refl, KeepsAll-trans, insert_returning-KeepsAll,
  insert_returning-source,
}

module _ (before : PriceRow → PriceRow → Bool) (number_of : Numeric → Number)
    (numeric_of : Number → Numeric) (rejected : List Rejection) (now : ℕ) where
  rows_of-In :
      (targets : List FinalizationTarget) (row : PriceRow)
      → In row (rows_of before number_of numeric_of rejected now targets)
      → (t : FinalizationTarget) × (r : Resolution) × In t targets
        × (t.resolution ≡ some r)
        × (row ≡ finalized_row before number_of numeric_of rejected now t r)
  rows_of-In [] row m = absurd m
  rows_of-In (t ∷ targets) row m =
      go t.resolution refl (append-In row _ _ m) (rows_of-In targets row)
    where
      go :
          (o : Option Resolution)
          → t.resolution ≡ o
          → In row (elim o [
            | none ↦ []
            | some r ↦ finalized_row before number_of numeric_of rejected now t r ∷ []
          ])
            ⊎ In row (rows_of before number_of numeric_of rejected now targets)
          → (In row (rows_of before number_of numeric_of rejected now targets)
              → (t : FinalizationTarget) × (r : Resolution) × In t targets
                × (t.resolution ≡ some r)
                × (row ≡ finalized_row before number_of numeric_of rejected now t r))
          → (u : FinalizationTarget) × (r : Resolution) × In u (t ∷ targets)
            × (u.resolution ≡ some r)
            × (row ≡ finalized_row before number_of numeric_of rejected now u r)
      go o e (inr n) later = let (u, r, i, s, d) = later n in (u, r, inr i, s, d)
      go none e (inl n) later = absurd n
      go (some r) e (inl (inl d)) later = (t, r, inl refl, e, d)
      go (some r) e (inl (inr n)) later = absurd n

  insert_resolved-some :
      (targets : List FinalizationTarget) (t : List PriceRow) (keys : List PricedKey)
      (new : List PriceRow)
      → insert_resolved_targets before number_of numeric_of rejected now targets t
        ≡ some (keys, new)
      → new ≡ (insert_returning (rows_of before number_of numeric_of rejected now targets) t).1
  unfolding insert_resolved_targets
  insert_resolved-some targets t keys new e = go _ e
    where
      go :
          (b : Bool)
          → (if b
              then some
                  (insert_returning (rows_of before number_of numeric_of rejected now targets) t)
              else none)
            ≡ some (keys, new)
          → new ≡ (insert_returning (rows_of before number_of numeric_of rejected now targets) t).1
      go true d =
          sym (ap (λ (p : List PricedKey × List PriceRow). p.1) (Option.some-injective _ _ d))
      go false d = absurd (ground (arith, d))

  module _ (is_plausible : Option (FinalizationTarget → Resolution → Plausibility))
      (o : FinalizationOptions) (targets : List FinalizationTarget) where
    -- The row finalizes the price of a given target, which neither the quarantine nor the check refuses.
    pub record IsAccepted (k : PriceKey) (row : PriceRow) : Type 0 where
      pub target : FinalizationTarget
      pub resolution : Resolution
      pub given : In target targets
      pub priced : target.resolution ≡ some resolution
      pub passed :
          is_dropped before number_of numeric_of rejected now is_plausible target resolution ≡ false
      pub place :
          key_of (finalized_row before number_of numeric_of rejected now target resolution) ≡ k
      pub same : (row.price ≡ numeric_of resolution.price) × (row.finalized ≡ true)

    abbrev pub Stores : Tables → Tables → Type 0
    Stores t u =
        KeepsAll numeric_of t.prices u.prices
        × ((k : PriceKey) (row : PriceRow)
            → find k u.prices ≡ some row
            → (find k t.prices ≡ some row) ⊎ IsAccepted k row)

    Stores-refl : (t : Tables) → Stores t t
    Stores-refl t = (KeepsAll-refl numeric_of t.prices, λ k row e. inl e)

    Stores-trans : (t u v : Tables) → Stores t u → Stores u v → Stores t v
    Stores-trans t u v (h, f) (g, e) = (
      KeepsAll-trans numeric_of t.prices u.prices v.prices h g,
      λ k row m. elim (e k row m) [ inl old ↦ f k row old | inr new ↦ inr new ],
    )

    checked-In :
        (t u : FinalizationTarget) (r : Resolution)
        → t ≡ checked_target before number_of numeric_of rejected now is_plausible u
        → t.resolution ≡ some r
        → (t ≡ u)
          × (u.resolution ≡ some r)
          × (is_dropped before number_of numeric_of rejected now is_plausible u r ≡ false)
    checked-In t u r e d =
        go (is_dropped_target before number_of numeric_of rejected now is_plausible u) refl e
      where
        go :
            (b : Bool)
            → is_dropped_target before number_of numeric_of rejected now is_plausible u ≡ b
            → t ≡ (if b then record u { resolution = none } else u)
            → (t ≡ u)
              × (u.resolution ≡ some r)
              × (is_dropped before number_of numeric_of rejected now is_plausible u r ≡ false)
        go true b e =
            absurd (ground (arith, sym d ∙ ap (λ (x : FinalizationTarget). x.resolution) e))
        go false b e =
            let s = sym (ap (λ (x : FinalizationTarget). x.resolution) e) ∙ d in
            (
              e,
              s,
              subst
                  (λ x.
                    elim x [
                      | none ↦ false
                      | some r ↦
                          is_dropped before number_of numeric_of rejected now is_plausible u r
                    ]
                    ≡ false)
                  s b,
            )

    accepted :
        (unchecked : List FinalizationTarget) (priced : List PricedKey) (k : PriceKey)
        (row : PriceRow)
        → ((t : FinalizationTarget) → In t unchecked → In t targets)
        → IsInserted
            (rows_of before number_of numeric_of rejected now (
              resolved before number_of numeric_of rejected now priced
                (batch_of before number_of numeric_of rejected now is_plausible o unchecked)))
            k
            row
        → IsAccepted k row
    accepted unchecked priced k row within i =
        let (t, r, m, e, d) = rows_of-In _ i.excluded i.given in
        let (n, _) = In-keep _ t _ m in
        let (u, given, c) =
          map-In (checked_target before number_of numeric_of rejected now is_plausible) t unchecked
            n in
        let (same, s, passed) = checked-In t u r c e in
        record {
          target = u;
          resolution = r;
          given = within u given;
          priced = s;
          passed = passed;
          place =
              ap (λ x. key_of (finalized_row before number_of numeric_of rejected now x r))
                (sym same)
              ∙ sym (ap key_of d)
              ∙ i.place;
          same = (
            i.same.0 ∙ ap (λ (x : PriceRow). x.price) d,
            i.same.1 ∙ ap (λ (x : PriceRow). x.finalized) d,
          );
        }

    inserted-Stores :
        (unchecked : List FinalizationTarget) (priced : List PricedKey) (t : Tables)
        (new : List PriceRow) (inventory : List InventoryKey)
        → ((x : FinalizationTarget) → In x unchecked → In x targets)
        → new
          ≡ (insert_returning
              (rows_of before number_of numeric_of rejected now (
                resolved before number_of numeric_of rejected now priced
                  (batch_of before number_of numeric_of rejected now is_plausible o unchecked)))
              t.prices).1
        → Stores t (record { prices = new; inventory = inventory })
    inserted-Stores unchecked priced t new inventory within e = rw e (
      insert_returning-KeepsAll numeric_of _ t.prices,
      λ k row m. elim (insert_returning-source _ t.prices k row m) [
        | inl old ↦ inl old
        | inr i ↦ inr (accepted unchecked priced k row within i)
      ],
    )

    IsCommitted-Stores :
        (unchecked : List FinalizationTarget)
        → ((x : FinalizationTarget) → In x unchecked → In x targets)
        → (t u : Tables) (more : List FinalizationTargetResult)
        → IsCommitted before number_of numeric_of rejected now is_plausible o unchecked t u more
        → Stores t u
    IsCommitted-Stores unchecked within t u more c = elim c.from [
      | inl (same, _) ↦ subst (Stores t) (sym same) (Stores-refl t)
      | inr done ↦
          let a =
            apply_batch-IsApplied before number_of numeric_of rejected now _ _ _ t u c.results
              done in
          inserted-Stores unchecked a.priced t u.prices u.inventory within
            (insert_resolved-some _ t.prices a.inserted_keys u.prices a.insert)
    ]

    all_within :
        (batches : List (List FinalizationTarget))
        → ((x : FinalizationTarget) → In x (flatten batches) → In x targets)
        → All
            (λ unchecked.
              (t u : Tables) (more : List FinalizationTargetResult)
              → IsCommitted before number_of numeric_of rejected now is_plausible o unchecked t u
                  more
              → Stores t u)
            batches
    all_within [] within = tt
    all_within (unchecked ∷ batches) within = (
      IsCommitted-Stores unchecked
          (λ x m. within x (In-append_left x unchecked (flatten batches) m)),
      all_within batches (λ x m. within x (In-append_right x unchecked (flatten batches) m)),
    )

    abbrev pub StoresAll : Tables → Option Finished → Type 0
    StoresAll tables none = ⊥
    StoresAll tables (some f) = Stores tables (tables_of f)

    -- A run keeps every row, the finalized ones as they are, also where an error ends it; and a row that
    -- is new or changed finalizes the price of a given target that neither the quarantine nor the
    -- check of plausibility has refused.
    pub finalize_backfill_targets-Stores :
        (attempt : ℕ → ℕ → LockAttempt) (tables : Tables)
        → 0 < o.batch_size
        → StoresAll tables (
            finalize_backfill_targets before number_of numeric_of rejected now is_plausible o
              attempt targets tables)
    unfolding finalize_backfill_targets
    finalize_backfill_targets-Stores attempt tables p =
        let (batches, e, whole, _) = chunk-CutsInto targets o.batch_size p in
        rw e (
          run_batches-keeps before number_of numeric_of rejected now is_plausible o Stores
            Stores-refl Stores-trans attempt 0 batches tables [] 0
            (all_within batches (λ x m. subst (In x) whole m)))
