-- ===== src/Backfill/Finalize/Inventory.antt =====
-- The inventory of gaps after a batch.
use yearn_prices.Common.{
  Bool, Bool-cases, List, [], any, ap, arith, eqb, eqb_iff, false, if◌then◌else◌, inl, inr, keep,
  map, nat_eq, not, option_eq, pair_eq, refl, some, string_eq, sym, ℕ, ◌&&◌, ◌++◌, ◌||◌, ◌∙◌, ◌∷◌,
  ◌≡◌,
}
use yearn_prices.Utils.Text.{text_eq}
use yearn_prices.Db.Prices.{Numeric, PriceRow, Rejection, price_key_eq}
use yearn_prices.Backfill.Finalize.{
  FinalizationStatus, FinalizationTarget, FinalizationTargetResult, InventoryKey, Tables,
  delete_inventory_rows, has_key, inventory_key, is_unresolved, skipped_concurrent_existing,
  to_result, unresolved, upsert_inventory_rows,
}
use yearn_prices.Utils.Number.{Number}
use yearn_prices.Backfill.Finalize.Runs.{concurrent, missing, resolved, status_after}
use yearn_prices.Backfill.Finalize.Batches.{applied, apply_batch-IsApplied}

module _ {A : Type 0} where
  any-append : (q : A → Bool) (xs ys : List A) → any q (xs ++ ys) ≡ (any q xs || any q ys)
  any-append q [] ys = refl
  any-append q (x ∷ xs) ys = ground (arith, any-append q xs ys)

  any-keep : (q p : A → Bool) (xs : List A) → any q (keep p xs) ≡ any (λ x. p x && q x) xs
  any-keep q p [] = refl
  any-keep q p (x ∷ xs) = ground (arith, any-keep q p xs)

  any_never : (xs : List A) → any (λ x. false) xs ≡ false
  any_never [] = refl
  any_never (x ∷ xs) = any_never xs

any-map :
    {A B : Type 0} (q : B → Bool) (f : A → B) (xs : List A)
    → any q (map f xs) ≡ any (λ x. q (f x)) xs
any-map q f [] = refl
any-map q f (x ∷ xs) = rw (any-map q f xs) refl

module _ (k : InventoryKey) where
  and_false : (a : Bool) → (a && false) ≡ false
  and_false a = ground arith

  has_key-delete :
      (keys inventory : List InventoryKey)
      → has_key k (delete_inventory_rows keys inventory)
        ≡ (has_key k inventory && not (has_key k keys))
  has_key-delete keys [] = refl
  has_key-delete keys (j ∷ inventory) = elim (Bool-cases (eqb j k)) [
    | inl same ↦
        let e = (eqb_iff j k).0 same in
        let d = ap (λ i. has_key i keys) e in
        elim (Bool-cases (has_key k keys)) [
          | inl deleted ↦
              rw (d ∙ deleted, has_key-delete keys inventory, deleted, same)
                (and_false (has_key k inventory))
          | inr kept ↦ rw (d ∙ kept, same, kept) refl
        ]
    | inr other ↦ elim (Bool-cases (has_key j keys)) [
      | inl deleted ↦ rw (deleted, other) (has_key-delete keys inventory)
      | inr kept ↦ rw (kept, other) (has_key-delete keys inventory)
    ]
  ]

  has_key-add :
      (j : InventoryKey) (inventory : List InventoryKey)
      → has_key k (if has_key j inventory then inventory else inventory ++ j ∷ [])
        ≡ (eqb j k || has_key k inventory)
  has_key-add j inventory = elim (Bool-cases (has_key j inventory)) [
    | inl there ↦ elim (Bool-cases (eqb j k)) [
      | inl same ↦
          rw (there, same) (sym (ap (λ i. has_key i inventory) ((eqb_iff j k).0 same)) ∙ there)
      | inr other ↦ rw (there, other) refl
    ]
    | inr new ↦
        rw new (any-append (λ i. eqb i k) inventory (j ∷ []) ∙ swap (has_key k inventory) (eqb j k))
  ]
    where
      swap : (a b : Bool) → (a || (b || false)) ≡ (b || a)
      swap a b = ground arith

  has_key-upsert :
      (keys inventory : List InventoryKey)
      → has_key k (upsert_inventory_rows keys inventory) ≡ (has_key k keys || has_key k inventory)
  unfolding upsert_inventory_rows
  has_key-upsert [] inventory = refl
  has_key-upsert (j ∷ keys) inventory =
      has_key-upsert keys _
      ∙ ap (λ b. has_key k keys || b) (has_key-add j inventory)
      ∙ swap (has_key k keys) (eqb j k) (has_key k inventory)
    where
      swap : (a b c : Bool) → (a || (b || c)) ≡ ((b || a) || c)
      swap a b c = ground arith

  abbrev pub key_of_result : FinalizationTargetResult → InventoryKey
  key_of_result r = (r.chain_id, (r.token_lowercase, r.eod_timestamp))

  -- A result of the key says that the target is unresolved, or that it is not.
  abbrev pub has_unresolved : List FinalizationTargetResult → Bool
  has_unresolved results = any (λ r. is_unresolved r.status && eqb (key_of_result r) k) results

  abbrev pub has_settled : List FinalizationTargetResult → Bool
  has_settled results = any (λ r. not (is_unresolved r.status) && eqb (key_of_result r) k) results

  module _ (c r m : List FinalizationTarget)
      (status : FinalizationTarget → FinalizationStatus) where
    abbrev parts : List FinalizationTargetResult
    parts =
        map (λ t. to_result t skipped_concurrent_existing) c
        ++ map (λ t. to_result t (status t)) r
        ++ map (λ t. to_result t unresolved) m

    abbrev at_key : FinalizationTarget → Bool
    at_key t = eqb (inventory_key t) k

    over_parts :
        (q : FinalizationTargetResult → Bool)
        → any q parts ≡ (
            (any (λ t. q (to_result t skipped_concurrent_existing)) c
              || any (λ t. q (to_result t (status t))) r)
            || any (λ t. q (to_result t unresolved)) m)
    over_parts q =
        rw
          (
            any-append q
                (map (λ t. to_result t skipped_concurrent_existing) c
                  ++ map (λ t. to_result t (status t)) r)
                (map (λ t. to_result t unresolved) m),
            any-append q (map (λ t. to_result t skipped_concurrent_existing) c)
                (map (λ t. to_result t (status t)) r),
            any-map q (λ t. to_result t skipped_concurrent_existing) c,
            any-map q (λ t. to_result t (status t)) r,
            any-map q (λ t. to_result t unresolved) m,
          )
          refl

    over_keys :
        (p : FinalizationTarget → Bool) (ts : List FinalizationTarget)
        → has_key k (map inventory_key (ts ++ keep p r))
          ≡ (any at_key ts || any (λ t. p t && at_key t) r)
    over_keys p ts =
        rw
          (
            any-map (λ j. eqb j k) inventory_key (ts ++ keep p r),
            any-append at_key ts (keep p r),
            any-keep at_key p r,
          )
          refl

    unresolved_keys :
        has_unresolved parts
        ≡ has_key k (map inventory_key (m ++ keep (λ t. is_unresolved (status t)) r))
    unresolved_keys =
        over_parts (λ r. is_unresolved r.status && eqb (key_of_result r) k)
        ∙ rw (any_never c, over_keys (λ t. is_unresolved (status t)) m)
            (swap (any (λ t. is_unresolved (status t) && at_key t) r) (any at_key m))
      where
        swap : (a b : Bool) → (a || b) ≡ (b || a)
        swap a b = ground arith

    settled_keys :
        has_settled parts
        ≡ has_key k (map inventory_key (c ++ keep (λ t. not (is_unresolved (status t))) r))
    settled_keys =
        over_parts (λ r. not (is_unresolved r.status) && eqb (key_of_result r) k)
        ∙ rw (any_never m, over_keys (λ t. not (is_unresolved (status t))) c) (drop_false _)
      where
        drop_false : (a : Bool) → (a || false) ≡ a
        drop_false a = ground arith

module _ (before : PriceRow → PriceRow → Bool) (number_of : Numeric → Number)
    (numeric_of : Number → Numeric) (rejected : List Rejection) (now : ℕ) where
  -- After a batch that is committed the inventory has a key exactly where a result of the key says that
  -- its target is unresolved, or where it had the key and no result of the key says anything else.
  pub apply_batch-inventory :
      (size : ℕ) (finalized_only : Bool) (batch : List FinalizationTarget) (tables new : Tables)
      (results : List FinalizationTargetResult) (k : InventoryKey)
      → applied before number_of numeric_of rejected now size finalized_only batch tables
        ≡ some (some (new, results))
      → has_key k new.inventory
        ≡ (has_unresolved k results || (has_key k tables.inventory && not (has_settled k results)))
  apply_batch-inventory size f batch tables new results k e =
      let a =
        apply_batch-IsApplied before number_of numeric_of rejected now size f batch tables new
          results e in
      let status =
        status_after before number_of numeric_of rejected now a.inserted_keys a.contested_priced in
      let c = concurrent before number_of numeric_of rejected now a.priced batch in
      let r = resolved before number_of numeric_of rejected now a.priced batch in
      let m = missing before number_of numeric_of rejected now a.priced batch in
      let kept =
        ap (λ (p : Tables × List FinalizationTargetResult). has_key k p.0.inventory) a.settled in
      let rs = ap (λ (p : Tables × List FinalizationTargetResult). p.1) a.settled in
      let settled_ones = map inventory_key (c ++ keep (λ t. not (is_unresolved (status t))) r) in
      let still = map inventory_key (m ++ keep (λ t. is_unresolved (status t)) r) in
      sym kept
      ∙ has_key-upsert k still (delete_inventory_rows settled_ones tables.inventory)
      ∙ ap (λ b. has_key k still || b) (has_key-delete k settled_ones tables.inventory)
      ∙ ap (λ b. b || (has_key k tables.inventory && not (has_key k settled_ones)))
          (sym (unresolved_keys k c r m status))
      ∙ ap (λ b. has_unresolved k (parts k c r m status) || (has_key k tables.inventory && not b))
          (sym (settled_keys k c r m status))
      ∙ ap (λ rs. has_unresolved k rs || (has_key k tables.inventory && not (has_settled k rs))) rs
