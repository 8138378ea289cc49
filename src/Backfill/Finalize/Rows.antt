-- ===== src/Backfill/Finalize/Rows.antt =====
-- What one insertion does to the rows.
use yearn_prices.Common.{
  Bool-cases, In, List, Option, [], arith, eqb, eqb_iff, inl, inr, nat_eq, none, option_eq, pair_eq,
  refl, some, string_eq, sym, ◌∙◌, ◌∷◌, ◌≡◌, ◌⊎◌,
}
use yearn_prices.Utils.Number.{Number}
use yearn_prices.Db.Prices.{Numeric, PriceKey, PriceRow, key_of, price_key_eq}
use yearn_prices.Db.PriceStore.{finalize_provisional, upsert}
use yearn_prices.Db.PriceStore.Tables.{find, find-upsert, merge}
use yearn_prices.Db.PriceStore.Final.{Keeps, Keeps-trans, merge-Keeps}
use yearn_prices.Backfill.Finalize.{insert_returning}

module _ (numeric_of : Number → Numeric) where
  -- Every row is kept, the finalized ones as they are.
  abbrev pub KeepsAll : List PriceRow → List PriceRow → Type 0
  KeepsAll t u =
      (k : PriceKey) (row : PriceRow) → find k t ≡ some row → Keeps numeric_of row (find k u)

  pub KeepsAll-refl : (t : List PriceRow) → KeepsAll t t
  KeepsAll-refl t k row e = rw e (λ f. refl)

  pub KeepsAll-trans : (t u v : List PriceRow) → KeepsAll t u → KeepsAll u v → KeepsAll t v
  KeepsAll-trans t u v h g k row e = go (find k u) refl (h k row e)
    where
      go :
          (o : Option PriceRow)
          → find k u ≡ o
          → Keeps numeric_of row o
          → Keeps numeric_of row (find k v)
      go none d kept = absurd kept
      go (some later) d kept = Keeps-trans numeric_of row later (find k v) kept (g k later d)

  upsert-KeepsAll :
      (excluded : PriceRow) (t : List PriceRow)
      → KeepsAll t (upsert finalize_provisional excluded t)
  upsert-KeepsAll excluded t k row e =
      rw (find-upsert finalize_provisional k excluded t, e)
        (merge-Keeps numeric_of finalize_provisional row _ (λ d. cc))

  pub insert_returning-KeepsAll : (rows t : List PriceRow) → KeepsAll t (insert_returning rows t).1
  unfolding insert_returning
  insert_returning-KeepsAll [] t = KeepsAll-refl t
  insert_returning-KeepsAll (excluded ∷ rows) t =
      KeepsAll-trans t (upsert finalize_provisional excluded t) _ (upsert-KeepsAll excluded t)
        (insert_returning-KeepsAll rows (upsert finalize_provisional excluded t))

-- The row has the price of a row that is inserted under its key.
pub record IsInserted (rows : List PriceRow) (k : PriceKey) (row : PriceRow) : Type 0 where
  pub excluded : PriceRow
  pub given : In excluded rows
  pub place : key_of excluded ≡ k
  pub same : (row.price ≡ excluded.price) × (row.finalized ≡ excluded.finalized)

merge_source :
    (o : Option PriceRow) (excluded row : PriceRow)
    → merge finalize_provisional o (some excluded) ≡ some row
    → (o ≡ some row) ⊎ (row.price ≡ excluded.price) × (row.finalized ≡ excluded.finalized)
merge_source none excluded row e = inr (ground (arith, e), ground (arith, e))
merge_source (some old) excluded row e = elim (Bool-cases (old.finalized)) [
  | inl final ↦ inl (sym (rw final refl) ∙ e)
  | inr pending ↦ inr (ground (arith, pending, e), ground (arith, pending, e))
]

upsert_source :
    (excluded : PriceRow) (t : List PriceRow) (k : PriceKey) (row : PriceRow)
    → find k (upsert finalize_provisional excluded t) ≡ some row
    → (find k t ≡ some row)
      ⊎ (key_of excluded ≡ k) × (row.price ≡ excluded.price) × (row.finalized ≡ excluded.finalized)
upsert_source excluded t k row e =
    let d = sym (find-upsert finalize_provisional k excluded t) ∙ e in
    elim (Bool-cases (eqb (key_of excluded) k)) [
      | inl same ↦ elim (merge_source (find k t) excluded row (rw same at d)) [
        | inl old ↦ inl old
        | inr (price, final) ↦ inr ((eqb_iff (key_of excluded) k).0 same, price, final)
      ]
      | inr other ↦ inl (rw other at d)
    ]

pub insert_returning-source :
    (rows t : List PriceRow) (k : PriceKey) (row : PriceRow)
    → find k (insert_returning rows t).1 ≡ some row
    → (find k t ≡ some row) ⊎ IsInserted rows k row
unfolding insert_returning
insert_returning-source [] t k row e = inl e
insert_returning-source (excluded ∷ rows) t k row e =
    elim (insert_returning-source rows (upsert finalize_provisional excluded t) k row e) [
      | inr i ↦
          inr
            (record { excluded = i.excluded; given = inr i.given; place = i.place; same = i.same })
      | inl before ↦ elim (upsert_source excluded t k row before) [
        | inl old ↦ inl old
        | inr (place, price, final) ↦
            inr (record {
              excluded = excluded;
              given = inl refl;
              place = place;
              same = (price, final);
            })
      ]
    ]
