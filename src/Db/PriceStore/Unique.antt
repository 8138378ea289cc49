-- ===== src/Db/PriceStore/Unique.antt =====
-- The primary key over the writers.
use yearn_prices.Common.{
  Bool-cases, In, List, [], all, any, arith, eqb, eqb_iff, eqb_refl, eqb_sym, false, inl, inr, map,
  nat_eq, none, option_eq, pair_eq, refl, some, string_eq, subst, sym, ℕ, ◌∙◌, ◌∷◌, ◌≡◌,
}
use yearn_prices.Utils.Number.{Number}
use yearn_prices.Utils.Time.{is_today_normalized}
use yearn_prices.Db.Prices.{
  Numeric, PriceKey, PriceRow, Rejection, TokenPriceWrite, is_positive, key_of, price_key_eq,
}
use yearn_prices.Db.PriceStore.{
  InsertMode, assert_finite_positive_prices, dedupe_token_price_writes, finalize_provisional,
  finalize_token_prices, insert_rows, row_of, upsert, upsert_all,
}
use yearn_prices.Db.PriceStore.Tables.{find, find-upsert, key_of-on_conflict}

-- No two rows have one key.
abbrev pub IsUnique : List PriceRow → Type 0
IsUnique [] = Unit
IsUnique (row ∷ rows) = (find (key_of row) rows ≡ none) × IsUnique rows

pub find-In :
    (k : PriceKey) (row : PriceRow) (rows : List PriceRow)
    → find k rows ≡ some row
    → In row rows × (key_of row ≡ k)
find-In k row [] h = absurd (ground (arith, h))
find-In k row (other ∷ rows) h = elim (Bool-cases (eqb (key_of other) k)) [
  | inl same ↦
      let e : other ≡ row = cc (rw same at h) in
      (inl (sym e), subst (λ r. key_of r ≡ k) e ((eqb_iff (key_of other) k).0 same))
  | inr apart ↦ let (m, e) = find-In k row rows (rw apart at h) in (inr m, e)
]

pub In-find :
    (row : PriceRow) (rows : List PriceRow)
    → IsUnique rows
    → In row rows
    → find (key_of row) rows ≡ some row
In-find row [] u m = absurd m
In-find row (other ∷ rows) (new, u) (inl e) =
    subst (λ r. find (key_of r) (other ∷ rows) ≡ some r) (sym e) (rw (eqb_refl (key_of other)) refl)
In-find row (other ∷ rows) (new, u) (inr m) = elim (Bool-cases (eqb (key_of other) (key_of row))) [
  | inl same ↦
      let e = (eqb_iff (key_of other) (key_of row)).0 same in
      absurd (ground (arith, sym (In-find row rows u m) ∙ subst (λ k. find k rows ≡ none) e new))
  | inr apart ↦ rw apart (In-find row rows u m)
]

upsert-IsUnique :
    (mode : InsertMode) (excluded : PriceRow) (rows : List PriceRow)
    → IsUnique rows
    → IsUnique (upsert mode excluded rows)
unfolding upsert
upsert-IsUnique mode excluded [] u = (refl, tt)
upsert-IsUnique mode excluded (row ∷ rows) (new, u) =
    elim (Bool-cases (eqb (key_of row) (key_of excluded))) [
      | inl conflict ↦
          rw conflict
            (subst (λ k. find k rows ≡ none) (sym (key_of-on_conflict mode row excluded)) new, u)
      | inr apart ↦ rw apart (still_new apart, upsert-IsUnique mode excluded rows u)
    ]
  where
    other_way :
        eqb (key_of row) (key_of excluded) ≡ false → eqb (key_of excluded) (key_of row) ≡ false
    other_way h = eqb_sym (key_of excluded) (key_of row) ∙ h

    still_new :
        eqb (key_of row) (key_of excluded) ≡ false
        → find (key_of row) (upsert mode excluded rows) ≡ none
    still_new h = find-upsert mode (key_of row) excluded rows ∙ rw (new, other_way h) refl

upsert_all-IsUnique :
    (mode : InsertMode) (new rows : List PriceRow)
    → IsUnique rows
    → IsUnique (upsert_all mode new rows)
unfolding upsert_all
upsert_all-IsUnique mode [] rows u = u
upsert_all-IsUnique mode (excluded ∷ new) rows u =
    upsert_all-IsUnique mode new (upsert mode excluded rows) (upsert-IsUnique mode excluded rows u)

module _ (numeric_of : Number → Numeric) (rejected : List Rejection) (now : ℕ) where
  insert_rows-IsUnique :
      (mode : InsertMode) (writes : List TokenPriceWrite) (table : List PriceRow)
      → IsUnique table
      → IsUnique (insert_rows numeric_of rejected now mode writes table).table
  unfolding insert_rows
  insert_rows-IsUnique mode writes table u =
      elim (Bool-cases (
        all (λ (row : PriceRow). is_positive row.price)
          (map (row_of numeric_of rejected now mode) writes))) [
            | inl good ↦ rw good (
                upsert_all-IsUnique mode (map (row_of numeric_of rejected now mode) writes) table u)
            | inr bad ↦ rw bad u
          ]

  pub finalize-IsUnique :
      (rows : List TokenPriceWrite) (table : List PriceRow)
      → IsUnique table
      → IsUnique (finalize_token_prices numeric_of rejected now rows table).table
  unfolding finalize_token_prices
  finalize-IsUnique rows table u =
      elim (Bool-cases
        (any (λ (row : TokenPriceWrite). is_today_normalized row.timestamp now) rows)) [
          | inl early ↦ rw early u
          | inr closed ↦
              rw closed
                (elim (Bool-cases
                  (assert_finite_positive_prices (dedupe_token_price_writes rejected rows))) [
                    | inl valid ↦ rw valid (
                        insert_rows-IsUnique finalize_provisional
                          (dedupe_token_price_writes rejected rows) table u)
                    | inr invalid ↦ rw invalid u
                  ])
        ]
