-- ===== src/Db/PriceStore/Upserts.antt =====
-- What a statement with distinct rows does to each key.
use yearn_prices.Common.{
  Bool, List, Option, [], ap, eqb, eqb_iff, false, if◌then◌else◌, map, nat_eq, none, option_eq,
  pair_eq, refl, some, string_eq, subst, true, ℕ, ◌∙◌, ◌∷◌, ◌≡◌,
}
use yearn_prices.Utils.Number.{Number}
use yearn_prices.Db.Prices.{
  Numeric, PriceKey, PriceRow, Rejection, TokenPriceWrite, price_key_eq, write_key,
}
use yearn_prices.Db.PriceStore.{InsertMode, row_of, upsert, upsert_all}
use yearn_prices.Db.PriceStore.Tables.{find, find-upsert, merge}
use yearn_prices.Db.PriceStore.Merge.{IsDistinct, write_at}

module _ (numeric_of : Number → Numeric) (rejected : List Rejection) (now : ℕ)
    (mode : InsertMode) where
  abbrev pub new_row : Option TokenPriceWrite → Option PriceRow
  new_row none = none
  new_row (some w) = some (row_of numeric_of rejected now mode w)

  merge_twice :
      (o : Option PriceRow) (w : TokenPriceWrite) (p : Option TokenPriceWrite) (b : Bool)
      → (b ≡ true → p ≡ none)
      → merge mode
          (merge mode o (if b then some (row_of numeric_of rejected now mode w) else none))
          (new_row p)
        ≡ merge mode o (new_row (if b then some w else p))
  merge_twice o w p true h = rw (h refl) refl
  merge_twice o w p false h = refl

  pub find-upsert_all :
      (k : PriceKey) (writes : List TokenPriceWrite) (table : List PriceRow)
      → IsDistinct writes
      → find k (upsert_all mode (map (row_of numeric_of rejected now mode) writes) table)
        ≡ merge mode (find k table) (new_row (write_at k writes))
  unfolding upsert_all
  find-upsert_all k [] table h = refl
  find-upsert_all k (w ∷ writes) table (new, h) =
      find-upsert_all k writes (upsert mode (row_of numeric_of rejected now mode w) table) h
      ∙ ap (λ o. merge mode o (new_row (write_at k writes)))
          (find-upsert mode k (row_of numeric_of rejected now mode w) table)
      ∙ merge_twice (find k table) w (write_at k writes) (eqb (write_key w) k)
          (λ same. subst (λ j. write_at j writes ≡ none) ((eqb_iff (write_key w) k).0 same) new)
