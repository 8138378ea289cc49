-- ===== src/Db/PriceStore/Tables.antt =====
-- A table as a map from its keys, and what one statement does to it.
use yearn_prices.Common.{
  Bool-cases, List, Option, [], arith, eqb, eqb_iff, false, if◌then◌else◌, inl, inr, nat_eq, none,
  option_eq, pair_eq, refl, some, string_eq, subst, sym, true, ◌∙◌, ◌∷◌, ◌≡◌,
}
use yearn_prices.Db.Prices.{PriceKey, PriceRow, key_of, price_key_eq}
use yearn_prices.Db.PriceStore.{
  InsertMode, finalize_provisional, force, insert_only, mutable_current_day, on_conflict, upsert,
  write_provisional,
}

-- The row with a key.
abbrev pub find : PriceKey → List PriceRow → Option PriceRow
find k [] = none
find k (row ∷ rows) = if eqb (key_of row) k then some row else find k rows

-- What a statement makes of the row that a key has, if it is given another.
abbrev pub merge : InsertMode → Option PriceRow → Option PriceRow → Option PriceRow
merge mode old none = old
merge mode none (some excluded) = some excluded
merge mode (some row) (some excluded) = some (on_conflict mode row excluded)

pub key_of-on_conflict :
    (mode : InsertMode) (row excluded : PriceRow)
    → key_of (on_conflict mode row excluded) ≡ key_of row
key_of-on_conflict insert_only row excluded = refl
key_of-on_conflict force row excluded = refl
key_of-on_conflict mutable_current_day row excluded = ground arith
key_of-on_conflict finalize_provisional row excluded = ground arith
key_of-on_conflict write_provisional row excluded = ground arith

differs :
    (k : PriceKey) (row excluded : PriceRow)
    → eqb (key_of row) k ≡ true
    → eqb (key_of row) (key_of excluded) ≡ false
    → eqb (key_of excluded) k ≡ false
differs k row excluded same distinct = elim (Bool-cases (eqb (key_of excluded) k)) [
  | inr other ↦ other
  | inl found ↦
      let e = (eqb_iff (key_of row) k).0 same in
      let d = (eqb_iff (key_of excluded) k).0 found in
      let both = (eqb_iff (key_of row) (key_of excluded)).1 (e ∙ sym d) in
      absurd (ground (arith, sym both ∙ distinct))
]

pub find-upsert :
    (mode : InsertMode) (k : PriceKey) (excluded : PriceRow) (rows : List PriceRow)
    → find k (upsert mode excluded rows)
      ≡ merge mode (find k rows) (if eqb (key_of excluded) k then some excluded else none)
unfolding upsert
find-upsert mode k excluded [] = elim (Bool-cases (eqb (key_of excluded) k)) [
  | inl same ↦ rw same refl
  | inr other ↦ rw other refl
]
find-upsert mode k excluded (row ∷ rows) = elim (Bool-cases (eqb (key_of row) (key_of excluded))) [
  | inl conflict ↦
      let e = (eqb_iff (key_of row) (key_of excluded)).0 conflict in
      let oc = key_of-on_conflict mode row excluded in
      elim (Bool-cases (eqb (key_of row) k)) [
        | inl same ↦
            let found = subst (λ j. eqb j k ≡ true) e same in
            let kept = subst (λ j. eqb j k ≡ true) (sym oc) same in
            rw (conflict, kept, same, found) refl
        | inr other ↦
            let found = subst (λ j. eqb j k ≡ false) e other in
            let kept = subst (λ j. eqb j k ≡ false) (sym oc) other in
            rw (conflict, kept, other, found) refl
      ]
  | inr distinct ↦ elim (Bool-cases (eqb (key_of row) k)) [
    | inl same ↦ let apart = differs k row excluded same distinct in rw (distinct, same, apart) refl
    | inr other ↦ rw (distinct, other) (find-upsert mode k excluded rows)
  ]
]
