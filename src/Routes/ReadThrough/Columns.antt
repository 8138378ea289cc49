-- ===== src/Routes/ReadThrough/Columns.antt =====
-- What a row has of the write that has made it.
use yearn_prices.Common.{
  Bool, In, List, Option, [], ap, arith, eqb_iff, false, if◌then◌else◌, inl, inr, nat_eq, none,
  option_eq, pair_eq, refl, some, string_eq, sym, true, ◌&&◌, ◌∙◌, ◌∷◌, ◌≡◌, ◌⊎◌,
}
use yearn_prices.Db.Prices.{PriceKey, PriceRow, Rejection, TokenPriceWrite, price_key_eq, write_key}
use yearn_prices.Db.PriceStore.{InsertMode, on_conflict, updated}
use yearn_prices.Db.PriceStore.Merge.{else_some, last_write}
use yearn_prices.Db.PriceStore.Tables.{merge}

else_some-cases :
    (o p : Option TokenPriceWrite) (w : TokenPriceWrite)
    → else_some o p ≡ some w
    → (o ≡ some w) ⊎ (p ≡ some w)
else_some-cases none p w e = inr e
else_some-cases (some v) p w e = inl e

chosen :
    (x w : TokenPriceWrite) (a b : Bool)
    → (if a && b then some x else none) ≡ some w
    → (w ≡ x) × (b ≡ true)
chosen x w true true e = (cc e, refl)
chosen x w true false e = absurd (ground (arith, e))
chosen x w false b e = absurd (ground (arith, e))

pub last_write-In :
    (rejected : List Rejection) (k : PriceKey) (w : TokenPriceWrite) (writes : List TokenPriceWrite)
    → last_write rejected k writes ≡ some w
    → In w writes × (write_key w ≡ k)
last_write-In rejected k w [] e = absurd (ground (arith, e))
last_write-In rejected k w (x ∷ writes) e = elim (else_some-cases _ _ w e) [
  | inl later ↦ let (m, h) = last_write-In rejected k w writes later in (inr m, h)
  | inr last ↦
      let (same, at) = chosen x w _ _ last in
      (inl same, ap write_key same ∙ (eqb_iff (write_key x) k).0 at)
]

-- What a row has of the row that a write proposes.
abbrev pub HasColumns : PriceRow → PriceRow → Type 0
HasColumns excluded row =
    (row.price ≡ excluded.price)
    × (row.observed_at ≡ excluded.observed_at)
    × (row.finalized ≡ excluded.finalized)

columns_of : (a b : PriceRow) → a ≡ b → HasColumns b a
columns_of a b e = (
  ap (λ (r : PriceRow). r.price) e,
  ap (λ (r : PriceRow). r.observed_at) e,
  ap (λ (r : PriceRow). r.finalized) e,
)

conflict_cases :
    (b : Bool) (old excluded row : PriceRow)
    → (if b then old else updated old excluded) ≡ row
    → (old ≡ row) ⊎ HasColumns excluded row
conflict_cases true old excluded row e = inl e
conflict_cases false old excluded row e = inr (columns_of row (updated old excluded) (sym e))

-- A mode that keeps the finalized rows.
abbrev pub Protects : InsertMode → Type 0
Protects mode =
    (old excluded : PriceRow)
    → on_conflict mode old excluded ≡ (if old.finalized then old else updated old excluded)

pub merge_cases :
    (mode : InsertMode) (o : Option PriceRow) (excluded row : PriceRow)
    → Protects mode
    → merge mode o (some excluded) ≡ some row
    → (o ≡ some row) ⊎ HasColumns excluded row
merge_cases mode none excluded row h e = inr (columns_of row excluded (cc e))
merge_cases mode (some old) excluded row h e =
    elim (conflict_cases (old.finalized) old excluded row (sym (h old excluded) ∙ cc e)) [
      | inl same ↦ inl (ap some same)
      | inr new ↦ inr new
    ]
