-- ===== src/Db/PriceStore/Merge.antt =====
-- The writes that a statement takes, by key: each key's last accepted one.
use yearn_prices.Common.{
  Bool, Bool-cases, List, Option, [], ap, arith, eqb, eqb_iff, false, if◌then◌else◌, inl, inr, keep,
  nat_eq, none, not, option_eq, pair_eq, refl, some, string_eq, subst, sym, true, ℕ, ◌&&◌, ◌∙◌, ◌∷◌,
  ◌≡◌,
}
use yearn_prices.Common.OrderedMap.{HasUniqueKeys, get, get-set, set, set-HasUniqueKeys}
use yearn_prices.Db.Prices.{
  PriceKey, Rejection, TokenPriceWrite, is_rejected_price, price_key_eq, write_key,
}
use yearn_prices.Db.PriceStore.{dedupe_onto, dedupe_token_price_writes, values}

-- The first write with a key.
abbrev pub write_at : PriceKey → List TokenPriceWrite → Option TokenPriceWrite
write_at k [] = none
write_at k (w ∷ writes) = if eqb (write_key w) k then some w else write_at k writes

abbrev pub IsDistinct : List TokenPriceWrite → Type 0
IsDistinct [] = Unit
IsDistinct (w ∷ writes) = (write_at (write_key w) writes ≡ none) × IsDistinct writes

abbrev IsKeyed : List (PriceKey × TokenPriceWrite) → Type 0
IsKeyed [] = Unit
IsKeyed ((j, w) ∷ keyed) = (j ≡ write_key w) × IsKeyed keyed

abbrev pub else_some : Option TokenPriceWrite → Option TokenPriceWrite → Option TokenPriceWrite
else_some none other = other
else_some (some w) other = some w

-- The last write of the list with the key that is not of a quarantined observation.
abbrev pub last_write : List Rejection → PriceKey → List TokenPriceWrite → Option TokenPriceWrite
last_write rejected k [] = none
last_write rejected k (w ∷ writes) = else_some (last_write rejected k writes) (
    if not (is_rejected_price rejected w.chain w.token w.timestamp w.source) && eqb (write_key w) k
    then some w
    else none)

set-IsKeyed :
    (w : TokenPriceWrite) (keyed : List (PriceKey × TokenPriceWrite))
    → IsKeyed keyed
    → IsKeyed (set (write_key w) w keyed)
set-IsKeyed w [] h = (refl, tt)
set-IsKeyed w ((j, v) ∷ keyed) (e, h) = elim (Bool-cases (eqb j (write_key w))) [
  | inl same ↦ rw same ((eqb_iff j (write_key w)).0 same, h)
  | inr other ↦ rw other (e, set-IsKeyed w keyed h)
]

write_at-values :
    (k : PriceKey) (keyed : List (PriceKey × TokenPriceWrite))
    → IsKeyed keyed
    → write_at k (values keyed) ≡ get k keyed
write_at-values k [] h = refl
write_at-values k ((j, w) ∷ keyed) (e, h) = elim (Bool-cases (eqb j k)) [
  | inl same ↦ let found = subst (λ i. eqb i k ≡ true) e same in rw (same, found) refl
  | inr other ↦
      let absent = subst (λ i. eqb i k ≡ false) e other in
      rw (other, absent) (write_at-values k keyed h)
]

values-IsDistinct :
    (keyed : List (PriceKey × TokenPriceWrite))
    → IsKeyed keyed
    → HasUniqueKeys keyed
    → IsDistinct (values keyed)
values-IsDistinct [] h u = tt
values-IsDistinct ((j, w) ∷ keyed) (e, h) (new, u) = (
  write_at-values (write_key w) keyed h ∙ subst (λ i. get i keyed ≡ none) e new,
  values-IsDistinct keyed h u,
)

else_some_skip : (o p : Option TokenPriceWrite) → else_some o p ≡ else_some (else_some o none) p
else_some_skip none p = refl
else_some_skip (some w) p = refl

else_some_if :
    (o p : Option TokenPriceWrite) (w : TokenPriceWrite) (b : Bool)
    → else_some o (if b then some w else p) ≡ else_some (else_some o (if b then some w else none)) p
else_some_if none p w true = refl
else_some_if none p w false = refl
else_some_if (some v) p w b = refl

dedupe_onto_lem :
    (rejected : List Rejection) (keyed : List (PriceKey × TokenPriceWrite))
    (rows : List TokenPriceWrite)
    → IsKeyed keyed
    → HasUniqueKeys keyed
    → IsKeyed (dedupe_onto rejected keyed rows)
      × HasUniqueKeys (dedupe_onto rejected keyed rows)
      × ((k : PriceKey)
          → get k (dedupe_onto rejected keyed rows)
            ≡ else_some (last_write rejected k rows) (get k keyed))
unfolding dedupe_onto
dedupe_onto_lem rejected keyed [] h u = (h, u, λ k. refl)
dedupe_onto_lem rejected keyed (w ∷ rows) h u =
    elim (Bool-cases (is_rejected_price rejected w.chain w.token w.timestamp w.source)) [
      | inl bad ↦ rw bad (
          let (a, b, c) = dedupe_onto_lem rejected keyed rows h u in
          (a, b, λ k. c k ∙ else_some_skip (last_write rejected k rows) (get k keyed)))
      | inr good ↦ rw good (
          let (a, b, c) =
            dedupe_onto_lem rejected (set (write_key w) w keyed) rows (set-IsKeyed w keyed h)
              (set-HasUniqueKeys (write_key w) w keyed u) in
          (
            a,
            b,
            λ k.
                c k
                ∙ ap (else_some (last_write rejected k rows)) (get-set k (write_key w) w keyed)
                ∙ else_some_if (last_write rejected k rows) (get k keyed) w (eqb (write_key w) k),
          ))
    ]

pub write_at-dedupe :
    (rejected : List Rejection) (k : PriceKey) (rows : List TokenPriceWrite)
    → write_at k (dedupe_token_price_writes rejected rows) ≡ last_write rejected k rows
unfolding dedupe_token_price_writes
write_at-dedupe rejected k rows =
    let (a, b, c) = dedupe_onto_lem rejected [] rows tt tt in
    write_at-values k (dedupe_onto rejected [] rows) a
    ∙ c k
    ∙ sym (none_at_end (last_write rejected k rows))
  where
    none_at_end : (o : Option TokenPriceWrite) → o ≡ else_some o none
    none_at_end none = refl
    none_at_end (some w) = refl

pub dedupe-IsDistinct :
    (rejected : List Rejection) (rows : List TokenPriceWrite)
    → IsDistinct (dedupe_token_price_writes rejected rows)
unfolding dedupe_token_price_writes
dedupe-IsDistinct rejected rows =
    let (a, b, c) = dedupe_onto_lem rejected [] rows tt tt in
    values-IsDistinct (dedupe_onto rejected [] rows) a b

-- Rows that are chosen by their time.
module _ (q : ℕ → Bool) where
  pub write_at-keep :
      (k : PriceKey) (writes : List TokenPriceWrite)
      → write_at k (keep (λ w. q w.timestamp) writes)
        ≡ (if q k.timestamp then write_at k writes else none)
  write_at-keep k [] = ground arith
  write_at-keep k (w ∷ writes) = elim (Bool-cases (eqb (write_key w) k)) [
    | inl same ↦
        let e : w.timestamp ≡ k.timestamp =
          ap (λ (j : PriceKey). j.timestamp) ((eqb_iff (write_key w) k).0 same) in
        elim (Bool-cases (q w.timestamp)) [
          | inl chosen ↦ rw (chosen, same) (sym (rw (subst (λ t. q t ≡ true) e chosen) refl))
          | inr left ↦
              rw (left, same) (write_at-keep k writes ∙ rw (subst (λ t. q t ≡ false) e left) refl)
        ]
    | inr other ↦ elim (Bool-cases (q w.timestamp)) [
      | inl chosen ↦ rw (chosen, other) (write_at-keep k writes)
      | inr left ↦ rw (left, other) (write_at-keep k writes)
    ]
  ]

  pub keep-IsDistinct :
      (writes : List TokenPriceWrite)
      → IsDistinct writes
      → IsDistinct (keep (λ w. q w.timestamp) writes)
  keep-IsDistinct [] h = tt
  keep-IsDistinct (w ∷ writes) (new, h) = elim (Bool-cases (q w.timestamp)) [
    | inl chosen ↦
        rw chosen
          (write_at-keep (write_key w) writes ∙ rw (chosen, new) refl, keep-IsDistinct writes h)
    | inr left ↦ rw left (keep-IsDistinct writes h)
  ]
