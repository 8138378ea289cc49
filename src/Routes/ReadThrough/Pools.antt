-- ===== src/Routes/ReadThrough/Pools.antt =====
-- Records of Curve pools, by what was asked for and what the table holds.
use yearn_prices.Common.{
  All, Bool, Bool-cases, In, In-map, List, [], all, any, ap, arith, eqb, eqb_iff, eqb_refl,
  if◌then◌else◌, inl, inr, keep-In, nat_eq, not, option_eq, pair_eq, refl, some, string_eq, subst,
  sym, true, ℕ, ◌&&◌, ◌+◌, ◌||◌, ◌∙◌, ◌∷◌, ◌≡◌,
}
use yearn_prices.Common.OrderedMap.{get, get-All, get-In, get-set, set, set-All}
use yearn_prices.Utils.Number.{Number}
use yearn_prices.Utils.Text.{Text, text_eq}
use yearn_prices.Utils.Validation.{HistoricalRequestTuple}
use yearn_prices.Db.Prices.{Numeric, PriceRow, Rejection, curve, price_key_eq, source_beq}
use yearn_prices.Db.PriceReads.{ExactPriceRecord}
use yearn_prices.Routes.ReadThrough.{Fetched, TokenKey, Upstream, current_price_key, mapped}
use yearn_prices.Routes.ReadThrough.Run.{is_accepted_at, known_curve_lps, lp_key, pairs_of}
use yearn_prices.Routes.ReadThrough.Judged.{is_known_lp}

any-In :
    {A : Type 0} (test : A → Bool) (x : A) (xs : List A)
    → In x xs
    → test x ≡ true
    → any test xs ≡ true
any-In test x [] m t = absurd m
any-In test x (y ∷ xs) (inl e) t = rw (subst (λ z. test z ≡ true) e t) refl
any-In test x (y ∷ xs) (inr m) t = ground (arith, any-In test x xs m t)

all-In :
    {A : Type 0} (test : A → Bool) (x : A) (xs : List A)
    → all test xs ≡ true
    → In x xs
    → test x ≡ true
all-In test x [] h m = absurd m
all-In test x (y ∷ xs) h (inl e) = subst (λ z. test z ≡ true) (sym e) (ground (arith, h))
all-In test x (y ∷ xs) h (inr m) = all-In test x xs (ground (arith, h)) m

-- How many of the list pass the test.
abbrev pub tally : {A : Type 0} → (A → Bool) → List A → ℕ
tally test [] = 0
tally test (x ∷ xs) = (if test x then 1 else 0) + tally test xs

In-mapped : {K V : Type 0} (k : K) (v : V) (m : List (K × V)) → In (k, v) m → In v (mapped m)
In-mapped k v [] n = absurd n
In-mapped k v ((j, w) ∷ m) (inl e) = inl (ap (λ x. x.1) e)
In-mapped k v ((j, w) ∷ m) (inr n) = inr (In-mapped k v m n)

module _ (Q : ExactPriceRecord → Type 0) where
  abbrev IsPair : TokenKey × ExactPriceRecord → Type 0
  IsPair (k, p) = (lp_key p ≡ k) × Q p

  pairs_of-IsPair :
      (pairs : List (TokenKey × ExactPriceRecord)) (records : List Fetched)
      → All IsPair pairs
      → All (λ f. Q f.price) records
      → All IsPair (pairs_of pairs records)
  unfolding pairs_of
  pairs_of-IsPair pairs [] h q = h
  pairs_of-IsPair pairs (f ∷ records) h (q, qs) =
      pairs_of-IsPair (set (lp_key f.price) f.price pairs) records
        (set-All IsPair (lp_key f.price) f.price pairs (refl, q) h) qs

abbrev Holds : TokenKey → List (TokenKey × ExactPriceRecord) → Type 0
Holds k pairs = (p : ExactPriceRecord) × (get k pairs ≡ some p)

set-Holds :
    (k j : TokenKey) (q : ExactPriceRecord) (pairs : List (TokenKey × ExactPriceRecord))
    → Holds k pairs
    → Holds k (set j q pairs)
set-Holds k j q pairs (p, e) = elim (Bool-cases (eqb j k)) [
  | inl same ↦ (q, get-set k j q pairs ∙ rw same refl)
  | inr other ↦ (p, get-set k j q pairs ∙ rw other e)
]

pairs_of-keeps :
    (k : TokenKey) (pairs : List (TokenKey × ExactPriceRecord)) (records : List Fetched)
    → Holds k pairs
    → Holds k (pairs_of pairs records)
unfolding pairs_of
pairs_of-keeps k pairs [] h = h
pairs_of-keeps k pairs (f ∷ records) h =
    pairs_of-keeps k (set (lp_key f.price) f.price pairs) records
      (set-Holds k (lp_key f.price) f.price pairs h)

pairs_of-Holds :
    (f : Fetched) (pairs : List (TokenKey × ExactPriceRecord)) (records : List Fetched)
    → In f records
    → Holds (lp_key f.price) (pairs_of pairs records)
unfolding pairs_of
pairs_of-Holds f pairs [] m = absurd m
pairs_of-Holds f pairs (g ∷ records) (inl e) =
    subst
      (λ (x : Fetched).
        Holds (lp_key x.price) (pairs_of (set (lp_key g.price) g.price pairs) records))
      (sym e)
      (pairs_of-keeps (lp_key g.price) (set (lp_key g.price) g.price pairs) records (
        g.price,
        get-set (lp_key g.price) (lp_key g.price) g.price pairs
            ∙ rw (eqb_refl (lp_key g.price)) refl,
      ))
pairs_of-Holds f pairs (g ∷ records) (inr m) =
    pairs_of-Holds f (set (lp_key g.price) g.price pairs) records m

module _ (numeric_of : Number → Numeric) (rejected : List Rejection) (now : ℕ) (upstream : Upstream)
    (requests : List HistoricalRequestTuple) (table : List PriceRow) where
  -- A price of the token that comes of Curve is stored and accepted.
  abbrev pub has_curve_price : Text → Text → Bool
  has_curve_price chain token =
      any
        (λ tp.
          eqb tp.chain chain
          && eqb tp.token token
          && source_beq tp.source curve
          && is_accepted_at rejected now tp)
        table

  -- The row is of a Curve pool, however the requests for its token spell the address.
  abbrev pub is_pool : ExactPriceRecord → Bool
  is_pool row =
      all
        (λ r.
          not (eqb (current_price_key r.chain r.token) (lp_key row))
          || has_curve_price r.chain r.token)
        requests

  abbrev pub IsAsked : ExactPriceRecord → Type 0
  IsAsked p =
      (r : HistoricalRequestTuple) × In r requests × (p.chain ≡ r.chain) × (p.token ≡ r.token)

  holds_both : (a b : Bool) → a ≡ true → (not a || b) ≡ true → b ≡ true
  holds_both a b h k = ground (arith, h, k)

  -- Such a row, where it was fetched, is in the set of known pools.
  pub is_pool-is_known_lp :
      (records : List Fetched) (f : Fetched)
      → All (λ g. IsAsked g.price) records
      → In f records
      → is_pool f.price ≡ true
      → is_known_lp (known_curve_lps numeric_of rejected now upstream table records) f.price ≡ true
  unfolding known_curve_lps
  is_pool-is_known_lp records f asked m pool =
      let (p, e) = pairs_of-Holds f [] records m in
      let (same, from) =
        get-All (IsPair IsAsked) (lp_key f.price) p (pairs_of [] records)
          (pairs_of-IsPair IsAsked [] records tt asked) e in
      let (r, n, c, t) = from in
      let at : current_price_key r.chain r.token ≡ lp_key f.price = rw (sym c, sym t) same in
      let curve_price : has_curve_price p.chain p.token ≡ true =
        rw (c, t)
          (holds_both _ _ ((eqb_iff (current_price_key r.chain r.token) (lp_key f.price)).1 at) (
            all-In
              (λ (r : HistoricalRequestTuple).
                not (eqb (current_price_key r.chain r.token) (lp_key f.price))
                || has_curve_price r.chain r.token)
              r requests pool n)) in
      any-In (λ k. eqb k (lp_key f.price)) (lp_key p) _
        (In-map lp_key p _ (
          keep-In (λ (q : ExactPriceRecord). has_curve_price q.chain q.token) p
            (mapped (pairs_of [] records))
            (In-mapped (lp_key f.price) p (pairs_of [] records)
              (get-In (lp_key f.price) p (pairs_of [] records) e))
            curve_price))
        ((eqb_iff (lp_key p) (lp_key f.price)).1 same)
