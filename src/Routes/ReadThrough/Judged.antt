-- ===== src/Routes/ReadThrough/Judged.antt =====
-- What the guard lets through.
use yearn_prices.Common.{
  All, Bool, Bool-cases, List, [], any, arith, eqb, if◌then◌else◌, inl, inr, ltb, ltb→lt, nat_eq,
  option_eq, pair_eq, string_eq, sym, true, ℕ, ◌&&◌, ◌+◌, ◌-◌, ◌∷◌, ◌≡◌, ◌≤◌,
}
use yearn_prices.Utils.Number.{Number}
use yearn_prices.Utils.Text.{text_eq}
use yearn_prices.Db.Prices.{Numeric, Rejection, price_key_eq}
use yearn_prices.Db.PriceReads.{ExactPriceRecord}
use yearn_prices.Routes.ReadThrough.{Fetched, Served, TokenKey, Upstream, max_guarded_records}
use yearn_prices.Routes.ReadThrough.Run.{judge, lp_key, verdict}

abbrev pub is_known_lp : List TokenKey → ExactPriceRecord → Bool
is_known_lp lps row = any (λ k. eqb k (lp_key row)) lps

abbrev pub guarded_count : List Served → ℕ
guarded_count [] = 0
guarded_count (s ∷ served) = (if s.guarded then 1 else 0) + guarded_count served

module _ (numeric_of : Number → Numeric) (rejected : List Rejection) (now : ℕ) (upstream : Upstream)
    (P : Fetched → Type 0) (lps : List TokenKey) where
  -- A record that is served is one that was fetched; it is of a Curve pool exactly where the guard has
  -- checked it, and then it is plausible.
  pub record IsJudged (s : Served) : Type 0 where
    pub from : P s.fetched
    pub checked : s.guarded ≡ is_known_lp lps s.fetched.price
    pub plausible :
        s.guarded ≡ true → verdict numeric_of rejected now upstream s.fetched.price ≡ true

  pub judge-IsJudged :
      (checked : ℕ) (records : List Fetched)
      → All P records
      → All IsJudged (judge numeric_of rejected now upstream lps checked records)
  unfolding judge
  judge-IsJudged checked [] h = tt
  judge-IsJudged checked (f ∷ records) (p, h) = elim (Bool-cases (is_known_lp lps f.price)) [
    | inr plain ↦ rw plain (
      record { from = p; checked = sym plain; plausible = λ e. absurd (ground (arith, e)) },
      judge-IsJudged checked records h,
    )
    | inl lp ↦
        rw lp
          (elim (Bool-cases
            (ltb checked max_guarded_records && verdict numeric_of rejected now upstream f.price)) [
              | inl passed ↦ rw passed (
                record { from = p; checked = sym lp; plausible = λ e. second _ _ passed },
                judge-IsJudged (checked + 1) records h,
              )
              | inr failed ↦ rw failed (judge-IsJudged (checked + 1) records h)
            ])
  ]
    where
      second : (a b : Bool) → (a && b) ≡ true → b ≡ true
      second a b t = ground (arith, t)

  pub judge-guarded_count :
      (checked : ℕ) (records : List Fetched)
      → guarded_count (judge numeric_of rejected now upstream lps checked records)
        ≤ max_guarded_records - checked
  unfolding judge
  judge-guarded_count checked [] = omega arith
  judge-guarded_count checked (f ∷ records) = elim (Bool-cases (is_known_lp lps f.price)) [
    | inr plain ↦ rw plain (omega (arith, judge-guarded_count checked records))
    | inl lp ↦
        rw lp
          (elim (Bool-cases
            (ltb checked max_guarded_records && verdict numeric_of rejected now upstream f.price)) [
              | inl passed ↦
                  let lt = ltb→lt _ _ (
                    first (ltb checked max_guarded_records)
                      (verdict numeric_of rejected now upstream f.price) passed) in
                  rw passed (omega (arith, judge-guarded_count (checked + 1) records, lt))
              | inr failed ↦ rw failed (omega (arith, judge-guarded_count (checked + 1) records))
            ])
  ]
    where
      first : (a b : Bool) → (a && b) ≡ true → a ≡ true
      first a b t = ground (arith, t)
