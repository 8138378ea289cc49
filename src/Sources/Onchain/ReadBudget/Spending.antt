-- ===== src/Sources/Onchain/ReadBudget/Spending.antt =====
-- What a budget of src/sources/onchain/read-budget.ts lets through.
use yearn_prices.Common.{
  Bool, Bool-cases, List, [], arith, false, if◌then◌else◌, inl, inr, leb, leb_false→lt, leb→le, min,
  refl, suc, true, ℕ, ◌&&◌, ◌+◌, ◌-◌, ◌∷◌, ◌≡◌, ◌≤◌,
}
use yearn_prices.Sources.Onchain.ReadBudget.{
  Dispatch, Method, ReadBudget, dispatched, exceeded, is_metered, meter_all,
}

-- The number of metered calls.
abbrev pub metered_calls : List Method → ℕ
metered_calls [] = 0
metered_calls (method ∷ methods) =
    if is_metered method then suc (metered_calls methods) else metered_calls methods

abbrev is_dispatched : Dispatch → Bool
is_dispatched dispatched = true
is_dispatched exceeded = false

-- The number of metered calls that are dispatched.
abbrev pub reads : List (Method × Dispatch) → ℕ
reads [] = 0
reads ((method, dispatch) ∷ calls) =
    if is_metered method && is_dispatched dispatch then suc (reads calls) else reads calls

-- All calls that are not metered are dispatched.
abbrev pub AllOthers : List (Method × Dispatch) → Type 0
AllOthers [] = Unit
AllOthers ((method, dispatch) ∷ calls) =
    (is_metered method ≡ false → dispatch ≡ dispatched) × AllOthers calls

-- From a budget that is not overspent, as many metered calls are dispatched as the budget has left, or
-- all where they are fewer; the count grows by one for each; and no other call throws.
pub meter_all-reads :
    (methods : List Method) (budget : ReadBudget)
    → budget.spent ≤ budget.limit
    → (reads (meter_all methods budget).0
        ≡ min (budget.limit - budget.spent) (metered_calls methods))
      × ((meter_all methods budget).1.spent ≡ budget.spent + reads (meter_all methods budget).0)
      × AllOthers (meter_all methods budget).0
meter_all-reads [] budget h = (omega arith, omega arith, tt)
meter_all-reads (method ∷ methods) budget h = elim (Bool-cases (is_metered method)) [
  | inl metered ↦ elim (Bool-cases (leb budget.limit budget.spent)) [
    | inl full ↦
        let (a, b, c) = meter_all-reads methods budget h in
        let le = leb→le _ _ full in
        rw (metered, full) (omega (arith, a, le), omega (arith, b), ((λ e. ground arith), c))
    | inr left ↦
        let lt = leb_false→lt _ _ left in
        let (a, b, c) =
          meter_all-reads methods (record budget { spent = budget.spent + 1 })
            (omega (arith, lt)) in
        rw (metered, left) (omega (arith, a, lt), omega (arith, b), ((λ e. refl), c))
  ]
  | inr free ↦ let (a, b, c) = meter_all-reads methods budget h in rw free (a, b, ((λ e. refl), c))
]
