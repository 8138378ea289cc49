-- ===== src/Sources/Onchain/ReadBudget.antt =====
-- src/sources/onchain/read-budget.ts: the cap on RPC reads. The limit is a natural number; the error
-- of a fraction or a negative number is that of 0. What a method returns is left to its caller.
pub mod Spending
use yearn_prices.Common.{
  Bool, List, Option, [], false, if◌then◌else◌, leb, ltb, none, some, true, ℕ, ◌+◌, ◌∷◌,
}

-- The methods by name: the four that are metered, and any other.
pub data Method : Type 0 where
  read_contract : Method
  call : Method
  get_block : Method
  get_block_number : Method
  other_method : Method

-- `METERED_METHODS.has(property)`
abbrev pub is_metered : Method → Bool
is_metered other_method = false
is_metered _ = true

pub record ReadBudget : Type 0 where
  pub limit : ℕ
  pub spent : ℕ

-- None is the error of an invalid limit.
abbrev pub create_read_budget : ℕ → Option ReadBudget
create_read_budget limit = if ltb limit 1 then none else some (record { limit = limit; spent = 0 })

-- Whether a call is dispatched or throws ReadBudgetExceededError.
pub data Dispatch : Type 0 where
  dispatched : Dispatch
  exceeded : Dispatch

-- One call of a metered client's method: the count goes up before the dispatch.
abbrev pub meter : Method → ReadBudget → Dispatch × ReadBudget
meter method budget =
    if is_metered method
    then if leb budget.limit budget.spent
      then (exceeded, budget)
      else (dispatched, record budget { spent = budget.spent + 1 })
    else (dispatched, budget)

-- Calls in the order in which they are counted.
abbrev pub meter_all : List Method → ReadBudget → List (Method × Dispatch) × ReadBudget
meter_all [] budget = ([], budget)
meter_all (method ∷ methods) budget =
    let first = meter method budget in
    let rest = meter_all methods first.1 in ((method, first.0) ∷ rest.0, rest.1)
