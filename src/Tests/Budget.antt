-- ===== src/Tests/Budget.antt =====
-- Reads under a budget of two.
use yearn_prices.Common.{List, [], arith, min, none, refl, some, ◌+◌, ◌-◌, ◌∷◌, ◌≡◌}
use yearn_prices.Sources.Onchain.ReadBudget.{
  Method, ReadBudget, call, create_read_budget, dispatched, exceeded, get_block, meter_all,
  other_method, read_contract,
}
use yearn_prices.Sources.Onchain.ReadBudget.Spending.{
  AllOthers, meter_all-reads, metered_calls, reads,
}

abbrev two_reads : ReadBudget
two_reads = record { limit = 2; spent = 0 }

abbrev sample_methods : List Method
sample_methods = get_block ∷ other_method ∷ read_contract ∷ call ∷ other_method ∷ []

create_read_budget_test : (create_read_budget 2 ≡ some two_reads) × (create_read_budget 0 ≡ none)
create_read_budget_test = (refl, refl)

meter_all_test :
    (meter_all sample_methods two_reads).0
    ≡ (get_block, dispatched)
      ∷ (other_method, dispatched)
      ∷ (read_contract, dispatched)
      ∷ (call, exceeded)
      ∷ (other_method, dispatched)
      ∷ []
meter_all_test = refl

meter_all-reads_example :
    (reads (meter_all sample_methods two_reads).0
      ≡ min (two_reads.limit - two_reads.spent) (metered_calls sample_methods))
    × ((meter_all sample_methods two_reads).1.spent
        ≡ two_reads.spent + reads (meter_all sample_methods two_reads).0)
    × AllOthers (meter_all sample_methods two_reads).0
meter_all-reads_example = meter_all-reads sample_methods two_reads (omega arith)
