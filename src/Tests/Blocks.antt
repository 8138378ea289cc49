-- ===== src/Tests/Blocks.antt =====
-- The block search on a chain whose block `n` has time `10 n + 5` and whose blocks below 3 are
-- pruned.
use yearn_prices.Common.{
  Option, [], arith, if◌then◌else◌, ltb, none, refl, some, ℕ, ◌*◌, ◌+◌, ◌/◌, ◌≡◌,
}
use yearn_prices.Common.Int.{negsuc, pos, ℤ}
use yearn_prices.Clients.BlockSearch.{
  Memory, Outcome, Reply, after_probe, block, estimate_block_by_timestamp, next_probe, not_found,
  remember_sample, resolved, search_block_by_timestamp, search_loop, search_round, seed_bounds,
}
use yearn_prices.Clients.BlockSearch.Bounds.{HasHistory}
use yearn_prices.Clients.BlockSearch.Correct.{IsTruthful}
use yearn_prices.Clients.BlockSearch.Estimate.{Estimates, estimate-Estimates}

abbrev time_of : ℕ → ℕ
time_of n = 10 * n + 5

abbrev get_block : ℕ → Reply
get_block n = if ltb n 3 then not_found else if ltb 40 n then not_found else block (time_of n)

abbrev scaled : ℕ → ℤ → ℕ → ℤ
scaled span (pos above) width = pos (span * above / width)
scaled span (negsuc n) width = negsuc n

chain : HasHistory get_block time_of 3 40
chain = record {
  ordered = λ m n h. omega arith;
  pruned = λ n h. ground arith;
  present = λ n f l. ground arith;
  dated = λ h. omega arith;
  nonempty = omega arith;
}

abbrev no_memory : Memory
no_memory = record { block_cache = []; block_samples = λ c. [] }

no_memory-IsTruthful : IsTruthful time_of 3 40 1 no_memory
no_memory-IsTruthful = record {
  sampled = tt;
  unique = tt;
  small = omega arith;
  cached = λ t n e. cc;
}

estimate-Estimates_example :
    Estimates time_of 3 40 1 207
      (estimate_block_by_timestamp scaled get_block 1 207 (some (40, 405)) no_memory)
estimate-Estimates_example = estimate-Estimates scaled chain 1 207 no_memory no_memory-IsTruthful

abbrev outcome_of : Option (Outcome × Memory) → Option Outcome
outcome_of none = none
outcome_of (some (o, m)) = some o

-- Time 207 lies between blocks 20 and 21.
found_block :
    outcome_of (estimate_block_by_timestamp scaled get_block 1 207 (some (40, 405)) no_memory)
    ≡ some (resolved 20)
unfolding estimate_block_by_timestamp search_block_by_timestamp search_loop search_round after_probe
    next_probe seed_bounds remember_sample
found_block = refl
