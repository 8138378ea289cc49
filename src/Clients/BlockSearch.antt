-- ===== src/Clients/BlockSearch.antt =====
-- src/clients/rpc.ts: the block at a point in time, with its samples and its cache. Block numbers
-- and times are non-negative integers. One call runs at a time: the sharing of a search in flight
-- is not modelled. The client's replies, and the interpolation in floating point, are parameters.
pub mod Bounds
pub mod Correct
pub mod Loop
pub mod Estimate
use yearn_prices.Common.{
  Bool, List, Option, [], drop, false, if◌then◌else◌, leb, length, ltb, nat_eq, none, pair_eq, some,
  suc, true, zero, ℕ, ◌&&◌, ◌++◌, ◌+◌, ◌-◌, ◌/◌, ◌==◌, ◌||◌, ◌∷◌,
}
use yearn_prices.Common.Int.{negsuc, pos, sub_ℕ, ℤ}
use yearn_prices.Common.OrderedMap.{get}
use yearn_prices.Clients.CappedMap.{set_capped}

abbrev pub max_block_cache : ℕ
max_block_cache = 512

abbrev pub max_samples_per_chain : ℕ
max_samples_per_chain = 64

abbrev pub max_interpolation_probes : ℕ
max_interpolation_probes = 8

pub record Sample : Type 0 where
  pub number : ℕ
  pub timestamp : ℕ

-- `client.getBlock`: the block's time, `BlockNotFoundError`, or any other error.
pub data Reply : Type 0 where
  block : ℕ → Reply
  not_found : Reply
  failed : Reply

pub data Outcome : Type 0 where
  resolved : ℕ → Outcome
  throw_missing : Outcome
  throw_other : Outcome

-- The module's caches, for every chain.
pub record Memory : Type 0 where
  pub block_cache : List ((ℕ × ℕ) × ℕ)
  pub block_samples : ℕ → List Sample

pub record SearchBounds : Type 0 where
  pub low : ℕ
  pub high : ℕ
  pub best : ℕ
  pub low_timestamp : ℕ
  pub high_timestamp : ℕ

-- How a round of the search ends: with an outcome, or with bounds for another round.
pub data Round : Type 0 where
  finished : Outcome → Memory → Round
  again : SearchBounds → Bool → Memory → Round

unfoldable pub remember_sample : ℕ → ℕ → ℕ → Memory → Memory
remember_sample chain_id number timestamp memory =
    let samples =
      memory.block_samples chain_id ++ record { number = number; timestamp = timestamp } ∷ [] in
    let kept = if ltb max_samples_per_chain (length samples) then drop 1 samples else samples in
    record memory {
      block_samples = λ chain. if chain == chain_id then kept else memory.block_samples chain;
    }

-- One sample's effect on the bounds that hold so far.
unfoldable pub tighten : ℕ → SearchBounds → Sample → SearchBounds
tighten timestamp b sample =
    let b' =
      if ltb sample.timestamp timestamp && ltb b.low sample.number
      then record b { low = sample.number; low_timestamp = sample.timestamp; best = sample.number }
      else b in
    if ltb timestamp sample.timestamp && ltb sample.number b'.high
    then record b' { high = sample.number; high_timestamp = sample.timestamp }
    else b'

unfoldable pub seed_from : ℕ → SearchBounds → List Sample → SearchBounds
seed_from timestamp b [] = b
seed_from timestamp b (sample ∷ samples) =
    if sample.timestamp == timestamp
    then record {
      low = sample.number;
      high = sample.number;
      best = sample.number;
      low_timestamp = timestamp;
      high_timestamp = timestamp;
    }
    else seed_from timestamp (tighten timestamp b sample) samples

unfoldable pub seed_bounds : List Sample → ℕ → ℕ → ℕ → SearchBounds
unfolding seed_from tighten
seed_bounds samples timestamp latest latest_timestamp =
    seed_from timestamp
      (record {
        low = 0;
        high = latest;
        best = 0;
        low_timestamp = 0;
        high_timestamp = latest_timestamp;
      })
      samples

abbrev pub continue_with :
    Round → (SearchBounds → Bool → Memory → Option (Outcome × Memory)) → Option (Outcome × Memory)
continue_with (finished outcome memory) next = some (outcome, memory)
continue_with (again b missing memory) next = next b missing memory

-- `scaled span above width` stands for `Math.round(Number(span) * (above / width))`.
module _ (scaled : ℕ → ℤ → ℕ → ℤ) where
  unfoldable pub clamp_guess : ℕ → ℕ → ℤ → ℕ
  clamp_guess low high (pos n) = if ltb high (low + n) then high else low + n
  clamp_guess low high (negsuc n) = low

  unfoldable pub next_probe : SearchBounds → ℕ → ℕ → ℕ
  unfolding clamp_guess
  next_probe b timestamp probes =
      if leb max_interpolation_probes probes
        || b.low_timestamp == 0
        || leb b.high_timestamp b.low_timestamp
      then (b.low + b.high) / 2
      else clamp_guess b.low b.high (
          scaled (b.high - b.low) (sub_ℕ timestamp b.low_timestamp)
            (b.high_timestamp - b.low_timestamp))

  module _ (get_block : ℕ → Reply) (chain_id timestamp : ℕ) where
    -- `setCapped(blockCache, cacheKey, …)`
    abbrev cache_answer : ℕ → Memory → Memory
    cache_answer n memory = record memory {
      block_cache = set_capped (chain_id, timestamp) n max_block_cache memory.block_cache;
    }

    -- What follows the loop.
    abbrev conclude : SearchBounds → Bool → Memory → Round
    conclude b missing memory =
        if missing && b.low_timestamp == 0
        then finished throw_missing memory
        else finished (resolved b.best) (cache_answer b.best memory)

    -- The bounds after a probe at `mid` that found a block of another time.
    abbrev narrow : SearchBounds → ℕ → ℕ → SearchBounds
    narrow b mid time =
        if ltb time timestamp
        then record b { best = mid; low = mid + 1; low_timestamp = time }
        else record b { high = mid - 1; high_timestamp = time }

    -- The body of the `while` loop, from the answer of the probe at `mid` on.
    unfoldable pub after_probe : SearchBounds → Bool → Memory → ℕ → Reply → Round
    after_probe b missing memory mid failed = finished throw_other memory
    after_probe b missing memory mid not_found = again (record b { low = mid + 1 }) true memory
    after_probe b missing memory mid (block time) =
        let memory' = remember_sample chain_id mid time memory in
        if time == timestamp
        then finished (resolved mid) (cache_answer mid memory')
        else if leb timestamp time && mid == 0
        then conclude b missing memory'
        else again (narrow b mid time) missing memory'

    unfoldable pub search_round : SearchBounds → ℕ → Bool → Memory → Round
    search_round b probes missing memory =
        let mid = next_probe b timestamp probes in
        if leb b.low b.high
        then after_probe b missing memory mid (get_block mid)
        else conclude b missing memory

    -- The `while` loop; `none` where the fuel runs out.
    unfoldable pub search_loop : ℕ → SearchBounds → ℕ → Bool → Memory → Option (Outcome × Memory)
    search_loop zero b probes missing memory = none
    search_loop (suc fuel) b probes missing memory =
        continue_with (search_round b probes missing memory)
          (λ b'. search_loop fuel b' (probes + 1))

    -- `latest` is the answer of `client.getBlock()` with no argument: its number and its time.
    unfoldable pub search_block_by_timestamp : Option (ℕ × ℕ) → Memory → Option (Outcome × Memory)
    unfolding search_loop search_round after_probe next_probe seed_bounds remember_sample
    search_block_by_timestamp none memory = some (throw_other, memory)
    search_block_by_timestamp (some (latest, latest_timestamp)) memory =
        let memory' = remember_sample chain_id latest latest_timestamp memory in
        if leb latest_timestamp timestamp
        then some (resolved latest, memory')
        else search_loop (latest + 3)
            (seed_bounds (memory'.block_samples chain_id) timestamp latest latest_timestamp) 0 false
            memory'

    unfoldable pub estimate_block_by_timestamp : Option (ℕ × ℕ) → Memory → Option (Outcome × Memory)
    unfolding search_block_by_timestamp
    estimate_block_by_timestamp latest memory =
        elim (get (chain_id, timestamp) memory.block_cache) [
          | some cached ↦ some (resolved cached, cache_answer cached memory)
          | none ↦ search_block_by_timestamp latest memory
        ]
