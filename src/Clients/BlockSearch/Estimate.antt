-- ===== src/Clients/BlockSearch/Estimate.antt =====
-- The block at a timestamp, from the cache or by a search.
use yearn_prices.Common.{
  ==_iff, All-implies, Bool-cases, Option, Option-cases, arith, false, inl, inr, leb, leb_false→lt,
  leb→le, le→leb, nat_eq, pair_eq, refl, some, string_eq, suc, zero, ℕ, ◌+◌, ◌<◌, ◌≡◌, ◌≤◌, ◌⊎◌,
}
use yearn_prices.Common.Int.{ℤ}
use yearn_prices.Common.OrderedMap.{get}
use yearn_prices.Clients.BlockSearch.Loop.{search_loop-Answers}
use yearn_prices.Clients.BlockSearch.Bounds.{
  HasHistory, IsExact, IsSample, next_probe-bounds, seed_bounds-IsBounding,
}
use yearn_prices.Clients.BlockSearch.{
  Memory, Outcome, Reply, SearchBounds, after_probe, cache_answer, estimate_block_by_timestamp,
  next_probe, remember_sample, resolved, search_block_by_timestamp, search_loop, search_round,
  seed_bounds, throw_missing, throw_other,
}
use yearn_prices.Clients.BlockSearch.Bounds.{
  HasHistory, IsExact, IsSample, next_probe-bounds, seed_bounds-IsBounding,
}
use yearn_prices.Clients.BlockSearch.Correct.{
  Answers, IsSettled, IsTruthful, cache_answer-IsTruthful, remember_sample-IsTruthful,
}

-- What the caller may rely on: the block stands at the time, or it is the newest one and not later
-- than it; an error for missing history only where the whole readable history is later.
abbrev pub Stands : (ℕ → ℕ) → ℕ → ℕ → ℕ → Outcome → Type 0
Stands time_of first latest t (resolved n) =
    IsSettled time_of first latest t n ⊎ ((n ≡ latest) × (time_of latest ≤ t))
Stands time_of first latest t throw_missing = (0 < first) × (t < time_of first)
Stands time_of first latest t throw_other = ⊥

-- A call that ended with such an outcome, and left the caches truthful.
abbrev pub Estimates : (ℕ → ℕ) → ℕ → ℕ → ℕ → ℕ → Option (Outcome × Memory) → Type 0
Estimates time_of first latest chain_id t result =
    (o : Outcome) × (memory : Memory) × (result ≡ some (o, memory))
    × Stands time_of first latest t o
    × IsTruthful time_of first latest chain_id memory

module _ (time_of : ℕ → ℕ) (first latest chain_id timestamp : ℕ) where
  Estimates-of_Answers :
      (result : Option (Outcome × Memory))
      → Answers time_of first latest chain_id timestamp result
      → Estimates time_of first latest chain_id timestamp result
  Estimates-of_Answers result (resolved n, memory, e, a, m) = (resolved n, memory, e, inl a, m)
  Estimates-of_Answers result (throw_missing, memory, e, a, m) = (throw_missing, memory, e, a, m)
  Estimates-of_Answers result (throw_other, memory, e, a, m) = absurd a

module _ (scaled : ℕ → ℤ → ℕ → ℤ) {get_block : ℕ → Reply} {time_of : ℕ → ℕ} {first latest : ℕ}
    (history : HasHistory get_block time_of first latest) (chain_id timestamp : ℕ) where
  -- Bounds that hold one block of the very time: the first probe is the answer.
  exact-Answers :
      (fuel probes : ℕ) (b : SearchBounds) (memory : Memory)
      → 0 < fuel
      → IsExact time_of first latest timestamp b
      → IsTruthful time_of first latest chain_id memory
      → Answers time_of first latest chain_id timestamp
          (search_loop scaled get_block chain_id timestamp fuel b probes false memory)
  unfolding search_loop search_round after_probe
  exact-Answers zero probes b memory pos_fuel exact m = absurd (omega arith)
  exact-Answers (suc fuel) probes b memory pos_fuel (e, f, l, t) m =
      let (p, q) = next_probe-bounds scaled b timestamp probes (omega arith) in
      let same : next_probe scaled b timestamp probes ≡ b.low = omega arith in
      let settled : IsSettled time_of first latest timestamp b.low = inl (f, l, inl t) in
      let m' =
        remember_sample-IsTruthful {chain_id = chain_id} b.low (time_of b.low) memory f l refl m in
      rw (le→leb b.low b.high (omega arith), same, history.present b.low f l, (==_iff _ _).1 t)
        (
          resolved b.low,
          cache_answer scaled get_block chain_id timestamp b.low
              (remember_sample chain_id b.low (time_of b.low) memory),
          refl,
          settled,
          cache_answer-IsTruthful timestamp b.low _ settled m',
        )

  -- The loop from the seeded bounds.
  seeded-Answers :
      (fuel : ℕ) (memory : Memory)
      → timestamp < time_of latest
      → latest + 1 < fuel
      → IsTruthful time_of first latest chain_id memory
      → Answers time_of first latest chain_id timestamp (
          search_loop scaled get_block chain_id timestamp fuel
            (seed_bounds (memory.block_samples chain_id) timestamp latest (time_of latest))
            0
            false
            memory)
  seeded-Answers fuel memory past f m =
      elim (seed_bounds-IsBounding time_of first latest timestamp history.ordered
        (memory.block_samples chain_id) past history.nonempty m.sampled) [
          | inl bounding ↦
              search_loop-Answers scaled history chain_id timestamp past fuel _ 0 false memory
                bounding (omega (arith, bounding.top)) m
          | inr exact ↦ exact-Answers fuel 0 _ memory (omega arith) exact m
        ]

  search-Estimates :
      (memory : Memory)
      → IsTruthful time_of first latest chain_id memory
      → Estimates time_of first latest chain_id timestamp (
          search_block_by_timestamp scaled get_block chain_id timestamp
            (some (latest, time_of latest))
            memory)
  unfolding search_block_by_timestamp
  search-Estimates memory m =
      let m' =
        remember_sample-IsTruthful {chain_id = chain_id} latest (time_of latest) memory
          history.nonempty (omega arith) refl m in
      elim (Bool-cases (leb (time_of latest) timestamp)) [
        | inl newest ↦ rw newest (
          resolved latest,
          remember_sample chain_id latest (time_of latest) memory,
          refl,
          inr (refl, leb→le _ _ newest),
          m',
        )
        | inr past ↦ rw past (
            Estimates-of_Answers time_of first latest chain_id timestamp _ (
              seeded-Answers (latest + 3) (remember_sample chain_id latest (time_of latest) memory)
                (leb_false→lt _ _ past) (omega arith) m'))
      ]

  -- Over a chain whose block times never fall, with a provider that answers for every block from
  -- `first` to the newest and reports those below as not found, and with caches that are true of
  -- the chain, a call ends. It returns a block that stands at the timestamp (one of that very
  -- time, or the last one before it, or the genesis of a chain that begins later, or the newest
  -- block where that is not later), or it throws the missing-block error where every block that
  -- can be read is later; and the caches are again true of the chain.
  pub estimate-Estimates :
      (memory : Memory)
      → IsTruthful time_of first latest chain_id memory
      → Estimates time_of first latest chain_id timestamp (
          estimate_block_by_timestamp scaled get_block chain_id timestamp
            (some (latest, time_of latest))
            memory)
  unfolding estimate_block_by_timestamp
  estimate-Estimates memory m = elim (Option-cases (get (chain_id, timestamp) memory.block_cache)) [
    | inl unknown ↦ rw (unknown, estimate_block_by_timestamp) (search-Estimates memory m)
    | inr (n, known) ↦
        let settled = m.cached timestamp n known in
        rw (known, estimate_block_by_timestamp)
          (
            resolved n,
            cache_answer scaled get_block chain_id timestamp n memory,
            refl,
            inl settled,
            cache_answer-IsTruthful timestamp n memory settled m,
          )
  ]

-- Caches that are true of a chain stay true of it when new blocks are added.
pub IsTruthful-grows :
    (time_of : ℕ → ℕ) (first latest latest' chain_id : ℕ) (memory : Memory)
    → latest ≤ latest'
    → IsTruthful time_of first latest chain_id memory
    → IsTruthful time_of first latest' chain_id memory
IsTruthful-grows time_of first latest latest' chain_id memory h m = record {
  sampled =
      All-implies (IsSample time_of first latest) (IsSample time_of first latest') _
        (λ s p. (p.0, omega (arith, p.1), p.2)) m.sampled;
  unique = m.unique;
  small = m.small;
  cached = λ t n e. ground (arith, m.cached t n e);
}
