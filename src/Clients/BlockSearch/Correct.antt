-- ===== src/Clients/BlockSearch/Correct.antt =====
-- What it means that a block stands at a time, and that the caches are true of the chain.
use yearn_prices.Common.{
  All, All-append, Bool, Bool-cases, List, Option, [], arith, drop, false, inl, inr, length, nat_eq,
  pair_eq, some, true, ℕ, ◌&&◌, ◌++◌, ◌+◌, ◌<◌, ◌==◌, ◌∷◌, ◌≡◌, ◌≤◌, ◌⊎◌,
}
use yearn_prices.Common.Int.{ℤ}
use yearn_prices.Common.OrderedMap.{HasUniqueKeys, get}
use yearn_prices.Clients.CappedMap.{get-set_capped, set_capped, set_capped-bounded}
use yearn_prices.Clients.BlockSearch.{
  Memory, Outcome, Reply, Round, Sample, SearchBounds, again, conclude, finished, max_block_cache,
  remember_sample, resolved, throw_missing, throw_other,
}
use yearn_prices.Clients.BlockSearch.Bounds.{HasHistory, IsBounding, IsSample}

module _ (time_of : ℕ → ℕ) (first latest : ℕ) where
  -- Block `n` stands at time `t` and no later block will change that: it has the very time, or it
  -- is the last one before it and the chain has gone on past the time; or the chain begins later.
  abbrev pub IsSettled : ℕ → ℕ → Type 0
  IsSettled t n =
      ((first ≤ n) × (n ≤ latest) × ((time_of n ≡ t) ⊎ ((time_of n < t) × (t < time_of (n + 1)))))
      ⊎ ((n ≡ 0) × (first ≡ 0) × (t < time_of 0))

  -- What an outcome says of the chain.
  abbrev pub IsAnswer : ℕ → Outcome → Type 0
  IsAnswer t (resolved n) = IsSettled t n
  IsAnswer t throw_missing = (0 < first) × (t < time_of first)
  IsAnswer t throw_other = ⊥

  -- The module's caches tell the truth about the chain.
  pub record IsTruthful (chain_id : ℕ) (memory : Memory) : Type 0 where
    pub sampled : All (IsSample time_of first latest) (memory.block_samples chain_id)
    pub unique : HasUniqueKeys memory.block_cache
    pub small : length memory.block_cache ≤ max_block_cache
    pub cached : (t n : ℕ) → get (chain_id, t) memory.block_cache ≡ some n → IsSettled t n

All-drop : {A : Type 0} (P : A → Type 0) (xs : List A) → All P xs → All P (drop 1 xs)
All-drop P [] h = tt
All-drop P (x ∷ xs) h = h.1

module _ {time_of : ℕ → ℕ} {first latest chain_id : ℕ} where
  pub remember_sample-IsTruthful :
      (n time : ℕ) (memory : Memory)
      → first ≤ n
      → n ≤ latest
      → time ≡ time_of n
      → IsTruthful time_of first latest chain_id memory
      → IsTruthful time_of first latest chain_id (remember_sample chain_id n time memory)
  unfolding remember_sample
  remember_sample-IsTruthful n time memory f l e h =
      let samples : List Sample =
        memory.block_samples chain_id ++ record { number = n; timestamp = time } ∷ [] in
      let kept : All (IsSample time_of first latest) samples =
        All-append (IsSample time_of first latest) (memory.block_samples chain_id) _ h.sampled
          ((f, l, e), tt) in
      record {
        sampled = ground (arith, kept, All-drop (IsSample time_of first latest) samples kept);
        unique = h.unique;
        small = h.small;
        cached = h.cached;
      }

  pub cache_answer-IsTruthful :
      (t n : ℕ) (memory : Memory)
      → IsSettled time_of first latest t n
      → IsTruthful time_of first latest chain_id memory
      → IsTruthful time_of first latest chain_id (record memory {
        block_cache = set_capped (chain_id, t) n max_block_cache memory.block_cache;
      })
  cache_answer-IsTruthful t n memory s h = record {
    sampled = h.sampled;
    unique =
        (set_capped-bounded (chain_id, t) n max_block_cache memory.block_cache h.unique
          (omega arith) h.small).0;
    small =
        (set_capped-bounded (chain_id, t) n max_block_cache memory.block_cache h.unique
          (omega arith) h.small).1;
    cached = λ u m e. ground (
      arith,
      get-set_capped (chain_id, t) (chain_id, u) n m max_block_cache memory.block_cache h.unique e,
      h.cached u m,
    );
  }

module _ (time_of : ℕ → ℕ) (first latest chain_id : ℕ) where
  -- A round that ended with an outcome true of the chain and left the caches truthful.
  abbrev pub Concludes : ℕ → Round → Type 0
  Concludes t (finished o memory) =
      IsAnswer time_of first latest t o × IsTruthful time_of first latest chain_id memory
  Concludes t (again b missing memory) = ⊥

  -- A call that ended with an outcome true of the chain, and left the caches truthful.
  abbrev pub Answers : ℕ → Option (Outcome × Memory) → Type 0
  Answers t result =
      (o : Outcome) × (memory : Memory) × (result ≡ some (o, memory))
      × IsAnswer time_of first latest t o
      × IsTruthful time_of first latest chain_id memory

module _ (scaled : ℕ → ℤ → ℕ → ℤ) {get_block : ℕ → Reply} {time_of : ℕ → ℕ} {first latest : ℕ}
    (history : HasHistory get_block time_of first latest) (chain_id timestamp : ℕ) where
  -- The end of the loop: the bounds have crossed, or the first block is later than the time.
  abbrev pub IsOver : SearchBounds → Type 0
  IsOver b = (b.high < b.low) ⊎ ((first ≡ 0) × (timestamp < time_of 0))

  IsSettled-at_end :
      (b : SearchBounds) (missing : Bool)
      → IsBounding time_of first latest timestamp b missing
      → timestamp < time_of latest
      → IsOver b
      → (missing && b.low_timestamp == 0) ≡ false
      → IsSettled time_of first latest timestamp b.best
  IsSettled-at_end b missing h past over e = ground (
    arith,
    history.ordered b.best latest,
    history.ordered 0 b.best,
    history.ordered (b.high + 1) b.best,
    history.ordered first b.best,
  )

  missing_at_end :
      (b : SearchBounds) (missing : Bool)
      → IsBounding time_of first latest timestamp b missing
      → IsOver b
      → (missing && b.low_timestamp == 0) ≡ true
      → (0 < first) × (timestamp < time_of first)
  missing_at_end b missing h over e =
      ground
        (arith, history.dated, history.ordered first b.best, history.ordered (b.high + 1) first)

  pub conclude-Concludes :
      (b : SearchBounds) (missing : Bool) (memory : Memory)
      → IsBounding time_of first latest timestamp b missing
      → timestamp < time_of latest
      → IsOver b
      → IsTruthful time_of first latest chain_id memory
      → Concludes time_of first latest chain_id timestamp
          (conclude scaled get_block chain_id timestamp b missing memory)
  conclude-Concludes b missing memory h past over m =
      elim (Bool-cases (missing && b.low_timestamp == 0)) [
        | inl gone ↦ rw gone (missing_at_end b missing h over gone, m)
        | inr kept ↦
            let settled = IsSettled-at_end b missing h past over kept in
            rw kept (settled, cache_answer-IsTruthful timestamp b.best memory settled m)
      ]
