-- ===== src/Clients/BlockSearch/Loop.antt =====
-- The `while` loop of the search.
use yearn_prices.Common.{
  ==_iff, Bool, Bool-cases, Option, arith, dec_lt, false, inl, inr, leb, leb_false→lt, leb→le,
  nat_eq, pair_eq, refl, suc, true, zero, ℕ, ◌&&◌, ◌+◌, ◌-◌, ◌<◌, ◌==◌, ◌≡◌, ◌≢◌, ◌≤◌,
}
use yearn_prices.Common.Int.{ℤ}
use yearn_prices.Clients.BlockSearch.{
  Memory, Outcome, Reply, Round, SearchBounds, after_probe, again, block, conclude, continue_with,
  finished, narrow, search_loop, search_round,
}
use yearn_prices.Clients.BlockSearch.Bounds.{HasHistory, IsBounding, next_probe-bounds}
use yearn_prices.Clients.BlockSearch.Correct.{
  Answers, Concludes, IsOver, IsSettled, IsTruthful, cache_answer-IsTruthful, conclude-Concludes,
  remember_sample-IsTruthful,
}

module _ (scaled : ℕ → ℤ → ℕ → ℤ) {get_block : ℕ → Reply} {time_of : ℕ → ℕ} {first latest : ℕ}
    (history : HasHistory get_block time_of first latest) (chain_id timestamp : ℕ)
    (past : timestamp < time_of latest) where
  -- A probe below the history: the bounds move past it.
  skip-IsBounding :
      (b : SearchBounds) (missing : Bool) (mid : ℕ)
      → IsBounding time_of first latest timestamp b missing
      → b.low ≤ mid
      → mid ≤ b.high
      → mid < first
      → IsBounding time_of first latest timestamp (record b { low = mid + 1 }) true
  skip-IsBounding b missing mid h p q below = ground arith

  -- A probe at a block of another time.
  narrow-IsBounding :
      (b : SearchBounds) (missing : Bool) (mid : ℕ)
      → IsBounding time_of first latest timestamp b missing
      → b.low ≤ mid
      → mid ≤ b.high
      → first ≤ mid
      → time_of mid ≢ timestamp
      → (leb timestamp (time_of mid) && mid == 0) ≡ false
      → IsBounding time_of first latest timestamp
          (narrow scaled get_block chain_id timestamp b mid (time_of mid))
          missing
  narrow-IsBounding b missing mid h p q f ne e =
      ground (arith, history.ordered first b.best, history.ordered (mid - 1 + 1) mid)

  -- What a round leaves for the next one.
  abbrev Progresses : SearchBounds → Round → Type 0
  Progresses b (finished o memory) =
      Concludes time_of first latest chain_id timestamp (finished o memory)
  Progresses b (again b' missing memory) =
      IsBounding time_of first latest timestamp b' missing
      × (b'.high + 1 - b'.low < b.high + 1 - b.low)
      × IsTruthful time_of first latest chain_id memory

  conclude-Progresses :
      (b b' : SearchBounds) (missing : Bool) (memory : Memory)
      → IsBounding time_of first latest timestamp b missing
      → IsOver scaled history chain_id timestamp b
      → IsTruthful time_of first latest chain_id memory
      → Progresses b' (conclude scaled get_block chain_id timestamp b missing memory)
  conclude-Progresses b b' missing memory h over m =
      let c = conclude-Concludes scaled history chain_id timestamp b missing memory h past over m in
      elim (Bool-cases (missing && b.low_timestamp == 0)) [
        | inl gone ↦ rw gone (rw gone at c)
        | inr kept ↦ rw kept (rw kept at c)
      ]

  -- A probe that found a block.
  found-Progresses :
      (b : SearchBounds) (missing : Bool) (memory : Memory) (mid : ℕ)
      → IsBounding time_of first latest timestamp b missing
      → b.low ≤ mid
      → mid ≤ b.high
      → first ≤ mid
      → IsTruthful time_of first latest chain_id memory
      → Progresses b (
          after_probe scaled get_block chain_id timestamp b missing memory mid
            (block (time_of mid)))
  unfolding after_probe
  found-Progresses b missing memory mid h p q f m =
      let m' =
        remember_sample-IsTruthful {chain_id = chain_id} mid (time_of mid) memory f
          (omega (arith, h.top)) refl m in
      elim (Bool-cases (time_of mid == timestamp)) [
        | inl same ↦
            let settled : IsSettled time_of first latest timestamp mid =
              inl (f, omega (arith, h.top), inl ((==_iff _ _).0 same)) in
            rw same (settled, cache_answer-IsTruthful timestamp mid _ settled m')
        | inr other ↦ elim (Bool-cases (leb timestamp (time_of mid) && mid == 0)) [
          | inl genesis ↦
              rw (other, genesis) (conclude-Progresses b b missing _ h (inr (ground arith)) m')
          | inr inner ↦
              rw (other, inner)
                (
                  narrow-IsBounding b missing mid h p q f (ground (arith, other)) inner,
                  ground arith,
                  m',
                )
        ]
      ]

  after_probe-Progresses :
      (b : SearchBounds) (missing : Bool) (memory : Memory) (mid : ℕ)
      → IsBounding time_of first latest timestamp b missing
      → b.low ≤ mid
      → mid ≤ b.high
      → IsTruthful time_of first latest chain_id memory
      → Progresses b
          (after_probe scaled get_block chain_id timestamp b missing memory mid (get_block mid))
  unfolding after_probe
  after_probe-Progresses b missing memory mid h p q m = elim (dec_lt mid first) [
    | yes below ↦
        rw (history.pruned mid below) (skip-IsBounding b missing mid h p q below, omega arith, m)
    | no there ↦
        rw (history.present mid (omega arith) (omega (arith, h.top)))
          (found-Progresses b missing memory mid h p q (omega arith) m)
  ]

  search_round-Progresses :
      (b : SearchBounds) (probes : ℕ) (missing : Bool) (memory : Memory)
      → IsBounding time_of first latest timestamp b missing
      → IsTruthful time_of first latest chain_id memory
      → Progresses b (search_round scaled get_block chain_id timestamp b probes missing memory)
  unfolding search_round
  search_round-Progresses b probes missing memory h m = elim (Bool-cases (leb b.low b.high)) [
    | inl more ↦
        let (p, q) = next_probe-bounds scaled b timestamp probes (leb→le _ _ more) in
        rw more (after_probe-Progresses b missing memory _ h p q m)
    | inr over ↦ rw over (conclude-Progresses b b missing memory h (inl (leb_false→lt _ _ over)) m)
  ]

  continue_with-Answers :
      (b : SearchBounds) (r : Round)
      (next : SearchBounds → Bool → Memory → Option (Outcome × Memory))
      → Progresses b r
      → ((b' : SearchBounds) (missing : Bool) (memory : Memory)
          → Progresses b (again b' missing memory)
          → Answers time_of first latest chain_id timestamp (next b' missing memory))
      → Answers time_of first latest chain_id timestamp (continue_with r next)
  continue_with-Answers b (finished o memory) next h k = (o, memory, refl, h.0, h.1)
  continue_with-Answers b (again b' missing memory) next h k = k b' missing memory h

  pub search_loop-Answers :
      (fuel : ℕ) (b : SearchBounds) (probes : ℕ) (missing : Bool) (memory : Memory)
      → IsBounding time_of first latest timestamp b missing
      → b.high + 1 - b.low < fuel
      → IsTruthful time_of first latest chain_id memory
      → Answers time_of first latest chain_id timestamp
          (search_loop scaled get_block chain_id timestamp fuel b probes missing memory)
  unfolding search_loop
  search_loop-Answers zero b probes missing memory h f m = absurd (omega arith)
  search_loop-Answers (suc fuel) b probes missing memory h f m =
      continue_with-Answers b _ _ (search_round-Progresses b probes missing memory h m)
        (λ b' missing' memory' p.
          search_loop-Answers fuel b' (probes + 1) missing' memory' p.0 (omega (arith, p.1)) p.2)
