-- ===== src/Sources/Chainlink/Walk.antt =====
-- The walk from the newest round back through the phases.
use yearn_prices.Common.{
  Bool-cases, Option, arith, inl, inr, leb, ltb, ltb_false→le, ltb→lt, none, refl, some, suc, zero,
  ℕ, ◌+◌, ◌-◌, ◌/◌, ◌<◌, ◌==◌, ◌≡◌, ◌≤◌, ◌⊎◌,
}
use yearn_prices.Sources.Chainlink.{
  Client, Read, RoundData, Searched, after_search, exhausted, got, in_phase, latest_in_phase,
  max_phase_hops, older, phase_size, previous_phase_round, raised, search_phase, unfinished,
  unreadable, walk, ◌>>=◌,
}
use yearn_prices.Sources.Chainlink.Search.{IsSearched, Read-cases, search_phase-IsSearched}

module _ (client : Client) (feed timestamp : ℕ) where
  -- The walk ended, and a round that it gives is in time.
  abbrev pub IsWalked : Read (Option RoundData) → Type 0
  IsWalked unfinished = ⊥
  IsWalked raised = Unit
  IsWalked (got none) = Unit
  IsWalked (got (some round)) = round.updated_at ≤ timestamp

  previous_phase_round-cases :
      (id : ℕ)
      → (previous_phase_round client feed timestamp id ≡ raised)
        ⊎ ((o : Option RoundData) × (previous_phase_round client feed timestamp id ≡ got o))
  unfolding previous_phase_round
  previous_phase_round-cases id = elim (Bool-cases (leb (id / phase_size) 1)) [
    | inl first ↦ inr (none, rw first)
    | inr later ↦
        rw later (elim (Read-cases (client.phase_aggregators feed (id / phase_size - 1))) [
          | inl e ↦ inl (rw e)
          | inr p ↦ rw (p.1) (latest_in_phase-cases (id / phase_size - 1) (p.0))
        ])
  ]
    where
      latest_in_phase-cases :
          (phase : ℕ) (o : Option ℕ)
          → (latest_in_phase client feed timestamp phase o ≡ raised)
            ⊎ ((r : Option RoundData) × (latest_in_phase client feed timestamp phase o ≡ got r))
      latest_in_phase-cases phase none = inr (none, refl)
      latest_in_phase-cases phase (some a) = elim (Bool-cases (a == 0)) [
        | inl zero_address ↦ inr (none, rw zero_address)
        | inr other ↦ rw other (elim (Read-cases (client.latest_round_data a)) [
          | inl e ↦ inl (rw e)
          | inr p ↦ inr (in_phase phase (p.0), rw (p.1))
        ])
      ]

  module _ (hops : ℕ) (round : RoundData) (next : RoundData → Read (Option RoundData))
      (walks : (r : RoundData)
        → (hops < max_phase_hops) ⊎ (r.updated_at ≤ timestamp)
        → IsWalked (next r)) where
    next-IsWalked :
        (o : Option RoundData)
        → hops < max_phase_hops
        → IsWalked (elim o [ none ↦ got none | some found ↦ next found ])
    next-IsWalked none h = tt
    next-IsWalked (some found) h = walks found (inl h)

    after_search-IsWalked :
        (s : Read Searched)
        → IsSearched client feed timestamp s
        → IsWalked (s >>= after_search client feed timestamp hops round next)
    after_search-IsWalked unfinished h = elim h [ ]
    after_search-IsWalked raised h = tt
    after_search-IsWalked (got unreadable) h = tt
    after_search-IsWalked (got (older found)) h = walks found (inr h)
    after_search-IsWalked (got exhausted) h = elim (Bool-cases (ltb hops max_phase_hops)) [
      | inr last ↦ rw last tt
      | inl more ↦ rw more (elim (previous_phase_round-cases round.round_id) [
        | inl e ↦ rw e tt
        | inr p ↦ rw (p.1) (next-IsWalked (p.0) (ltb→lt _ _ more))
      ])
    ]

  pub walk-IsWalked :
      (fuel hops : ℕ) (round : RoundData)
      → ((hops ≤ max_phase_hops) × (max_phase_hops + 2 ≤ fuel + hops))
        ⊎ ((1 ≤ fuel) × (round.updated_at ≤ timestamp))
      → IsWalked (walk client feed timestamp fuel hops round)
  unfolding walk
  walk-IsWalked zero hops round h = omega arith
  walk-IsWalked (suc fuel) hops round h = elim (Bool-cases (ltb timestamp round.updated_at)) [
    | inr in_time ↦ rw in_time (ltb_false→le _ _ in_time)
    | inl late ↦ rw late (
        after_search-IsWalked hops round (walk client feed timestamp fuel (hops + 1))
          (λ r k. walk-IsWalked fuel (hops + 1) r (elim k [
            | inl more ↦ inl (omega (arith, ltb→lt _ _ late), omega (arith, ltb→lt _ _ late))
            | inr in_time ↦ inr (omega (arith, ltb→lt _ _ late), in_time)
          ]))
          (search_phase client feed timestamp round.round_id)
          (search_phase-IsSearched client feed timestamp round.round_id))
  ]
