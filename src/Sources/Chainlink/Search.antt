-- ===== src/Sources/Chainlink/Search.antt =====
-- The search of a phase: it ends, and on an ordered phase it finds the newest round in time.
use yearn_prices.Common.{
  Bool-cases, Option, arith, inl, inr, leb, leb→le, ltb, ltb_false→le, none, refl, some, suc, zero,
  ℕ, ◌%◌, ◌+◌, ◌-◌, ◌/◌, ◌<◌, ◌≡◌, ◌≤◌, ◌⊎◌,
}
use yearn_prices.Sources.Chainlink.{
  Client, Read, Reply, RoundData, Searched, Window, after_top, answers, awaited, encode_round_id,
  exhausted, fails, got, narrow, older, phase_size, positive_round, raised, round_at, search_loop,
  search_phase, searched, unfinished, unreadable,
}

pub Read-cases : {A : Type 0} (r : Reply A) → (awaited r ≡ raised) ⊎ ((a : A) × (awaited r ≡ got a))
Read-cases (answers a) = inr (a, refl)
Read-cases fails = inl refl

module _ (client : Client) (feed timestamp : ℕ) where
  -- The search ended, and a round that it found is in time.
  abbrev pub IsSearched : Read Searched → Type 0
  IsSearched unfinished = ⊥
  IsSearched raised = Unit
  IsSearched (got (older round)) = round.updated_at ≤ timestamp
  IsSearched (got exhausted) = Unit
  IsSearched (got unreadable) = Unit

  abbrev InTime : Option RoundData → Type 0
  InTime none = Unit
  InTime (some round) = round.updated_at ≤ timestamp

  round_at-cases :
      (phase n : ℕ)
      → (round_at client feed timestamp phase n ≡ raised)
        ⊎ ((o : Option RoundData) × (round_at client feed timestamp phase n ≡ got o))
  unfolding round_at
  round_at-cases phase n =
      elim (Read-cases (client.get_round_data feed (encode_round_id phase n))) [
        | inl e ↦ inl (rw e)
        | inr p ↦ inr (positive_round p.0, rw (p.1))
      ]

  -- The window is one that the fuel is enough for.
  abbrev Fits : ℕ → Window → Type 0
  Fits fuel w = (1 ≤ w.lo) × (w.lo ≤ w.hi + 1) × (w.hi + 1 < w.lo + fuel) × InTime w.best

  narrow-Fits :
      (fuel : ℕ) (w : Window) (candidate : Option RoundData)
      → Fits (suc fuel) w
      → w.lo ≤ w.hi
      → Fits fuel (narrow client feed timestamp w ((w.lo + w.hi) / 2) candidate)
  narrow-Fits fuel w none h le = ground arith
  narrow-Fits fuel w (some candidate) h le = ground arith

  searched-IsSearched : (o : Option RoundData) → InTime o → IsSearched (got (searched o))
  searched-IsSearched none h = tt
  searched-IsSearched (some round) h = h

  search_loop-IsSearched :
      (fuel phase : ℕ) (w : Window)
      → Fits fuel w
      → IsSearched (search_loop client feed timestamp fuel phase w)
  unfolding search_loop
  search_loop-IsSearched zero phase w h = omega arith
  search_loop-IsSearched (suc fuel) phase w h = elim (Bool-cases (leb w.lo w.hi)) [
    | inr done ↦ rw done (searched-IsSearched w.best (h.3))
    | inl more ↦ rw more (elim (round_at-cases phase ((w.lo + w.hi) / 2)) [
      | inl e ↦ rw e tt
      | inr p ↦
          rw (p.1)
            (search_loop-IsSearched fuel phase _ (narrow-Fits fuel w (p.0) h (leb→le _ _ more)))
    ])
  ]

  after_top-IsSearched :
      (phase hi : ℕ) (top : Option RoundData)
      → 1 ≤ hi
      → IsSearched (after_top client feed timestamp phase hi top)
  after_top-IsSearched phase hi none h = tt
  after_top-IsSearched phase hi (some top) h = elim (Bool-cases (leb top.updated_at timestamp)) [
    | inl in_time ↦ rw in_time (leb→le _ _ in_time)
    | inr late ↦ rw late (search_loop-IsSearched (hi + 1) phase _ (omega arith))
  ]

  pub search_phase-IsSearched :
      (after_round_id : ℕ) → IsSearched (search_phase client feed timestamp after_round_id)
  unfolding search_phase
  search_phase-IsSearched after_round_id =
      elim (Bool-cases (ltb (after_round_id % phase_size - 1) 1)) [
        | inl none_before ↦ rw none_before tt
        | inr some_before ↦
            rw some_before
              (elim (round_at-cases (after_round_id / phase_size)
                (after_round_id % phase_size - 1)) [
                  | inl e ↦ rw e tt
                  | inr p ↦ rw (p.1) (after_top-IsSearched _ _ (p.0) (ltb_false→le _ _ some_before))
                ])
      ]
