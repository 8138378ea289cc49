-- ===== src/Clients/BlockSearch/Bounds.antt =====
-- A chain's history as the search sees it, the probe's range, and the bounds that the samples give.
use yearn_prices.Common.{
  ==_iff, All, Bool, Bool-cases, List, [], arith, false, inl, inr, refl, true, ℕ, ◌+◌, ◌-◌, ◌<◌,
  ◌==◌, ◌∷◌, ◌≡◌, ◌≢◌, ◌≤◌, ◌⊎◌,
}
use yearn_prices.Common.Int.{negsuc, pos, sub_ℕ, ℤ}
use yearn_prices.Clients.BlockSearch.{
  Reply, Sample, SearchBounds, block, clamp_guess, next_probe, not_found, seed_bounds, seed_from,
  tighten,
}

-- Blocks from `first` to `latest` can be read and their times never fall; a provider that has
-- pruned its history answers `not_found` below `first`.
pub record HasHistory (get_block : ℕ → Reply) (time_of : ℕ → ℕ) (first latest : ℕ) : Type 0 where
  pub ordered : (m n : ℕ) → m ≤ n → time_of m ≤ time_of n
  pub pruned : (n : ℕ) → n < first → get_block n ≡ not_found
  pub present : (n : ℕ) → first ≤ n → n ≤ latest → get_block n ≡ block (time_of n)
  pub dated : 0 < first → 0 < time_of first
  pub nonempty : first ≤ latest

module _ (scaled : ℕ → ℤ → ℕ → ℤ) where
  clamp_guess-bounds :
      (low high : ℕ) (g : ℤ)
      → low ≤ high
      → (low ≤ clamp_guess scaled low high g) × (clamp_guess scaled low high g ≤ high)
  unfolding clamp_guess
  clamp_guess-bounds low high (pos n) h = ground arith
  clamp_guess-bounds low high (negsuc n) h = ground arith

  -- Whatever the rounding gives, a probe stays within the bounds.
  pub next_probe-bounds :
      (b : SearchBounds) (timestamp probes : ℕ)
      → b.low ≤ b.high
      → (b.low ≤ next_probe scaled b timestamp probes)
        × (next_probe scaled b timestamp probes ≤ b.high)
  unfolding next_probe
  next_probe-bounds b timestamp probes h = ground (
    arith,
    clamp_guess-bounds b.low b.high
        (scaled (b.high - b.low) (sub_ℕ timestamp b.low_timestamp)
          (b.high_timestamp - b.low_timestamp))
        h,
  )

module _ (time_of : ℕ → ℕ) (first latest : ℕ) where
  -- The chain holds the sample.
  abbrev pub IsSample : Sample → Type 0
  IsSample s = (first ≤ s.number) × (s.number ≤ latest) × (s.timestamp ≡ time_of s.number)

  module _ (timestamp : ℕ) where
    -- The bounds before anything at or before the time is known, and after.
    abbrev pub IsUnseen : SearchBounds → Bool → Type 0
    IsUnseen b missing =
        (b.low ≤ first) × (b.best ≡ 0) × (b.low_timestamp ≡ 0) × ((b.low ≡ 0) ⊎ (missing ≡ true))

    abbrev pub IsSeen : SearchBounds → Type 0
    IsSeen b =
        (first ≤ b.best)
        × (time_of b.best < timestamp)
        × (b.best ≤ b.low)
        × (b.low ≤ b.best + 1)
        × (b.low_timestamp ≡ time_of b.best)

    pub record IsBounding (b : SearchBounds) (missing : Bool) : Type 0 where
      pub top : b.high ≤ latest
      pub above : timestamp < time_of (b.high + 1)
      pub reaches : first ≤ b.high + 1
      pub below : IsUnseen b missing ⊎ IsSeen b
      pub was_pruned : missing ≡ true → 0 < first

    -- The bounds on one block that has exactly the time.
    abbrev pub IsExact : SearchBounds → Type 0
    IsExact b = (b.low ≡ b.high) × (first ≤ b.low) × (b.low ≤ latest) × (time_of b.low ≡ timestamp)

    module _ (ordered : (m n : ℕ) → m ≤ n → time_of m ≤ time_of n) where
      tighten-IsBounding :
          (b : SearchBounds) (s : Sample)
          → IsBounding b false
          → IsSample s
          → s.timestamp ≢ timestamp
          → IsBounding (tighten timestamp b s) false
      unfolding tighten
      tighten-IsBounding b s h k ne =
          ground (arith, ordered s.number (s.number + 1), ordered (b.high + 1) s.number)

      seed_from-IsBounding :
          (b : SearchBounds) (samples : List Sample)
          → IsBounding b false
          → All IsSample samples
          → IsBounding (seed_from timestamp b samples) false
            ⊎ IsExact (seed_from timestamp b samples)
      unfolding seed_from
      seed_from-IsBounding b [] h k = inl h
      seed_from-IsBounding b (s ∷ samples) h (p, k) = elim (Bool-cases (s.timestamp == timestamp)) [
        | inl same ↦ rw same (inr (refl, p.0, p.1, omega (arith, (==_iff _ _).0 same, p.2)))
        | inr other ↦ rw other (
            seed_from-IsBounding (tighten timestamp b s) samples
              (tighten-IsBounding b s h p (ground (arith, other))) k)
      ]

      -- The bounds to begin with, where the newest block is later than the time.
      pub seed_bounds-IsBounding :
          (samples : List Sample)
          → timestamp < time_of latest
          → first ≤ latest
          → All IsSample samples
          → IsBounding (seed_bounds samples timestamp latest (time_of latest)) false
            ⊎ IsExact (seed_bounds samples timestamp latest (time_of latest))
      unfolding seed_bounds
      seed_bounds-IsBounding samples past f k =
          seed_from-IsBounding _ samples (ground (arith, ordered latest (latest + 1))) k
