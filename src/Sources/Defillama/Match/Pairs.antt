-- ===== src/Sources/Defillama/Match/Pairs.antt =====
-- What the pairs are: a day that is not matched and an unused sample that fits it.
use yearn_prices.Common.OrderedMap.{has}
use yearn_prices.Common.{
  All, All-append, Bool-cases, In, In-append_left, In-append_right, List, [], arith, false, inl,
  inr, nat_eq, not, pair_eq, refl, string_eq, sym, true, ℕ, ◌&&◌, ◌∙◌, ◌∷◌, ◌≡◌,
}
use yearn_prices.Sources.Defillama.Match.{
  Assignment, DefillamaSample, SamplePair, all_pairs, delta_of, entries_from, fits, is_used,
  pairs_for,
}

-- A sample's place that fits a day within a number of seconds.
abbrev pub Fits : List DefillamaSample → ℕ → ℕ → ℕ → Type 0
Fits samples max_delta requested i =
    (sample : DefillamaSample) × In (i, sample) (entries_from 0 samples)
    × (fits requested max_delta sample ≡ true)

module _ (max_delta : ℕ) (used : List ℕ) where
  abbrev IsPair : List (ℕ × DefillamaSample) → ℕ → SamplePair → Type 0
  IsPair entries requested p =
      (p.requested ≡ requested)
      × (sample : DefillamaSample) × In (p.sample_index, sample) entries
      × (fits requested max_delta sample ≡ true)

  IsPair-later :
      (e : ℕ × DefillamaSample) (entries : List (ℕ × DefillamaSample)) (requested : ℕ)
      (pairs : List SamplePair)
      → All (IsPair entries requested) pairs
      → All (IsPair (e ∷ entries) requested) pairs
  IsPair-later e entries requested [] h = tt
  IsPair-later e entries requested (p ∷ pairs) ((r, s, m, f), h) =
      ((r, s, inr m, f), IsPair-later e entries requested pairs h)

  pairs_for-IsPair :
      (requested : ℕ) (entries : List (ℕ × DefillamaSample))
      → All (IsPair entries requested) (pairs_for requested max_delta used entries)
  unfolding pairs_for
  pairs_for-IsPair requested [] = tt
  pairs_for-IsPair requested ((i, sample) ∷ entries) =
      let rest =
        IsPair-later (i, sample) entries requested _ (pairs_for-IsPair requested entries) in
      elim (Bool-cases (not (is_used i used) && fits requested max_delta sample)) [
        | inl fit ↦ rw fit ((refl, sample, inl refl, ground (arith, fit)), rest)
        | inr none_fit ↦ rw none_fit rest
      ]

  -- Every unused sample that fits is paired.
  pairs_for_complete :
      (requested i : ℕ) (sample : DefillamaSample) (entries : List (ℕ × DefillamaSample))
      → In (i, sample) entries
      → is_used i used ≡ false
      → fits requested max_delta sample ≡ true
      → (p : SamplePair) × In p (pairs_for requested max_delta used entries)
        × (p.requested ≡ requested)
        × (p.sample_index ≡ i)
  unfolding pairs_for
  pairs_for_complete requested i sample [] m u f = absurd m
  pairs_for_complete requested i sample ((j, other) ∷ entries) (inl e) u f = (
    record { requested = requested; sample_index = j; delta = delta_of requested other },
    ground (arith, e, u, f),
    refl,
    ground (arith, e),
  )
  pairs_for_complete requested i sample ((j, other) ∷ entries) (inr m) u f =
      let (p, n, r, k) = pairs_for_complete requested i sample entries m u f in
      elim (Bool-cases (not (is_used j used) && fits requested max_delta other)) [
        | inl fit ↦ (p, rw fit (inr n), r, k)
        | inr none_fit ↦ (p, rw none_fit n, r, k)
      ]

-- The pairs of all days that are not matched yet.
abbrev pub IsCandidate : List ℕ → List DefillamaSample → ℕ → Assignment → SamplePair → Type 0
IsCandidate timestamps samples max_delta a p =
    In p.requested timestamps × Fits samples max_delta p.requested p.sample_index

module _ (samples : List DefillamaSample) (max_delta : ℕ) (a : Assignment) where
  pairs-IsCandidate :
      (requested : ℕ) (timestamps : List ℕ) (pairs : List SamplePair)
      → In requested timestamps
      → All (IsPair max_delta a.used_samples (entries_from 0 samples) requested) pairs
      → All (IsCandidate timestamps samples max_delta a) pairs
  pairs-IsCandidate requested timestamps [] m h = tt
  pairs-IsCandidate requested timestamps (p ∷ pairs) m ((e, s, n, f), h) =
      ((rw e m, (s, n, rw e f)), pairs-IsCandidate requested timestamps pairs m h)

  later-IsCandidate :
      (r : ℕ) (timestamps : List ℕ) (pairs : List SamplePair)
      → All (IsCandidate timestamps samples max_delta a) pairs
      → All (IsCandidate (r ∷ timestamps) samples max_delta a) pairs
  later-IsCandidate r timestamps [] h = tt
  later-IsCandidate r timestamps (p ∷ pairs) ((m, f), h) =
      ((inr m, f), later-IsCandidate r timestamps pairs h)

  pub all_pairs-IsCandidate :
      (timestamps : List ℕ)
      → All
          (IsCandidate timestamps samples max_delta a)
          (all_pairs timestamps max_delta a (entries_from 0 samples))
  unfolding all_pairs
  all_pairs-IsCandidate [] = tt
  all_pairs-IsCandidate (r ∷ timestamps) =
      let rest = later-IsCandidate r timestamps _ (all_pairs-IsCandidate timestamps) in
      elim (Bool-cases (has r a.matched)) [
        | inl done ↦ rw done rest
        | inr open_day ↦ rw open_day (
            All-append (IsCandidate (r ∷ timestamps) samples max_delta a)
              (pairs_for r max_delta a.used_samples (entries_from 0 samples)) _
              (pairs-IsCandidate r (r ∷ timestamps) _ (inl refl)
                (pairs_for-IsPair max_delta a.used_samples r (entries_from 0 samples)))
              rest)
      ]

  -- Every day that is not matched is paired with every unused sample that fits it.
  pub all_pairs_complete :
      (timestamps : List ℕ) (r i : ℕ)
      → In r timestamps
      → has r a.matched ≡ false
      → is_used i a.used_samples ≡ false
      → Fits samples max_delta r i
      → (p : SamplePair) × In p (all_pairs timestamps max_delta a (entries_from 0 samples))
        × (p.requested ≡ r)
        × (p.sample_index ≡ i)
  unfolding all_pairs
  all_pairs_complete [] r i m h u f = absurd m
  all_pairs_complete (t ∷ timestamps) r i (inl e) h u (sample, n, f) =
      let (p, k, e', e'') =
        pairs_for_complete max_delta a.used_samples t i sample (entries_from 0 samples) n u
          (rw e at f) in
      (p, rw (rw e at h) (In-append_left p _ _ k), e' ∙ sym e, e'')
  all_pairs_complete (t ∷ timestamps) r i (inr m) h u f =
      let (p, k, e', e'') = all_pairs_complete timestamps r i m h u f in
      elim (Bool-cases (has t a.matched)) [
        | inl done ↦ (p, rw done k, e', e'')
        | inr open_day ↦ (
          p,
          rw open_day (
              In-append_right p (pairs_for t max_delta a.used_samples (entries_from 0 samples)) _
                k),
          e',
          e'',
        )
      ]
