-- ===== src/Sources/Defillama/Match/Complete.antt =====
-- The two passes together.
use yearn_prices.Common.{
  All-implies, Bool-cases, In, List, [], arith, inl, inr, nat_eq, pair_eq, string_eq, true, ℕ, ◌||◌,
  ◌≡◌, ◌≤◌, ◌⊎◌,
}
use yearn_prices.Common.OrderedMap.{has}
use yearn_prices.Common.Sorting.{All-sort, In-sort, sort}
use yearn_prices.Utils.Text.{text_eq}
use yearn_prices.Sources.Defillama.Match.{
  Assignment, DefillamaSample, all_pairs, assign_nearest_samples, by_delta, entries_from, fits,
  is_used, match_prices_to_requests, search_width_seconds, strict_match_seconds,
}
use yearn_prices.Sources.Defillama.Match.Pairs.{
  Fits, IsCandidate, all_pairs-IsCandidate, all_pairs_complete,
}
use yearn_prices.Sources.Defillama.Match.Assign.{
  IsAssignment, IsDone, take_pairs-IsAssignment, take_pairs_complete, take_pairs-grows,
}

Fits-wider :
    (samples : List DefillamaSample) (narrow wide r i : ℕ)
    → narrow ≤ wide
    → Fits samples narrow r i
    → Fits samples wide r i
unfolding fits
Fits-wider samples narrow wide r i h (s, m, f) = (s, m, ground (arith, f, h))

module _ (timestamps : List ℕ) (samples : List DefillamaSample) where
  pass-IsAssignment :
      (max_delta width : ℕ) (a : Assignment)
      → max_delta ≤ width
      → IsAssignment timestamps samples width a
      → IsAssignment timestamps samples width
          (assign_nearest_samples timestamps samples max_delta a)
  unfolding assign_nearest_samples
  pass-IsAssignment max_delta width a h s =
      take_pairs-IsAssignment timestamps samples width _ a
        (All-sort by_delta _ _ (
          All-implies (IsCandidate timestamps samples max_delta a)
            (λ p. In p.requested timestamps × Fits samples width p.requested p.sample_index) _
            (λ p c. (c.0, Fits-wider samples max_delta width p.requested p.sample_index h c.1))
            (all_pairs-IsCandidate samples max_delta a timestamps)))
        s

  -- What a pass could still match was done before or is done after it.
  pass_complete :
      (max_delta : ℕ) (a : Assignment) (r i : ℕ)
      → In r timestamps
      → Fits samples max_delta r i
      → IsDone r i (assign_nearest_samples timestamps samples max_delta a)
  unfolding assign_nearest_samples
  pass_complete max_delta a r i m f =
      let pairs = all_pairs timestamps max_delta a (entries_from 0 samples) in
      elim (Bool-cases (has r a.matched || is_used i a.used_samples)) [
        | inl done ↦ take_pairs-grows (sort by_delta pairs) a r i done
        | inr free ↦
            let (p, n, e, k) =
              all_pairs_complete samples max_delta a timestamps r i m (ground (arith, free))
                (ground (arith, free)) f in
            rw (← e, ← k)
              (take_pairs_complete (sort by_delta pairs) a p (In-sort by_delta p pairs n))
      ]

  nothing-IsAssignment :
      IsAssignment timestamps samples search_width_seconds
        (record { matched = []; used_samples = [] })
  nothing-IsAssignment = record {
    unique = tt;
    assigned = tt;
    distinct = tt;
    recorded = tt;
    owned = λ i u. absurd (ground (arith, u));
  }

  -- The matched days are days that were asked for, each once, each with a sample of a positive
  -- finite price at most six hours away; no sample stands for two days, and the samples marked as
  -- used are exactly those of the matched days.
  pub match_prices_to_requests-IsAssignment :
      IsAssignment timestamps samples search_width_seconds
        (match_prices_to_requests timestamps samples)
  unfolding match_prices_to_requests
  match_prices_to_requests-IsAssignment =
      pass-IsAssignment search_width_seconds search_width_seconds _ (omega arith) (
        pass-IsAssignment strict_match_seconds search_width_seconds _ (omega arith)
          nothing-IsAssignment)

  -- Nothing is left over: where a sample fits a day within six hours, the day is matched or the
  -- sample stands for another day.
  pub match_prices_to_requests-maximal :
      (r i : ℕ)
      → In r timestamps
      → Fits samples search_width_seconds r i
      → (has r (match_prices_to_requests timestamps samples).matched ≡ true)
        ⊎ ((s : ℕ) × In (s, i) (match_prices_to_requests timestamps samples).matched)
  unfolding match_prices_to_requests
  match_prices_to_requests-maximal r i m f =
      let a = match_prices_to_requests timestamps samples in
      let done : IsDone r i a = pass_complete search_width_seconds _ r i m f in
      elim (Bool-cases (has r a.matched)) [
        | inl matched_day ↦ inl matched_day
        | inr unmatched ↦
            inr (match_prices_to_requests-IsAssignment.owned i (ground (arith, done, unmatched)))
      ]
