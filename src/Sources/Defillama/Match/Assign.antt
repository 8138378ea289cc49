-- ===== src/Sources/Defillama/Match/Assign.antt =====
-- The assignment, pair by pair.
use yearn_prices.Common.{
  All, All-append, Bool-cases, In, In-append_left, In-append_right, List, [], ap, arith, false, inl,
  inr, nat_eq, none, pair_eq, refl, string_eq, subst, sym, true, ℕ, ℕ_discrete, ◌++◌, ◌||◌, ◌∷◌,
  ◌≡◌, ◌≢◌,
}
use yearn_prices.Common.OrderedMap.{
  HasUniqueKeys, get, get-set, has, set, set-HasUniqueKeys, set_new,
}
use yearn_prices.Sources.Defillama.Match.{
  Assignment, DefillamaSample, SamplePair, is_used, take_pairs,
}
use yearn_prices.Sources.Defillama.Match.Pairs.{Fits}

-- No two days have one sample.
abbrev pub HasDistinctSamples : List (ℕ × ℕ) → Type 0
HasDistinctSamples [] = Unit
HasDistinctSamples (m ∷ matched) = All (λ n. n.1 ≢ m.1) matched × HasDistinctSamples matched

HasDistinctSamples-append :
    (matched : List (ℕ × ℕ)) (r i : ℕ)
    → All (λ n. n.1 ≢ i) matched
    → HasDistinctSamples matched
    → HasDistinctSamples (matched ++ (r, i) ∷ [])
HasDistinctSamples-append [] r i h d = (tt, tt)
HasDistinctSamples-append ((s, j) ∷ matched) r i (p, h) (q, d) = (
  All-append (λ n. n.1 ≢ j) matched ((r, i) ∷ []) q ((λ e. p (sym e)), tt),
  HasDistinctSamples-append matched r i h d,
)

-- What taking a pair changes.
abbrev add : SamplePair → Assignment → Assignment
add p a = record {
  matched = set p.requested p.sample_index a.matched;
  used_samples = p.sample_index ∷ a.used_samples;
}

module _ (timestamps : List ℕ) (samples : List DefillamaSample) (width : ℕ) where
  pub record IsAssignment (a : Assignment) : Type 0 where
    -- Each matched day was asked for, and its sample fits it.
    pub unique : HasUniqueKeys a.matched
    pub assigned : All (λ m. In (m.0) timestamps × Fits samples width (m.0) (m.1)) a.matched
    pub distinct : HasDistinctSamples a.matched
    -- The used samples are those of the matched days.
    pub recorded : All (λ m. is_used (m.1) a.used_samples ≡ true) a.matched
    pub owned : (i : ℕ) → is_used i a.used_samples ≡ true → (r : ℕ) × In (r, i) a.matched

  unused_others :
      (i : ℕ) (used : List ℕ) (matched : List (ℕ × ℕ))
      → is_used i used ≡ false
      → All (λ m. is_used (m.1) used ≡ true) matched
      → All (λ n. n.1 ≢ i) matched
  unused_others i used [] u h = tt
  unused_others i used (m ∷ matched) u (p, h) =
      ((λ e. ground (arith, ap (λ j. is_used j used) e, u, p)), unused_others i used matched u h)

  still_used :
      (i : ℕ) (used : List ℕ) (matched : List (ℕ × ℕ))
      → All (λ m. is_used (m.1) used ≡ true) matched
      → All (λ m. is_used (m.1) (i ∷ used) ≡ true) matched
  still_used i used [] h = tt
  still_used i used (m ∷ matched) (p, h) = (ground (arith, p), still_used i used matched h)

  add-IsAssignment :
      (p : SamplePair) (a : Assignment)
      → has p.requested a.matched ≡ false
      → is_used p.sample_index a.used_samples ≡ false
      → In p.requested timestamps
      → Fits samples width p.requested p.sample_index
      → IsAssignment a
      → IsAssignment (add p a)
  add-IsAssignment p a new unused m f h =
      let absent : get p.requested a.matched ≡ none = ground (arith, new) in
      let grown = set_new p.requested p.sample_index a.matched absent in
      record {
        unique = set-HasUniqueKeys p.requested p.sample_index a.matched h.unique;
        assigned =
            rw grown
              (All-append _ a.matched ((p.requested, p.sample_index) ∷ []) h.assigned ((m, f), tt));
        distinct = rw grown (
            HasDistinctSamples-append a.matched p.requested p.sample_index
              (unused_others p.sample_index a.used_samples a.matched unused h.recorded) h.distinct);
        recorded = rw grown (
            All-append (λ n. is_used (n.1) (p.sample_index ∷ a.used_samples) ≡ true) a.matched
              ((p.requested, p.sample_index) ∷ [])
              (still_used p.sample_index a.used_samples a.matched h.recorded) (ground arith, tt));
        owned = λ i u. rw grown (elim (ℕ_discrete p.sample_index i) [
          | yes same ↦ (p.requested, In-append_right _ a.matched _ (inl (rw same refl)))
          | no other ↦
              let (r, n) = h.owned i (ground (arith, u, other)) in
              (r, In-append_left _ a.matched _ n)
        ]);
      }

  pub take_pairs-IsAssignment :
      (pairs : List SamplePair) (a : Assignment)
      → All (λ p. In p.requested timestamps × Fits samples width p.requested p.sample_index) pairs
      → IsAssignment a
      → IsAssignment (take_pairs pairs a)
  unfolding take_pairs
  take_pairs-IsAssignment [] a h s = s
  take_pairs-IsAssignment (p ∷ pairs) a ((m, f), h) s =
      elim (Bool-cases (has p.requested a.matched || is_used p.sample_index a.used_samples)) [
        | inl taken ↦ rw taken (take_pairs-IsAssignment pairs a h s)
        | inr free ↦ rw free (
            take_pairs-IsAssignment pairs (add p a) h
              (add-IsAssignment p a (ground (arith, free)) (ground (arith, free)) m f s))
      ]

-- The day is matched or the sample used.
abbrev pub IsDone : ℕ → ℕ → Assignment → Type 0
IsDone r i a = (has r a.matched || is_used i a.used_samples) ≡ true

pub take_pairs-grows :
    (pairs : List SamplePair) (a : Assignment) (r i : ℕ)
    → IsDone r i a
    → IsDone r i (take_pairs pairs a)
unfolding take_pairs
take_pairs-grows [] a r i h = h
take_pairs-grows (p ∷ pairs) a r i h =
    elim (Bool-cases (has p.requested a.matched || is_used p.sample_index a.used_samples)) [
      | inl taken ↦
          let step : take_pairs (p ∷ pairs) a ≡ take_pairs pairs a = rw taken refl in
          subst (IsDone r i) (sym step) (take_pairs-grows pairs a r i h)
      | inr free ↦
          let step : take_pairs (p ∷ pairs) a ≡ take_pairs pairs (add p a) = rw free refl in
          subst (IsDone r i) (sym step) (
            take_pairs-grows pairs (add p a) r i
              (ground (arith, h, get-set r p.requested p.sample_index a.matched)))
    ]

-- No pair is left whose day is not matched and whose sample is not used.
pub take_pairs_complete :
    (pairs : List SamplePair) (a : Assignment) (p : SamplePair)
    → In p pairs
    → IsDone p.requested p.sample_index (take_pairs pairs a)
unfolding take_pairs
take_pairs_complete [] a p m = absurd m
take_pairs_complete (q ∷ pairs) a p (inl e) =
    elim (Bool-cases (has q.requested a.matched || is_used q.sample_index a.used_samples)) [
      | inl taken ↦
          let step : take_pairs (q ∷ pairs) a ≡ take_pairs pairs a = rw taken refl in
          rw (e, step) (take_pairs-grows pairs a q.requested q.sample_index taken)
      | inr free ↦
          let step : take_pairs (q ∷ pairs) a ≡ take_pairs pairs (add q a) = rw free refl in
          rw (e, step) (take_pairs-grows pairs (add q a) q.requested q.sample_index (ground arith))
    ]
take_pairs_complete (q ∷ pairs) a p (inr m) = take_pairs_complete pairs _ p m
