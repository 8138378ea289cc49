-- ===== src/Sources/Chainlink/Newest.antt =====
-- A feed whose rounds are all there, and its newest round at a point in time.
use yearn_prices.Common.{
  Bool-cases, Option, ap, arith, dec_le, inl, inr, leb, leb_false→lt, leb→le, le→leb, ltb,
  ltb_false→le, ltb→lt, lt→leb_false, lt→ltb, nat_eq, none, option_eq, pair_eq, refl, some,
  string_eq, suc, zero, ℕ, ◌%◌, ◌+◌, ◌-◌, ◌/◌, ◌<◌, ◌∙◌, ◌≡◌, ◌≤◌, ◌⊎◌,
}
use yearn_prices.Sources.Chainlink.{
  Client, RoundData, Window, after_top, answers, encode_round_id, got, in_phase, phase_size,
  round_at, search_loop, search_phase, searched,
}

-- The rounds of a feed: `count p` of them in phase p, for each from `oldest` to `phases`; nothing is
-- said of the other phases, which a proxy may leave unset.
pub record Rounds : Type 0 where
  pub oldest : ℕ
  pub phases : ℕ
  pub count : ℕ → ℕ
  pub round : ℕ → ℕ → RoundData
  pub aggregator : ℕ → ℕ

abbrev pub IsPhase : Rounds → ℕ → Type 0
IsPhase f p = (f.oldest ≤ p) × (p ≤ f.phases)

abbrev pub Has : Rounds → ℕ → ℕ → Type 0
Has f p j = (f.oldest ≤ p) × (p ≤ f.phases) × (1 ≤ j) × (j ≤ f.count p)

-- The client answers for such a feed: of each of these phases, which begin at phase 1 at the least, every
-- round can be read, the rounds are in the order of their times, and the aggregator tells the last.
pub record IsFeed (client : Client) (feed : ℕ) (f : Rounds) : Type 0 where
  pub starts : 1 ≤ f.oldest
  pub counted : (p : ℕ) → IsPhase f p → (1 ≤ f.count p) × (f.count p < phase_size)
  pub reads :
      (p j : ℕ)
      → Has f p j
      → client.get_round_data feed (encode_round_id p j) ≡ answers (some (f.round p j))
  pub ids : (p j : ℕ) → Has f p j → (f.round p j).round_id ≡ encode_round_id p j
  pub dated : (p j : ℕ) → Has f p j → 0 < (f.round p j).updated_at
  pub ordered :
      (p j k : ℕ)
      → Has f p j
      → Has f p k
      → j ≤ k
      → (f.round p j).updated_at ≤ (f.round p k).updated_at
  pub aggregators :
      (p : ℕ)
      → IsPhase f p
      → (client.phase_aggregators feed p ≡ answers (some (f.aggregator p))) × (0 < f.aggregator p)
  pub lasts :
      (p : ℕ)
      → IsPhase f p
      → (r : RoundData) × (client.latest_round_data (f.aggregator p) ≡ answers (some r))
        × (in_phase p (some r) ≡ some (f.round p (f.count p)))

-- The round is in time, and every later one of its phase and of the later phases is not.
pub record IsNewest (f : Rounds) (timestamp p j : ℕ) : Type 0 where
  pub has : Has f p j
  pub in_time : (f.round p j).updated_at ≤ timestamp
  pub later : (k : ℕ) → j < k → k ≤ f.count p → timestamp < (f.round p k).updated_at
  pub later_phases : (q k : ℕ) → p < q → Has f q k → timestamp < (f.round q k).updated_at

module _ (client : Client) (feed timestamp : ℕ) (f : Rounds) (is_feed : IsFeed client feed f) where
  round_at_lem :
      (p j : ℕ) → Has f p j → round_at client feed timestamp p j ≡ got (some (f.round p j))
  unfolding round_at
  round_at_lem p j h = rw (is_feed.reads p j h, lt→ltb _ _ (is_feed.dated p j h))

  abbrev pub best_of : ℕ → ℕ → Option RoundData
  best_of p zero = none
  best_of p (suc j) = some (f.round p (suc j))

  pub some-round : (p j : ℕ) → 1 ≤ j → some (f.round p j) ≡ best_of p j
  some-round p zero h = absurd (omega arith)
  some-round p (suc j) h = refl

  -- Of the rounds up to `top`, those up to `j` and no other are in time.
  abbrev pub Splits : ℕ → ℕ → ℕ → Type 0
  Splits p top j =
      (j ≤ top)
      × ((k : ℕ) → 1 ≤ k → k ≤ j → (f.round p k).updated_at ≤ timestamp)
      × ((k : ℕ) → j < k → k ≤ top → timestamp < (f.round p k).updated_at)

  abbrev Holds : ℕ → ℕ → Window → Type 0
  Holds p j w = (1 ≤ w.lo) × (j ≤ w.hi) × ((w.lo ≤ j) ⊎ ((w.lo ≡ j + 1) × (w.best ≡ best_of p j)))

  best_at_end : (p j : ℕ) (w : Window) → w.hi < w.lo → Holds p j w → w.best ≡ best_of p j
  best_at_end p j w lt (a, b, inl early) = absurd (omega arith)
  best_at_end p j w lt (a, b, inr (c, best)) = best

  -- What holds once round `mid` is the best.
  after_early :
      (p j mid : ℕ)
      → 1 ≤ mid
      → mid ≤ j
      → (mid + 1 ≤ j) ⊎ ((mid + 1 ≡ j + 1) × (some (f.round p mid) ≡ best_of p j))
  after_early p j mid h le = elim (dec_le (mid + 1) j) [
    | yes more ↦ inl more
    | no last ↦
        let e : mid ≡ j = omega arith in
        inr (omega arith, ap (λ m. some (f.round p m)) e ∙ some-round p j (omega arith))
  ]

  search_loop-best_of :
      (p top j : ℕ)
      → f.oldest ≤ p
      → p ≤ f.phases
      → top ≤ f.count p
      → Splits p top j
      → (fuel : ℕ) (w : Window) → w.hi ≤ top
      → w.hi + 1 < w.lo + fuel
      → Holds p j w
      → search_loop client feed timestamp fuel p w ≡ got (searched (best_of p j))
  unfolding search_loop
  search_loop-best_of p top j a b c s zero w d e h = absurd (omega arith)
  search_loop-best_of p top j a b c s (suc fuel) w d e h = elim (Bool-cases (leb w.lo w.hi)) [
    | inr done ↦ rw (done, best_at_end p j w (leb_false→lt _ _ done) h) refl
    | inl more ↦
        let mid = (w.lo + w.hi) / 2 in
        let le = leb→le _ _ more in
        rw (more, round_at_lem p mid (a, b, omega arith, omega arith))
          (elim (dec_le mid j) [
            | yes early ↦ rw (le→leb _ _ (s.1 mid (omega arith) early)) (
                search_loop-best_of p top j a b c s fuel
                  (record w { lo = mid + 1; best = some (f.round p mid) }) d (omega arith)
                  (omega arith, h.1, after_early p j mid (omega arith) early))
            | no late ↦ rw (lt→leb_false _ _ (s.2 mid (omega arith) (omega arith))) (
                search_loop-best_of p top j a b c s fuel (record w { hi = mid - 1 }) (omega arith)
                  (omega arith) (h.0, omega arith, h.2))
          ])
  ]

  pub phase-encode : (p n : ℕ) → n < phase_size → encode_round_id p n / phase_size ≡ p
  phase-encode p n h = omega arith

  round-encode : (p n : ℕ) → n < phase_size → encode_round_id p n % phase_size ≡ n
  round-encode p n h = omega arith

  after_top-best_of :
      (p hi j : ℕ)
      → Has f p hi
      → Splits p hi j
      → after_top client feed timestamp p hi (some (f.round p hi)) ≡ got (searched (best_of p j))
  after_top-best_of p hi j h s = elim (dec_le hi j) [
    | yes last ↦
        let e : hi ≡ j = omega arith in
        rw (le→leb _ _ (s.1 hi (h.2) last)) (
          ap (λ o. got (searched o))
            (ap (λ m. some (f.round p m)) e ∙ some-round p j (omega arith)))
    | no before ↦ rw (lt→leb_false _ _ (s.2 hi (omega arith) (omega arith))) (
        search_loop-best_of p hi j (h.0) (h.1) (h.3) s (hi + 1) _ (omega arith) (omega arith)
          (omega arith, omega arith, first j))
  ]
    where
      first : (j : ℕ) → (1 ≤ j) ⊎ ((◌≡◌ {A = ℕ} 1 (j + 1)) × (none ≡ best_of p j))
      first zero = inr (omega arith, refl)
      first (suc j) = inl (omega arith)

  pub search_phase-best_of :
      (p n j : ℕ)
      → Has f p n
      → Splits p (n - 1) j
      → search_phase client feed timestamp (encode_round_id p n) ≡ got (searched (best_of p j))
  unfolding search_phase
  search_phase-best_of p n j h s =
      let small : n < phase_size = omega (arith, h, is_feed.counted p (h.0, h.1)) in
      rw (phase-encode p n small, round-encode p n small)
        (elim (Bool-cases (ltb (n - 1) 1)) [
          | inl one ↦ let e : j ≡ 0 = omega (arith, ltb→lt _ _ one) in rw (one, e) refl
          | inr more ↦
              let le = ltb_false→le _ _ more in
              let has : Has f p (n - 1) = (h.0, h.1, le, omega arith) in
              rw (more, round_at_lem p (n - 1) has) (after_top-best_of p (n - 1) j has s)
        ])
