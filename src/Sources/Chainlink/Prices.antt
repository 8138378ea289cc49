-- ===== src/Sources/Chainlink/Prices.antt =====
-- The price of a feed at a point in time.
use yearn_prices.Common.{
  ap, arith, dec_le, false, le→ltb_false, lt→leb_false, lt→ltb, nat_eq, option_eq, pair_eq, some,
  string_eq, suc, zero, ℕ, ◌+◌, ◌-◌, ◌<◌, ◌==◌, ◌≡◌, ◌≤◌,
}
use yearn_prices.Sources.Chainlink.{
  Client, RoundData, after_search, encode_round_id, got, max_phase_hops, phase_size,
  previous_phase_round, search_phase, walk, ◌>>=◌,
}
use yearn_prices.Sources.Chainlink.Newest.{
  Has, IsFeed, IsNewest, Rounds, Splits, phase-encode, search_phase-best_of, some-round,
}

module _ (client : Client) (feed timestamp : ℕ) (f : Rounds) (is_feed : IsFeed client feed f) where
  previous_phase_round-last :
      (p : ℕ)
      → f.oldest < p
      → p ≤ f.phases
      → previous_phase_round client feed timestamp (encode_round_id p (f.count p))
        ≡ got (some (f.round (p - 1) (f.count (p - 1))))
  unfolding previous_phase_round
  previous_phase_round-last p h k =
      let small : f.count p < phase_size = omega (arith, is_feed.counted p (omega arith, k)) in
      let (told, real) = is_feed.aggregators (p - 1) (omega arith, omega arith) in
      let (last, read, same) = is_feed.lasts (p - 1) (omega arith, omega arith) in
      let other : (f.aggregator (p - 1) == 0) ≡ false = ground (arith, real) in
      rw
        (
          phase-encode client feed timestamp f is_feed p (f.count p) small,
          lt→leb_false p 1 (omega (arith, h, is_feed.starts)),
          told,
          other,
          read,
        )
        (ap got same)

  module _ (q j : ℕ) (newest : IsNewest f timestamp q j) where
    walk-in_time :
        (fuel hops p k : ℕ)
        → (f.round p k).updated_at ≤ timestamp
        → walk client feed timestamp (suc fuel) hops (f.round p k) ≡ got (some (f.round p k))
    unfolding walk
    walk-in_time fuel hops p k h = rw (le→ltb_false _ _ h)

    in_newest-Splits :
        j ≤ f.count q - 1 → Splits client feed timestamp f is_feed q (f.count q - 1) j
    in_newest-Splits h = (
      h,
      λ k a b. omega (
        arith,
        is_feed.ordered q k j (newest.has.0, newest.has.1, a, omega (arith, newest.has)) newest.has
            b,
        newest.in_time,
      ),
      λ k a b. newest.later k a (omega (arith, newest.has)),
    )

    walk-late :
        (fuel hops : ℕ) (r : RoundData)
        → timestamp < r.updated_at
        → walk client feed timestamp (suc fuel) hops r ≡ (
            search_phase client feed timestamp r.round_id
            >>= after_search client feed timestamp hops r
                (walk client feed timestamp fuel (hops + 1)))
    unfolding walk
    walk-late fuel hops r h = rw (lt→ltb _ _ h)

    walk_newest :
        (fuel hops : ℕ)
        → walk client feed timestamp (suc (suc fuel)) hops (f.round q (f.count q))
          ≡ got (some (f.round q j))
    walk_newest fuel hops = elim (dec_le (f.count q) j) [
      | yes last ↦
          let e : f.count q ≡ j = omega (arith, newest.has) in
          rw e (walk-in_time (suc fuel) hops q j newest.in_time)
      | no before ↦
          let late = newest.later (f.count q) (omega arith) (omega arith) in
          let whole : Has f q (f.count q) =
            (newest.has.0, newest.has.1, omega (arith, newest.has), omega arith) in
          let splits = in_newest-Splits (omega arith) in
          rw
            (
              walk-late (suc fuel) hops (f.round q (f.count q)) late,
              is_feed.ids q (f.count q) whole,
              search_phase-best_of client feed timestamp f is_feed q (f.count q) j whole splits,
              ← some-round client feed timestamp f is_feed q j (newest.has.2),
            )
            (walk-in_time fuel (hops + 1) q j newest.in_time)
    ]

    pub walk_back :
        (d p hops fuel : ℕ)
        → p ≡ q + d
        → p ≤ f.phases
        → hops + d ≤ max_phase_hops
        → d + 2 ≤ fuel
        → walk client feed timestamp fuel hops (f.round p (f.count p)) ≡ got (some (f.round q j))
    walk_back d p hops zero a b c e = absurd (omega arith)
    walk_back zero p hops (suc zero) a b c e = absurd (omega arith)
    walk_back zero p hops (suc (suc fuel)) a b c e =
        let same : p ≡ q = omega arith in rw same (walk_newest fuel hops)
    walk_back (suc d) p hops (suc fuel) a b c e =
        let has : Has f p (f.count p) = (
          omega (arith, newest.has),
          b,
          omega (arith, is_feed.counted p (omega (arith, newest.has), b)),
          omega arith,
        ) in
        let all_late = λ (k : ℕ) (x : 1 ≤ k) (y : k ≤ f.count p).
          newest.later_phases p k (omega arith) (omega (arith, newest.has), b, x, y) in
        rw
          (
            walk-late fuel hops (f.round p (f.count p)) (all_late (f.count p) (has.2) (has.3)),
            is_feed.ids p (f.count p) has,
            search_phase-best_of client feed timestamp f is_feed p (f.count p) 0 has (
              omega arith,
              (λ k x y. absurd (omega arith)),
              λ k x y. all_late k (omega arith) (omega arith),
            ),
            lt→ltb hops max_phase_hops (omega arith),
            previous_phase_round-last p (omega (arith, newest.has)) b,
          )
          (walk_back d (p - 1) (hops + 1) fuel (omega arith) (omega arith) (omega arith)
            (omega arith))
