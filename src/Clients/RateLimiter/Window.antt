-- ===== src/Clients/RateLimiter/Window.antt =====
-- The turns taken over time, and windows of the interval's length.
use yearn_prices.Common.{
  All, List, [], arith, if◌then◌else◌, leb, length, length-append, ltb, refl, subst, sym, ℕ,
  ℕ_discrete, ◌&&◌, ◌++◌, ◌+◌, ◌<◌, ◌∷◌, ◌≡◌, ◌≤◌,
}
use yearn_prices.Clients.RateLimiter.{shift_expired, sleeps, taken, turn_round}

module _ (limit interval : ℕ) where
  -- How many of the times a window that ends at `t` still holds.
  abbrev pub count_recent : ℕ → List ℕ → ℕ
  count_recent t [] = 0
  count_recent t (x ∷ xs) =
      if ltb t (x + interval) then count_recent t xs + 1 else count_recent t xs

  -- How many of the times lie in the window of the interval's length that ends at `t`.
  abbrev pub count_window : ℕ → List ℕ → ℕ
  count_window t [] = 0
  count_window t (x ∷ xs) =
      if leb x t && ltb t (x + interval) then count_window t xs + 1 else count_window t xs

  -- The turns taken so far, the newest first, with the limiter's timestamps and the clock.
  pub data Turns : List ℕ → List ℕ → ℕ → Type 0 where
    start : (now : ℕ) → Turns [] [] now
    tick :
        {turns timestamps : List ℕ} {now : ℕ} (later : ℕ)
        → now ≤ later
        → Turns turns timestamps now
        → Turns turns timestamps later
    take_turn :
        {turns timestamps : List ℕ} {now : ℕ} (timestamps' : List ℕ)
        → turn_round limit interval now timestamps ≡ taken timestamps'
        → Turns turns timestamps now
        → Turns (now ∷ turns) timestamps' now
    sleep :
        {turns timestamps : List ℕ} {now : ℕ} (n : ℕ) (timestamps' : List ℕ)
        → turn_round limit interval now timestamps ≡ sleeps n timestamps'
        → Turns turns timestamps now
        → Turns turns timestamps' now

  count_recent-length : (t : ℕ) (xs : List ℕ) → count_recent t xs ≤ length xs
  count_recent-length t [] = omega arith
  count_recent-length t (x ∷ xs) = ground (arith, count_recent-length t xs)

  count_recent-append :
      (t : ℕ) (xs ys : List ℕ) → count_recent t (xs ++ ys) ≡ count_recent t xs + count_recent t ys
  count_recent-append t [] ys = omega arith
  count_recent-append t (x ∷ xs) ys = ground (arith, count_recent-append t xs ys)

  -- What is shifted out never counts again.
  count_recent-shift_expired :
      (now t : ℕ) (xs : List ℕ)
      → now ≤ t
      → count_recent t (shift_expired interval now xs) ≡ count_recent t xs
  unfolding shift_expired
  count_recent-shift_expired now t [] h = refl
  count_recent-shift_expired now t (x ∷ xs) h =
      ground (arith, count_recent-shift_expired now t xs h, h)

  count_window-eq :
      (t : ℕ) (xs : List ℕ) → All (λ x. x ≤ t) xs → count_window t xs ≡ count_recent t xs
  count_window-eq t [] h = refl
  count_window-eq t (x ∷ xs) (p, h) = ground (arith, p, count_window-eq t xs h)

  record IsPaced (turns timestamps : List ℕ) (now : ℕ) : Type 0 where
    pub past : All (λ x. x ≤ now) turns
    pub counted : (t : ℕ) → now ≤ t → count_recent t turns ≤ count_recent t timestamps
    pub short : length timestamps ≤ limit
    pub paced : All (λ g. count_window g turns ≤ limit) turns

  length-shift_expired :
      (now : ℕ) (xs : List ℕ) → length (shift_expired interval now xs) ≤ length xs
  unfolding shift_expired
  length-shift_expired now [] = omega arith
  length-shift_expired now (x ∷ xs) = ground (arith, length-shift_expired now xs)

  later_past :
      (now later : ℕ) (xs : List ℕ) → now ≤ later → All (λ x. x ≤ now) xs → All (λ x. x ≤ later) xs
  later_past now later [] h p = tt
  later_past now later (x ∷ xs) h (q, p) = (omega (arith, q, h), later_past now later xs h p)

  -- A new turn is outside the windows of the earlier ones, or it is one of the same time.
  paced_before :
      (now : ℕ) (turns gs : List ℕ)
      → All (λ g. g ≤ now) gs
      → count_window now (now ∷ turns) ≤ limit
      → All (λ g. count_window g turns ≤ limit) gs
      → All (λ g. count_window g (now ∷ turns) ≤ limit) gs
  paced_before now turns [] p w h = tt
  paced_before now turns (g ∷ gs) (q, p) w (k, h) = elim (ℕ_discrete g now) [
    | yes same ↦ (
      subst (λ x. count_window x (now ∷ turns) ≤ limit) (sym same) w,
      paced_before now turns gs p w h,
    )
    | no other ↦ (ground (arith, q, other, k), paced_before now turns gs p w h)
  ]

  -- A turn is taken only where fewer than the limit count, and what is shifted out counts no more.
  round-taken :
      (now : ℕ) (timestamps timestamps' : List ℕ)
      → turn_round limit interval now timestamps ≡ taken timestamps'
      → let current = shift_expired interval now timestamps in
        (length current < limit) × (timestamps' ≡ current ++ now ∷ [])
  unfolding turn_round
  round-taken now timestamps timestamps' e = ground (arith, e)

  round-sleeps :
      (now n : ℕ) (timestamps timestamps' : List ℕ)
      → turn_round limit interval now timestamps ≡ sleeps n timestamps'
      → timestamps' ≡ shift_expired interval now timestamps
  unfolding turn_round
  round-sleeps now n timestamps timestamps' e = ground (arith, e)

  Turns-IsPaced :
      {turns timestamps : List ℕ} {now : ℕ}
      → Turns turns timestamps now
      → IsPaced turns timestamps now
  Turns-IsPaced (start now) = record {
    past = tt;
    counted = λ t h. omega arith;
    short = omega arith;
    paced = tt;
  }
  Turns-IsPaced (tick {turns} {timestamps} {now} later h r) =
      let i = Turns-IsPaced r in
      record {
        past = later_past now later turns h i.past;
        counted = λ t k. i.counted t (omega (arith, h, k));
        short = i.short;
        paced = i.paced;
      }
  Turns-IsPaced (sleep {turns} {timestamps} {now} n timestamps' e r) =
      let i = Turns-IsPaced r in
      let same = round-sleeps now n timestamps timestamps' e in
      record {
        past = i.past;
        counted = λ t k.
            rw same (omega (arith, i.counted t k, count_recent-shift_expired now t timestamps k));
        short = rw same (omega (arith, i.short, length-shift_expired now timestamps));
        paced = i.paced;
      }
  Turns-IsPaced (take_turn {turns} {timestamps} {now} timestamps' e r) =
      let i = Turns-IsPaced r in
      let current = shift_expired interval now timestamps in
      let (few, same) = round-taken now timestamps timestamps' e in
      let window : count_window now (now ∷ turns) ≤ limit = ground (
        arith,
        few,
        count_window-eq now turns i.past,
        i.counted now,
        count_recent-shift_expired now now timestamps,
        count_recent-length now current,
      ) in
      record {
        past = (omega arith, i.past);
        counted = λ t k. rw same (
            ground (
              arith,
              i.counted t k,
              count_recent-shift_expired now t timestamps k,
              count_recent-append t current (now ∷ []),
            ));
        short = rw same (omega (arith, few, length-append current (now ∷ [])));
        paced = (window, paced_before now turns turns i.past window i.paced);
      }

  -- However the clock moves forward and callers come, and whichever of them sleep, every window of
  -- the interval's length that ends at a turn holds at most the limit of turns.
  pub Turns-paced :
      {turns timestamps : List ℕ} {now : ℕ}
      → Turns turns timestamps now
      → All (λ g. count_window g turns ≤ limit) turns
  Turns-paced r = (Turns-IsPaced r).paced
