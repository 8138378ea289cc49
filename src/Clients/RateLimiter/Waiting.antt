-- ===== src/Clients/RateLimiter/Waiting.antt =====
-- Waiting for a turn of the shared limiter.
use yearn_prices.Common.{
  Bool-cases, List, [], ap, arith, inl, inr, length, length-append, ltb, ltb_false→le, ltb→lt, max,
  refl, suc, sym, zero, ℕ, ◌++◌, ◌+◌, ◌<◌, ◌∙◌, ◌∷◌, ◌≡◌, ◌≤◌, ◌⊎◌,
}
use yearn_prices.Clients.RateLimiter.{shift_expired, sleeps, taken, turn_round, wait_for}

length-shift_expired :
    (interval now : ℕ) (xs : List ℕ) → length (shift_expired interval now xs) ≤ length xs
unfolding shift_expired
length-shift_expired interval now [] = omega arith
length-shift_expired interval now (x ∷ xs) = ground (arith, length-shift_expired interval now xs)

-- What is expired at a time is expired at a later one.
shift_expired_later :
    (interval now later : ℕ) (xs : List ℕ)
    → now ≤ later
    → shift_expired interval later (shift_expired interval now xs) ≡ shift_expired interval later xs
unfolding shift_expired
shift_expired_later interval now later [] h = refl
shift_expired_later interval now later (x ∷ xs) h =
    ground (arith, h, shift_expired_later interval now later xs h)

-- What a round does to the timestamps: it drops the expired ones, and takes the turn where fewer than
-- the limit are left.
round_lem :
    (limit interval now : ℕ) (timestamps : List ℕ)
    → ((length (shift_expired interval now timestamps) < limit)
        × (turn_round limit interval now timestamps
            ≡ taken (shift_expired interval now timestamps ++ now ∷ [])))
      ⊎ ((limit ≤ length (shift_expired interval now timestamps))
          × (turn_round limit interval now timestamps
              ≡ sleeps
                  (max (wait_for interval now (shift_expired interval now timestamps)) 25)
                  (shift_expired interval now timestamps)))
unfolding turn_round
round_lem limit interval now timestamps =
    elim (Bool-cases (ltb (length (shift_expired interval now timestamps)) limit)) [
      | inl few ↦ inl (ltb→lt _ _ few, rw few refl)
      | inr many ↦ inr (ltb_false→le _ _ many, rw many refl)
    ]

module _ (limit interval : ℕ) where
  -- The rounds of other callers: `Since timestamps now turns timestamps' now'` where they have taken
  -- `turns` from one state to the other. The clock does not go back.
  pub data Since (timestamps : List ℕ) (now : ℕ) : ℕ → List ℕ → ℕ → Type 0 where
    still : Since timestamps now 0 timestamps now
    passes :
        {turns : ℕ} {ts : List ℕ} {time : ℕ} (later : ℕ)
        → time ≤ later
        → Since timestamps now turns ts time
        → Since timestamps now turns ts later
    other_sleeps :
        {turns : ℕ} {ts : List ℕ} {time : ℕ} (n : ℕ) (ts' : List ℕ)
        → turn_round limit interval time ts ≡ sleeps n ts'
        → Since timestamps now turns ts time
        → Since timestamps now turns ts' time
    other_turn :
        {turns : ℕ} {ts : List ℕ} {time : ℕ} (ts' : List ℕ)
        → turn_round limit interval time ts ≡ taken ts'
        → Since timestamps now turns ts time
        → Since timestamps now (suc turns) ts' time

  -- A caller in the loop of `waitTurn`: `Waits timestamps now slept turns timestamps' now'` where its
  -- first round was at `now`, it has slept so many times, at least as long as each round told it, and
  -- the others have taken `turns` meanwhile.
  pub data Waits (timestamps : List ℕ) (now : ℕ) : ℕ → ℕ → List ℕ → ℕ → Type 0 where
    arrives : Waits timestamps now 0 0 timestamps now
    sleeps_again :
        {slept turns others : ℕ} {ts left ts' : List ℕ} {time woken : ℕ} (n : ℕ)
        → Waits timestamps now slept turns ts time
        → turn_round limit interval time ts ≡ sleeps n left
        → Since left time others ts' woken
        → time + n ≤ woken
        → Waits timestamps now (suc slept) (turns + others) ts' woken

  -- A round that sleeps has only dropped the expired timestamps, and sleeps until the oldest that is
  -- left expires.
  sleeps_lem :
      (now n : ℕ) (timestamps left : List ℕ)
      → turn_round limit interval now timestamps ≡ sleeps n left
      → (left ≡ shift_expired interval now timestamps)
        × (limit ≤ length left)
        × (wait_for interval now left ≤ n)
  sleeps_lem now n timestamps left e = elim (round_lem limit interval now timestamps) [
    | inl (_, f) ↦ absurd (ground (arith, sym e ∙ f))
    | inr (many, f) ↦
        let same : left ≡ shift_expired interval now timestamps = cc (e, f) in
        let time : n ≡ max (wait_for interval now (shift_expired interval now timestamps)) 25 =
          cc (e, f) in
        (same, rw same many, rw same (omega (arith, time)))
  ]

  -- A round keeps no more timestamps than the limit.
  round-length :
      (now : ℕ) (timestamps ts' : List ℕ)
      → length timestamps ≤ limit
      → (turn_round limit interval now timestamps ≡ taken ts')
        ⊎ ((n : ℕ) × (turn_round limit interval now timestamps ≡ sleeps n ts'))
      → length ts' ≤ limit
  round-length now timestamps ts' h (inl e) = elim (round_lem limit interval now timestamps) [
    | inl (few, f) ↦
        let same : ts' ≡ shift_expired interval now timestamps ++ now ∷ [] = cc (e, f) in
        rw same
          (omega (arith, length-append (shift_expired interval now timestamps) (now ∷ []), few))
    | inr (_, f) ↦ absurd (ground (arith, sym e ∙ f))
  ]
  round-length now timestamps ts' h (inr (n, e)) =
      let (same, _, _) = sleeps_lem now n timestamps ts' e in
      rw same (omega (arith, length-shift_expired interval now timestamps, h))

  Since-length :
      {timestamps : List ℕ} {now : ℕ} {ts : List ℕ} {turns time : ℕ}
      → length timestamps ≤ limit
      → Since timestamps now turns ts time
      → length ts ≤ limit
  Since-length h still = h
  Since-length h (passes later g r) = Since-length h r
  Since-length h (other_sleeps n ts' e r) = round-length _ _ ts' (Since-length h r) (inr (n, e))
  Since-length h (other_turn ts' e r) = round-length _ _ ts' (Since-length h r) (inl e)

  -- Where no turn is taken, only expired timestamps are dropped.
  Since-same :
      {timestamps : List ℕ} {now : ℕ} {ts : List ℕ} {turns time : ℕ} (later : ℕ)
      → turns ≡ 0
      → Since timestamps now turns ts time
      → time ≤ later
      → shift_expired interval later ts ≡ shift_expired interval later timestamps
  Since-same later z still h = refl
  Since-same later z (passes {time = time} l g r) h = Since-same later z r (omega (arith, g, h))
  Since-same later z (other_sleeps {ts = ts} {time = time} n ts' e r) h =
      let (same, _, _) = sleeps_lem time n ts ts' e in
      ap (shift_expired interval later) same
      ∙ shift_expired_later interval time later ts h
      ∙ Since-same later z r h
  Since-same later z (other_turn ts' e r) h = absurd (omega (arith, z))

  Waits-length :
      {timestamps : List ℕ} {now : ℕ} {ts : List ℕ} {slept turns time : ℕ}
      → length timestamps ≤ limit
      → Waits timestamps now slept turns ts time
      → length ts ≤ limit
  Waits-length h arrives = h
  Waits-length h (sleeps_again {ts = ts} {left = left} {time = time} n w e since _) =
      Since-length (round-length time ts left (Waits-length h w) (inr (n, e))) since

  -- The oldest timestamp has expired after a sleep.
  woken :
      (now later : ℕ) (left : List ℕ)
      → 0 < limit
      → limit ≤ length left
      → length left ≤ limit
      → now + wait_for interval now left ≤ later
      → length (shift_expired interval later left) < limit
  unfolding shift_expired
  woken now later [] p k h g = absurd (omega (arith, p, k))
  woken now later (x ∷ xs) p k h g = ground (arith, g, h, length-shift_expired interval later xs)

  -- While a caller still has to sleep, the others have taken a turn for each of its sleeps.
  Waits-behind :
      {timestamps : List ℕ} {now : ℕ} {ts left : List ℕ} {slept turns time n : ℕ}
      → 0 < limit
      → length timestamps ≤ limit
      → Waits timestamps now slept turns ts time
      → turn_round limit interval time ts ≡ sleeps n left
      → slept ≤ turns
  Waits-behind p h arrives e = omega arith
  Waits-behind {left = after} {time = later} {n = again} p h
        (sleeps_again {turns = turns} {others = zero} {ts = ts} {left = left} {ts' = ts'}
          {time = time} n w f since g)
        e =
      let (same, many, wait) = sleeps_lem time n ts left f in
      let short = round-length time ts left (Waits-length h w) (inr (n, f)) in
      let (same', many', _) = sleeps_lem later again ts' after e in
      let few = woken time later left p many short (omega (arith, g, wait)) in
      let kept = Since-same later refl since (omega arith) in
      absurd (omega (arith, few, many', ap length same', ap length kept))
  Waits-behind p h (sleeps_again {others = suc others} n w f since g) e =
      omega (arith, Waits-behind p h w f)

  -- Where the limit is positive and no more timestamps than the limit are kept, a caller of the shared
  -- limiter that has slept more often than the others have taken turns since it came takes the turn in
  -- its next round, however late it wakes and whatever rounds the others make.
  pub Waits-served :
      (timestamps ts : List ℕ) (now slept turns time : ℕ)
      → 0 < limit
      → length timestamps ≤ limit
      → Waits timestamps now slept turns ts time
      → turns < slept
      → (ts' : List ℕ) × (turn_round limit interval time ts ≡ taken ts')
  Waits-served timestamps ts now slept turns time p h w k =
      elim (round_lem limit interval time ts) [
        | inl (_, e) ↦ (_, e)
        | inr (_, e) ↦ absurd (omega (arith, k, Waits-behind p h w e))
      ]
