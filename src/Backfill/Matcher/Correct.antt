-- ===== src/Backfill/Matcher/Correct.antt =====
-- What a match says of the eligible observations.
use yearn_prices.Backfill.Matcher.Select.{Selects, select-Selects}
use yearn_prices.Common.OrderedMap.{In-get, get-In}
use yearn_prices.Common.{
  All-In, Bool, Bool-cases, In, List, Option, [], arith, false, inl, inr, nat_eq, none, option_eq,
  pair_eq, refl, some, string_eq, subst, true, ℕ, ◌<◌, ◌∷◌, ◌≡◌, ◌≤◌, ◌⊎◌,
}
use yearn_prices.Common.Int.{distance, sub_ℕ}
use yearn_prices.Utils.Text.{text, text_eq}
use yearn_prices.Utils.Number.{Number, number_beq}
use yearn_prices.Utils.Json.{Elements, Members, array, object, read_member}
use yearn_prices.Backfill.Matcher.{
  MatchOptions, MatchResult, answer, collect, finish, invalid_response, is_nearer,
  is_valid_confidence, is_valid_symbol, match_chart_observation, matched, not_found, select,
  window_eligible_observations, window_of,
}
use yearn_prices.Backfill.Matcher.Collect.{Collects, IsCollected, any_malformed, collect-Collects}

module _ (eod : ℕ) (options : MatchOptions) where
  -- A result, against the window's observations and the raw prices that they were read from.
  abbrev pub Describes : Elements → List (ℕ × Number) → MatchResult → Type 0
  Describes prices window (matched price symbol confidence t offset) =
      In (t, price) window
      × ((s : ℕ) (q : Number)
          → In (s, q) window
          → ((distance t eod < distance s eod) ⊎ ((distance t eod ≡ distance s eod) × (t ≤ s)))
            × (s ≡ t → q ≡ price))
      × (offset ≡ sub_ℕ t eod)
  Describes prices window not_found = (window ≡ []) × (any_malformed prices ≡ false)
  Describes prices window invalid_response =
      ((t : ℕ) × (p q : Number) × (number_beq p q ≡ false) × In (t, p) window × In (t, q) window)
      ⊎ ((window ≡ []) × (any_malformed prices ≡ true))

  empty_window :
      (prices : Elements) (saw' : Bool)
      → IsCollected eod options [] false prices [] saw'
      → window_of eod options prices ≡ []
  empty_window prices saw' c = go (window_of eod options prices) (λ t p m. c.found t p m)
    where
      go :
          (window : List (ℕ × Number))
          → ((t : ℕ) (p : Number) → In (t, p) window → none ≡ some p)
          → window ≡ []
      go [] f = refl
      go ((t, p) ∷ window) f = absurd (ground (arith, f t p (inl refl)))

  farther :
      (s t : ℕ)
      → is_nearer eod options s t ≡ false
      → (distance t eod < distance s eod) ⊎ ((distance t eod ≡ distance s eod) × (t ≤ s))
  farther s t h = ground (arith, h)

  answer-Describes :
      (entry : Members) (prices : Elements) (candidates : List (ℕ × Number)) (saw' : Bool)
      (o : Option (ℕ × Number))
      → IsCollected eod options [] false prices candidates saw'
      → Selects eod options candidates o
      → Describes prices (window_of eod options prices) (answer eod options entry saw' o)
  answer-Describes entry prices candidates saw' none c e =
      let empty =
        empty_window prices saw'
          (subst (λ x. IsCollected eod options [] false prices x saw') e c) in
      elim (Bool-cases saw') [
        | inl bad ↦ rw bad (inr (empty, ground (arith, bad, c.malformed)))
        | inr good ↦ rw good (empty, ground (arith, good, c.malformed))
      ]
  answer-Describes entry prices candidates saw' (some (t, price)) c (m, nearest) = (
    elim (c.sound t price (In-get t price candidates c.unique m)) [
      | inl early ↦ absurd (ground (arith, early))
      | inr n ↦ n
    ],
    (λ s q n.
        let found = c.found s q n in
        (
          farther s t (
              All-In (λ d. is_nearer eod options (d.0) t ≡ false) candidates nearest
                (get-In s q candidates found)),
          λ same. ground (arith, same, found, In-get t price candidates c.unique m),
        )),
    refl,
  )

  finish-Describes :
      (entry : Members) (prices : Elements) (r : Option (List (ℕ × Number) × Bool))
      → Collects eod options [] false prices r
      → Describes prices (window_of eod options prices) (finish eod options entry r)
  finish-Describes entry prices none (t, p, q, differ, inl e, n) = absurd (ground (arith, e))
  finish-Describes entry prices none (t, p, q, differ, inr m, n) = inl (t, p, q, differ, m, n)
  finish-Describes entry prices (some (candidates, saw')) c =
      answer-Describes entry prices candidates saw' (select eod options none candidates) c
        (select-Selects eod options candidates)

  -- Of a coin whose prices are an array and whose symbol and confidence are valid: a match is an
  -- eligible observation of the window with the offset it states, no other is nearer to the day's
  -- end or as near and earlier, and all at its time have its price; not found means that nothing is
  -- eligible and nothing malformed; invalid means that two eligible observations of one time
  -- differ, or that nothing is eligible and something is malformed.
  pub match_chart_observation-Describes :
      (entry : Members) (prices : Elements)
      → read_member (text "prices") entry ≡ array prices
      → is_valid_symbol (read_member (text "symbol") entry) ≡ true
      → is_valid_confidence (read_member (text "confidence") entry) ≡ true
      → Describes prices
          (window_eligible_observations eod options (object entry))
          (match_chart_observation eod options (object entry))
  unfolding match_chart_observation window_eligible_observations
  match_chart_observation-Describes entry prices e s c =
      rw (e, s, c)
        (finish-Describes entry prices (collect eod options prices [] false)
          (collect-Collects eod options prices [] false tt))
