-- ===== src/Backfill/Matcher/Collect.antt =====
-- What the candidates are: the eligible observations of the window, each time once.
use yearn_prices.Common.{
  Bool, Bool-cases, In, List, Option, Option-cases, arith, eqb, eqb_iff, eqb_refl, false, inl, inr,
  is_some, nat_eq, none, not, pair_eq, refl, some, string_eq, subst, sym, true, ℕ, ◌||◌, ◌∙◌, ◌∷◌,
  ◌≡◌, ◌⊎◌,
}
use yearn_prices.Common.OrderedMap.{HasUniqueKeys, get, get-set, set, set-HasUniqueKeys}
use yearn_prices.Utils.Number.{Number, number_beq, number_beq-eq-true}
use yearn_prices.Utils.Json.{Elements, Json, element, no_elements}
use yearn_prices.Backfill.Matcher.{MatchOptions, collect, is_in_window, read_observation, window_of}

abbrev pub any_malformed : Elements → Bool
any_malformed no_elements = false
any_malformed (element raw prices) = not (is_some (read_observation raw)) || any_malformed prices

module _ (eod : ℕ) (options : MatchOptions) where
  -- Two observations of one time whose prices differ.
  abbrev pub HasConflict : List (ℕ × Number) → Elements → Type 0
  HasConflict candidates prices =
      (t : ℕ) × (p q : Number) × (number_beq p q ≡ false)
      × ((get t candidates ≡ some p) ⊎ In (t, p) (window_of eod options prices))
      × In (t, q) (window_of eod options prices)

  -- The candidates at the end, from those at the start and the window.
  pub record IsCollected (before : List (ℕ × Number)) (saw : Bool) (prices : Elements)
      (after : List (ℕ × Number)) (saw' : Bool) : Type 0 where
    pub unique : HasUniqueKeys after
    pub kept : (t : ℕ) (p : Number) → get t before ≡ some p → get t after ≡ some p
    pub found :
        (t : ℕ) (p : Number) → In (t, p) (window_of eod options prices) → get t after ≡ some p
    pub sound :
        (t : ℕ) (p : Number)
        → get t after ≡ some p
        → (get t before ≡ some p) ⊎ In (t, p) (window_of eod options prices)
    pub malformed : saw' ≡ (saw || any_malformed prices)

  abbrev pub Collects :
      List (ℕ × Number) → Bool → Elements → Option (List (ℕ × Number) × Bool) → Type 0
  Collects before saw prices none = HasConflict before prices
  Collects before saw prices (some (after, saw')) = IsCollected before saw prices after saw'

  -- An observation that is malformed or outside the window adds nothing to it.
  Collects-outside :
      (raw : Json) (prices : Elements) (candidates : List (ℕ × Number)) (saw saw_now : Bool)
      (r : Option (List (ℕ × Number) × Bool))
      → window_of eod options (element raw prices) ≡ window_of eod options prices
      → (saw_now || any_malformed prices) ≡ (saw || any_malformed (element raw prices))
      → Collects candidates saw_now prices r
      → Collects candidates saw (element raw prices) r
  Collects-outside raw prices candidates saw saw_now none w m (t, p, q, differ, e, n) =
      (t, p, q, differ, rw w e, rw w n)
  Collects-outside raw prices candidates saw saw_now (some (after, saw')) w m h = record {
    unique = h.unique;
    kept = h.kept;
    found = λ t p n. h.found t p (rw w at n);
    sound = λ t p e. rw w (h.sound t p e);
    malformed = h.malformed ∙ m;
  }

  module _ (raw : Json) (prices : Elements) (candidates : List (ℕ × Number)) (saw : Bool) (t : ℕ)
      (p : Number)
      (w : window_of eod options (element raw prices) ≡ (t, p) ∷ window_of eod options prices)
      (m : (saw || any_malformed prices) ≡ (saw || any_malformed (element raw prices))) where
    -- An observation of a time that is there with the same price.
    Collects-again :
        (r : Option (List (ℕ × Number) × Bool))
        → get t candidates ≡ some p
        → Collects candidates saw prices r
        → Collects candidates saw (element raw prices) r
    Collects-again none e (s, a, b, differ, inl g, n) = (s, a, b, differ, inl g, rw w (inr n))
    Collects-again none e (s, a, b, differ, inr g, n) =
        (s, a, b, differ, rw w (inr (inr g)), rw w (inr n))
    Collects-again (some (after, saw')) e h = record {
      unique = h.unique;
      kept = h.kept;
      found = λ s a n. elim (rw w at n) [
        | inl same ↦ ground (arith, same, h.kept t p e)
        | inr later ↦ h.found s a later
      ];
      sound = λ s a g. elim (h.sound s a g) [ inl old ↦ inl old | inr n ↦ rw w (inr (inr n)) ];
      malformed = h.malformed ∙ m;
    }

    get-set-some :
        (s : ℕ) (a : Number)
        → get s (set t p candidates) ≡ some a
        → (get s candidates ≡ some a) ⊎ ((s ≡ t) × (a ≡ p))
    get-set-some s a g = elim (Bool-cases (eqb t s)) [
      | inl same ↦ inr (ground (arith, g, same, eqb_iff t s, get-set s t p candidates))
      | inr other ↦ inl (ground (arith, g, other, get-set s t p candidates))
    ]

    -- An observation of a new time.
    Collects-new :
        (r : Option (List (ℕ × Number) × Bool))
        → get t candidates ≡ none
        → Collects (set t p candidates) saw prices r
        → Collects candidates saw (element raw prices) r
    Collects-new none e (s, a, b, differ, inl g, n) = elim (get-set-some s a g) [
      | inl old ↦ (s, a, b, differ, inl old, rw w (inr n))
      | inr (same, equal) ↦ (s, a, b, differ, inr (rw (w, same, equal) (inl refl)), rw w (inr n))
    ]
    Collects-new none e (s, a, b, differ, inr g, n) =
        (s, a, b, differ, rw w (inr (inr g)), rw w (inr n))
    Collects-new (some (after, saw')) e h = record {
      unique = h.unique;
      kept = λ s a g. h.kept s a (ground (arith, g, e, get-set s t p candidates));
      found = λ s a n. elim (rw w at n) [
        | inl same ↦ ground (arith, same, h.kept t p, get-set t t p candidates, eqb_refl t)
        | inr later ↦ h.found s a later
      ];
      sound = λ s a g. elim (h.sound s a g) [
        | inl old ↦ elim (get-set-some s a old) [
          | inl older ↦ inl older
          | inr (same, equal) ↦ inr (rw (w, same, equal) (inl refl))
        ]
        | inr n ↦ rw w (inr (inr n))
      ];
      malformed = h.malformed ∙ m;
    }

  -- The loop collects the eligible observations of the window, or stops at two that conflict.
  pub collect-Collects :
      (prices : Elements) (candidates : List (ℕ × Number)) (saw : Bool)
      → HasUniqueKeys candidates
      → Collects candidates saw prices (collect eod options prices candidates saw)
  unfolding collect window_of
  collect-Collects no_elements candidates saw u = record {
    unique = u;
    kept = λ t p e. e;
    found = λ t p m. absurd m;
    sound = λ t p e. inl e;
    malformed = ground arith;
  }
  collect-Collects (element raw prices) candidates saw u =
      let P = Collects candidates saw (element raw prices) in
      let whole = collect eod options (element raw prices) candidates saw in
      elim (Option-cases (read_observation raw)) [
        | inl bad ↦
            let step : whole ≡ collect eod options prices candidates true = ground (arith, bad) in
            subst P (sym step) (
              Collects-outside raw prices candidates saw true _ (ground (arith, bad))
                (ground (arith, bad)) (collect-Collects prices candidates true u))
        | inr ((t, p), good) ↦
            let m : (saw || any_malformed prices) ≡ (saw || any_malformed (element raw prices)) =
              ground (arith, good) in
            elim (Bool-cases (is_in_window eod options t)) [
              | inr out ↦
                  let step : whole ≡ collect eod options prices candidates saw =
                    ground (arith, good, out) in
                  subst P (sym step) (
                    Collects-outside raw prices candidates saw saw _ (ground (arith, good, out)) m
                      (collect-Collects prices candidates saw u))
              | inl within ↦
                  let w : window_of eod options (element raw prices)
                      ≡ (t, p) ∷ window_of eod options prices =
                    ground (arith, good, within) in
                  elim (Option-cases (get t candidates)) [
                    | inl new ↦
                        let step : whole ≡ collect eod options prices (set t p candidates) saw =
                          ground (arith, good, within, new) in
                        subst P (sym step) (
                          Collects-new raw prices candidates saw t p w m _ new (
                            collect-Collects prices (set t p candidates) saw
                              (set-HasUniqueKeys t p candidates u)))
                    | inr (c, known) ↦ elim (Bool-cases (number_beq c p)) [
                      | inl same ↦
                          let step : whole ≡ collect eod options prices candidates saw =
                            ground (arith, good, within, known, same) in
                          subst P (sym step) (
                            Collects-again raw prices candidates saw t p w m _
                              (rw (← number_beq-eq-true c p same) known)
                              (collect-Collects prices candidates saw u))
                      | inr differ ↦
                          let step : whole ≡ none = ground (arith, good, within, known, differ) in
                          subst P (sym step) (t, c, p, differ, inl known, rw w (inl refl))
                    ]
                  ]
            ]
      ]
