-- ===== src/Registries/SourceRegistry/Resolve.antt =====
-- The sources that a resolve asks, and its outcome.
use Prim.Native.String.{String}
use yearn_prices.Common.{
  All, Bool-cases, List, Option, [], ap, false, inl, inr, none, or_else, refl, some, true, ℕ, ◌++◌,
  ◌∷◌, ◌≡◌, ◌≢◌, ◌⊎◌,
}
use yearn_prices.Http.{not_found}
use yearn_prices.Registries.SourceRegistry.{
  Answer, Failure, NamedSource, PriceFields, Resolved, after_answer, api, is_not_found, is_skipped,
  nothing, quoted, rejected, resolve_from, resolve_skipping, stamped, throws,
}

module _ (fetch_price : NamedSource → ℕ → String → Answer) (skip : Option String) (chain_id : ℕ)
    (token : String) where
  -- A source that is asked.
  abbrev pub IsAsked : NamedSource → Type 0
  IsAsked s = is_skipped skip chain_id s ≡ false

  abbrev pub HasNoQuote : NamedSource → Type 0
  HasNoQuote s = IsAsked s → (p : PriceFields) → fetch_price s chain_id token ≢ quoted p

  -- A source that answers with nothing worse than NOT_FOUND.
  abbrev pub HasNoError : NamedSource → Type 0
  HasNoError s =
      IsAsked s → (e : Failure) → fetch_price s chain_id token ≡ rejected e → is_not_found e ≡ true

  -- The price and name of the first source that is asked and quotes one.
  abbrev pub IsFirstQuote : List NamedSource → PriceFields → String → Type 0
  IsFirstQuote sources p name =
      (before after : List NamedSource) × (s : NamedSource) × (sources ≡ before ++ s ∷ after)
      × All HasNoQuote before
      × IsAsked s
      × (fetch_price s chain_id token ≡ quoted p)
      × (s.name ≡ name)

  -- The error of the last source that is asked and fails in another way than NOT_FOUND; where there
  -- is none, the given one.
  abbrev pub IsLastError : Failure → List NamedSource → Failure → Type 0
  IsLastError given sources e =
      ((e ≡ given) × All HasNoError sources)
      ⊎ ((before after : List NamedSource) × (s : NamedSource) × (sources ≡ before ++ s ∷ after)
          × All HasNoError after
          × IsAsked s
          × (fetch_price s chain_id token ≡ rejected e)
          × (is_not_found e ≡ false))

  abbrev pub Resolves : Failure → List NamedSource → Resolved → Type 0
  Resolves given sources (stamped p name) = IsFirstQuote sources p name
  Resolves given sources (throws e) = All HasNoQuote sources × IsLastError given sources e

  -- A source without a quote and without an error of its own changes nothing.
  Resolves-cons :
      (given : Failure) (s : NamedSource) (sources : List NamedSource) (r : Resolved)
      → HasNoQuote s
      → HasNoError s
      → Resolves given sources r
      → Resolves given (s ∷ sources) r
  Resolves-cons given s sources (stamped p name) q e
        (before, after, t, split, none_before, asked, found, named) =
      (s ∷ before, after, t, ap (λ l. s ∷ l) split, (q, none_before), asked, found, named)
  Resolves-cons given s sources (throws f) q e (no_quotes, inl (same, no_errors)) =
      ((q, no_quotes), inl (same, (e, no_errors)))
  Resolves-cons given s sources (throws f) q e
        (no_quotes, inr (before, after, t, split, none_after, asked, found, real)) =
      (
        (q, no_quotes),
        inr (s ∷ before, after, t, ap (λ l. s ∷ l) split, none_after, asked, found, real),
      )

  -- A source that fails is the one to blame where no later one is.
  Resolves-cons_error :
      (given f : Failure) (s : NamedSource) (sources : List NamedSource) (r : Resolved)
      → IsAsked s
      → fetch_price s chain_id token ≡ rejected f
      → is_not_found f ≡ false
      → Resolves f sources r
      → Resolves given (s ∷ sources) r
  Resolves-cons_error given f s sources (stamped p name) a e bad
        (before, after, t, split, none_before, asked, found, named) =
      (
        s ∷ before,
        after,
        t,
        ap (λ l. s ∷ l) split,
        ((λ asked p. cc), none_before),
        asked,
        found,
        named,
      )
  Resolves-cons_error given f s sources (throws g) a e bad (no_quotes, inl (same, no_errors)) =
      (((λ asked p. cc), no_quotes), inr ([], sources, s, refl, no_errors, a, cc, cc))
  Resolves-cons_error given f s sources (throws g) a e bad
        (no_quotes, inr (before, after, t, split, none_after, asked, found, real)) =
      (
        ((λ asked p. cc), no_quotes),
        inr (s ∷ before, after, t, ap (λ l. s ∷ l) split, none_after, asked, found, real),
      )

  -- One source that is asked, before others that resolve whatever error is remembered.
  after_answer-Resolves :
      (last_error : Option Failure) (s : NamedSource) (sources : List NamedSource)
      (next : Option Failure → Resolved)
      → IsAsked s
      → ((e : Option Failure) → Resolves (or_else e (api not_found)) sources (next e))
      → (answer : Answer) → fetch_price s chain_id token ≡ answer
      → Resolves
          (or_else last_error (api not_found))
          (s ∷ sources)
          (after_answer fetch_price s last_error answer next)
  after_answer-Resolves last_error s sources next asked rest (quoted p) e =
      ([], sources, s, refl, tt, asked, e, refl)
  after_answer-Resolves last_error s sources next asked rest nothing e =
      Resolves-cons _ s sources _ (λ a p. cc) (λ a f. cc) (rest last_error)
  after_answer-Resolves last_error s sources next asked rest (rejected f) e =
      elim (Bool-cases (is_not_found f)) [
        | inl absent ↦
            rw absent (Resolves-cons _ s sources _ (λ a p. cc) (λ a g h. cc) (rest last_error))
        | inr bad ↦ rw bad (Resolves-cons_error _ f s sources _ asked e bad (rest (some f)))
      ]

  resolve_from-Resolves :
      (last_error : Option Failure) (sources : List NamedSource)
      → Resolves
          (or_else last_error (api not_found))
          sources
          (resolve_from fetch_price skip chain_id token last_error sources)
  unfolding resolve_from
  resolve_from-Resolves last_error [] = (tt, inl (refl, tt))
  resolve_from-Resolves last_error (s ∷ sources) = elim (Bool-cases (is_skipped skip chain_id s)) [
    | inl skipped ↦ rw skipped (
        Resolves-cons _ s sources _ (λ asked p. cc) (λ asked e. cc)
          (resolve_from-Resolves last_error sources))
    | inr asked ↦ rw asked (
        after_answer-Resolves last_error s sources _ asked (λ e. resolve_from-Resolves e sources)
          (fetch_price s chain_id token) refl)
  ]

  -- The outcome of a resolve is the first price of the sources that are asked, in the registry's
  -- order; or there is none, and it is the last error other than NOT_FOUND, or else NOT_FOUND.
  pub resolve_skipping-Resolves :
      (sources : List NamedSource)
      → Resolves (api not_found) sources (resolve_skipping fetch_price skip sources chain_id token)
  unfolding resolve_skipping
  resolve_skipping-Resolves sources = resolve_from-Resolves none sources
