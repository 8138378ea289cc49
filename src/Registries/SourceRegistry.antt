-- ===== src/Registries/SourceRegistry.antt =====
-- src/registries/source-registry.ts: `SourceRegistry`. `fetchPrice` is a parameter; priorities are
-- non-negative integers; a registry is its list of sources.
pub mod Order
pub mod Resolve
use Prim.Native.String.{String}
use yearn_prices.Common.{
  Bool, List, Option, [], any, false, if◌then◌else◌, leb, none, not, or_else, some, str_eq, true, ℕ,
  ◌||◌, ◌∷◌,
}
use yearn_prices.Common.Sorting.{sort}
use yearn_prices.Http.{ErrorCode, not_found}
use yearn_prices.Utils.Number.{Number}

pub record NamedSource : Type 0 where
  pub name : String
  pub priority : ℕ
  pub supports : ℕ → Bool

pub record PriceFields : Type 0 where
  pub price : Number
  pub timestamp : ℕ
  pub symbol : Option String
  pub confidence : Option Number

-- What is thrown: an `ApiError`, or another error, told apart by a number.
pub data Failure : Type 0 where
  api : ErrorCode → Failure
  other : ℕ → Failure

-- How `fetchPrice` settles.
pub data Answer : Type 0 where
  quoted : PriceFields → Answer
  nothing : Answer
  rejected : Failure → Answer

-- `{ ...price, source: source.name }`, or an error.
pub data Resolved : Type 0 where
  stamped : PriceFields → String → Resolved
  throws : Failure → Resolved

-- `error instanceof ApiError && error.code === 'NOT_FOUND'`
abbrev pub is_not_found : Failure → Bool
is_not_found (api not_found) = true
is_not_found _ = false

-- The constructor's check: whether some name was seen before.
unfoldable pub has_duplicate : List String → List NamedSource → Bool
has_duplicate names [] = false
has_duplicate names (source ∷ sources) =
    any (λ n. str_eq n source.name) names || has_duplicate (source.name ∷ names) sources

-- `(a, b) => a.priority - b.priority`
abbrev pub by_priority : NamedSource → NamedSource → Bool
by_priority a b = leb a.priority b.priority

-- The constructor; `none` is a thrown error.
unfoldable pub new_registry : List NamedSource → Option (List NamedSource)
unfolding has_duplicate
new_registry sources = if has_duplicate [] sources then none else some (sort by_priority sources)

abbrev pub is_skipped : Option String → ℕ → NamedSource → Bool
is_skipped skip chain_id source =
    elim skip [ none ↦ false | some s ↦ str_eq source.name s ] || not (source.supports chain_id)

module _ (fetch_price : NamedSource → ℕ → String → Answer) where
  -- What an answer leads to; `next` goes on with the remaining sources and the error remembered.
  abbrev pub after_answer :
      NamedSource → Option Failure → Answer → (Option Failure → Resolved) → Resolved
  after_answer source last_error (quoted price) next = stamped price source.name
  after_answer source last_error nothing next = next last_error
  after_answer source last_error (rejected error) next =
      next (if is_not_found error then last_error else some error)

  -- The loop, from an error remembered so far, and the end of `resolveSkipping`.
  unfoldable pub resolve_from :
      Option String → ℕ → String → Option Failure → List NamedSource → Resolved
  resolve_from skip chain_id token last_error [] = throws (or_else last_error (api not_found))
  resolve_from skip chain_id token last_error (source ∷ sources) =
      if is_skipped skip chain_id source
      then resolve_from skip chain_id token last_error sources
      else after_answer source last_error (fetch_price source chain_id token)
          (λ e. resolve_from skip chain_id token e sources)

  unfoldable pub resolve_skipping : Option String → List NamedSource → ℕ → String → Resolved
  unfolding resolve_from
  resolve_skipping skip sources chain_id token = resolve_from skip chain_id token none sources

  unfoldable pub resolve : List NamedSource → ℕ → String → Resolved
  unfolding resolve_skipping
  resolve sources chain_id token = resolve_skipping none sources chain_id token
