-- ===== src/Registries/SourceRegistry/Order.antt =====
-- The order that a registry keeps.
use Prim.Native.String.{String}
use yearn_prices.Common.{
  All, List, [], any, arith, false, keep, none, refl, some, str_eq, str_eq_iff, subst, ℕ, ◌==◌, ◌↔◌,
  ◌∷◌, ◌≡◌, ◌≢◌,
}
use yearn_prices.Common.Sorting.{IsSorted, keep-sort, sort, sort-IsSorted}
use yearn_prices.Registries.SourceRegistry.{NamedSource, by_priority, has_duplicate, new_registry}

-- No two sources have one name.
abbrev pub HasUniqueNames : List NamedSource → Type 0
HasUniqueNames [] = Unit
HasUniqueNames (s ∷ sources) = All (λ r. s.name ≢ r.name) sources × HasUniqueNames sources

any-name_iff :
    (names : List String) (name : String)
    → (any (λ n. str_eq n name) names ≡ false) ↔ All (λ n. n ≢ name) names
any-name_iff [] name = ((λ h. tt), λ h. refl)
any-name_iff (n ∷ names) name = ground (arith, str_eq_iff n name, any-name_iff names name)

module _ {A : Type 0} (P Q : A → Type 0) where
  All-both : (xs : List A) → All (λ x. P x × Q x) xs ↔ (All P xs × All Q xs)
  All-both [] = ((λ h. (tt, tt)), λ h. tt)
  All-both (x ∷ xs) = (
    (λ h. let (ps, qs) = (All-both xs).0 h.1 in ((h.0.0, ps), (h.0.1, qs))),
    λ h. ((h.0.0, h.1.0), (All-both xs).1 (h.0.1, h.1.1)),
  )

-- No source has a name that was seen, and no two have one name.
has_duplicate_iff :
    (names : List String) (sources : List NamedSource)
    → (has_duplicate names sources ≡ false)
      ↔ (All (λ s. All (λ n. n ≢ s.name) names) sources × HasUniqueNames sources)
unfolding has_duplicate
has_duplicate_iff names [] = ((λ h. (tt, tt)), λ h. refl)
has_duplicate_iff names (s ∷ sources) =
    let split = All-both (λ r. s.name ≢ r.name) (λ r. All (λ n. n ≢ r.name) names) sources in
    ground (arith, any-name_iff names s.name, has_duplicate_iff (s.name ∷ names) sources, split)

All-unseen : (sources : List NamedSource) → All (λ s. All (λ n. n ≢ s.name) []) sources
All-unseen [] = tt
All-unseen (s ∷ sources) = (tt, All-unseen sources)

-- A registry is refused exactly where two sources have one name.
pub new_registry-eq-none_iff :
    (sources : List NamedSource) → (new_registry sources ≢ none) ↔ HasUniqueNames sources
unfolding new_registry
new_registry-eq-none_iff sources = ground (arith, has_duplicate_iff [] sources, All-unseen sources)

-- A registry that is made holds the sources in the order of their priorities, and those of one
-- priority are the given ones in the given order; their names are distinct.
pub new_registry-ordered :
    (sources registry : List NamedSource) (p : ℕ)
    → new_registry sources ≡ some registry
    → HasUniqueNames sources
      × IsSorted by_priority registry
      × (keep (λ s. s.priority == p) registry ≡ keep (λ s. s.priority == p) sources)
unfolding new_registry
new_registry-ordered sources registry p h =
    let unique : HasUniqueNames sources =
      ground (arith, h, has_duplicate_iff [] sources, All-unseen sources) in
    let same : sort by_priority sources ≡ registry = ground (arith, h) in
    (
      unique,
      subst (IsSorted by_priority) same
          (sort-IsSorted by_priority (λ x y e. ground arith) (λ x y z e f. ground arith) sources),
      subst (λ r. keep (λ s. s.priority == p) r ≡ keep (λ s. s.priority == p) sources) same
          (keep-sort by_priority (λ s. s.priority == p) (λ x y e f. ground arith) sources),
    )
