-- ===== src/Common/OrderedMap.antt =====
-- JavaScript's `Map`: an association list in insertion order, each key at most once.
use yearn_prices.Common.Equality.{Eq, eqb, eqb_iff, eqb_refl, nat_eq, option_eq, pair_eq, string_eq}
use yearn_prices.Common.Tests.{Bool-cases, if◌then◌else◌}
use yearn_prices.Common.Lists.{All, All-In, In, length}
use yearn_prices.Common.Options.{is_some}
use Prim.Native.Nat.{◌≤◌}
use mathlib.Core.Path.{◌≡◌, refl, subst, sym}
use mathlib.Core.Bool.{Bool}
use mathlib.Core.Logic.{inl, inr}
use mathlib.Core.Option.{Option, none, some}
use mathlib.Core.List.{List, [], ◌∷◌, ◌++◌}
use native.Mathlib.Omega.{arith}

module _ {K V : Type 0} ⦃e : Eq K⦄ where
  -- `map.get(k)`
  abbrev pub get : K → List (K × V) → Option V
  get k [] = none
  get k ((j, v) ∷ m) = if eqb j k then some v else get k m

  -- `map.has(k)`
  abbrev pub has : K → List (K × V) → Bool
  has k m = is_some (get k m)

  -- `map.set(k, v)`: in place where the key is there, else at the end.
  abbrev pub set : K → V → List (K × V) → List (K × V)
  set k v [] = (k, v) ∷ []
  set k v ((j, w) ∷ m) = if eqb j k then (j, v) ∷ m else (j, w) ∷ set k v m

  -- `map.delete(k)`
  abbrev pub delete : K → List (K × V) → List (K × V)
  delete k [] = []
  delete k ((j, w) ∷ m) = if eqb j k then m else (j, w) ∷ delete k m

  -- No key is listed twice.
  abbrev pub HasUniqueKeys : List (K × V) → Type 0
  HasUniqueKeys [] = Unit
  HasUniqueKeys ((j, w) ∷ m) = (get j m ≡ none) × HasUniqueKeys m

  pub get-set :
      (j k : K) (v : V) (m : List (K × V))
      → get j (set k v m) ≡ (if eqb k j then some v else get j m)
  get-set j k v [] = refl
  get-set j k v ((i, w) ∷ m) =
      ground (arith, eqb_iff k j, eqb_iff i k, eqb_iff i j, get-set j k v m)

  pub set-HasUniqueKeys :
      (k : K) (v : V) (m : List (K × V)) → HasUniqueKeys m → HasUniqueKeys (set k v m)
  set-HasUniqueKeys k v [] h = (refl, tt)
  set-HasUniqueKeys k v ((i, w) ∷ m) h =
      ground (arith, eqb_iff i k, eqb_iff k i, get-set i k v m, set-HasUniqueKeys k v m)

  pub get-delete :
      (j k : K) (m : List (K × V))
      → HasUniqueKeys m
      → get j (delete k m) ≡ (if eqb k j then none else get j m)
  get-delete j k [] h = ground arith
  get-delete j k ((i, w) ∷ m) h =
      ground (arith, eqb_iff k j, eqb_iff i k, eqb_iff i j, get-delete j k m)

  pub delete-HasUniqueKeys :
      (k : K) (m : List (K × V)) → HasUniqueKeys m → HasUniqueKeys (delete k m)
  delete-HasUniqueKeys k [] h = tt
  delete-HasUniqueKeys k ((i, w) ∷ m) h = ground (arith, get-delete i k m, delete-HasUniqueKeys k m)

  pub length-delete : (k : K) (m : List (K × V)) → length (delete k m) ≤ length m
  length-delete k [] = omega arith
  length-delete k ((i, w) ∷ m) = ground (arith, length-delete k m)

  pub set_new : (k : K) (v : V) (m : List (K × V)) → get k m ≡ none → set k v m ≡ m ++ (k, v) ∷ []
  set_new k v [] h = refl
  set_new k v ((i, w) ∷ m) h = ground (arith, set_new k v m)

  pub In-get : (k : K) (v : V) (m : List (K × V)) → HasUniqueKeys m → In (k, v) m → get k m ≡ some v
  In-get k v [] u h = absurd h
  In-get k v ((i, w) ∷ m) (new, u) (inl e) = ground (arith, e, eqb_refl k)
  In-get k v ((i, w) ∷ m) (new, u) (inr h) = ground (arith, eqb_iff i k, In-get k v m u h)

  pub get-In : (k : K) (v : V) (m : List (K × V)) → get k m ≡ some v → In (k, v) m
  get-In k v [] h = absurd (ground (arith, h))
  get-In k v ((i, w) ∷ m) h = elim (Bool-cases (eqb i k)) [
    | inl same ↦ inl (ground (arith, h, same, eqb_iff i k))
    | inr other ↦ inr (get-In k v m (ground (arith, h, other)))
  ]

  module _ (P : K × V → Type 0) where
    pub set-All : (k : K) (v : V) (m : List (K × V)) → P (k, v) → All P m → All P (set k v m)
    set-All k v [] p h = (p, tt)
    set-All k v ((i, w) ∷ m) p (q, h) = elim (Bool-cases (eqb i k)) [
      | inl same ↦ rw same (subst (λ j. P (j, v)) (sym ((eqb_iff i k).0 same)) p, h)
      | inr other ↦ rw other (q, set-All k v m p h)
    ]

    pub get-All : (k : K) (v : V) (m : List (K × V)) → All P m → get k m ≡ some v → P (k, v)
    get-All k v m h e = All-In P m h (get-In k v m e)
