-- ===== src/Common/Options.antt =====
-- Options: a split that keeps the equation, and the chain of fallible steps.
use mathlib.Core.Path.{◌≡◌, refl}
use mathlib.Core.Logic.{◌⊎◌, inl, inr}
use mathlib.Core.Bool.{Bool, true, false}
use native.Mathlib.Omega.{arith}
use mathlib.Core.Option.{Option, none, some}

module _ {ℓ} {A : Type ℓ} where
  pub Option-cases : (o : Option A) → (o ≡ none) ⊎ ((a : A) × (o ≡ some a))
  Option-cases none = inl refl
  Option-cases (some a) = inr (a, refl)

  abbrev pub is_some : Option A → Bool
  is_some none = false
  is_some (some _) = true

  -- JavaScript's `o ?? d`
  abbrev pub or_else : Option A → A → A
  or_else none d = d
  or_else (some a) _ = a

-- A step that gives none ends the chain.
infixl 5 ◌>>=◌
abbrev pub ◌>>=◌ : {A B : Type 0} → Option A → (A → Option B) → Option B
none >>= rest = none
some value >>= rest = rest value

pub two_steps :
    {A B : Type 0} (o : Option A) (rest : A → Option B) (b : B)
    → (o >>= rest) ≡ some b
    → (a : A) × (o ≡ some a) × (rest a ≡ some b)
two_steps none rest b e = absurd (ground (arith, e))
two_steps (some a) rest b e = (a, refl, e)
