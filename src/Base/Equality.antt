-- ===== src/Base/Equality.antt =====
-- Texts as lists of code points, and Python's `==` and `in` for types whose equality is decided.
use Prim.Native.Nat.{ℕ}
use Prim.Native.Char.{code}
use Prim.Native.String.{String}
use mathlib.Core.Path.{refl, ap₂}
use mathlib.Core.Logic.{ite, dite}
use mathlib.Core.Bool.{Bool, true, false, ◌||◌}
use mathlib.Core.List.{List, [], ◌∷◌}
use native.Mathlib.Decide.{ℕ_discrete}

abbrev pub Text : Type 0
Text = List ℕ

-- The text of a literal.
abbrev pub codes : String → Text
codes String.[] = []
codes (String.◌∷◌ c s) = code c ∷ codes s

pub record Eq {ℓ} (A : Type ℓ) : Type ℓ where
  pub dec : Discrete A

module _ {ℓ} {A : Type ℓ} ⦃e : Eq A⦄ where
  infix 50 ◌==◌
  abbrev pub ◌==◌ : A → A → Bool
  a == b = ite (e.dec a b) true false

  -- `a in xs`
  abbrev pub contains : A → List A → Bool
  contains a [] = false
  contains a (x ∷ xs) = a == x || contains a xs

  list_dec : Discrete (List A)
  list_dec [] [] = yes refl
  list_dec [] (b ∷ t) = no (λ p. cc)
  list_dec (a ∷ s) [] = no (λ p. cc)
  list_dec (a ∷ s) (b ∷ t) =
      let rest = list_dec s t in
      dite (e.dec a b)
        (λ p. dite rest (λ q. yes (ap₂ (λ x xs. x ∷ xs) p q)) (λ n. no (λ q. n (cc))))
        (λ n. no (λ q. n (cc)))

-- Shut in proofs, where a split on `s == t` yields the equation or its negation.
instance unfoldable pub number_eq : Eq ℕ
unfolding ℕ_discrete
number_eq = record { dec = ℕ_discrete }

instance unfoldable pub text_eq : Eq Text
unfolding number_eq list_dec
text_eq = record { dec = list_dec }
