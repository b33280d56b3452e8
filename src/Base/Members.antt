-- ===== src/Base/Members.antt =====
-- Laws of `contains` and `keep`.
use mathlib.Core.Path.{◌≡◌, refl}
use mathlib.Core.Bool.{Bool, false, ◌&&◌, ◌||◌}
use mathlib.Core.List.{List, [], ◌∷◌, ◌++◌}
use native.Mathlib.Omega.{arith}
use compass4nfv.Base.Equality.{Eq, contains}
use compass4nfv.Base.Lists.{keep}

module _ {ℓ} {A : Type ℓ} ⦃e : Eq A⦄ where
  pub contains-keep :
      (p : A → Bool) (a : A) (xs : List A) → contains a (keep p xs) ≡ (contains a xs && p a)
  unfolding keep
  contains-keep p a [] = refl
  contains-keep p a (x ∷ xs) = ground (arith, contains-keep p a xs)

  pub contains-append :
      (a : A) (xs ys : List A) → contains a (xs ++ ys) ≡ (contains a xs || contains a ys)
  contains-append a [] ys = refl
  contains-append a (x ∷ xs) ys = ground (arith, contains-append a xs ys)

  -- A list that contains nothing is empty.
  pub eq-nil_of_contains : (xs : List A) → ((a : A) → contains a xs ≡ false) → xs ≡ []
  eq-nil_of_contains [] h = refl
  eq-nil_of_contains (x ∷ xs) h = ground (arith, h x)
