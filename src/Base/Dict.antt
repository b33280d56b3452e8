-- ===== src/Base/Dict.antt =====
-- Python dicts as association lists: a key keeps the place of its first insertion.
use mathlib.Core.Path.{◌≡◌, refl}
use mathlib.Core.Logic.{◌≢◌, ◌↔◌, inl, inr}
use mathlib.Core.Bool.{Bool, true, false, ◌||◌}
use mathlib.Core.Option.{Option, none, some}
use mathlib.Core.List.{List, [], ◌∷◌}
use native.Mathlib.Omega.{arith}
use compass4nfv.Base.Tests.{if◌then◌else◌, Bool-cases}
use compass4nfv.Base.Equality.{Eq, ◌==◌, contains}

abbrev pub Dict {ℓ κ} : Type ℓ → Type κ → Type (ℓ ⊔ κ)
Dict K V = List (K × V)

-- `d.keys()` and `d.values()`, in one order.
abbrev pub keys {ℓ κ} : {K : Type ℓ} {V : Type κ} → Dict K V → List K
keys [] = []
keys ((k, v) ∷ d) = k ∷ keys d

abbrev pub values {ℓ κ} : {K : Type ℓ} {V : Type κ} → Dict K V → List V
values [] = []
values ((k, v) ∷ d) = v ∷ values d

module _ {ℓ κ} {K : Type ℓ} {V : Type κ} ⦃e : Eq K⦄ where
  unfoldable pub lookup : K → Dict K V → Option V
  lookup k [] = none
  lookup k ((j, v) ∷ d) = if k == j then some v else lookup k d

  -- `d[k] = v`
  unfoldable pub insert : K → V → Dict K V → Dict K V
  insert k v [] = (k, v) ∷ []
  insert k v ((j, w) ∷ d) = if k == j then (j, v) ∷ d else (j, w) ∷ insert k v d

  -- `d.update(e)`
  unfoldable pub update : Dict K V → Dict K V → Dict K V
  unfolding insert
  update d [] = d
  update d ((k, v) ∷ e') = update (insert k v d) e'

  -- `k in d`
  unfoldable pub has_key : K → Dict K V → Bool
  has_key k d = contains k (keys d)

  pub lookup-insert :
      (j k : K) (v : V) (d : Dict K V)
      → lookup j (insert k v d) ≡ (if j == k then some v else lookup j d)
  unfolding insert lookup
  lookup-insert j k v [] = refl
  lookup-insert j k v ((i, w) ∷ d) = ground (arith, lookup-insert j k v d)

  pub has_key-insert :
      (j k : K) (v : V) (d : Dict K V) → has_key j (insert k v d) ≡ (j == k || has_key j d)
  unfolding insert has_key
  has_key-insert j k v [] = ground arith
  has_key-insert j k v ((i, w) ∷ d) = ground (arith, has_key-insert j k v d)

  pub has_key-lookup : (k : K) (d : Dict K V) → (has_key k d ≡ true) ↔ (lookup k d ≢ none)
  unfolding lookup has_key
  has_key-lookup k [] = (λ h. cc, λ h. absurd (h refl))
  has_key-lookup k ((j, v) ∷ d) = ground (arith, has_key-lookup k d)

  -- The key that is looked up is there, or it is not.
  pub has_key-of_lookup :
      (k : K) (d : Dict K V) → has_key k d ≡ elim (lookup k d) [ none ↦ false | some v ↦ true ]
  unfolding lookup has_key
  has_key-of_lookup k [] = refl
  has_key-of_lookup k ((j, v) ∷ d) = elim (Bool-cases (k == j)) [
    | inl here ↦ rw here
    | inr away ↦ rw (away, has_key-of_lookup k d)
  ]
