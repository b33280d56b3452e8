-- ===== src/Result.antt =====
-- The exceptions that the program raises or meets, and calls that return or raise. An exception
-- carries its message's format text; the values that are formatted into it are left out.
use compass4nfv.Base.{
  ◌⊎◌, inl, inr, ℕ, ◌≡◌, refl, Text, List, [], ◌∷◌, Bool, true, false, Option, none, some,
}

pub data Error : Type 0 where
  key_error type_error index_error value_error attribute_error assertion_error : Error
  -- what `requests` raises when no response comes back
  connection_error : Error
  io_error : Error
  -- no exception of Python: a loop of the model has used up its fuel
  out_of_fuel : Error
  runtime_error exception : Text → Error
  -- `sys.exit(code)`
  system_exit : ℕ → Error

pub data Result {ℓ} (A : Type ℓ) : Type ℓ where
  ok : A → Result A
  err : Error → Result A

abbrev pub succeeds {ℓ} : {A : Type ℓ} → Result A → Bool
succeeds (ok a) = true
succeeds (err e) = false

-- A value that is there, or the exception for its absence.
abbrev pub or_raise {ℓ} : {A : Type ℓ} → Option A → Error → Result A
or_raise none e = err e
or_raise (some a) e = ok a

-- `if c: raise e`
abbrev pub raise_if : Bool → Error → Result (Unit {0})
raise_if true e = err e
raise_if false e = ok tt

-- One call after another; what the first raises is raised.
infixl 5 ◌>>=◌ ◌>>◌
abbrev pub ◌>>=◌ {ℓ κ} : {X : Type ℓ} {Y : Type κ} → Result X → (X → Result Y) → Result Y
err raised >>= next = err raised
ok x >>= next = next x

abbrev pub ◌>>◌ {ℓ} : {Y : Type ℓ} → Result (Unit {0}) → Result Y → Result Y
first >> next = first >>= λ _. next

-- `[f(x) for x in xs]`
unfoldable pub each {ℓ κ} : {A : Type ℓ} {B : Type κ} → (A → Result B) → List A → Result (List B)
each f [] = ok []
each f (x ∷ xs) = let rest = each f xs in do y ← f x; ys ← rest; ok (y ∷ ys)

-- What has returned in a call that returns.
module _ {ℓ κ} {X : Type ℓ} {Y : Type κ} where
  pub >>=-returns :
      (first : Result X) (next : X → Result Y) {y : Y}
      → (first >>= next) ≡ ok y
      → (x : X) × (first ≡ ok x) × (next x ≡ ok y)
  >>=-returns (err raised) next e = cc e
  >>=-returns (ok x) next e = (x, refl, e)

-- A call returns or raises.
pub Result-cases {ℓ} :
    {A : Type ℓ} (r : Result A) → ((a : A) × (r ≡ ok a)) ⊎ ((x : Error) × (r ≡ err x))
Result-cases (ok a) = inl (a, refl)
Result-cases (err x) = inr (x, refl)

pub or_raise-ok {ℓ} :
    {A : Type ℓ} (o : Option A) (x : Error) {a : A} → or_raise o x ≡ ok a → o ≡ some a
or_raise-ok none x e = cc e
or_raise-ok (some b) x e = cc e
