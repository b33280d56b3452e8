-- ===== src/Effects/Bind.antt =====
-- Inversion of calls that return: what a block's parts have returned, and in which states.
use compass4nfv.Base.{◌≡◌, ◌≢◌, refl, Bool, true, false, if◌then◌else◌, sym, ap, ◌∙◌, List, ◌∷◌}
use compass4nfv.Result.{Error, Result, ok, err, succeeds}
use compass4nfv.Effects.{Action, raise, lift, ◌>>=◌, for_each}

module _ {S A B : Type 0} where
  pub >>=-eq-ok :
      (m : Action S A) (f : A → Action S B) (s : S) {b : B} {u : S}
      → (m >>= f) s ≡ (ok b, u)
      → (a : A) × (t : S) × (m s ≡ (ok a, t)) × (f a t ≡ (ok b, u))
  >>=-eq-ok m f s {b} {u} h = inner (m s).0 (m s).1 h
    where
      inner :
          (r : Result A) (t : S)
          → elim r [ ok a ↦ f a t | err x ↦ (err x, t) ] ≡ (ok b, u)
          → (a : A) × (t' : S) × (◌≡◌ {A = Result A × S} (r, t) (ok a, t')) × (f a t' ≡ (ok b, u))
      inner (ok a) t e = (a, t, refl, e)
      inner (err x) t e = cc

pub for_each-cons :
    {S A : Type 0} (body : A → Action S (Unit {0})) (x : A) (xs : List A) (s : S) {u : S}
    → for_each body (x ∷ xs) s ≡ (ok tt, u)
    → (t : S) × (body x s ≡ (ok tt, t)) × (for_each body xs t ≡ (ok tt, u))
unfolding for_each
for_each-cons body x xs s h =
    let (_, t, p, q) = >>=-eq-ok (body x) (λ _. for_each body xs) s h in (t, p, q)

module _ {S A B : Type 0} where
  abbrev continue : (A → Action S B) → Result A × S → Result B × S
  continue f (ok a, s) = f a s
  continue f (err e, s) = (err e, s)

  continue-bind : (m : Action S A) (f : A → Action S B) (s : S) → (m >>= f) s ≡ continue f (m s)
  continue-bind m f s = inner (m s).0 (m s).1
    where
      inner :
          (r : Result A) (t : S) → elim r [ ok a ↦ f a t | err x ↦ (err x, t) ] ≡ continue f (r, t)
      inner (ok a) t = refl
      inner (err e) t = refl

  -- A block goes on from where its first call has returned.
  pub >>=-of_ok :
      (m : Action S A) (f : A → Action S B) (s : S) {a : A} {t : S}
      → m s ≡ (ok a, t)
      → (m >>= f) s ≡ f a t
  >>=-of_ok m f s e = continue-bind m f s ∙ ap (continue f) e

  -- And stops where that has raised.
  pub >>=-of_err :
      (m : Action S A) (f : A → Action S B) (s : S) {x : Error} {t : S}
      → m s ≡ (err x, t)
      → (m >>= f) s ≡ (err x, t)
  >>=-of_err m f s e = continue-bind m f s ∙ ap (continue f) e

  -- A first call can be exchanged for one that does the same from that state.
  pub >>=-first :
      (m n : Action S A) (f : A → Action S B) (s : S) → m s ≡ n s → (m >>= f) s ≡ (n >>= f) s
  >>=-first m n f s e = continue-bind m f s ∙ ap (continue f) e ∙ sym (continue-bind n f s)

  -- Two blocks agree if they do after each return of their first call.
  pub >>=-congr :
      (m : Action S A) (f g : A → Action S B) (s : S)
      → ((a : A) (t : S) → m s ≡ (ok a, t) → f a t ≡ g a t)
      → (m >>= f) s ≡ (m >>= g) s
  >>=-congr m f g s h = continue-bind m f s ∙ inner (m s) refl ∙ sym (continue-bind m g s)
    where
      inner : (p : Result A × S) → m s ≡ p → continue f p ≡ continue g p
      inner (ok a, t) e = h a t e
      inner (err x, t) e = refl

  -- A block does not raise what neither its first call nor the rest raises.
  pub >>=-ne_err :
      (m : Action S A) (f : A → Action S B) (s : S) (x : Error)
      → (m s).0 ≢ err x
      → ((a : A) (t : S) → m s ≡ (ok a, t) → (f a t).0 ≢ err x)
      → ((m >>= f) s).0 ≢ err x
  >>=-ne_err m f s x h k = rw (continue-bind m f s) (inner (m s) refl)
    where
      inner : (p : Result A × S) → m s ≡ p → (continue f p).0 ≢ err x
      inner (ok a, t) e = k a t e
      inner (err y, t) e = λ q. h (ap (λ (p : Result A × S). p.0) e ∙ cc)

-- A call that raises from every state.
pub record Fails {S A : Type 0} (m : Action S A) : Type 0 where
  pub at : (s : S) → succeeds (m s).0 ≡ false

module _ {S A B : Type 0} where
  pub Fails-bind : (m : Action S A) (f : A → Action S B) → ((a : A) → Fails (f a)) → Fails (m >>= f)
  Fails-bind m f h = record { at = λ s. rw (continue-bind m f s) (inner (m s)) }
    where
      inner : (p : Result A × S) → succeeds (continue f p).0 ≡ false
      inner (ok a, t) = (h a).at t
      inner (err x, t) = refl

module _ {S A : Type 0} where
  pub Fails-raise : (x : Error) → Fails (raise {S = S} {A = A} x)
  Fails-raise x = record { at = λ s. refl }

  pub Fails-if : (b : Bool) (m n : Action S A) → Fails m → Fails n → Fails (if b then m else n)
  Fails-if true m n hm hn = hm
  Fails-if false m n hm hn = hn

-- Where a call returns, from whatever state, the state that it leaves satisfies the predicate.
pub record Ensures {S A : Type 0} (m : Action S A) (P : S → Type 0) : Type 0 where
  pub returning : (s : S) {a : A} {u : S} → m s ≡ (ok a, u) → P u

module _ {S A B : Type 0} {P : S → Type 0} where
  pub Ensures-bind :
      (m : Action S A) (f : A → Action S B) → ((a : A) → Ensures (f a) P) → Ensures (m >>= f) P
  Ensures-bind m f h = record {
    returning = λ s e. let (a, t, _, rest) = >>=-eq-ok m f s e in (h a).returning t rest;
  }

-- A read that returns.
pub lift-eq-ok :
    {S A B : Type 0} (r : Result A) (f : A → Action S B) (s : S) {b : B} {u : S}
    → (lift r >>= f) s ≡ (ok b, u)
    → (a : A) × (r ≡ ok a) × (f a s ≡ (ok b, u))
lift-eq-ok (ok a) f s e = (a, refl, e)
lift-eq-ok (err x) f s e = cc e

-- Nothing after a call.
pub >>=-pure_tt :
    {S : Type 0} (m : Action S (Unit {0})) (s : S) → (m >>= λ _. (λ t. (ok tt, t))) s ≡ m s
>>=-pure_tt {S = S} m s = continue-bind m (λ _. (λ t. (ok tt, t))) s ∙ inner (m s)
  where
    inner : (p : Result (Unit {0}) × S) → continue (λ _. (λ t. (ok tt, t))) p ≡ p
    inner (ok a, t) = refl
    inner (err x, t) = refl
