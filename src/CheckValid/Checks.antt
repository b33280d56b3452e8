-- ===== src/CheckValid/Checks.antt =====
-- What it means that a check reports, and how the checks of util/check_valid.py are put together.
use compass4nfv.Base.{
  ◌≡◌, ◌<◌, refl, ap, ◌∙◌, subst, ◌↔◌, ◌⊎◌, inl, inr, Bool, true, false, ◌||◌, arith, List, [], ◌∷◌,
  All, length, Bool-cases, if◌then◌else◌,
}
use compass4nfv.Result.{Result, ok, err}
use compass4nfv.Effects.{Action, pure, lift, ◌>>=◌}
use compass4nfv.Effects.Bind.{>>=-eq-ok, >>=-of_ok}
use compass4nfv.CheckValid.{Printed, any_invalid}

-- An action that goes on where `acc` says whether a fault has been found: it prints something exactly
-- if it finds one, and, where there was none before, finds none exactly if `P` holds.
pub record Checks (acc : Bool) (m : Action Printed Bool) (P : Type 0) : Type 0 where
  pub tells :
      (s s' : Printed) (b : Bool)
      → m s ≡ (ok b, s')
      → ((b ≡ acc) × (s' ≡ s)) ⊎ ((b ≡ true) × (length s < length s'))
  pub sound : (s s' : Printed) → acc ≡ false → m s ≡ (ok false, s') → P
  pub complete : (s : Printed) → acc ≡ false → P → m s ≡ (ok false, s)

pub Checks-pure : (acc b : Bool) → b ≡ acc → Checks acc (pure b) (Unit {0})
Checks-pure acc b e = record {
  tells = λ s s' c h. inl (cc, cc);
  sound = λ s s' none h. tt;
  complete = λ s none h. cc;
}

pub Checks-iff :
    {acc : Bool} {m : Action Printed Bool} {P Q : Type 0} → P ↔ Q → Checks acc m P → Checks acc m Q
Checks-iff (to, from) h = record {
  tells = h.tells;
  sound = λ s s' none e. to (h.sound s s' none e);
  complete = λ s none q. h.complete s none (from q);
}

-- A call that reads only.
pub Checks-lift :
    {A : Type 0} {acc : Bool} (r : Result A) {f : A → Action Printed Bool} {P : A → Type 0}
    → ((x : A) → Checks acc (f x) (P x))
    → Checks acc (lift r >>= f) ((x : A) × (r ≡ ok x) × P x)
Checks-lift (err raised) h = record {
  tells = λ s s' b e. cc e;
  sound = λ s s' none e. cc e;
  complete = λ s none (x, e, p). cc e;
}
Checks-lift (ok x) {f} {P} h = record {
  tells = (h x).tells;
  sound = λ s s' none e. (x, refl, (h x).sound s s' none e);
  complete = λ s none (y, e, p). (h x).complete s none (subst P (cc e) p);
}

module _ {acc : Bool} {m : Action Printed Bool} {f : Bool → Action Printed Bool} {P Q : Type 0}
    (hm : Checks false m P) (hf : (b : Bool) → Checks (acc || b) (f b) Q) where
  then-tells :
      (s s' : Printed) (b : Bool)
      → (m >>= f) s ≡ (ok b, s')
      → ((b ≡ acc) × (s' ≡ s)) ⊎ ((b ≡ true) × (length s < length s'))
  then-tells s s' b e =
      let (x, s1, e1, e2) = >>=-eq-ok m f s e in
      let early = hm.tells s s1 x e1 in
      let late = (hf x).tells s1 s' b e2 in ground (arith, early, late)

  then-sound : (s s' : Printed) → acc ≡ false → (m >>= f) s ≡ (ok false, s') → P × Q
  then-sound s s' none e =
      let (x, s1, e1, e2) = >>=-eq-ok m f s e in
      elim (Bool-cases x) [
        | inl found ↦ let late = (hf x).tells s1 s' false e2 in ground (arith, late, found)
        | inr fine ↦ (
          hm.sound s s1 refl (e1 ∙ ap (λ z. (ok z, s1)) fine),
          (hf x).sound s1 s' (ground (arith, none, fine)) e2,
        )
      ]

  pub Checks-then : Checks acc (m >>= f) (P × Q)
  Checks-then = record {
    tells = then-tells;
    sound = then-sound;
    complete = λ s none (p, q).
        >>=-of_ok m f s (hm.complete s refl p) ∙ (hf false).complete s (ground (arith, none)) q;
  }

-- The last check, whose result joins the others'.
pub Checks-last :
    {acc : Bool} {m : Action Printed Bool} {P : Type 0} (g : Bool → Bool)
    → Checks false m P
    → ((b : Bool) → g b ≡ acc || b)
    → Checks acc (m >>= λ b. pure (g b)) P
Checks-last {acc} g hm e =
    Checks-iff (λ p. p.0, λ p. (p, tt)) (Checks-then hm (λ b. Checks-pure (acc || b) (g b) (e b)))

-- A loop checks every element.
pub any_invalid-Checks :
    {A : Type 0} (body : A → Action Printed Bool) (P : A → Type 0)
    → ((x : A) → Checks false (body x) (P x))
    → (xs : List A) → Checks false (any_invalid body xs) (All P xs)
unfolding any_invalid
any_invalid-Checks body P h [] = Checks-pure false false refl
any_invalid-Checks body P h (x ∷ xs) =
    Checks-then (h x) (λ b. Checks-last (λ c. b || c) (any_invalid-Checks body P h xs) (λ c. refl))

-- An action that prints something and says so.
abbrev pub Reports : Action Printed Bool → Type 0
Reports m = (s s' : Printed) (b : Bool) → m s ≡ (ok b, s') → (b ≡ true) × (length s < length s')

pub Reports-lift :
    {A : Type 0} (r : Result A) {f : A → Action Printed Bool}
    → ((x : A) → Reports (f x))
    → Reports (lift r >>= f)
Reports-lift (err raised) h s s' b e = cc e
Reports-lift (ok x) h s s' b e = h x s s' b e

-- `if valid: no fault, else: a report`
pub Checks-branch :
    (valid : Bool) {bad : Action Printed Bool}
    → Reports bad
    → Checks false (if valid then pure false else bad) (valid ≡ true)
Checks-branch true h = record {
  tells = λ s s' b e. inl (cc, cc);
  sound = λ s s' none e. refl;
  complete = λ s none p. refl;
}
Checks-branch false {bad} h = record {
  tells = λ s s' b e. inr (h s s' b e);
  sound = λ s s' none e. let (found, longer) = h s s' false e in cc found;
  complete = λ s none p. cc p;
}

-- A check that is made under a condition only.
pub Checks-when :
    (c : Bool) {m : Action Printed Bool} {C P : Type 0}
    → ((c ≡ true) ↔ C)
    → Checks false m P
    → Checks false (if c then m else pure false) (C → P)
Checks-when true (to, from) h = Checks-iff (λ p _. p, λ k. k (to refl)) h
Checks-when false (to, from) h =
    Checks-iff (λ _ c. let wrong = from c in cc wrong, λ _. tt) (Checks-pure false false refl)
