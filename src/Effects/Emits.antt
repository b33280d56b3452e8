-- ===== src/Effects/Emits.antt =====
-- What a run adds to a view of its trace, such as the commands or the messages in it.
use compass4nfv.Base.{◌≡◌, sym, ap, ◌∙◌, List, [], ◌∷◌, ◌++◌, append_assoc, append-nil, Text}
use compass4nfv.Result.{Result, ok}
use compass4nfv.Effects.{
  Trace, request, sleep, clock, command, start, is_alive, terminate, write, Action, pure, lift,
  for_each, ◌>>=◌,
}
use compass4nfv.Effects.Bind.{>>=-eq-ok}

-- The commands of a run, oldest first.
unfoldable pub commands : Trace → List Text
commands [] = []
commands (command c ∷ t) = commands t ++ (c ∷ [])
commands (request r ∷ t) = commands t
commands (sleep n ∷ t) = commands t
commands (clock ∷ t) = commands t
commands (start ∷ t) = commands t
commands (is_alive ∷ t) = commands t
commands (terminate ∷ t) = commands t
commands (write path v ∷ t) = commands t

module _ {N : Type 0} (view : Trace → List N) where
  -- An action that adds these to the view, where it returns.
  pub record Emits {A : Type 0} (m : Action Trace A) (news : List N) : Type 0 where
    pub emits : (t t' : Trace) (a : A) → m t ≡ (ok a, t') → view t' ≡ view t ++ news

  -- A trace that stays adds nothing.
  pub Emits-stays :
      {A : Type 0} {m : Action Trace A}
      → ((t t' : Trace) (a : A) → m t ≡ (ok a, t') → t ≡ t')
      → Emits m []
  Emits-stays h = record {
    emits = λ t t' a e. ap view (sym (h t t' a e)) ∙ sym (append-nil (view t));
  }

  pub Emits-pure : {A : Type 0} (a : A) → Emits (pure a) []
  Emits-pure a = Emits-stays (λ t t' b e. cc e)

  pub Emits-lift : {A : Type 0} (r : Result A) → Emits (lift r) []
  Emits-lift r = Emits-stays (λ t t' b e. cc e)

  pub Emits-bind :
      {A B : Type 0} {m : Action Trace A} {f : A → Action Trace B} {first later : List N}
      → Emits m first
      → ((a : A) → Emits (f a) later)
      → Emits (m >>= f) (first ++ later)
  Emits-bind {A} {B} {m} {f} {first} {later} hm hf = record {
    emits = λ t t' b e.
        let (a, t1, e1, e2) = >>=-eq-ok m f t e in
        (hf a).emits t1 t' b e2
        ∙ ap (λ z. z ++ later) (hm.emits t t1 a e1)
        ∙ append_assoc (view t) first later;
  }

-- `f(x)` for each element, one list after the other.
abbrev pub concat_map : {A N : Type 0} → (A → List N) → List A → List N
concat_map f [] = []
concat_map f (x ∷ xs) = f x ++ concat_map f xs

pub Emits-for_each :
    {N A : Type 0} (view : Trace → List N) {body : A → Action Trace (Unit {0})} (f : A → List N)
    → ((x : A) → Emits view (body x) (f x))
    → (xs : List A) → Emits view (for_each body xs) (concat_map f xs)
unfolding for_each
Emits-for_each view f h [] = Emits-pure view tt
Emits-for_each view f h (x ∷ xs) = Emits-bind view (h x) (λ _. Emits-for_each view f h xs)

-- `os.system(c)`, whose exit status is not looked at
abbrev pub run_command : Text → Action Trace (Unit {0})
run_command c t = (ok tt, command c ∷ t)
