-- ===== src/Effects/Runs.antt =====
-- Actions that return from every trace, with the commands that they run.
use compass4nfv.Base.{◌≡◌, refl, sym, ap, ◌∙◌, List, [], ◌∷◌, ◌++◌, Text}
use compass4nfv.Result.{ok}
use compass4nfv.Effects.{Trace, command, Action, pure, for_each, ◌>>=◌}
use compass4nfv.Effects.Bind.{>>=-of_ok}
use compass4nfv.Effects.Emits.{concat_map}

-- The trace after these commands.
unfoldable pub ran : List Text → Trace → Trace
ran [] t = t
ran (c ∷ cs) t = ran cs (command c ∷ t)

ran-append :
    (first later : List Text) (t : Trace) → ran (first ++ later) t ≡ ran later (ran first t)
unfolding ran
ran-append [] later t = refl
ran-append (c ∷ first) later t = ran-append first later (command c ∷ t)

-- The action returns this from every trace, and runs these commands and does nothing else.
pub record Runs {A : Type 0} (m : Action Trace A) (a : A) (cs : List Text) : Type 0 where
  pub runs : (t : Trace) → m t ≡ (ok a, ran cs t)

pub Runs-pure : {A : Type 0} (a : A) → Runs (pure a) a []
unfolding ran
Runs-pure a = record { runs = λ t. refl }

pub Runs-bind :
    {A B : Type 0} {m : Action Trace A} (f : A → Action Trace B) {a : A} {b : B}
    {first later : List Text}
    → Runs m a first
    → Runs (f a) b later
    → Runs (m >>= f) b (first ++ later)
Runs-bind {m = m} f {b = b} {first = first} {later = later} hm hf = record {
  runs = λ t.
      >>=-of_ok m f t (hm.runs t)
      ∙ hf.runs (ran first t)
      ∙ ap (λ u. (ok b, u)) (sym (ran-append first later t));
}

-- A loop over what stands for these data.
pub data Each {X Y : Type 0} (R : X → Y → Type 0) : List X → List Y → Type 0 where
  done : Each R [] []
  next :
      {x : X} {y : Y} {xs : List X} {ys : List Y} → R x y → Each R xs ys → Each R (x ∷ xs) (y ∷ ys)

pub Runs-for_each :
    {X Y : Type 0} {R : X → Y → Type 0} {body : X → Action Trace (Unit {0})} {f : Y → List Text}
    → ((x : X) (y : Y) → R x y → Runs (body x) tt (f y))
    → {xs : List X} {ys : List Y} → Each R xs ys
    → Runs (for_each body xs) tt (concat_map f ys)
unfolding for_each
Runs-for_each h done = Runs-pure tt
Runs-for_each {body = body} h (next {x} {y} {xs} r rs) =
    Runs-bind (λ _. for_each body xs) (h x y r) (Runs-for_each h rs)
