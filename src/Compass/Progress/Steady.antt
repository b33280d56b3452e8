-- ===== src/Compass/Progress/Steady.antt =====
-- Steps of `CompassClient` (deploy/client.py) under a running clock: the time that they leave, and fuel.
use compass4nfv.Base.{ℕ, ◌≤◌, ◌≢◌, Bool, true, false, Text, arith, if◌then◌else◌}
use compass4nfv.Result.{Error, Result, ok, err, runtime_error, out_of_fuel}
use compass4nfv.Value.{Value}
use compass4nfv.Effects.{
  Environment, IsClock, Event, request, Action, pure, raise, raise_if, lift, gets, ◌>>=◌,
}
use compass4nfv.Restful.{get}
use compass4nfv.Restful.Sending.{get-Sends}
use compass4nfv.Compass.{Compass, on_client}
use compass4nfv.Compass.Progress.{emit, now, check_alive}

-- What holds of a call from every state.
pub record Steady {A : Type 0} (E : Environment) (m : Action Compass A) : Type 0 where
  pub time : (c : Compass) → E.time c.session.trace ≤ E.time (m c).1.session.trace
  pub fuel : (c : Compass) → (m c).0 ≢ err out_of_fuel

pub runtime_error-ne : (message : Text) → runtime_error message ≢ out_of_fuel
runtime_error-ne message p = cc

module _ (E : Environment) where
  pub Steady-raise_if : (b : Bool) (e : Error) → e ≢ out_of_fuel → Steady E (raise_if b e)
  Steady-raise_if true e h = record { time = λ c. omega arith; fuel = λ c p. h (cc) }
  Steady-raise_if false e h = record { time = λ c. omega arith; fuel = λ c p. cc }

module _ (E : Environment) {A : Type 0} where
  pub Steady-pure : (a : A) → Steady E (pure a)
  Steady-pure a = record { time = λ c. omega arith; fuel = λ c h. cc }

  pub Steady-lift : (r : Result A) → r ≢ err out_of_fuel → Steady E (lift r)
  Steady-lift r h = record { time = λ c. omega arith; fuel = λ c. h }

  pub Steady-gets : (f : Compass → A) → Steady E (gets f)
  Steady-gets f = record { time = λ c. omega arith; fuel = λ c h. cc }

  pub Steady-raise : (e : Error) → e ≢ out_of_fuel → Steady E (raise {A = A} e)
  Steady-raise e h = record { time = λ c. omega arith; fuel = λ c p. h (cc) }

  pub Steady-if :
      (b : Bool) (m n : Action Compass A) → Steady E m → Steady E n → Steady E (if b then m else n)
  Steady-if true m n hm hn = hm
  Steady-if false m n hm hn = hn

module _ (E : Environment) {A B : Type 0} where
  pub Steady-bind :
      (m : Action Compass A) (f : A → Action Compass B)
      → Steady E m
      → ((a : A) → Steady E (f a))
      → Steady E (m >>= f)
  Steady-bind m f hm hf = record {
    time = λ c. (inner (m c).0 (m c).1 (hm.fuel c)).0 (E.time c.session.trace) (hm.time c);
    fuel = λ c. (inner (m c).0 (m c).1 (hm.fuel c)).1;
  }
    where
      inner :
          (r : Result A) (t : Compass)
          → r ≢ err out_of_fuel
          → let next : Result B × Compass = elim r [ ok a ↦ f a t | err x ↦ (err x, t) ] in
            ((n : ℕ) → n ≤ E.time t.session.trace → n ≤ E.time next.1.session.trace)
            × (next.0 ≢ err out_of_fuel)
      inner (ok a) t h = (λ n le. omega (arith, (hf a).time t), (hf a).fuel t)
      inner (err x) t h = (λ n le. le, λ p. h (cc))

module _ (E : Environment) (C : IsClock E) where
  pub Steady-get : (req_url : Text) (fields : Value) → Steady E (on_client (get E req_url fields))
  Steady-get req_url fields = record {
    time = λ c.
        let s = get-Sends E req_url fields c.session in
        rw s.state (C.runs (request s.sent) c.session.trace);
    fuel = λ c. (get-Sends E req_url fields c.session).outcome;
  }

  pub Steady-now : Steady E (now E)
  Steady-now = record { time = λ c. C.runs _ _; fuel = λ c h. cc }

  pub Steady-check_alive : Steady E (check_alive E)
  Steady-check_alive = record { time = λ c. C.runs _ _; fuel = λ c h. cc }

  pub Steady-emit : (e : Event) → Steady E (emit e)
  Steady-emit e = record { time = λ c. C.runs _ _; fuel = λ c h. cc }
