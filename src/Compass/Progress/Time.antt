-- ===== src/Compass/Progress/Time.antt =====
-- The rounds of the loop of `CompassClient.get_ansible_print` (deploy/client.py) and the clock.
use compass4nfv.Base.{
  ℕ, zero, suc, ◌+◌, ◌*◌, ◌≤◌, ◌<◌, ◌≡◌, ◌≢◌, subst, Bool, true, false, List, [], ◌∷◌, arith, codes,
  ◌++◌, ltb, leb, Bool-cases, inl, inr, ◌==◌, if◌then◌else◌, ltb→lt,
}
use compass4nfv.Result.{Result, ok, err, out_of_fuel}
use compass4nfv.Value.{Value, null, value_eq}
use compass4nfv.Value.Access.{getitem}
use compass4nfv.Effects.{
  Environment, IsClock, sleep, clock, start, command, show, pure, gets, ◌>>=◌, ◌>>◌,
}
use compass4nfv.Effects.Bind.{>>=-eq-ok, >>=-ne_err}
use compass4nfv.Compass.{Compass}
use compass4nfv.Compass.Config.{Config}
use compass4nfv.Compass.Progress.{
  with_event, now, emit, hosts_ready, install_round, wait_install, host_ids, start_print,
  log_command, get_ansible_print, successful,
}
use compass4nfv.Compass.Progress.Steady.{
  runtime_error-ne, Steady, Steady-pure, Steady-gets, Steady-lift, Steady-if, Steady-bind,
  Steady-get, Steady-now, Steady-emit, Steady-raise_if,
}

pub getitem-ne-out_of_fuel : (v : Value) (k : List ℕ) → getitem v k ≢ err out_of_fuel
unfolding getitem
getitem-ne-out_of_fuel v k = ground arith

module _ (E : Environment) (C : IsClock E) where
  hosts_ready-Steady : (is : List Value) → Steady E (hosts_ready E is)
  unfolding hosts_ready
  hosts_ready-Steady [] = Steady-pure E true
  hosts_ready-Steady (i ∷ is) =
      Steady-bind E _ _ (Steady-get E C (codes "/hosts/" ++ show E i ++ codes "/state") null)
        λ (status, response).
          Steady-bind E _ _ (Steady-lift E _ (getitem-ne-out_of_fuel response (codes "state")))
            λ state.
              Steady-if E (state == successful) _ _ (hosts_ready-Steady is) (Steady-pure E false)

  install_round-Steady : Steady E (install_round E)
  unfolding install_round
  install_round-Steady = Steady-bind E _ _ (Steady-gets E (host_ids E)) λ ids.
      Steady-bind E _ _ (hosts_ready-Steady ids)
        λ ready. Steady-bind E _ _ (Steady-now E C) λ t. Steady-pure E (ready, t)

  -- `current_time` is the last reading of the clock.
  install_round-time :
      (c : Compass) {ready : Bool} {t : ℕ} {c' : Compass}
      → install_round E c ≡ (ok (ready, t), c')
      → t ≡ E.time c'.session.trace
  unfolding install_round
  install_round-time c e =
      let read = λ (ready : Bool) (current_time : ℕ). pure {S = Compass} (ready, current_time) in
      let asked = λ (ids : List Value). hosts_ready E ids >>= (λ ready. now E >>= read ready) in
      let (ids, c1, got, e1) = >>=-eq-ok (gets (host_ids E)) asked c e in
      let (r, c2, answered, e2) =
        >>=-eq-ok (hosts_ready E ids) (λ ready. now E >>= read ready) c1 e1 in
      cc e2

  install_round-later :
      (c : Compass) {a : Bool × ℕ} {c' : Compass}
      → install_round E c ≡ (ok a, c')
      → E.time c.session.trace ≤ E.time c'.session.trace
  install_round-later c e =
      subst (λ (p : Result (Bool × ℕ) × Compass). E.time c.session.trace ≤ E.time p.1.session.trace)
        e (install_round-Steady.time c)

  wait_install_ends :
      (fuel install_timeout current_time : ℕ) (c : Compass)
      → 0 < fuel
      → (current_time < install_timeout
          → (install_timeout + 16 ≤ E.time c.session.trace + 8 * fuel) × (2 ≤ fuel))
      → (wait_install E fuel install_timeout current_time c).0 ≢ err out_of_fuel
  unfolding wait_install
  wait_install_ends zero install_timeout current_time c pos h = absurd (omega arith)
  wait_install_ends (suc fuel) install_timeout current_time c pos h =
      elim (Bool-cases (ltb current_time install_timeout)) [
        | inr late ↦ rw late (λ p. cc)
        | inl low ↦
            let room = h (ltb→lt current_time install_timeout low) in
            rw low (
              >>=-ne_err (install_round E)
                (λ (ready, t).
                  if ready
                  then pure t
                  else (emit (sleep 8) >> wait_install E fuel install_timeout t))
                c out_of_fuel (install_round-Steady.fuel c)
                (λ a c' e. elim (Bool-cases a.0) [
                  | inl done ↦ rw done (λ p. cc)
                  | inr more ↦
                      let later = install_round-later c e in
                      let slept = C.sleeps 8 c'.session.trace in
                      let read = install_round-time c e in
                      rw more (
                        wait_install_ends fuel install_timeout a.1 (with_event (sleep 8) c')
                          (omega arith) (λ lt. (omega arith, omega arith)))
                ]))
      ]

  start_print-Steady :
      (conf : Config) (install_timeout current_time : ℕ)
      → Steady E (start_print E conf install_timeout current_time)
  unfolding start_print
  start_print-Steady conf install_timeout current_time =
      Steady-bind E _ _
        (Steady-raise_if E (leb install_timeout current_time) _
          (runtime_error-ne (codes "OS installation timeout")))
        λ _.
          Steady-bind E _ _ (Steady-emit E C (command (log_command E conf)))
            λ _. Steady-emit E C start

  -- While the clock runs, `get_ansible_print` ends: its loop never uses up its fuel.
  pub get_ansible_print_ends :
      (conf : Config) (c : Compass) → (get_ansible_print E conf c).0 ≢ err out_of_fuel
  unfolding get_ansible_print
  get_ansible_print_ends conf c =
      let limit = 60 * conf.install_os_timeout in
      let begin = E.time (clock ∷ c.session.trace) in
      >>=-ne_err (wait_install E (limit + 1) (begin + limit) begin)
        (start_print E conf (begin + limit)) (with_event clock c) out_of_fuel
        (wait_install_ends (limit + 1) (begin + limit) begin (with_event clock c) (omega arith)
          (λ lt. (omega arith, omega arith)))
        (λ t c' e. (start_print-Steady conf (begin + limit) t).fuel c')
