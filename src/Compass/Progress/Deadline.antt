-- ===== src/Compass/Progress/Deadline.antt =====
-- The rounds of the loop of `CompassClient.get_installing_progress` (deploy/client.py) and the clock.
use compass4nfv.Base.{
  ℕ, zero, suc, ◌+◌, ◌*◌, ◌≤◌, ◌<◌, ◌≡◌, ◌≢◌, subst, Bool, true, false, not, [], arith, codes, ◌++◌,
  ltb, Bool-cases, inl, inr, ◌==◌, if◌then◌else◌, ltb→lt,
}
use compass4nfv.Result.{Result, ok, err, out_of_fuel}
use compass4nfv.Value.{Value, null, str, value_eq}
use compass4nfv.Effects.{Environment, IsClock, sleep, clock, show, pure, ◌>>◌}
use compass4nfv.Effects.Bind.{>>=-ne_err}
use compass4nfv.Restful.{Reply}
use compass4nfv.Restful.Clusters.{get_cluster_state as request_state}
use compass4nfv.Compass.{Compass, on_client}
use compass4nfv.Compass.Login.{is_ok}
use compass4nfv.Compass.Progress.{
  with_event, emit, state_rounds, get_cluster_state, judge_state, deployment_round, wait_deployment,
  successful,
}
use compass4nfv.Compass.Progress.Steady.{
  runtime_error-ne, Steady, Steady-pure, Steady-lift, Steady-if, Steady-raise, Steady-raise_if,
  Steady-bind, Steady-get, Steady-check_alive,
}
use compass4nfv.Compass.Progress.Time.{getitem-ne-out_of_fuel}

module _ (E : Environment) (C : IsClock E) where
  state_rounds-time :
      (n : ℕ) (last : Reply) (cluster_id : Value) (c : Compass)
      → E.time c.session.trace ≤ E.time (state_rounds E n last cluster_id c).1.session.trace
  unfolding state_rounds
  state_rounds-time zero last cluster_id c = omega arith
  state_rounds-time (suc n) last cluster_id c =
      let asked = on_client (request_state E cluster_id) c in
      let reply : Reply = elim (asked.0) [ ok reply ↦ reply | err e ↦ (500, str []) ] in
      let later =
        (Steady-get E C (codes "/clusters/" ++ show E cluster_id ++ codes "/state") null).time c in
      elim (Bool-cases (is_ok reply.0)) [
        | inl good ↦ rw good later
        | inr bad ↦ rw bad (
            omega (
              arith,
              later,
              C.runs (sleep 6) asked.1.session.trace,
              state_rounds-time n reply cluster_id (with_event (sleep 6) asked.1),
            ))
      ]

  state_rounds-fuel :
      (n : ℕ) (last : Reply) (cluster_id : Value) (c : Compass)
      → (state_rounds E n last cluster_id c).0 ≢ err out_of_fuel
  unfolding state_rounds
  state_rounds-fuel zero last cluster_id c = λ p. cc
  state_rounds-fuel (suc n) last cluster_id c =
      let asked = on_client (request_state E cluster_id) c in
      let reply : Reply = elim (asked.0) [ ok reply ↦ reply | err e ↦ (500, str []) ] in
      elim (Bool-cases (is_ok reply.0)) [
        | inl good ↦ rw good (λ p. cc)
        | inr bad ↦ rw bad (state_rounds-fuel n reply cluster_id (with_event (sleep 6) asked.1))
      ]

  get_cluster_state-Steady : (cluster_id : Value) → Steady E (get_cluster_state E cluster_id)
  unfolding get_cluster_state
  get_cluster_state-Steady cluster_id = record {
    time = state_rounds-time 10 (500, str []) cluster_id;
    fuel = state_rounds-fuel 10 (500, str []) cluster_id;
  }

  judge_state-Steady : (reply : Reply) → Steady E (judge_state reply)
  unfolding judge_state
  judge_state-Steady (status, cluster_state) =
      Steady-bind E _ _
        (Steady-raise_if E (not (is_ok status)) _
          (runtime_error-ne (codes "can not get cluster state")))
        λ _.
          Steady-bind E _ _ (Steady-lift E _ (getitem-ne-out_of_fuel cluster_state (codes "state")))
            λ state. Steady-if E (state == successful) _ _ (Steady-pure E true) (
              Steady-if E (state == str (codes "ERROR")) _ _
                (Steady-raise E _
                  (runtime_error-ne (codes "get cluster %s state status %s: %s, error")))
                (Steady-pure E false))

  deployment_round-Steady : (cluster_id : Value) → Steady E (deployment_round E cluster_id)
  unfolding deployment_round
  deployment_round-Steady cluster_id = Steady-bind E _ _ (Steady-check_alive E C) λ alive.
      Steady-bind E _ _
        (Steady-raise_if E (not alive) _ (runtime_error-ne (codes "can not get ansible log")))
        λ _. Steady-bind E _ _ (get_cluster_state-Steady cluster_id) judge_state-Steady

  deployment_round-later :
      (cluster_id : Value) (c : Compass) {a : Bool} {c' : Compass}
      → deployment_round E cluster_id c ≡ (ok a, c')
      → E.time c.session.trace ≤ E.time c'.session.trace
  deployment_round-later cluster_id c e =
      subst (λ (p : Result Bool × Compass). E.time c.session.trace ≤ E.time p.1.session.trace) e
        ((deployment_round-Steady cluster_id).time c)

  pub wait_deployment_ends :
      (fuel : ℕ) (cluster_id : Value) (deadline : ℕ) (c : Compass)
      → 0 < fuel
      → (E.time c.session.trace < deadline → deadline + 10 ≤ E.time c.session.trace + 10 * fuel)
      → (wait_deployment E fuel cluster_id deadline c).0 ≢ err out_of_fuel
  unfolding wait_deployment
  wait_deployment_ends zero cluster_id deadline c pos h = absurd (omega arith)
  wait_deployment_ends (suc fuel) cluster_id deadline c pos h =
      let c1 = with_event clock c in
      let read = C.runs clock c.session.trace in
      elim (Bool-cases (ltb (E.time c1.session.trace) deadline)) [
        | inr late ↦ rw late (λ p. cc)
        | inl low ↦
            let room = ltb→lt (E.time c1.session.trace) deadline low in
            rw low (
              >>=-ne_err (deployment_round E cluster_id)
                (λ done.
                  if done
                  then pure tt
                  else (emit (sleep 10) >> wait_deployment E fuel cluster_id deadline))
                c1 out_of_fuel ((deployment_round-Steady cluster_id).fuel c1)
                (λ done c' e. elim (Bool-cases done) [
                  | inl stop ↦ rw stop (λ p. cc)
                  | inr more ↦
                      let later = deployment_round-later cluster_id c1 e in
                      let slept = C.sleeps 10 c'.session.trace in
                      rw more (
                        wait_deployment_ends fuel cluster_id deadline (with_event (sleep 10) c')
                          (omega arith) (λ lt. omega arith))
                ]))
      ]
