-- ===== src/Compass/Progress/Finish.antt =====
-- How `CompassClient.get_installing_progress` (deploy/client.py) ends.
use compass4nfv.Base.{
  ℕ, zero, suc, ◌+◌, ◌*◌, ◌<◌, ◌≡◌, ◌≢◌, refl, ap, sym, ◌∙◌, true, not, ◌∷◌, arith, codes, ltb,
  Bool-cases, inl, inr, if◌then◌else◌,
}
use compass4nfv.Result.{Result, ok, err, runtime_error, out_of_fuel}
use compass4nfv.Value.{Value, value_eq}
use compass4nfv.Value.Access.{getitem}
use compass4nfv.Effects.{
  Environment, IsClock, Trace, sleep, clock, terminate, pure, raise_if, ◌>>=◌, ◌>>◌,
}
use compass4nfv.Effects.Bind.{>>=-eq-ok, >>=-ne_err}
use compass4nfv.Restful.{Reply}
use compass4nfv.Compass.{Compass}
use compass4nfv.Compass.Config.{Config}
use compass4nfv.Compass.Login.{is_ok}
use compass4nfv.Compass.Progress.{
  with_event, emit, check_alive, get_cluster_state, judge_state, deployment_round, wait_deployment,
  check_timeout, watch_deployment, get_installing_progress, successful,
}
use compass4nfv.Compass.Progress.Deadline.{wait_deployment_ends}

module _ (E : Environment) where
  check_timeout-fuel :
      (deadline : ℕ) (c : Compass) → (check_timeout E deadline c).0 ≢ err out_of_fuel
  unfolding check_timeout
  check_timeout-fuel deadline c = ground arith

  check_timeout-ok :
      (deadline : ℕ) (c : Compass) {c' : Compass}
      → check_timeout E deadline c ≡ (ok tt, c')
      → (E.time (clock ∷ c.session.trace) < deadline) × (c' ≡ with_event clock c)
  unfolding check_timeout
  check_timeout-ok deadline c e = ground arith

  -- While the clock runs, `get_installing_progress` ends, since its loop never uses up its fuel; and
  -- however it ends, the last thing that it does is to terminate the printing process.
  pub get_installing_progress_ends :
      IsClock E
      → (conf : Config) (cluster_id : Value) (c : Compass)
      → ((get_installing_progress E conf cluster_id c).0 ≢ err out_of_fuel)
        × ((t : Trace) × ((get_installing_progress E conf cluster_id c).1.session.trace
              ≡ terminate ∷ t))
  unfolding get_installing_progress
  get_installing_progress_ends C conf cluster_id c =
      let limit = 60 * conf.deployment_timeout in
      let c1 = with_event clock c in
      let deadline = E.time c1.session.trace + limit in
      (
        >>=-ne_err (wait_deployment E (limit + 1) cluster_id deadline)
            (λ _. check_timeout E deadline) c1 out_of_fuel
            (wait_deployment_ends E C (limit + 1) cluster_id deadline c1 (omega arith)
              (λ lt. omega arith))
            (λ _ c' e. check_timeout-fuel deadline c'),
        ((watch_deployment E conf cluster_id c).1.session.trace, refl),
      )

  -- A round that breaks the loop has read the state SUCCESSFUL from a reply with a good status.
  abbrev pub ReadsSuccess : Value → Compass → Type 0
  ReadsSuccess cluster_id c' =
      (c : Compass) × (status : ℕ) × (state : Value) × (get_cluster_state E cluster_id c
        ≡ (ok (status, state), c'))
      × (is_ok status ≡ true)
      × (getitem state (codes "state") ≡ ok successful)

  judge_state-true :
      (reply : Reply) (c : Compass) {c' : Compass}
      → judge_state reply c ≡ (ok true, c')
      → (is_ok reply.0 ≡ true) × (getitem reply.1 (codes "state") ≡ ok successful) × (c ≡ c')
  unfolding judge_state
  judge_state-true (status, state) c e = ground arith

  deployment_round-reads :
      (cluster_id : Value) (c : Compass) {c' : Compass}
      → deployment_round E cluster_id c ≡ (ok true, c')
      → ReadsSuccess cluster_id c'
  unfolding deployment_round
  deployment_round-reads cluster_id c {c'} e =
      let dead = runtime_error (codes "can not get ansible log") in
      let ask = get_cluster_state E cluster_id >>= judge_state in
      let (alive, c1, _, e1) =
        >>=-eq-ok (check_alive E) (λ alive. raise_if (not alive) dead >> ask) c e in
      let (_, c2, _, e2) = >>=-eq-ok (raise_if (not alive) dead) (λ _. ask) c1 e1 in
      let ((status, state), c3, got, e3) =
        >>=-eq-ok (get_cluster_state E cluster_id) judge_state c2 e2 in
      let (good, done, same) = judge_state-true (status, state) c3 e3 in
      (c2, status, state, cc, good, done)

  wait_deployment-breaks :
      (fuel : ℕ) (cluster_id : Value) (deadline : ℕ) (c : Compass) {c' : Compass}
      → IsClock E
      → wait_deployment E fuel cluster_id deadline c ≡ (ok tt, c')
      → E.time (clock ∷ c'.session.trace) < deadline
      → ReadsSuccess cluster_id c'
  unfolding wait_deployment
  wait_deployment-breaks zero cluster_id deadline c C e early = absurd (ground arith)
  wait_deployment-breaks (suc fuel) cluster_id deadline c {c'} C e early =
      let c1 = with_event clock c in
      elim (Bool-cases (ltb (E.time c1.session.trace) deadline)) [
        | inr late ↦
            let ended : c1 ≡ c' = cc (rw late at e) in
            absurd (ground (arith, ended, C.runs clock c1.session.trace))
        | inl low ↦
            let again = emit (sleep 10) >> wait_deployment E fuel cluster_id deadline in
            let (done, c2, ran, rest) =
              >>=-eq-ok (deployment_round E cluster_id) (λ done. if done then pure tt else again) c1
                (rw low at e) in
            elim (Bool-cases done) [
              | inl stop ↦ deployment_round-reads cluster_id c1 (cc (ran, stop, rw stop at rest))
              | inr more ↦
                  wait_deployment-breaks fuel cluster_id deadline (with_event (sleep 10) c2) C
                    (rw more at rest) early
            ]
      ]

  watch_deployment-success :
      IsClock E
      → (conf : Config) (cluster_id : Value) (c c' : Compass)
      → watch_deployment E conf cluster_id c ≡ (ok tt, c')
      → (d : Compass) × ReadsSuccess cluster_id d
        × (c' ≡ with_event clock d)
        × (E.time (clock ∷ d.session.trace)
            < E.time (clock ∷ c.session.trace) + 60 * conf.deployment_timeout)
  unfolding watch_deployment
  watch_deployment-success C conf cluster_id c c' e =
      let limit = 60 * conf.deployment_timeout in
      let c1 = with_event clock c in
      let deadline = E.time c1.session.trace + limit in
      let (_, d, waited, checked) =
        >>=-eq-ok (wait_deployment E (limit + 1) cluster_id deadline)
          (λ _. check_timeout E deadline) c1 e in
      let (early, last) = check_timeout-ok deadline d checked in
      (d, wait_deployment-breaks (limit + 1) cluster_id deadline c1 C waited early, last, early)

  -- While the clock runs: if `get_installing_progress` returns, then the cluster's state has been read
  -- as SUCCESSFUL from a reply with a good status, and the clock's reading after that, the last one,
  -- is below the deadline.
  pub get_installing_progress_success :
      IsClock E
      → (conf : Config) (cluster_id : Value) (c c' : Compass)
      → get_installing_progress E conf cluster_id c ≡ (ok tt, c')
      → (d : Compass) × ReadsSuccess cluster_id d
        × (c'.session.trace ≡ terminate ∷ clock ∷ d.session.trace)
        × (E.time (clock ∷ d.session.trace)
            < E.time (clock ∷ c.session.trace) + 60 * conf.deployment_timeout)
  unfolding get_installing_progress
  get_installing_progress_success C conf cluster_id c c' e =
      let w = (watch_deployment E conf cluster_id c).1 in
      let returned : (watch_deployment E conf cluster_id c).0 ≡ ok tt =
        ap (λ (p : Result (Unit {0}) × Compass). p.0) e in
      let (d, reads, last, early) =
        watch_deployment-success C conf cluster_id c w (λ i. (returned i, w)) in
      (
        d,
        reads,
        sym (ap (λ (p : Result (Unit {0}) × Compass). p.1.session.trace) e)
            ∙ ap (λ (x : Compass). terminate ∷ x.session.trace) last,
        early,
      )
