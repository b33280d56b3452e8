-- ===== src/Compass/Progress.antt =====
-- `CompassClient.deploy_clusters`, `redeploy_clusters`, `get_cluster_state`, `get_ansible_print` and
-- `get_installing_progress`. The clock counts seconds. The two `while` loops run on fuel: each round
-- sleeps for seconds, so one round for each second of the timeout is more than enough. The process
-- that prints ansible's log is one `start`, `is_alive`, `terminate`.
pub mod Steady
pub mod Time
pub mod Deadline
pub mod Finish
pub mod Polling
use compass4nfv.Base.{
  ℕ, zero, suc, ◌+◌, ◌*◌, Bool, true, false, not, ◌&&◌, List, [], ◌∷◌, ◌++◌, Option, none, some,
  Text, codes, leb, ltb, ◌==◌, if◌then◌else◌,
}
use compass4nfv.Base.Dict.{Dict, keys, lookup}
use compass4nfv.Result.{ok, err, runtime_error, exception, connection_error, out_of_fuel}
use compass4nfv.Value.{Value, null, str, array, object, value_eq}
use compass4nfv.Value.Access.{getitem, truthy}
use compass4nfv.Effects.{
  Event, request, sleep, clock, command, start, is_alive, terminate, get as get_method, Environment,
  Action, pure, raise, raise_if, gets, lift, ◌>>=◌, ◌>>◌,
}
use compass4nfv.Restful.{Reply}
use compass4nfv.Restful.Clusters.{
  review_cluster, deploy_cluster, redeploy_cluster, get_cluster_state as request_state,
}
use compass4nfv.Restful.Hosts.{get_host_state}
use compass4nfv.Compass.{Compass, on_client}
use compass4nfv.Compass.Config.{Config}
use compass4nfv.Compass.Login.{is_ok}

abbrev pub with_event : Event → Compass → Compass
with_event e c = record c { session = record (c.session) { trace = e ∷ c.session.trace } }

-- An effect that nothing is read back from.
abbrev pub emit : Event → Action Compass (Unit {0})
emit e c = (ok tt, with_event e c)

abbrev pub successful : Value
successful = str (codes "SUCCESSFUL")

-- The `if` chain on the cluster's state: does the loop break?
unfoldable pub judge_state : Reply → Action Compass Bool
judge_state (status, cluster_state) = do
  raise_if (not (is_ok status)) (runtime_error (codes "can not get cluster state"))
  state ← lift (getitem cluster_state (codes "state"))
  if state == successful
      then pure true
      else if state == str (codes "ERROR")
      then raise (runtime_error (codes "get cluster %s state status %s: %s, error"))
      else pure false

module _ (E : Environment) where
  -- `time.time()`
  abbrev pub now : Action Compass ℕ
  now c = let c' = with_event clock c in (ok (E.time c'.session.trace), c')

  -- `ansible_print.is_alive()`
  abbrev pub check_alive : Action Compass Bool
  check_alive c = let c' = with_event is_alive c in (ok (E.alive c'.session.trace), c')

  unfoldable pub values_at : Dict Value Value → List Value → List Value
  unfolding lookup value_eq
  values_at d [] = []
  values_at d (k ∷ ks) = elim (lookup k d) [ none ↦ [] | some v ↦ v ∷ [] ] ++ values_at d ks

  -- `self.host_mapping.values()`
  unfoldable pub host_ids : Compass → List Value
  unfolding values_at
  host_ids c = values_at c.host_mapping (E.order (keys c.host_mapping))

  unfoldable pub deploy_clusters : Value → Action Compass (Unit {0})
  unfolding host_ids review_cluster deploy_cluster
  deploy_clusters cluster_id = do
    ids ← gets host_ids
    let hosts = object ((codes "hosts", array ids) ∷ [])
    (status, response) ← on_client (review_cluster E cluster_id hosts)
    raise_if (not (is_ok status)) (runtime_error (codes "review cluster host failed"))
    (status, response) ← on_client (deploy_cluster E cluster_id hosts)
    raise_if (not (is_ok status)) (runtime_error (codes "deploy cluster failed"))

  unfoldable pub redeploy_clusters : Value → Action Compass (Unit {0})
  unfolding redeploy_cluster
  redeploy_clusters cluster_id = do
    (status, response) ← on_client (redeploy_cluster E cluster_id)
    raise_if (not (is_ok status)) (runtime_error (codes "redeploy cluster failed"))

  -- The rounds that are left of `for _ in range(10)`, and what the last round has got.
  unfoldable pub state_rounds : ℕ → Reply → Value → Action Compass Reply
  unfolding request_state
  state_rounds zero last cluster_id c = (ok last, c)
  state_rounds (suc n) last cluster_id c =
      let (r, c') = on_client (request_state E cluster_id) c in
      let reply : Reply = elim r [ ok reply ↦ reply | err e ↦ (500, str []) ] in
      let again = state_rounds n reply cluster_id (with_event (sleep 6) c') in
      if is_ok reply.0 then (ok reply, c') else again

  unfoldable pub get_cluster_state : Value → Action Compass Reply
  unfolding state_rounds
  get_cluster_state cluster_id = state_rounds 10 (500, str []) cluster_id

  -- The inner loop of `get_ansible_print`.
  unfoldable pub hosts_ready : List Value → Action Compass Bool
  unfolding get_host_state getitem value_eq
  hosts_ready [] = pure true
  hosts_ready (i ∷ is) = do
    (status, response) ← on_client (get_host_state E i)
    state ← lift (getitem response (codes "state"))
    if state == successful then hosts_ready is else pure false

  -- One round of the `while` loop of `get_ansible_print`: `ready` and `current_time`.
  unfoldable pub install_round : Action Compass (Bool × ℕ)
  unfolding host_ids hosts_ready
  install_round = do
    ids ← gets host_ids
    ready ← hosts_ready ids
    current_time ← now
    pure (ready, current_time)

  -- The `while` loop. It returns `current_time`.
  unfoldable pub wait_install : ℕ → ℕ → ℕ → Action Compass ℕ
  unfolding install_round
  wait_install zero install_timeout current_time = raise out_of_fuel
  wait_install (suc fuel) install_timeout current_time =
      let round = (do
        (ready, t) ← install_round
        if ready then pure t else (emit (sleep 8) >> wait_install fuel install_timeout t)) in
      if ltb current_time install_timeout then round else pure current_time

  abbrev pub log_command : Config → Text
  log_command conf =
      let compass_dir : Text = elim (E.getenv (codes "COMPASS_DIR")) [
        | none ↦ codes "None"
        | some d ↦ d
      ] in
      codes "sudo touch "
      ++ compass_dir
      ++ codes "/work/deploy/docker/ansible/run/"
      ++ conf.adapter_name
      ++ codes "-"
      ++ conf.cluster_name
      ++ codes "/ansible.log"

  -- What `get_ansible_print` does after the loop.
  unfoldable pub start_print : Config → ℕ → ℕ → Action Compass (Unit {0})
  start_print conf install_timeout current_time = do
    raise_if (leb install_timeout current_time) (runtime_error (codes "OS installation timeout"))
    emit (command (log_command conf))
    emit start

  unfoldable pub get_ansible_print : Config → Action Compass (Unit {0})
  unfolding wait_install start_print
  get_ansible_print conf = do
    begin ← now
    let install_timeout = begin + 60 * conf.install_os_timeout
    current_time ← wait_install (60 * conf.install_os_timeout + 1) install_timeout begin
    start_print conf install_timeout current_time

  -- One round of the `while` loop of `_get_installing_progress`: does it break?
  unfoldable pub deployment_round : Value → Action Compass Bool
  deployment_round cluster_id = do
    alive ← check_alive
    raise_if (not alive) (runtime_error (codes "can not get ansible log"))
    reply ← get_cluster_state cluster_id
    judge_state reply

  unfoldable pub wait_deployment : ℕ → Value → ℕ → Action Compass (Unit {0})
  unfolding deployment_round
  wait_deployment zero cluster_id deployment_timeout = raise out_of_fuel
  wait_deployment (suc fuel) cluster_id deployment_timeout = do
    current_time ← now
    let round = (do
      done ← deployment_round cluster_id
      if done
          then pure tt
          else (emit (sleep 10) >> wait_deployment fuel cluster_id deployment_timeout))
    if ltb current_time deployment_timeout then round else pure tt

  -- The test after the loop. The message reads the clock once more.
  unfoldable pub check_timeout : ℕ → Action Compass (Unit {0})
  check_timeout deployment_timeout = do
    current_time ← now
    if leb deployment_timeout current_time
        then (do
          now
          emit (command (codes "sudo docker exec compass-cobbler bash -c 'cobbler status'"))
          raise (runtime_error (codes "installation timeout")))
        else pure tt

  unfoldable pub watch_deployment : Config → Value → Action Compass (Unit {0})
  unfolding wait_deployment check_timeout
  watch_deployment conf cluster_id = do
    begin ← now
    let deployment_timeout = begin + 60 * conf.deployment_timeout
    wait_deployment (60 * conf.deployment_timeout + 1) cluster_id deployment_timeout
    check_timeout deployment_timeout

  -- `try: … finally: ansible_print.terminate()`
  unfoldable pub get_installing_progress : Config → Value → Action Compass (Unit {0})
  unfolding watch_deployment
  get_installing_progress conf cluster_id c =
      let (r, c') = watch_deployment conf cluster_id c in (r, with_event terminate c')
