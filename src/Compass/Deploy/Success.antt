-- ===== src/Compass/Deploy/Success.antt =====
-- The end of a run of `main` (deploy/client.py) that returns.
use compass4nfv.Base.{
  ◌≡◌, ap, true, false, codes, Bool-cases, inl, inr, ◌==◌, text_eq, if◌then◌else◌, arith, ◌∷◌,
}
use compass4nfv.Base.Dict.{has_key}
use compass4nfv.Result.{Result, ok, succeeds}
use compass4nfv.Value.{Value, value_eq}
use compass4nfv.Value.Access.{truthy}
use compass4nfv.Effects.{terminate, clock, Environment, IsClock, KeepsKeys, pure, ◌>>=◌, ◌>>◌}
use compass4nfv.Effects.Bind.{>>=-eq-ok, Ensures, Ensures-bind}
use compass4nfv.Compass.{Compass}
use compass4nfv.Compass.Config.{Config}
use compass4nfv.Compass.Login.{login, get_machines, get_adapter}
use compass4nfv.Compass.Subnets.{add_subnets}
use compass4nfv.Compass.Cluster.{add_cluster, add_cluster_hosts}
use compass4nfv.Compass.Networking.{set_host_networking}
use compass4nfv.Compass.OsConfig.{set_cluster_os_config}
use compass4nfv.Compass.Roles.{set_all_hosts_roles, is_waiting}
use compass4nfv.Compass.Roles.Waiting.{set_all_hosts_roles_complete}
use compass4nfv.Compass.Dashboard.{check_dashboard_links}
use compass4nfv.Compass.Progress.{deploy_clusters, get_ansible_print, get_installing_progress}
use compass4nfv.Compass.Progress.Finish.{ReadsSuccess, get_installing_progress_success}
use compass4nfv.Compass.Deploy.{set_cluster_package_config, fresh_deployment, deploy, main}
use compass4nfv.Compass.Deploy.Order.{main_fails}

-- The end of a run that has led to `final`: from `before`, in which every host has an entry in
-- `host_roles` and no role is marked as unassigned, a cluster has been deployed, the printing process
-- started, the progress followed and the dashboard looked at, one after the other; and the cluster's state
-- was read as SUCCESSFUL.
pub record Installed (E : Environment) (conf : Config) (final : Compass) : Type 0 where
  pub cluster_id : Value
  pub before : Compass
  pub started : Compass
  pub printing : Compass
  pub polled : Compass
  pub finished : Compass
  pub hosts :
      (h : Value) → has_key h before.host_mapping ≡ true → has_key h before.host_roles ≡ true
  pub roles : (r : Value) → is_waiting before.role_mapping r ≡ false
  pub deployed : deploy_clusters E cluster_id before ≡ (ok tt, started)
  pub printed : get_ansible_print E conf started ≡ (ok tt, printing)
  pub installed : get_installing_progress E conf cluster_id printing ≡ (ok tt, finished)
  pub success : ReadsSuccess E cluster_id polled
  pub last : finished.session.trace ≡ terminate ∷ clock ∷ polled.session.trace
  pub checked : check_dashboard_links E conf cluster_id finished ≡ (ok tt, final)

module _ (E : Environment) (C : IsClock E) (order : KeepsKeys E) (conf : Config) where
  installing-Installed :
      (cluster_id : Value)
      → Ensures
          (set_all_hosts_roles E conf cluster_id
            >> (deploy_clusters E cluster_id
                >> (get_ansible_print E conf
                    >> (get_installing_progress E conf cluster_id
                        >> check_dashboard_links E conf cluster_id))))
          (Installed E conf)
  installing-Installed cluster_id = record {
    returning = λ c e.
        let check = λ (x : Unit {0}). check_dashboard_links E conf cluster_id in
        let poll = λ (x : Unit {0}). get_installing_progress E conf cluster_id >>= check in
        let print = λ (x : Unit {0}). get_ansible_print E conf >>= poll in
        let start = λ (x : Unit {0}). deploy_clusters E cluster_id >>= print in
        let (_, c1, given, e1) = >>=-eq-ok (set_all_hosts_roles E conf cluster_id) start c e in
        let (_, c2, deployed, e2) = >>=-eq-ok (deploy_clusters E cluster_id) print c1 e1 in
        let (_, c3, printed, e3) = >>=-eq-ok (get_ansible_print E conf) poll c2 e2 in
        let (_, c4, installed, checked) =
          >>=-eq-ok (get_installing_progress E conf cluster_id) check c3 e3 in
        let complete = set_all_hosts_roles_complete E order cluster_id conf c c1 given in
        let (polled, success, last, _) =
          get_installing_progress_success E C conf cluster_id c3 c4 installed in
        record {
          cluster_id = cluster_id;
          before = c1;
          started = c2;
          printing = c3;
          polled = polled;
          finished = c4;
          hosts = complete.0;
          roles = complete.1;
          deployed = deployed;
          printed = printed;
          installed = installed;
          success = success;
          last = last;
          checked = checked;
        };
  }

  fresh_deployment-Installed : Ensures (fresh_deployment E conf) (Installed E conf)
  unfolding fresh_deployment
  fresh_deployment-Installed = Ensures-bind (login E conf) _ λ _.
      Ensures-bind (get_machines E conf) _ λ machines. Ensures-bind (add_subnets E conf) _ λ _.
        Ensures-bind (get_adapter E conf) _ λ ids.
          Ensures-bind (add_cluster E conf ids.0 ids.1 ids.2) _ λ cluster_id.
            Ensures-bind (add_cluster_hosts E conf cluster_id machines) _ λ _.
              Ensures-bind (set_host_networking E conf) _ λ _.
                Ensures-bind (set_cluster_os_config E conf cluster_id) _ λ _.
                  Ensures-bind
                    (if truthy ids.2 then set_cluster_package_config E conf cluster_id else pure tt)
                    _ λ _. installing-Installed cluster_id

  -- While the clock runs and hash tables list their keys: if `main` returns, its run has ended so. From
  -- a state in which every host had an entry in `host_roles` and no role was marked as unassigned,
  -- `deploy_clusters`, `get_ansible_print`, `get_installing_progress` and `check_dashboard_links` have
  -- returned one after the other for one cluster; and before the printing process was terminated the
  -- state of that cluster was read as SUCCESSFUL from a reply with a good status.
  pub main_success : (c c' : Compass) → main E conf c ≡ (ok tt, c') → Installed E conf c'
  unfolding main deploy
  main_success c c' e =
      let returned : succeeds (main E conf c).0 ≡ true =
        ap (λ (p : Result (Unit {0}) × Compass). succeeds p.0) e in
      elim (Bool-cases (conf.deploy_flag == codes "redeploy")) [
        | inl again ↦ absurd (cc (main_fails E conf c (inl (ground (arith, again))), returned))
        | inr first ↦ elim (Bool-cases (conf.expansion == codes "false")) [
          | inl fresh ↦ fresh_deployment-Installed.returning c (rw (first, fresh) at e)
          | inr other ↦ absurd (cc (main_fails E conf c (inr (ground (arith, other))), returned))
        ]
      ]
