-- ===== src/Compass/Deploy.antt =====
-- `CompassClient.set_cluster_package_config`'s request, and `deploy`, `redeploy` and `main` of
-- deploy/client.py. The client's constructor ends in `login`, with which each of them starts.
pub mod Order
pub mod Success
mod Tests
use compass4nfv.Base.{
  ℕ, Bool, true, false, not, List, [], ◌∷◌, Text, codes, text_eq, ◌==◌, if◌then◌else◌,
}
use compass4nfv.Result.{Result, ok, err, runtime_error, type_error}
use compass4nfv.Value.{Value, null, num, str, value_eq}
use compass4nfv.Value.Access.{getitem, iterate, truthy}
use compass4nfv.Effects.{Environment, Action, pure, raise, raise_if, lift, ◌>>=◌, ◌>>◌}
use compass4nfv.Restful.Clusters.{update_cluster_config, list_clusters as request_clusters}
use compass4nfv.Compass.{Compass, on_client}
use compass4nfv.Compass.Config.{Config}
use compass4nfv.Compass.Login.{is_ok, login, get_machines, list_clusters, get_adapter}
use compass4nfv.Compass.Subnets.{add_subnets}
use compass4nfv.Compass.Cluster.{add_cluster, add_cluster_hosts}
use compass4nfv.Compass.Networking.{set_host_networking}
use compass4nfv.Compass.OsConfig.{set_cluster_os_config}
use compass4nfv.Compass.Package.{package_config_of}
use compass4nfv.Compass.Roles.{set_all_hosts_roles}
use compass4nfv.Compass.Dashboard.{check_dashboard_links}
use compass4nfv.Compass.Progress.{
  deploy_clusters, redeploy_clusters, get_ansible_print, get_installing_progress,
}

-- The id of the last cluster of that name, else `found`.
cluster_named : Text → List Value → Value → Action Compass Value
unfolding getitem value_eq
cluster_named name [] found = pure found
cluster_named name (c ∷ cs) found = do
  n ← lift (getitem c (codes "name"))
  if n == str name
      then (do i ← lift (getitem c (codes "id")); cluster_named name cs i)
      else cluster_named name cs found

module _ (E : Environment) (conf : Config) where
  unfoldable pub set_cluster_package_config : Value → Action Compass (Unit {0})
  unfolding package_config_of update_cluster_config
  set_cluster_package_config cluster_id = do
    package_config ← lift (package_config_of E conf)
    (status, resp) ← on_client (update_cluster_config E cluster_id null package_config null null)
    raise_if (not (is_ok status)) (runtime_error (codes "set cluster package_config failed"))

  -- What both ways to deploy do with a cluster.
  unfoldable pub fresh_deployment : Action Compass (Unit {0})
  fresh_deployment = do
    login E conf
    machines ← get_machines E conf
    add_subnets E conf
    (adapter_id, os_id, flavor_id) ← get_adapter E conf
    cluster_id ← add_cluster E conf adapter_id os_id flavor_id
    add_cluster_hosts E conf cluster_id machines
    set_host_networking E conf
    set_cluster_os_config E conf cluster_id
    if truthy flavor_id then set_cluster_package_config cluster_id else pure tt
    set_all_hosts_roles E conf cluster_id
    deploy_clusters E cluster_id
    get_ansible_print E conf
    get_installing_progress E conf cluster_id
    check_dashboard_links E conf cluster_id

  -- `get_installing_progress(cluster_id)` lacks an argument: a TypeError. The thread before it runs
  -- a function that does nothing.
  unfoldable pub expansion_deployment : Action Compass (Unit {0})
  unfolding request_clusters iterate cluster_named
  expansion_deployment = do
    login E conf
    machines ← get_machines E conf
    add_subnets E conf
    (status, response) ← on_client (request_clusters E null null null null null)
    clusters ← lift (iterate response)
    cluster_id ← cluster_named conf.cluster_name clusters (num 1)
    add_cluster_hosts E conf cluster_id machines
    set_host_networking E conf
    set_cluster_os_config E conf cluster_id
    set_cluster_package_config cluster_id
    set_all_hosts_roles E conf cluster_id
    deploy_clusters E cluster_id
    raise type_error

  unfoldable pub deploy : Action Compass (Unit {0})
  unfolding fresh_deployment expansion_deployment text_eq
  deploy = if conf.expansion == codes "false" then fresh_deployment else expansion_deployment

  -- Here too `get_installing_progress` lacks an argument, and the dashboard is never checked.
  unfoldable pub redeploy : Action Compass (Unit {0})
  redeploy = do
    login E conf
    cluster_id ← list_clusters E conf
    redeploy_clusters E cluster_id
    raise type_error

  unfoldable pub main : Action Compass (Unit {0})
  unfolding deploy redeploy text_eq
  main = if conf.deploy_flag == codes "redeploy" then redeploy else deploy
