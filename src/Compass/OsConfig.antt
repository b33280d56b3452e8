-- ===== src/Compass/OsConfig.antt =====
-- `CompassClient.set_cluster_os_config`: the document that it builds, and the request.
pub mod Document
use compass4nfv.Base.{not, Text, codes}
use compass4nfv.Result.{runtime_error}
use compass4nfv.Value.{Value, null}
use compass4nfv.Effects.{Environment, Action, raise_if, gets, lift, ◌>>=◌}
use compass4nfv.Restful.Clusters.{update_cluster_config}
use compass4nfv.Compass.{Compass, on_client}
use compass4nfv.Compass.Config.{Config}
use compass4nfv.Compass.Login.{is_ok}
use Document.{os_config_of}

module _ (E : Environment) (conf : Config) where
  unfoldable pub set_cluster_os_config : Value → Action Compass (Unit {0})
  unfolding os_config_of update_cluster_config
  set_cluster_os_config cluster_id = do
    built ← gets (λ c. os_config_of E conf c.host_ips)
    os_config ← lift built
    (status, resp) ← on_client (update_cluster_config E cluster_id os_config null null null)
    raise_if (not (is_ok status)) (runtime_error (codes "failed to set os config %s to cluster %s"))
