-- ===== src/Restful/ClusterHostConfig.antt =====
-- The methods of `class Client` (deploy/restful.py) on the configuration of a cluster's hosts.
use compass4nfv.Base.{[], ◌∷◌, ◌++◌, codes, text_eq}
use compass4nfv.Value.{Value, null}
use compass4nfv.Effects.{Environment, show}
use compass4nfv.Restful.{Call, get, put, patch, delete, filled, raw_or}

module _ (E : Environment) where
  unfoldable pub get_cluster_host_config : Value → Value → Call
  unfolding get show
  get_cluster_host_config cluster_id host_id =
      get E
        (codes "/clusters/"
          ++ show E cluster_id
          ++ codes "/hosts/"
          ++ show E host_id
          ++ codes "/config")
        null

  unfoldable pub get_clusterhost_config : Value → Call
  unfolding get show
  get_clusterhost_config clusterhost_id =
      get E (codes "/clusterhosts/" ++ show E clusterhost_id ++ codes "/config") null

  unfoldable pub update_cluster_host_config : Value → Value → Value → Value → Value → Call
  unfolding put show raw_or filled
  update_cluster_host_config cluster_id host_id os_config package_config raw_data =
      put E
        (codes "/clusters/"
          ++ show E cluster_id
          ++ codes "/hosts/"
          ++ show E host_id
          ++ codes "/config")
        (raw_or raw_data
          (filled ((codes "os_config", os_config) ∷ (codes "package_config", package_config) ∷ [])))

  unfoldable pub update_clusterhost_config : Value → Value → Value → Value → Call
  unfolding put show raw_or filled
  update_clusterhost_config clusterhost_id os_config package_config raw_data =
      put E (codes "/clusterhosts/" ++ show E clusterhost_id ++ codes "/config") (
        raw_or raw_data
          (filled ((codes "os_config", os_config) ∷ (codes "package_config", package_config) ∷ [])))

  unfoldable pub patch_cluster_host_config : Value → Value → Value → Value → Value → Call
  unfolding patch show raw_or filled
  patch_cluster_host_config cluster_id host_id os_config package_config raw_data =
      patch E
        (codes "/clusters/"
          ++ show E cluster_id
          ++ codes "/hosts/"
          ++ show E host_id
          ++ codes "/config")
        (raw_or raw_data
          (filled ((codes "os_config", os_config) ∷ (codes "package_config", package_config) ∷ [])))

  unfoldable pub patch_clusterhost_config : Value → Value → Value → Value → Call
  unfolding patch show raw_or filled
  patch_clusterhost_config clusterhost_id os_config package_config raw_data =
      patch E (codes "/clusterhosts/" ++ show E clusterhost_id) (
        raw_or raw_data
          (filled ((codes "os_config", os_config) ∷ (codes "package_config", package_config) ∷ [])))

  unfoldable pub delete_cluster_host_config : Value → Value → Call
  unfolding delete show
  delete_cluster_host_config cluster_id host_id = delete E (
      codes "/clusters/"
      ++ show E cluster_id
      ++ codes "/hosts/"
      ++ show E host_id
      ++ codes "/config")

  unfoldable pub delete_clusterhost_config : Value → Call
  unfolding delete show
  delete_clusterhost_config clusterhost_id =
      delete E (codes "/clusterhosts/" ++ show E clusterhost_id ++ codes "/config")
