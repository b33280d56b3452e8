-- ===== src/Restful/Clusters.antt =====
-- The methods of `class Client` (deploy/restful.py) on the clusters, their configuration, actions and state.
use compass4nfv.Base.{[], ◌∷◌, ◌++◌, codes, Text, text_eq, if◌then◌else◌}
use compass4nfv.Base.Dict.{Dict}
use compass4nfv.Result.{Result, ok, err}
use compass4nfv.Value.{Value, null, object}
use compass4nfv.Value.Access.{truthy, setitem}
use compass4nfv.Effects.{Environment, show, lift, ◌>>=◌}
use compass4nfv.Restful.{Call, get, post, put, patch, delete, given, filled, raw_or}

-- `if v: data[k] = v` on the caller's `raw_data`, or on an empty dict. The caller's dict changes too,
-- which is not modelled: no caller passes one.
unfoldable pub set_given : Dict Text Value → Value → Result Value
unfolding setitem
set_given [] form = ok form
set_given ((k, v) ∷ args) form = elim (if truthy v then setitem form k v else ok form) [
  | ok form' ↦ set_given args form'
  | err e ↦ err e
]

module _ (E : Environment) where
  unfoldable pub list_clusters : Value → Value → Value → Value → Value → Call
  unfolding get filled
  list_clusters name os_name distributed_system_name owner adapter_id = get E (codes "/clusters") (
      filled (
        (codes "name", name)
        ∷ (codes "os_name", os_name)
        ∷ (codes "distributed_system_name", distributed_system_name)
        ∷ (codes "owner", owner)
        ∷ (codes "adapter_id", adapter_id)
        ∷ []))

  unfoldable pub get_cluster : Value → Call
  unfolding get show
  get_cluster cluster_id = get E (codes "/clusters/" ++ show E cluster_id) null

  unfoldable pub add_cluster : Value → Value → Value → Value → Value → Call
  unfolding post raw_or given
  add_cluster name adapter_id os_id flavor_id raw_data = post E (codes "/clusters") (
      raw_or raw_data (
        object (
          given ((codes "flavor_id", flavor_id) ∷ []) []
          ++ (codes "name", name)
            ∷ (codes "adapter_id", adapter_id)
            ∷ (codes "os_id", os_id)
            ∷ [])))

  unfoldable pub update_cluster : Value → Value → Value → Value → Call
  unfolding put show raw_or filled
  update_cluster cluster_id name reinstall_distributed_system raw_data =
      put E (codes "/clusters/" ++ show E cluster_id) (
        raw_or raw_data (
          filled (
            (codes "name", name)
            ∷ (codes "reinstall_distributed_system", reinstall_distributed_system)
            ∷ [])))

  unfoldable pub delete_cluster : Value → Call
  unfolding delete show
  delete_cluster cluster_id = delete E (codes "/clusters/" ++ show E cluster_id)

  unfoldable pub get_cluster_config : Value → Call
  unfolding get show
  get_cluster_config cluster_id =
      get E (codes "/clusters/" ++ show E cluster_id ++ codes "/config") null

  unfoldable pub get_cluster_metadata : Value → Call
  unfolding get show
  get_cluster_metadata cluster_id =
      get E (codes "/clusters/" ++ show E cluster_id ++ codes "/metadata") null

  unfoldable pub update_cluster_config : Value → Value → Value → Value → Value → Call
  unfolding put show set_given raw_or
  update_cluster_config cluster_id os_config package_config config_step raw_data = do
    form ← lift (
        set_given
          ((codes "os_config", os_config)
            ∷ (codes "package_config", package_config)
            ∷ (codes "config_step", config_step)
            ∷ [])
          (raw_or raw_data (object [])))
    put E (codes "/clusters/" ++ show E cluster_id ++ codes "/config") form

  unfoldable pub patch_cluster_config : Value → Value → Value → Value → Value → Call
  unfolding patch show set_given raw_or
  patch_cluster_config cluster_id os_config package_config config_step raw_data = do
    form ← lift (
        set_given
          ((codes "os_config", os_config)
            ∷ (codes "package_config", package_config)
            ∷ (codes "config_step", config_step)
            ∷ [])
          (raw_or raw_data (object [])))
    patch E (codes "/clusters/" ++ show E cluster_id ++ codes "/config") form

  unfoldable pub delete_cluster_config : Value → Call
  unfolding delete show
  delete_cluster_config cluster_id =
      delete E (codes "/clusters/" ++ show E cluster_id ++ codes "/config")

  unfoldable pub add_hosts_to_cluster : Value → Value → Call
  unfolding post show
  add_hosts_to_cluster cluster_id hosts =
      post E (codes "/clusters/" ++ show E cluster_id ++ codes "/action")
        (object ((codes "add_hosts", hosts) ∷ []))

  unfoldable pub set_hosts_in_cluster : Value → Value → Call
  unfolding post show
  set_hosts_in_cluster cluster_id hosts =
      post E (codes "/clusters/" ++ show E cluster_id ++ codes "/action")
        (object ((codes "set_hosts", hosts) ∷ []))

  unfoldable pub remove_hosts_from_cluster : Value → Value → Call
  unfolding post show
  remove_hosts_from_cluster cluster_id hosts =
      post E (codes "/clusters/" ++ show E cluster_id ++ codes "/action")
        (object ((codes "remove_hosts", hosts) ∷ []))

  unfoldable pub review_cluster : Value → Value → Call
  unfolding post show
  review_cluster cluster_id review =
      post E (codes "/clusters/" ++ show E cluster_id ++ codes "/action")
        (object ((codes "review", review) ∷ []))

  unfoldable pub deploy_cluster : Value → Value → Call
  unfolding post show
  deploy_cluster cluster_id deploy =
      post E (codes "/clusters/" ++ show E cluster_id ++ codes "/action")
        (object ((codes "deploy", deploy) ∷ []))

  unfoldable pub redeploy_cluster : Value → Call
  unfolding post show
  redeploy_cluster cluster_id =
      post E (codes "/clusters/" ++ show E cluster_id ++ codes "/action")
        (object ((codes "redeploy", object []) ∷ []))

  unfoldable pub get_cluster_state : Value → Call
  unfolding get show
  get_cluster_state cluster_id =
      get E (codes "/clusters/" ++ show E cluster_id ++ codes "/state") null

  unfoldable pub list_cluster_hosts : Value → Call
  unfolding get show
  list_cluster_hosts cluster_id =
      get E (codes "/clusters/" ++ show E cluster_id ++ codes "/hosts") null
