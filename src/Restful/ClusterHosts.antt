-- ===== src/Restful/ClusterHosts.antt =====
-- The methods of `class Client` (deploy/restful.py) on the hosts of a cluster, their roles and their state.
use compass4nfv.Base.{[], ◌∷◌, ◌++◌, codes, text_eq, true}
use compass4nfv.Value.{Value, null, bool, object}
use compass4nfv.Effects.{Environment, show, lift, ◌>>=◌}
use compass4nfv.Restful.{Call, get, post, put, patch, delete, filled, raw_or, updated}

module _ (E : Environment) where
  unfoldable pub list_clusterhosts : Call
  unfolding get
  list_clusterhosts = get E (codes "/clusterhosts") null

  unfoldable pub get_cluster_host : Value → Value → Call
  unfolding get show
  get_cluster_host cluster_id host_id =
      get E (codes "/clusters/" ++ show E cluster_id ++ codes "/hosts/" ++ show E host_id) null

  unfoldable pub get_clusterhost : Value → Call
  unfolding get show
  get_clusterhost clusterhost_id = get E (codes "/clusterhosts/" ++ show E clusterhost_id) null

  unfoldable pub add_cluster_host : Value → Value → Value → Value → Value → Call
  unfolding post show updated
  add_cluster_host cluster_id machine_id name reinstall_os raw_data = do
    form ← lift (
        updated raw_data ((codes "machine_id", machine_id) ∷ [])
          ((codes "name", name) ∷ (codes "reinstall_os", reinstall_os) ∷ []))
    post E (codes "/clusters/" ++ show E cluster_id ++ codes "/hosts") form

  unfoldable pub delete_cluster_host : Value → Value → Call
  unfolding delete show
  delete_cluster_host cluster_id host_id =
      delete E (codes "/clusters/" ++ show E cluster_id ++ codes "/hosts/" ++ show E host_id)

  unfoldable pub delete_clusterhost : Value → Call
  unfolding delete show
  delete_clusterhost clusterhost_id = delete E (codes "/clusterhosts/" ++ show E clusterhost_id)

  unfoldable pub get_cluster_host_state : Value → Value → Call
  unfolding get show
  get_cluster_host_state cluster_id host_id =
      get E
        (codes "/clusters/"
          ++ show E cluster_id
          ++ codes "/hosts/"
          ++ show E host_id
          ++ codes "/state")
        null

  unfoldable pub update_cluster_host : Value → Value → Value → Value → Call
  unfolding put show raw_or filled
  update_cluster_host cluster_id host_id roles raw_data =
      put E (codes "/clusters/" ++ show E cluster_id ++ codes "/hosts/" ++ show E host_id)
        (raw_or raw_data (filled ((codes "roles", roles) ∷ [])))

  unfoldable pub update_clusterhost : Value → Value → Value → Call
  unfolding put show raw_or filled
  update_clusterhost clusterhost_id roles raw_data =
      put E (codes "/clusterhosts/" ++ show E clusterhost_id)
        (raw_or raw_data (filled ((codes "roles", roles) ∷ [])))

  unfoldable pub patch_cluster_host : Value → Value → Value → Value → Call
  unfolding patch show raw_or filled
  patch_cluster_host cluster_id host_id roles raw_data =
      patch E (codes "/clusters/" ++ show E cluster_id ++ codes "/hosts/" ++ show E host_id)
        (raw_or raw_data (filled ((codes "roles", roles) ∷ [])))

  unfoldable pub patch_clusterhost : Value → Value → Value → Call
  unfolding patch show raw_or filled
  patch_clusterhost clusterhost_id roles raw_data =
      patch E (codes "/clusterhosts/" ++ show E clusterhost_id)
        (raw_or raw_data (filled ((codes "roles", roles) ∷ [])))

  unfoldable pub get_clusterhost_state : Value → Call
  unfolding get show
  get_clusterhost_state clusterhost_id =
      get E (codes "/clusterhosts/" ++ show E clusterhost_id ++ codes "/state") null

  unfoldable pub update_cluster_host_state : Value → Value → Value → Value → Value → Value → Call
  unfolding put show raw_or filled
  update_cluster_host_state cluster_id host_id state percentage message raw_data =
      put E
        (codes "/clusters/"
          ++ show E cluster_id
          ++ codes "/hosts/"
          ++ show E host_id
          ++ codes "/state")
        (raw_or raw_data (
          filled (
            (codes "state", state)
            ∷ (codes "percentage", percentage)
            ∷ (codes "message", message)
            ∷ [])))

  unfoldable pub update_clusterhost_state : Value → Value → Value → Value → Value → Call
  unfolding put show raw_or filled
  update_clusterhost_state clusterhost_id state percentage message raw_data =
      put E (codes "/clusterhosts/" ++ show E clusterhost_id ++ codes "/state") (
        raw_or raw_data (
          filled (
            (codes "state", state)
            ∷ (codes "percentage", percentage)
            ∷ (codes "message", message)
            ∷ [])))

  unfoldable pub clusterhost_ready : Value → Call
  unfolding post show
  clusterhost_ready clusterhost_name =
      post E (codes "/clusterhosts/" ++ show E clusterhost_name ++ codes "/state_internal")
        (object ((codes "ready", bool true) ∷ []))
