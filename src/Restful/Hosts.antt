-- ===== src/Restful/Hosts.antt =====
-- The methods of `class Client` (deploy/restful.py) on the hosts, their configuration, state and power.
use compass4nfv.Base.{[], ◌∷◌, ◌++◌, codes, text_eq, true}
use compass4nfv.Result.{type_error}
use compass4nfv.Value.{Value, null, bool, object}
use compass4nfv.Effects.{Environment, show, raise, lift, ◌>>=◌}
use compass4nfv.Restful.{Call, get, post, put, patch, delete, filled, raw_or, updated}

module _ (E : Environment) where
  unfoldable pub list_hosts : Value → Value → Value → Value → Call
  unfolding get filled
  list_hosts name os_name owner mac = get E (codes "/hosts") (
      filled (
        (codes "name", name)
        ∷ (codes "os_name", os_name)
        ∷ (codes "owner", owner)
        ∷ (codes "mac", mac)
        ∷ []))

  unfoldable pub get_host : Value → Call
  unfolding get show
  get_host host_id = get E (codes "/hosts/" ++ show E host_id) null

  unfoldable pub update_host : Value → Value → Value → Value → Call
  unfolding put show raw_or filled
  update_host host_id name reinstall_os raw_data =
      put E (codes "/hosts/" ++ show E host_id) (
        raw_or raw_data (filled ((codes "name", name) ∷ (codes "reinstall_os", reinstall_os) ∷ [])))

  unfoldable pub delete_host : Value → Call
  unfolding delete show
  delete_host host_id = delete E (codes "/hosts/" ++ show E host_id)

  unfoldable pub get_host_clusters : Value → Call
  unfolding get show
  get_host_clusters host_id = get E (codes "/hosts/" ++ show E host_id ++ codes "/clusters") null

  unfoldable pub get_host_config : Value → Call
  unfolding get show
  get_host_config host_id = get E (codes "/hosts/" ++ show E host_id ++ codes "/config") null

  unfoldable pub update_host_config : Value → Value → Value → Call
  unfolding put show updated
  update_host_config host_id os_config raw_data = do
    form ← lift (updated raw_data ((codes "os_config", os_config) ∷ []) [])
    put E (codes "/hosts/" ++ show E host_id ++ codes "/config") form

  unfoldable pub patch_host_config : Value → Value → Value → Call
  unfolding patch show updated
  patch_host_config host_id os_config raw_data = do
    form ← lift (updated raw_data ((codes "os_config", os_config) ∷ []) [])
    patch E (codes "/hosts/" ++ show E host_id ++ codes "/config") form

  unfoldable pub delete_host_config : Value → Call
  unfolding delete show
  delete_host_config host_id = delete E (codes "/hosts/" ++ show E host_id ++ codes "/config")

  unfoldable pub get_host_state : Value → Call
  unfolding get show
  get_host_state host_id = get E (codes "/hosts/" ++ show E host_id ++ codes "/state") null

  -- `_put` is called with a keyword `date` that it does not have: a TypeError.
  unfoldable pub update_host_state : Value → Value → Value → Value → Value → Call
  update_host_state host_id state percentage message raw_data = raise type_error

  unfoldable pub poweron_host : Value → Call
  unfolding post show
  poweron_host host_id =
      post E (codes "/hosts/" ++ show E host_id ++ codes "/action")
        (object ((codes "poweron", bool true) ∷ []))

  unfoldable pub poweroff_host : Value → Call
  unfolding post show
  poweroff_host host_id =
      post E (codes "/hosts/" ++ show E host_id ++ codes "/action")
        (object ((codes "poweroff", bool true) ∷ []))

  unfoldable pub reset_host : Value → Call
  unfolding post show
  reset_host host_id =
      post E (codes "/hosts/" ++ show E host_id ++ codes "/action")
        (object ((codes "reset", bool true) ∷ []))
