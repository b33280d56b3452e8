-- ===== src/Restful/HostNetworks.antt =====
-- The methods of `class Client` (deploy/restful.py) on the networks of hosts.
use compass4nfv.Base.{[], ◌∷◌, ◌++◌, codes, text_eq}
use compass4nfv.Result.{type_error}
use compass4nfv.Value.{Value, null}
use compass4nfv.Effects.{Environment, show, raise, lift, ◌>>=◌}
use compass4nfv.Restful.{Call, get, post, put, delete, filled, raw_or, updated}

module _ (E : Environment) where
  unfoldable pub list_host_networks : Value → Value → Value → Value → Value → Value → Call
  unfolding get show filled
  list_host_networks host_id interface ip subnet is_mgmt is_promiscuous =
      get E (codes "/hosts/" ++ show E host_id ++ codes "/networks") (
        filled (
          (codes "interface", interface)
          ∷ (codes "ip", ip)
          ∷ (codes "subnet", subnet)
          ∷ (codes "is_mgmt", is_mgmt)
          ∷ (codes "is_promiscuous", is_promiscuous)
          ∷ []))

  unfoldable pub list_all_host_networks : Value → Value → Value → Value → Value → Call
  unfolding get filled
  list_all_host_networks interface ip subnet is_mgmt is_promiscuous =
      get E (codes "/host-networks") (
        filled (
          (codes "interface", interface)
          ∷ (codes "ip", ip)
          ∷ (codes "subnet", subnet)
          ∷ (codes "is_mgmt", is_mgmt)
          ∷ (codes "is_promiscuous", is_promiscuous)
          ∷ []))

  unfoldable pub get_host_network : Value → Value → Call
  unfolding get show
  get_host_network host_id host_network_id =
      get E (codes "/hosts/" ++ show E host_id ++ codes "/networks/" ++ show E host_network_id) null

  unfoldable pub get_network_for_all_hosts : Value → Call
  unfolding get show
  get_network_for_all_hosts host_network_id =
      get E (codes "/host-networks/" ++ show E host_network_id) null

  unfoldable pub add_host_network : Value → Value → Value → Value → Value → Value → Value → Call
  unfolding post show updated
  add_host_network host_id interface ip subnet_id is_mgmt is_promiscuous raw_data = do
    form ← lift (
        updated raw_data
          ((codes "interface", interface) ∷ (codes "ip", ip) ∷ (codes "subnet_id", subnet_id) ∷ [])
          ((codes "is_mgmt", is_mgmt) ∷ (codes "is_promiscuous", is_promiscuous) ∷ []))
    post E (codes "/hosts/" ++ show E host_id ++ codes "/networks") form

  unfoldable pub update_host_network :
      Value → Value → Value → Value → Value → Value → Value → Value → Call
  unfolding put show raw_or filled
  update_host_network host_id host_network_id ip subnet_id subnet is_mgmt is_promiscuous raw_data =
      put E (codes "/hosts/" ++ show E host_id ++ codes "/networks/" ++ show E host_network_id) (
        raw_or raw_data (
          filled (
            (codes "ip", ip)
            ∷ (codes "subnet_id", subnet_id)
            ∷ (codes "subnet", subnet)
            ∷ (codes "is_mgmt", is_mgmt)
            ∷ (codes "is_promiscuous", is_promiscuous)
            ∷ [])))

  unfoldable pub update_hostnetwork : Value → Value → Value → Value → Value → Value → Value → Call
  unfolding put show raw_or filled
  update_hostnetwork host_network_id ip subnet_id subnet is_mgmt is_promiscuous raw_data =
      put E (codes "/host-networks/" ++ show E host_network_id) (
        raw_or raw_data (
          filled (
            (codes "ip", ip)
            ∷ (codes "subnet_id", subnet_id)
            ∷ (codes "subnet", subnet)
            ∷ (codes "is_mgmt", is_mgmt)
            ∷ (codes "is_promiscuous", is_promiscuous)
            ∷ [])))

  -- `_delete` is called with one positional argument too many: a TypeError.
  unfoldable pub delete_host_network : Value → Value → Call
  delete_host_network host_id host_network_id = raise type_error

  unfoldable pub delete_hostnetwork : Value → Call
  unfolding delete show
  delete_hostnetwork host_network_id = delete E (codes "/host-networks/" ++ show E host_network_id)
