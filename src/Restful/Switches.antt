-- ===== src/Restful/Switches.antt =====
-- The methods of `class Client` (deploy/restful.py) on the switches.
use compass4nfv.Base.{[], ◌∷◌, ◌++◌, codes, text_eq}
use compass4nfv.Value.{Value, null, object}
use compass4nfv.Effects.{Environment, show}
use compass4nfv.Restful.{Call, get, post, put, delete, given, filled, raw_or}

module _ (E : Environment) where
  unfoldable pub list_switches : Value → Value → Call
  unfolding get filled
  list_switches switch_ips switch_ip_networks =
      get E (codes "/switches") (
        filled
          ((codes "switchIp", switch_ips) ∷ (codes "switchIpNetwork", switch_ip_networks) ∷ []))

  unfoldable pub get_switch : Value → Call
  unfolding get show
  get_switch switch_id = get E (codes "/switches/" ++ show E switch_id) null

  unfoldable pub add_switch : Value → Value → Value → Value → Call
  unfolding post raw_or filled
  add_switch switch_ip version community raw_data = post E (codes "/switches") (
      raw_or raw_data (
        object (
          (codes "ip", switch_ip)
          ∷ (
            codes "credentials",
            filled ((codes "version", version) ∷ (codes "community", community) ∷ []),
          )
          ∷ [])))

  unfoldable pub update_switch : Value → Value → Value → Value → Value → Call
  unfolding put show raw_or given filled
  update_switch switch_id state version community raw_data =
      put E (codes "/switches/" ++ show E switch_id) (
        raw_or raw_data (
          object (
            given ((codes "state", state) ∷ []) (
              (
                codes "credentials",
                filled ((codes "version", version) ∷ (codes "community", community) ∷ []),
              )
              ∷ []))))

  unfoldable pub delete_switch : Value → Call
  unfolding delete show
  delete_switch switch_id = delete E (codes "/switches/" ++ show E switch_id)

  unfoldable pub poll_switch : Value → Call
  unfolding post show
  poll_switch switch_id =
      post E (codes "/switches/" ++ show E switch_id ++ codes "/action")
        (object ((codes "find_machines", null) ∷ []))

  unfoldable pub add_group_switch_machines : Value → Value → Call
  unfolding post show
  add_group_switch_machines switch_id group_machine_ids =
      post E (codes "/switches/" ++ show E switch_id ++ codes "/action")
        (object ((codes "add_machines", group_machine_ids) ∷ []))

  unfoldable pub remove_group_switch_machines : Value → Value → Call
  unfolding post show
  remove_group_switch_machines switch_id group_machine_ids =
      post E (codes "/switches/" ++ show E switch_id ++ codes "/action")
        (object ((codes "remove_machines", group_machine_ids) ∷ []))

  unfoldable pub update_group_switch_machines : Value → Value → Call
  unfolding post show
  update_group_switch_machines switch_id group_machines =
      post E (codes "/switches/" ++ show E switch_id ++ codes "/action")
        (object ((codes "set_machines", group_machines) ∷ []))
