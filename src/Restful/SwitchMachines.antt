-- ===== src/Restful/SwitchMachines.antt =====
-- The methods of `class Client` (deploy/restful.py) on the machines behind switches.
use compass4nfv.Base.{[], ◌∷◌, ◌++◌, codes, text_eq}
use compass4nfv.Value.{Value, null}
use compass4nfv.Effects.{Environment, show}
use compass4nfv.Restful.{Call, get, post, put, patch, delete, filled, raw_or}

module _ (E : Environment) where
  unfoldable pub list_switch_machines : Value → Value → Value → Value → Value → Call
  unfolding get show filled
  list_switch_machines switch_id port vlans tag location =
      get E (codes "/switches/" ++ show E switch_id ++ codes "/machines") (
        filled (
          (codes "port", port)
          ∷ (codes "vlans", vlans)
          ∷ (codes "tag", tag)
          ∷ (codes "location", location)
          ∷ []))

  unfoldable pub get_switch_machine : Value → Value → Call
  unfolding get show
  get_switch_machine switch_id machine_id =
      get E (codes "/switches/" ++ show E switch_id ++ codes "/machines/" ++ show E machine_id) null

  unfoldable pub list_switch_machines_hosts :
      Value → Value → Value → Value → Value → Value → Value → Value → Call
  unfolding get show filled
  list_switch_machines_hosts switch_id port vlans mac tag location os_name os_id =
      get E (codes "/switches/" ++ show E switch_id ++ codes "/machines-hosts") (
        filled (
          (codes "port", port)
          ∷ (codes "vlans", vlans)
          ∷ (codes "mac", mac)
          ∷ (codes "tag", tag)
          ∷ (codes "location", location)
          ∷ (codes "os_name", os_name)
          ∷ (codes "os_id", os_id)
          ∷ []))

  unfoldable pub add_switch_machine :
      Value → Value → Value → Value → Value → Value → Value → Value → Call
  unfolding post show raw_or filled
  add_switch_machine switch_id mac port vlans ipmi_credentials tag location raw_data =
      post E (codes "/switches/" ++ show E switch_id ++ codes "/machines") (
        raw_or raw_data (
          filled (
            (codes "mac", mac)
            ∷ (codes "port", port)
            ∷ (codes "vlans", vlans)
            ∷ (codes "ipmi_credentials", ipmi_credentials)
            ∷ (codes "tag", tag)
            ∷ (codes "location", location)
            ∷ [])))

  unfoldable pub update_switch_machine :
      Value → Value → Value → Value → Value → Value → Value → Value → Call
  unfolding put show raw_or filled
  update_switch_machine switch_id machine_id port vlans ipmi_credentials tag location raw_data =
      put E (codes "/switches/" ++ show E switch_id ++ codes "/machines/" ++ show E machine_id) (
        raw_or raw_data (
          filled (
            (codes "port", port)
            ∷ (codes "vlans", vlans)
            ∷ (codes "ipmi_credentials", ipmi_credentials)
            ∷ (codes "tag", tag)
            ∷ (codes "location", location)
            ∷ [])))

  unfoldable pub delete_switch_machine : Value → Value → Call
  unfolding delete show
  delete_switch_machine switch_id machine_id =
      delete E (codes "/switches/" ++ show E switch_id ++ codes "/machines/" ++ show E machine_id)

  unfoldable pub list_switchmachines : Value → Value → Value → Value → Value → Value → Call
  unfolding get filled
  list_switchmachines switch_ip_int port vlans mac tag location = get E (codes "/switch-machines") (
      filled (
        (codes "switch_ip_int", switch_ip_int)
        ∷ (codes "port", port)
        ∷ (codes "vlans", vlans)
        ∷ (codes "mac", mac)
        ∷ (codes "tag", tag)
        ∷ (codes "location", location)
        ∷ []))

  unfoldable pub list_switchmachines_hosts :
      Value → Value → Value → Value → Value → Value → Value → Value → Call
  unfolding get filled
  list_switchmachines_hosts switch_ip_int port vlans mac tag location os_name os_id =
      get E (codes "/switches-machines-hosts") (
        filled (
          (codes "switch_ip_int", switch_ip_int)
          ∷ (codes "port", port)
          ∷ (codes "vlans", vlans)
          ∷ (codes "mac", mac)
          ∷ (codes "tag", tag)
          ∷ (codes "location", location)
          ∷ (codes "os_name", os_name)
          ∷ (codes "os_id", os_id)
          ∷ []))

  unfoldable pub show_switchmachine : Value → Call
  unfolding get show
  show_switchmachine switchmachine_id =
      get E (codes "/switch-machines/" ++ show E switchmachine_id) null

  unfoldable pub update_switchmachine : Value → Value → Value → Value → Call
  unfolding put show raw_or filled
  update_switchmachine switchmachine_id port vlans raw_data =
      put E (codes "/switch-machines/" ++ show E switchmachine_id)
        (raw_or raw_data (filled ((codes "port", port) ∷ (codes "vlans", vlans) ∷ [])))

  unfoldable pub patch_switchmachine : Value → Value → Value → Call
  unfolding patch show raw_or filled
  patch_switchmachine switchmachine_id vlans raw_data =
      patch E (codes "/switch-machines/" ++ show E switchmachine_id)
        (raw_or raw_data (filled ((codes "vlans", vlans) ∷ [])))

  unfoldable pub delete_switchmachine : Value → Call
  unfolding delete show
  delete_switchmachine switchmachine_id =
      delete E (codes "/switch-machines/" ++ show E switchmachine_id)
