-- ===== src/Restful/Machines.antt =====
-- The methods of `class Client` (deploy/restful.py) on the machines.
use compass4nfv.Base.{[], ◌∷◌, ◌++◌, codes, text_eq}
use compass4nfv.Value.{Value, null, str, object}
use compass4nfv.Effects.{Environment, show}
use compass4nfv.Restful.{Call, get, put, patch, delete, filled, raw_or}

-- The built-in function `id`, as `requests` writes it into a query.
abbrev pub builtin_id : Value
builtin_id = str (codes "<built-in function id>")

module _ (E : Environment) where
  unfoldable pub list_machines : Value → Value → Value → Call
  unfolding get filled
  list_machines mac tag location =
      get E (codes "/machines")
        (filled ((codes "mac", mac) ∷ (codes "tag", tag) ∷ (codes "location", location) ∷ []))

  -- The test `if id` and the value sent are the built-in function `id`.
  unfoldable pub get_machine : Value → Call
  unfolding get show
  get_machine machine_id =
      get E (codes "/machines/" ++ show E machine_id) (object ((codes "id", builtin_id) ∷ []))

  unfoldable pub update_machine : Value → Value → Value → Value → Value → Call
  unfolding put show raw_or filled
  update_machine machine_id ipmi_credentials tag location raw_data =
      put E (codes "/machines/" ++ show E machine_id) (
        raw_or raw_data (
          filled (
            (codes "ipmi_credentials", ipmi_credentials)
            ∷ (codes "tag", tag)
            ∷ (codes "location", location)
            ∷ [])))

  unfoldable pub patch_machine : Value → Value → Value → Value → Value → Call
  unfolding patch show raw_or filled
  patch_machine machine_id ipmi_credentials tag location raw_data =
      patch E (codes "/machines/" ++ show E machine_id) (
        raw_or raw_data (
          filled (
            (codes "ipmi_credentials", ipmi_credentials)
            ∷ (codes "tag", tag)
            ∷ (codes "location", location)
            ∷ [])))

  unfoldable pub delete_machine : Value → Call
  unfolding delete show
  delete_machine machine_id = delete E (codes "machines/" ++ show E machine_id)

  unfoldable pub list_machines_or_hosts : Value → Value → Value → Value → Value → Call
  unfolding get filled
  list_machines_or_hosts mac tag location os_name os_id = get E (codes "/machines-hosts") (
      filled (
        (codes "mac", mac)
        ∷ (codes "tag", tag)
        ∷ (codes "location", location)
        ∷ (codes "os_name", os_name)
        ∷ (codes "os_id", os_id)
        ∷ []))

  unfoldable pub get_machine_or_host : Value → Call
  unfolding get show
  get_machine_or_host host_id = get E (codes "/machines-hosts/" ++ show E host_id) null
