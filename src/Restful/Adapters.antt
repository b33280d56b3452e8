-- ===== src/Restful/Adapters.antt =====
-- The methods of `class Client` (deploy/restful.py) on the adapters and their metadata.
use compass4nfv.Base.{[], ◌∷◌, ◌++◌, codes, text_eq}
use compass4nfv.Value.{Value, null}
use compass4nfv.Effects.{Environment, show}
use compass4nfv.Restful.{Call, get, filled}

module _ (E : Environment) where
  unfoldable pub list_adapters : Value → Value → Value → Value → Call
  unfolding get filled
  list_adapters name distributed_system_name os_installer_name package_installer_name =
      get E (codes "/adapters") (
        filled (
          (codes "name", name)
          ∷ (codes "distributed_system_name", distributed_system_name)
          ∷ (codes "os_installer_name", os_installer_name)
          ∷ (codes "package_installer_name", package_installer_name)
          ∷ []))

  unfoldable pub get_adapter : Value → Call
  unfolding get show
  get_adapter adapter_id = get E (codes "/adapters/" ++ show E adapter_id) null

  unfoldable pub get_adapter_roles : Value → Call
  unfolding get show
  get_adapter_roles adapter_id =
      get E (codes "/adapters/" ++ show E adapter_id ++ codes "/roles") null

  unfoldable pub get_adapter_metadata : Value → Call
  unfolding get show
  get_adapter_metadata adapter_id =
      get E (codes "/adapters/" ++ show E adapter_id ++ codes "/metadata") null

  unfoldable pub get_os_metadata : Value → Call
  unfolding get show
  get_os_metadata os_id = get E (codes "/oses/" ++ show E os_id ++ codes "/metadata") null
