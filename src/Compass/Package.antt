-- ===== src/Compass/Package.antt =====
-- `CompassClient.set_cluster_package_config`: the document that it builds, and the request.
pub mod Credentials
pub mod Address
pub mod Given
use compass4nfv.Base.{
  ℕ, Bool, true, false, not, List, [], ◌∷◌, ◌++◌, map, Option, none, some, Text, codes, text_eq,
  number_eq, ◌==◌, contains, if◌then◌else◌,
}
use compass4nfv.Base.Dict.{Dict, insert}
use compass4nfv.Result.{
  Result, ok, err, or_raise, raise_if, runtime_error, value_error, index_error, assertion_error,
  ◌>>=◌, ◌>>◌,
}
use compass4nfv.Value.{Value, null, bool, str, array, object}
use compass4nfv.Value.Access.{truthy}
use compass4nfv.Text.{split, split_once}
use compass4nfv.Effects.{Environment}
use compass4nfv.Compass.Config.{Config}
use compass4nfv.Compass.Documents.{pieces}
use Credentials.{credentials_of, moon_of}
use Address.{find_address}

-- `dict([p.split('=', 1) for p in option.split(',') if '=' in p])`
unfoldable pub mapping_of : List Text → Dict Text Value → Dict Text Value
unfolding split_once insert text_eq
mapping_of [] d = d
mapping_of (p ∷ ps) d =
    mapping_of ps (elim (split_once b'=' p) [ none ↦ d | some (k, v) ↦ insert k (str v) d ])

-- `key, value = item.split(':')`: the item has exactly one colon.
plugin_of : Text → Result Value
unfolding split
plugin_of item = elim (split b':' item) [
  | k ∷ v ∷ [] ↦ ok (object ((k, str v) ∷ []))
  | _ ↦ err value_error
]

plugins_of : List Text → Result (List Value)
unfolding plugin_of
plugins_of [] = ok []
plugins_of (item ∷ items) = do p ← plugin_of item; ps ← plugins_of items; ok (p ∷ ps)

-- The loops over `plugins` and `cluster_param`, which an empty option skips.
unfoldable pub plugin_list : Text → Result (List Value)
unfolding plugins_of split
plugin_list option = if truthy (str option) then plugins_of (split b',' option) else ok []

abbrev enabled : Text → Value
unfolding text_eq
enabled option = bool (option == codes "true")

abbrev switch : Text → Value
unfolding text_eq
switch option = str (if option == codes "Enable" then codes "Enable" else codes "Disable")

module _ (E : Environment) (conf : Config) where
  -- `assert(os.path.exists(path))` and the parsed file
  config_file : Text → Result Value
  config_file path = or_raise (E.yaml path) assertion_error

  unfoldable pub package_config_of : Result Value
  unfolding pieces credentials_of moon_of find_address mapping_of config_file plugin_list
  package_config_of = do
    service ← credentials_of (pieces b',' conf.service_credentials) []
    console ← credentials_of (pieces b',' conf.console_credentials) []
    compass_ip ← or_raise (find_address conf.compass_server) index_error
    moon ← moon_of (pieces b',' conf.moon_cfg) []
    network_cfg ← config_file conf.network_cfg
    neutron_cfg ← config_file conf.neutron_cfg
    plugins ← plugin_list conf.plugins
    cluster_param ← plugin_list conf.cluster_param
    ok (
        object (
          (
            codes "security",
            object (
                (codes "service_credentials", object service)
                ∷ (codes "console_credentials", object console)
                ∷ []),
          )
          ∷ (codes "compass_ip", str compass_ip)
          ∷ (codes "offline_repo_port", str conf.offline_repo_port)
          ∷ (codes "offline_deployment", str conf.offline_deployment)
          ∷ (codes "moon_cfg", object moon)
          ∷ (codes "network_mapping", object (mapping_of (split b',' conf.network_mapping) []))
          ∷ (codes "network_cfg", network_cfg)
          ∷ (codes "neutron_config", neutron_cfg)
          ∷ (
            codes "ha_proxy",
            object (
                if truthy (str conf.cluster_vip)
                then (codes "vip", str conf.cluster_vip) ∷ []
                else []),
          )
          ∷ (codes "enable_secgroup", enabled conf.enable_secgroup)
          ∷ (codes "enable_fwaas", enabled conf.enable_fwaas)
          ∷ (codes "enable_vpnaas", enabled conf.enable_vpnaas)
          ∷ (codes "odl_l3_agent", switch conf.odl_l3_agent)
          ∷ (codes "onos_sfc", switch conf.onos_sfc)
          ∷ (codes "plugins", array plugins)
          ∷ (codes "cluster_param", array cluster_param)
          ∷ []))
