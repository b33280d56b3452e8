-- ===== src/Compass/Networking.antt =====
-- `CompassClient.set_host_networking`.
pub mod Known
pub mod Append
pub mod Recorded
use compass4nfv.Base.{
  Bool, true, false, not, ◌||◌, List, [], ◌∷◌, Option, none, some, Text, codes, contains, text_eq,
  ◌==◌, ◌++◌, if◌then◌else◌,
}
use compass4nfv.Base.Dict.{Dict, keys, lookup, insert}
use compass4nfv.Result.{
  Result, ok, err, or_raise, runtime_error, value_error, type_error, assertion_error,
}
use compass4nfv.Value.{Value, null, bool, str, value_eq}
use compass4nfv.Text.{split, split_once, strip}
use compass4nfv.Effects.{Environment, Action, gets, raise_if, lift, modify, for_each, ◌>>=◌, ◌>>◌}
use compass4nfv.Restful.HostNetworks.{add_host_network}
use compass4nfv.Compass.{Compass, on_client}
use compass4nfv.Compass.Config.{Config}
use compass4nfv.Compass.Login.{is_ok}

-- The keyword `k=True` if the property is there, else its default None.
abbrev pub keyword : Text → List Text → Value
unfolding text_eq
keyword k properties = if contains k properties then bool true else null

-- The keywords that `add_host_network` has beside those that the call gives by name.
abbrev pub is_keyword : Text → Bool
unfolding text_eq
is_keyword k = k == codes "is_mgmt" || k == codes "is_promiscuous" || k == codes "raw_data"

abbrev pub all_keywords : List Text → Bool
all_keywords [] = true
all_keywords (p ∷ ps) = let rest = all_keywords ps in if is_keyword p then rest else false

-- The first piece and the others. `split` always yields a piece.
abbrev pub uncons : List Text → Result (Text × List Text)
uncons [] = err assertion_error
uncons (p ∷ ps) = ok (p, ps)

-- `self.host_ips[hostname].append(ip)`, where `host_ips` is a `defaultdict(list)`.
unfoldable pub append_ip : Text → Text → Dict Value (List Text) → Dict Value (List Text)
unfolding lookup insert value_eq
append_ip hostname ip ips = elim (lookup (str hostname) ips) [
  | none ↦ insert (str hostname) (ip ∷ []) ips
  | some old ↦ insert (str hostname) (old ++ (ip ∷ [])) ips
]

module _ (E : Environment) where
  -- `get_subnet`, on the cidrs in the order of the hash table. Every exception means "no subnet".
  unfoldable pub first_subnet : Text → Dict Value Value → List Value → Option Value
  unfolding lookup value_eq
  first_subnet ip mapping [] = none
  first_subnet ip mapping (cidr ∷ cidrs) =
      let rest = first_subnet ip mapping cidrs in
      if not (E.ip_network cidr)
      then none
      else if E.in_network ip cidr
      then lookup cidr mapping
      else rest

  unfoldable pub get_subnet : Text → Dict Value Value → Option Value
  unfolding first_subnet
  get_subnet ip mapping =
      if E.ip_address ip then first_subnet ip mapping (E.order (keys mapping)) else none

  -- One interface: `<interface_name>=<ip>|<property>|…`.
  unfoldable pub add_network : Text → Value → Text → Action Compass (Unit {0})
  unfolding split_once split strip get_subnet add_host_network append_ip
  add_network hostname host_id intf_str = do
    (interface, intf_properties) ← lift (or_raise (split_once b'=' intf_str) value_error)
    (ip_str, properties) ← lift (uncons (split b'|' (strip intf_properties)))
    found ← gets (λ c. get_subnet ip_str c.subnet_mapping)
    subnet_id ← lift (or_raise found (runtime_error (codes "ip addr %s is invalid")))
    raise_if (not (all_keywords properties)) type_error
    (status, response) ← on_client (
        add_host_network E host_id (str interface) (str ip_str) subnet_id
          (keyword (codes "is_mgmt") properties) (keyword (codes "is_promiscuous") properties)
          (keyword (codes "raw_data") properties))
    raise_if (not (is_ok status)) (runtime_error (codes "add host network failed"))
    modify (λ c. record c { host_ips = append_ip hostname ip_str c.host_ips })

  -- One host: `<hostname>:<interface>,…`.
  unfoldable pub add_networks : Text → Action Compass (Unit {0})
  unfolding split_once split strip lookup value_eq for_each add_network
  add_networks host_network = do
    (hostname, networks_str) ← lift (or_raise (split_once b':' host_network) value_error)
    let name = strip hostname
    known ← gets (λ c. lookup (str name) c.host_mapping)
    host_id ← lift (or_raise known assertion_error)
    for_each (add_network name host_id) (split b',' (strip networks_str))

  unfoldable pub set_host_networking : Config → Action Compass (Unit {0})
  unfolding split for_each add_networks
  set_host_networking conf = for_each add_networks (split b';' conf.host_networks)
