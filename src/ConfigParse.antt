-- ===== src/ConfigParse.antt =====
-- deploy/config_parse.py: the two configuration files become variables of the shell and the list of
-- machines, which the launch scripts and deploy/client.py read.
pub mod Shell
pub mod Export
pub mod Netmask
pub mod Macs
pub mod ReadBack
pub mod Networks
mod Tests
mod NetworkTests
use compass4nfv.Base.{
  ℕ, zero, suc, ◌+◌, ◌*◌, ◌-◌, ◌/◌, ◌%◌, ◌^◌, Bool, true, false, not, List, [], ◌∷◌, ◌++◌, map,
  Option, none, some, Text, codes, text_eq, ◌==◌, keep, leb, length, if◌then◌else◌,
}
use compass4nfv.Base.Int.{ℤ, pos, negsuc}
use compass4nfv.Base.Dict.{Dict, insert, lookup, has_key}
use compass4nfv.Result.{
  Result, ok, err, or_raise, each, ◌>>=◌, key_error, type_error, index_error, value_error,
  attribute_error, exception, system_exit,
}
use compass4nfv.Value.{
  Value, null, bool, int, str, list, dict, value_eq, elements, entries, array, object, num,
}
use compass4nfv.Value.Access.{truthy, getitem, item_at, get, iterate}
use compass4nfv.Text.{split, join, decimal, parse_int}
use compass4nfv.Effects.{Environment, show}

-- `sep.join(values)`: every value is a text.
unfoldable pub all_texts : List Value → Result (List Text)
all_texts [] = ok []
all_texts (str s ∷ vs) = let rest = all_texts vs in do ts ← rest; ok (s ∷ ts)
all_texts (v ∷ vs) = err type_error

unfoldable pub join_values : Text → List Value → Result Text
unfolding all_texts join
join_values sep vs = do ts ← all_texts vs; ok (join sep ts)

-- What `wrapter` returns for a list of results.
unfoldable pub joined : List Value → Option Text → Result Value
unfolding join_values
joined [] seq = ok (str [])
joined (r ∷ rs) none = ok (array (r ∷ rs))
joined (r ∷ rs) (some sep) = do
  text ← join_values sep (r ∷ rs)
  ok (str (b'"' ∷ text ++ (b'"' ∷ [])))

-- The decorator: the function of each host, less what is not true.
unfoldable pub decorator : (Value → Result Value) → Value → Option Text → Result Value
unfolding each keep joined iterate get
decorator func s seq = do
  host_list ← get s (codes "hosts") (array [])
  hosts ← iterate host_list
  results ← each func hosts
  joined (keep truthy results) seq

unfoldable pub hostname : Value → Result Value
unfolding get
hostname host = get host (codes "name") (str [])

unfoldable pub hostnames : Value → Option Text → Result Value
unfolding decorator hostname
hostnames s seq = decorator hostname s seq

unfoldable pub hostmachine : Value → Result Value
unfolding get
hostmachine host = do
  mac ← get host (codes "interfaces") (object [])
  power_type ← get host (codes "power_type") (str [])
  power_ip ← get host (codes "power_ip") (str [])
  power_user ← get host (codes "power_user") (str [])
  power_pass ← get host (codes "power_pass") (str [])
  ok (
      object (
        (codes "mac", mac)
        ∷ (codes "power_type", power_type)
        ∷ (codes "power_ip", power_ip)
        ∷ (codes "power_user", power_user)
        ∷ (codes "power_pass", power_pass)
        ∷ []))

unfoldable pub hostmachines : Value → Option Text → Result Value
unfolding decorator hostmachine
hostmachines s seq = decorator hostmachine s seq

-- `(0xffffffff << n >> i) & 0xff`
unfoldable pub mask_octet : ℕ → ℕ → ℕ
mask_octet n i = (4294967295 * 2 ^ n / 2 ^ i) % 256

-- `32 - prefix`, which must not be negative where it is a shift.
unfoldable pub shift_of : ℤ → Result ℕ
shift_of (pos prefix) = if leb prefix 32 then ok (32 - prefix) else err value_error
shift_of (negsuc n) = ok (33 + n)

unfoldable pub netmask : ℕ → Text
unfolding mask_octet join decimal
netmask n = join (codes ".") (map (λ i. decimal (mask_octet n i)) (24 ∷ 16 ∷ 8 ∷ 0 ∷ []))

-- `mgmt_cidr.split('/')`
unfoldable pub split_value : ℕ → Value → Result (List Text)
unfolding split
split_value sep (str s) = ok (split sep s)
split_value sep v = err attribute_error

-- `int(mgmt_cidr.split('/')[1])`
unfoldable pub prefix_of : Value → Result ℤ
unfolding split_value parse_int
prefix_of cidr = split_value b'/' cidr >>= λ parts. elim parts [
  | [] ↦ err index_error
  | p ∷ [] ↦ err index_error
  | p ∷ q ∷ rest ↦ or_raise (parse_int q) value_error
]

-- `[item for item in ip_settings if item['name'] == name]`
unfoldable pub named : Text → List Value → Result (List Value)
unfolding getitem value_eq
named name [] = ok []
named name (item ∷ more) =
    let rest = named name more in
    do
      n ← getitem item (codes "name")
      found ← rest
      ok (if n == str name then item ∷ found else found)

unfoldable pub first_of : List Value → Result Value
first_of [] = err index_error
first_of (v ∷ vs) = ok v

module _ (E : Environment) where
  unfoldable pub hostrole : Value → Result Value
  unfolding get iterate join_values show
  hostrole host = do
    name ← get host (codes "name") (str [])
    roles ← get host (codes "roles") (array [])
    listed ← iterate roles
    joined ← join_values (codes ",") listed
    ok (str (show E name ++ (b'=' ∷ joined)))

  unfoldable pub hostroles : Value → Option Text → Result Value
  unfolding decorator hostrole
  hostroles s seq = decorator hostrole s seq

  -- The entries of `host_networks`, from the n-th host on; the n-th `next()` of the netaddr iterator
  -- between two addresses returns or raises.
  unfoldable pub host_networks :
      (Value → Value → ℕ → Result Text) → Text → Value → Value → ℕ → List Value → Result (List Text)
  unfolding getitem show
  host_networks next_ip pxe_nic start end n [] = ok []
  host_networks next_ip pxe_nic start end n (host ∷ hosts) =
      let rest = host_networks next_ip pxe_nic start end (suc n) hosts in
      do
        host_name ← getitem host (codes "name")
        host_ip ← next_ip start end n
        more ← rest
        ok ((show E host_name ++ (b':' ∷ pxe_nic ++ (b'=' ∷ host_ip ++ codes "|is_mgmt"))) ∷ more)

-- The variables of the installation.
unfoldable pub install_network_env : Value → Value → Result (Dict Text Value)
unfolding getitem item_at iterate join_values prefix_of shift_of netmask
install_network_env mgmt_net network = do
  mgmt_gw ← getitem mgmt_net (codes "gw")
  mgmt_cidr ← getitem mgmt_net (codes "cidr")
  prefix ← prefix_of mgmt_cidr
  shift ← shift_of prefix
  dhcp_ranges ← getitem mgmt_net (codes "dhcp_ranges")
  dhcp_range ← item_at dhcp_ranges 0
  ends ← iterate dhcp_range
  dhcp_ip_range ← join_values (codes " ") ends
  vip ← getitem network (codes "internal_vip")
  internal_vip ← getitem vip (codes "ip")
  ok (
      (codes "INSTALL_GW", mgmt_gw)
      ∷ (codes "INSTALL_CIDR", mgmt_cidr)
      ∷ (codes "INSTALL_NETMASK", str (netmask shift))
      ∷ (codes "INSTALL_IP_RANGE", str dhcp_ip_range)
      ∷ (codes "VIP", internal_vip)
      ∷ [])

-- The only key and the only value of a plugin's dict, in the order of the hash table.
unfoldable pub plugin_text : (Dict Text Value → Dict Text Value) → Value → Result Value
unfolding join_values
plugin_text items (dict fs) = elim (items (entries fs)) [
  | [] ↦ err index_error
  | kv ∷ more ↦ do text ← join_values (codes ":") (str kv.0 ∷ kv.1 ∷ []); ok (str text)
]
plugin_text items v = err attribute_error

-- `','.join(plugin_list)` for the dicts under a key
unfoldable pub plugins_text : (Dict Text Value → Dict Text Value) → Value → Result Value
unfolding each plugin_text join_values iterate
plugins_text items v = do
  listed ← iterate v
  plugin_list ← each (plugin_text items) listed
  text ← join_values (codes ",") plugin_list
  ok (str text)

-- `if key in env: env.update({key: …})`
unfoldable pub set_plugins :
    (Dict Text Value → Dict Text Value) → Text → Dict Text Value → Result (Dict Text Value)
unfolding lookup insert plugins_text
set_plugins items key env = elim (lookup key env) [
  | none ↦ ok env
  | some v ↦ do text ← plugins_text items v; ok (insert key text env)
]

-- `if env.get('hosts', []): env.pop('hosts')`
unfoldable pub without_hosts : Dict Text Value → Dict Text Value
unfolding lookup keep text_eq
without_hosts env = elim (lookup (codes "hosts") env) [
  | none ↦ env
  | some v ↦ if truthy v then keep (λ (kv : Text × Value). not (kv.0 == codes "hosts")) env else env
]

-- What `env.update(dha)` copies.
unfoldable pub fields_of : Value → Result (Dict Text Value)
fields_of (dict fs) = ok (entries fs)
fields_of v = err type_error

-- `len(v)`, of a value that can be iterated
unfoldable pub len : Value → Result ℕ
unfolding iterate
len v = do vs ← iterate v; ok (length vs)

-- `env` of `export_dha_file`, before the machines.
unfoldable pub dha_env :
    Environment → (Dict Text Value → Dict Text Value) → Value → Result (Dict Text Value)
unfolding fields_of without_hosts set_plugins get insert hostnames hostroles
dha_env E items dha = do
  fields ← fields_of dha
  env ← set_plugins items (codes "plugins") (without_hosts fields)
  env ← set_plugins items (codes "cluster_param") env
  cluster_name ← get dha (codes "NAME") (str (codes "opnfv"))
  type_ ← get dha (codes "TYPE") (str (codes "virtual"))
  flavor ← get dha (codes "FLAVOR") (str (codes "cluster"))
  names ← hostnames dha (some (codes ","))
  roles ← hostroles E dha (some (codes ";"))
  ok (
      insert (codes "HOST_ROLES") roles (
        insert (codes "HOSTNAMES") names (
          insert (codes "FLAVOR") flavor
            (insert (codes "TYPE") type_ (insert (codes "CLUSTER_NAME") cluster_name env)))))
