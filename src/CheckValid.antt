-- ===== src/CheckValid.antt =====
-- util/check_valid.py: the checks of the two configuration files. `err_print` appends a message, its
-- format and the values that stand in it; the state is what has been printed.
pub mod Found
pub mod Address
pub mod Mac
pub mod Checks
pub mod Settings
pub mod Accepted
pub mod Dha
pub mod Files
mod Tests
use compass4nfv.Base.{
  ℕ, Bool, true, false, not, ◌&&◌, ◌||◌, List, [], ◌∷◌, ◌++◌, Text, codes, text_eq, ◌==◌, contains,
  length, ltb, eqb, if◌then◌else◌,
}
use compass4nfv.Base.Dict.{keys}
use compass4nfv.Result.{Result, ok, err, type_error, attribute_error, system_exit}
use compass4nfv.Value.{Value, null, bool, int, str, list, dict, value_eq, entries}
use compass4nfv.Value.Access.{truthy, getitem, item_at, get, iterate}
use compass4nfv.Effects.{Action, pure, lift, modify, raise, raise_if, ◌>>=◌, ◌>>◌}
use compass4nfv.Regex.{Regex, one, seq, alt, maybe, times, char, range, digit, search}

-- The regular expression of `is_valid_ip`, in parts. The octets from 100 on:
abbrev pub high : Regex
high = alt (seq (char b'1') (seq digit digit)) (
    alt (seq (char b'2') (seq (range b'0' b'4') digit))
      (seq (char b'2') (seq (char b'5') (range b'0' b'5'))))

-- `\d{1,2}`
abbrev pub low : Regex
low = seq digit (maybe digit)

abbrev pub first_octet : Regex
first_octet = alt (seq (maybe (char b'0')) low) high

abbrev pub octet : Regex
octet = alt low high

abbrev pub prefix : Regex
prefix = alt digit (alt (seq (range b'1' b'2') digit) (seq (char b'3') (range b'0' b'2')))

abbrev pub ip_pattern : Regex
ip_pattern =
    seq first_octet (seq (times 3 (seq (char b'.') octet)) (maybe (seq (char b'/') prefix)))

-- `[a-zA-Z0-9]{2}`
abbrev pub pair : Regex
pair = times 2 (alt (range b'a' b'z') (alt (range b'A' b'Z') (range b'0' b'9')))

abbrev pub mac_pattern : Regex
mac_pattern = seq (times 5 (seq pair (char b':'))) pair

-- `re.search` refuses what is no text.
unfoldable pub searched : Regex → Value → Result Bool
unfolding search
searched pattern (str s) = ok (search pattern s)
searched pattern v = err type_error

unfoldable pub is_valid_ip : Value → Result Bool
unfolding searched
is_valid_ip ip = if not (truthy ip) then ok false else searched ip_pattern ip

unfoldable pub is_valid_mac : Value → Result Bool
unfolding searched
is_valid_mac mac = if not (truthy mac) then ok false else searched mac_pattern mac

abbrev pub Message : Type 0
Message = Text × List Value

-- What has been printed, the newest message first.
abbrev pub Printed : Type 0
Printed = List Message

unfoldable pub err_print : Text → List Value → Action Printed (Unit {0})
err_print info values = modify (λ printed. (info, values) ∷ printed)

-- `for x in xs: if body(x): invalid = True`, as each body says whether it has found a fault
unfoldable pub any_invalid : {A : Type 0} → (A → Action Printed Bool) → List A → Action Printed Bool
any_invalid body [] = pure false
any_invalid body (x ∷ xs) = do found ← body x; later ← any_invalid body xs; pure (found || later)

-- One address of a setting: if it is bad, a message with the setting's name, and `invalid = True`.
unfoldable pub check_address : Value → Text → Value → Action Printed Bool
unfolding is_valid_ip err_print
check_address i info address = do
  valid ← lift (is_valid_ip address)
  if valid then pure false else (do
    name ← lift (getitem i (codes "name"))
    err_print info (name ∷ address ∷ [])
    pure true)

-- The gateway of the external network.
unfoldable pub check_gateway : Value → Action Printed Bool
unfolding is_valid_ip err_print value_eq text_eq getitem
check_gateway i = do
  name ← lift (getitem i (codes "name"))
  if name == str (codes "external")
      then (do
        gw ← lift (getitem i (codes "gw"))
        valid ← lift (is_valid_ip gw)
        if valid then pure false else (do
          err_print (codes "%s") (gw ∷ [])
          err_print (codes "ip_settings: name: %s gw: %s") (name ∷ gw ∷ [])
          pure true))
      else pure false

-- One of `ip_settings`.
unfoldable pub check_setting : Value → Action Printed Bool
unfolding check_address check_gateway item_at getitem
check_setting i = do
  cidr ← lift (getitem i (codes "cidr"))
  bad_cidr ← check_address i (codes "ip_settings: name: %s cidr: %s") cidr
  ranges ← lift (getitem i (codes "ip_ranges"))
  range ← lift (item_at ranges 0)
  start ← lift (item_at range 0)
  bad_start ← check_address i (codes "ip_settings: name: %s ip_ranges: - - %s") start
  end ← lift (item_at range 1)
  bad_end ← check_address i (codes "ip_settings: name: %s ip_ranges: - %s") end
  bad_gw ← check_gateway i
  pure (bad_cidr || (bad_start || (bad_end || bad_gw)))

abbrev pub address_keys : List Text
address_keys =
    codes "external_gw"
    ∷ codes "floating_ip_cidr"
    ∷ codes "floating_ip_start"
    ∷ codes "floating_ip_end"
    ∷ []

-- One entry of `public_net_info`.
unfoldable pub check_public : Text × Value → Action Printed Bool
unfolding is_valid_ip err_print
check_public (i, address) =
    if contains i address_keys
    then (do
      valid ← lift (is_valid_ip address)
      if valid
          then pure false
          else (do err_print (codes "public_net_info: %s: %s") (str i ∷ address ∷ []); pure true))
    else pure false

-- The entries of a dict, whose keys `keys()` lists.
unfoldable pub items_of : Value → Result (List (Text × Value))
items_of (dict fs) = ok (entries fs)
items_of v = err attribute_error

-- The two loops: is `invalid` True after them?
unfoldable pub check_settings : Value → Action Printed Bool
unfolding any_invalid check_setting check_public items_of iterate getitem
check_settings network = do
  ip_settings ← lift (getitem network (codes "ip_settings"))
  settings ← lift (iterate ip_settings)
  bad_settings ← any_invalid check_setting settings
  public_net_info ← lift (getitem network (codes "public_net_info"))
  items ← lift (items_of public_net_info)
  bad_public ← any_invalid check_public items
  pure (bad_settings || bad_public)

unfoldable pub check_network_file : Value → Action Printed Bool
unfolding check_settings
check_network_file network = do invalid ← check_settings network; pure (not invalid)

-- `i['interfaces'].get(j)`. A dict yields texts, and nothing else has the method.
unfoldable pub interface_mac : Value → Value → Result Value
unfolding get
interface_mac interfaces (str j) = get interfaces j null
interface_mac interfaces j = err attribute_error

-- One interface of the host `i`.
unfoldable pub check_interface : Value → Value → Value → Action Printed Bool
unfolding is_valid_mac err_print interface_mac getitem
check_interface i interfaces j = do
  mac ← lift (interface_mac interfaces j)
  valid ← lift (is_valid_mac mac)
  if valid then pure false else (do
    name ← lift (getitem i (codes "name"))
    err_print (codes "hosts: - name: %s interfaces: - %s: %s") (name ∷ j ∷ mac ∷ [])
    pure true)

unfoldable pub check_host : Value → Action Printed Bool
unfolding any_invalid check_interface check_address iterate getitem
check_host i = do
  interfaces ← lift (getitem i (codes "interfaces"))
  names ← lift (iterate interfaces)
  bad_macs ← any_invalid (check_interface i interfaces) names
  power_ip ← lift (getitem i (codes "power_ip"))
  bad_power ← check_address i (codes "hosts: - name: %s power_ip: %s") power_ip
  pure (bad_macs || bad_power)

-- Is `invalid` True after the loop, if there is one?
unfoldable pub check_hosts : Value → Action Printed Bool
unfolding any_invalid check_host iterate getitem value_eq text_eq
check_hosts dha = do
  type_ ← lift (getitem dha (codes "TYPE"))
  if type_ == str (codes "baremetal")
      then (do
        listed ← lift (getitem dha (codes "hosts"))
        hosts ← lift (iterate listed)
        any_invalid check_host hosts)
      else pure false

unfoldable pub check_dha_file : Value → Action Printed Bool
unfolding check_hosts
check_dha_file dha = do invalid ← check_hosts dha; pure (not invalid)

-- Files and yaml: the text of a file, and what `yaml.safe_load` makes of it.
module _ (exists : Text → Bool) (read : Text → Result Text) (safe_load : Text → Result Value) where
  -- Whatever `safe_load` raises is caught, and its traceback goes to the other output.
  unfoldable pub load_file : Text → Result Value
  load_file file = elim (read file) [
    | err e ↦ err e
    | ok text ↦ elim (safe_load text) [ ok v ↦ ok v | err e ↦ ok null ]
  ]

  -- One of the two files: its name in the messages, and its check.
  unfoldable pub check_file : Text → (Value → Action Printed Bool) → Text → Action Printed Bool
  unfolding err_print load_file
  check_file kind check file =
      if not (exists file)
      then (do err_print (kind ++ codes " file doesn't exist") []; raise (system_exit 1))
      else (do
        data_ ← lift (load_file file)
        if not (truthy data_)
            then (do
              err_print (codes "format error in " ++ (kind ++ codes ": %s")) (str file ∷ [])
              pure true)
            else (do
              valid ← check data_
              if valid then pure false else (do
                err_print (codes "in " ++ (kind ++ codes ": %s")) (str file ∷ [])
                pure true)))

  unfoldable pub main : List Text → Action Printed (Unit {0})
  unfolding check_file check_dha_file check_network_file err_print
  main (program ∷ dha_file ∷ network_file ∷ []) = do
    bad_dha ← check_file (codes "DHA") check_dha_file dha_file
    bad_network ← check_file (codes "NETWORK") check_network_file network_file
    raise_if (bad_dha || bad_network) (system_exit 1)
  main argv = do err_print (codes "input file error") []; raise (system_exit 1)
