-- ===== src/Compass/OsConfig/Document.antt =====
-- The os config that `CompassClient.set_cluster_os_config` (deploy/client.py) builds from the options
-- and the hosts' addresses.
use compass4nfv.Base.{
  not, ◌&&◌, List, [], ◌∷◌, ◌++◌, map, none, some, Text, codes, text_eq, number_eq, if◌then◌else◌,
}
use compass4nfv.Base.Dict.{Dict, keys, lookup, insert}
use compass4nfv.Result.{
  Result, ok, or_raise, raise_if, exception, assertion_error, value_error, ◌>>=◌, ◌>>◌,
}
use compass4nfv.Value.{Value, int, str, array, object, value_eq}
use compass4nfv.Value.Access.{truthy}
use compass4nfv.Text.{split_once, strip, chop, parse_int}
use compass4nfv.Effects.{Environment}
use compass4nfv.Restful.{given}
use compass4nfv.Compass.Config.{Config}
use compass4nfv.Compass.Documents.{pieces}

-- A list of texts, and `a or b` on texts.
abbrev texts : List Text → Value
texts ss = array (map (λ s. str s) ss)

abbrev or_else : Text → Text → Text
or_else [] t = t
or_else (c ∷ s) t = c ∷ s

abbrev or_list : List Text → List Text → List Text
or_list [] ts = ts
or_list (s ∷ ss) ts = s ∷ ss

-- The hosts and their addresses, which bypass the proxy, in the order of the hash table.
unfoldable pub bypassing : Dict Value (List Text) → List Value → List Value
unfolding lookup value_eq
bypassing host_ips [] = []
bypassing host_ips (h ∷ hs) =
    h
    ∷ (elim (lookup h host_ips) [ none ↦ [] | some ips ↦ map (λ ip. str ip) ips ]
        ++ bypassing host_ips hs)

-- One entry of the option `partitions`: `<name>=<size>` or `<name>=<n>%`.
unfoldable pub partition_of : Text → Result (Text × Value)
unfolding split_once strip chop parse_int
partition_of partition = do
  (name, value) ← or_raise (split_once b'=' partition) assertion_error
  let name' = strip name
  let value' = strip value
  raise_if (not (truthy (str name') && truthy (str value'))) assertion_error
  percentage ← elim (chop b'%' value') [
    | none ↦ ok (object ((codes "size", str value') ∷ []))
    | some digits ↦ do
      n ← or_raise (parse_int digits) value_error
      ok (object ((codes "percentage", int n) ∷ []))
  ]
  ok (name', percentage)

unfoldable pub partitions_of : List Text → Dict Text Value → Result (Dict Text Value)
unfolding partition_of insert text_eq
partitions_of [] config = ok config
partitions_of (p ∷ ps) config = do
  (name, value) ← partition_of p
  partitions_of ps (insert name value config)

abbrev pub credentials : Text → Text → Value
credentials username password =
    object ((codes "username", str username) ∷ (codes "password", str password) ∷ [])

-- `<username>=<password>`, one word for both, or root.
unfoldable pub server_credentials : Text → Value
unfolding split_once
server_credentials credential = elim (split_once b'=' credential) [
  | some (username, password) ↦ credentials username password
  | none ↦
      if truthy (str credential)
      then credentials credential credential
      else credentials (codes "root") (codes "root")
]

module _ (E : Environment) (conf : Config) where
  abbrev no_proxy : Dict Value (List Text) → List Value
  unfolding pieces bypassing
  no_proxy host_ips =
      map (λ s. str s) (pieces b',' conf.no_proxy)
      ++ (if truthy (str conf.http_proxy) then bypassing host_ips (E.order (keys host_ips)) else [])

  -- The entries that are left out when they are empty.
  unfoldable pub general_config : Dict Value (List Text) → Value
  unfolding given pieces bypassing
  general_config host_ips = object (
      given
        ((codes "http_proxy", str conf.http_proxy)
          ∷ (codes "https_proxy", str (or_else conf.https_proxy conf.http_proxy))
          ∷ (codes "no_proxy", array (no_proxy host_ips))
          ∷ (codes "domain", str conf.domain)
          ∷ (codes "search_path", texts (or_list (pieces b',' conf.search_path) (conf.domain ∷ [])))
          ∷ (codes "local_repo", str conf.local_repo_url)
          ∷ (codes "repo_name", str conf.repo_name)
          ∷ (codes "deploy_type", str conf.deploy_type)
          ∷ [])
        ((codes "language", str conf.language)
          ∷ (codes "timezone", str conf.timezone)
          ∷ (codes "ntp_server", str (or_else conf.ntp_server conf.compass_server))
          ∷ (
            codes "dns_servers",
            texts (or_list (pieces b',' conf.dns_servers) (conf.compass_server ∷ [])),
          )
          ∷ (codes "default_gateway", str conf.default_gateway)
          ∷ []))

  unfoldable pub os_config_of : Dict Value (List Text) → Result Value
  unfolding pieces general_config server_credentials partitions_of
  os_config_of host_ips = do
    raise_if (not (truthy (str conf.domain))) (exception (codes "domain is not defined"))
    raise_if (not (truthy (str conf.default_gateway)))
        (exception (codes "default gateway is not defined"))
    partition_config ← partitions_of (pieces b',' conf.partitions) []
    ok (
        object (
          (codes "general", general_config host_ips)
          ∷ (codes "server_credentials", server_credentials conf.server_credential)
          ∷ (codes "partition", object partition_config)
          ∷ []))
