-- ===== src/SetupNetwork/Check.antt =====
-- check_network.py: can the other hosts of the cluster be reached?
use compass4nfv.Base.{
  Bool, true, false, not, List, [], ◌∷◌, ◌++◌, Text, codes, text_eq, ◌==◌, if◌then◌else◌,
}
use compass4nfv.Base.Dict.{Dict}
use compass4nfv.Result.{Result, ok, err, type_error, index_error, attribute_error, system_exit}
use compass4nfv.Value.{Value, str, list, dict, object, entries}
use compass4nfv.Value.Access.{getitem, hashable, is_infix}
use compass4nfv.Text.{join}
use compass4nfv.Effects.{Environment, show, Trace, command, Action, pure, lift, raise_if, ◌>>=◌}
use compass4nfv.SetupNetwork.{named_items}

-- `first and second`
abbrev pub and_then : Action Trace Bool → Action Trace Bool → Action Trace Bool
and_then first second = first >>= λ reached. if reached then second else pure false

module _ (E : Environment) where
  abbrev pub ping : Value → Text
  ping ip = codes "ping -c 2 " ++ show E ip

  -- Does the output of the newest command say that every packet was lost?
  unfoldable pub all_lost : Trace → Bool
  unfolding is_infix join
  all_lost t =
      let output = join [] (E.output t) in
      if is_infix (codes " 0% packet loss") output
      then false
      else is_infix (codes "100% packet loss") output

  unfoldable pub is_ip_reachable : Value → Action Trace Bool
  unfolding all_lost show
  is_ip_reachable ip t = (ok (not (all_lost (command (ping ip) ∷ t))), command (ping ip) ∷ t)

  unfoldable pub is_host_ips_reachable : Value → Action Trace Bool
  unfolding getitem is_ip_reachable
  is_host_ips_reachable settings = do
    external_net ← lift (getitem settings (codes "external"))
    external ← lift (getitem external_net (codes "ip"))
    gw_net ← lift (getitem settings (codes "external"))
    external_gw ← lift (getitem gw_net (codes "gw"))
    mgmt_net ← lift (getitem settings (codes "mgmt"))
    mgmt ← lift (getitem mgmt_net (codes "ip"))
    and_then (is_ip_reachable external)
        (and_then (is_ip_reachable external_gw) (is_ip_reachable mgmt))

  -- The loop over the hosts, with `result` so far.
  unfoldable pub all_reachable : Dict Text Value → Bool → Action Trace Bool
  unfolding is_host_ips_reachable
  all_reachable [] result = pure result
  all_reachable ((host, settings) ∷ more) result =
      (if result then is_host_ips_reachable settings else pure false) >>= λ reached.
      all_reachable more reached

  -- The name of the host is only logged; the exit status of `sys.exit(-1)` is 255.
  unfoldable pub main : Value → Action Trace (Unit {0})
  unfolding named_items all_reachable
  main config = do
    hosts ← lift (named_items config)
    result ← all_reachable hosts true
    raise_if (not result) (system_exit 255)

  -- The entries without this key.
  abbrev pub without : Text → Dict Text Value → Dict Text Value
  unfolding text_eq
  without k [] = []
  without k ((j, v) ∷ d) = let rest = without k d in if j == k then rest else (j, v) ∷ rest

  -- `config.pop(hostname, None)`; the keys of a dict are texts
  unfoldable pub pop_host : Value → Value → Result Value
  pop_host (str hostname) (dict fs) = ok (object (without hostname (entries fs)))
  pop_host hostname (dict fs) = if hashable hostname then ok (dict fs) else err type_error
  pop_host hostname (list vs) = err type_error
  pop_host hostname v = err attribute_error

  -- `sys.argv`; the arguments are read as yaml.
  unfoldable pub script : (Text → Result Value) → List Text → Action Trace (Unit {0})
  unfolding pop_host main
  script yaml_load (program ∷ first ∷ second ∷ more) = do
    hostname ← lift (yaml_load first)
    config ← lift (yaml_load second)
    others ← lift (pop_host hostname config)
    main others
  script yaml_load argv = lift (err index_error)
