-- ===== src/JumpHost/RenameNics.antt =====
-- deploy/rename_nics.py: cobbler is told the addresses of each host's interfaces.
use compass4nfv.Base.{List, [], ◌∷◌, Text, codes, if◌then◌else◌}
use compass4nfv.Result.{Result, ok, err, index_error, attribute_error, assertion_error}
use compass4nfv.Value.{Value, null, dict, entries}
use compass4nfv.Value.Access.{truthy, getitem, get, iterate}
use compass4nfv.Effects.{Environment, show, Trace, Action, pure, lift, for_each, ◌>>=◌, ◌>>◌}
use compass4nfv.JumpHost.{exec_cmd, load, with_values}

abbrev pub edit_format : List Text
edit_format =
    codes
      "sudo docker exec compass-cobbler bash -c                          'cobbler system edit --name="
    ∷ codes " --interface="
    ∷ codes " --mac="
    ∷ codes " --static=1'"
    ∷ []

abbrev pub sync_command : Text
sync_command = codes "sudo docker exec compass-cobbler bash -c              'cobbler sync'"

-- `(d.keys()[0], d.values()[0])`
unfoldable pub first_entry : Value → Result (Text × Value)
first_entry (dict fs) = elim (entries fs) [ [] ↦ err index_error | kv ∷ more ↦ ok kv ]
first_entry v = err attribute_error

module _ (E : Environment) where
  unfoldable pub edit_command : Value → Text → Value → Text
  unfolding with_values show
  edit_command host_name nic_name mac =
      with_values edit_format (show E host_name ∷ nic_name ∷ show E mac ∷ [])

  unfoldable pub rename_nic : Value → Value → Action Trace (Unit {0})
  unfolding first_entry edit_command
  rename_nic host_name interface = do
    (nic_name, mac) ← lift (first_entry interface)
    exec_cmd (edit_command host_name nic_name mac)

  unfoldable pub rename_host : Value → Action Trace (Unit {0})
  unfolding getitem get iterate for_each rename_nic
  rename_host host = do
    host_name ← lift (getitem host (codes "name"))
    interfaces ← lift (get host (codes "interfaces") null)
    if truthy interfaces
        then (do listed ← lift (iterate interfaces); for_each (rename_nic host_name) listed)
        else pure tt

  -- The key file, the address and the version of the OS are not used.
  unfoldable pub rename_nics : Value → Action Trace (Unit {0})
  unfolding getitem iterate for_each rename_host
  rename_nics dha_info = do
    listed ← lift (getitem dha_info (codes "hosts"))
    hosts ← lift (iterate listed)
    for_each rename_host hosts
    exec_cmd sync_command

  -- `sys.argv`
  unfoldable pub main : List Text → Action Trace (Unit {0})
  unfolding rename_nics
  main (program ∷ dha ∷ rsa_file ∷ compass_ip ∷ os_version ∷ []) = do
    dha_info ← load E dha
    rename_nics dha_info
  main argv = lift (err assertion_error)
