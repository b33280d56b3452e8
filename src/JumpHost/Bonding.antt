-- ===== src/JumpHost/Bonding.antt =====
-- deploy/bonding.py: cobbler is told of the bonds of each host.
use compass4nfv.Base.{List, [], ◌∷◌, ◌++◌, Text, codes, if◌then◌else◌}
use compass4nfv.Result.{Result, err, assertion_error}
use compass4nfv.Value.{Value, null}
use compass4nfv.Value.Access.{truthy, getitem, get, iterate}
use compass4nfv.Effects.{Environment, show, Trace, Action, pure, lift, for_each, ◌>>=◌, ◌>>◌}
use compass4nfv.JumpHost.{exec_cmd, load, with_values}

-- The connection that both commands start with; the lines of the source are joined with their blanks.
abbrev pub ssh : Text
ssh = codes "ssh -o StrictHostKeyChecking=no -o UserKnownHostsFile=/dev/null "

abbrev pub slave_format : List Text
slave_format =
    (ssh ++ codes "                              -i ")
    ∷ codes " root@"
    ∷ codes "                               'cobbler system edit --name="
    ∷ codes " --interface="
    ∷ codes " --interface-type=bond_slave --interface-master="
    ∷ codes "'"
    ∷ []

abbrev pub bond_format : List Text
bond_format =
    (ssh ++ codes "                          -i ")
    ∷ codes " root@"
    ∷ codes "                           'cobbler system edit --name="
    ∷ codes " --interface="
    ∷ codes " --interface-type=bond --bonding-opts=\"miimon="
    ∷ codes " mode="
    ∷ codes " lacp_rate="
    ∷ codes " xmit_hash_policy="
    ∷ codes " mtu="
    ∷ codes "\"'"
    ∷ []

module _ (E : Environment) (rsa_file compass_ip : Text) where
  unfoldable pub slave_command : Value → Value → Value → Text
  unfolding with_values show
  slave_command host interface bond_name =
      with_values slave_format
        (rsa_file ∷ compass_ip ∷ show E host ∷ show E interface ∷ show E bond_name ∷ [])

  -- The options of a bond: miimon, mode, rate, policy and mtu.
  unfoldable pub bond_command : Value → Value → List Text → Text
  unfolding with_values show
  bond_command host bond_name options =
      with_values bond_format (rsa_file ∷ compass_ip ∷ show E host ∷ show E bond_name ∷ options)

  -- One host: the interfaces, and then the bond.
  unfoldable pub bond_host : Value → List Value → List Text → Value → Action Trace (Unit {0})
  unfolding for_each slave_command bond_command
  bond_host bond_name interfaces options host = do
    for_each (λ interface. exec_cmd (slave_command host interface bond_name)) interfaces
    exec_cmd (bond_command host bond_name options)

  unfoldable pub create_bond : Value → Action Trace (Unit {0})
  unfolding getitem get iterate for_each bond_host show
  create_bond bond = do
    bond_name ← lift (getitem bond (codes "name"))
    host_name ← lift (get bond (codes "host") null)
    interfaces ← lift (get bond (codes "bond-slaves") null)
    bond_mode ← lift (getitem bond (codes "bond-mode"))
    bond_miimon ← lift (getitem bond (codes "bond-miimon"))
    lacp_rate ← lift (getitem bond (codes "bond-lacp_rate"))
    xmit_hash_policy ← lift (getitem bond (codes "bond-xmit_hash_policy"))
    bond_mtu ← lift (getitem bond (codes "mtu"))
    if truthy interfaces
        then (do
          hosts ← lift (iterate host_name)
          slaves ← lift (if truthy host_name then iterate interfaces else Result.ok [])
          for_each
              (bond_host bond_name slaves (
                show E bond_miimon
                ∷ show E bond_mode
                ∷ show E lacp_rate
                ∷ show E xmit_hash_policy
                ∷ show E bond_mtu
                ∷ []))
              hosts)
        else pure tt

  unfoldable pub create_bonding : Value → Action Trace (Unit {0})
  unfolding getitem iterate for_each create_bond
  create_bonding network_info = do
    listed ← lift (getitem network_info (codes "bond_mappings"))
    bonds ← lift (iterate listed)
    for_each create_bond bonds

-- `sys.argv`
unfoldable pub main : Environment → List Text → Action Trace (Unit {0})
unfolding create_bonding
main E (program ∷ network ∷ rsa_file ∷ compass_ip ∷ []) = do
  network_info ← load E network
  create_bonding E rsa_file compass_ip network_info
main E argv = lift (err assertion_error)
