-- ===== src/JumpHost/SetupVnic.antt =====
-- deploy/setup_vnic.py: the bridge port of the management network on the jump host.
use compass4nfv.Base.{[], ◌∷◌, ◌++◌, Text, codes, ◌==◌, get_elem?, if◌then◌else◌}
use compass4nfv.Result.{Result, err, or_raise, key_error, index_error, attribute_error}
use compass4nfv.Value.{Value, null, str, value_eq}
use compass4nfv.Value.Access.{truthy, getitem, item_at, get, iterate}
use compass4nfv.Text.{split}
use compass4nfv.Effects.{Environment, show, Trace, Action, pure, lift, for_each, ◌>>=◌, ◌>>◌}
use compass4nfv.JumpHost.{exec_cmd, load, with_values}

-- `cidr.split('/')[1]`
unfoldable pub mask_of : Value → Result Text
unfolding split
mask_of (str cidr) = or_raise (get_elem? (split b'/' cidr) 1) index_error
mask_of v = err attribute_error

module _ (E : Environment) where
  unfoldable pub tag_command : Value → Text
  unfolding show
  tag_command vlan_tag = codes "sudo ovs-vsctl set port mgmt_vnic tag=" ++ show E vlan_tag

  unfoldable pub add_command : Value → Text → Text
  unfolding with_values show
  add_command ip netmask =
      with_values (codes "sudo ip addr add " ∷ codes "/" ∷ codes " dev mgmt_vnic" ∷ [])
        (show E ip ∷ netmask ∷ [])

  unfoldable pub set_tag : Value → Action Trace (Unit {0})
  unfolding getitem get value_eq tag_command
  set_tag sys_intf = do
    name ← lift (getitem sys_intf (codes "name"))
    if name == str (codes "mgmt")
        then (do
          given ← lift (get sys_intf (codes "vlan_tag") null)
          if truthy given
              then (do
                vlan_tag ← lift (getitem sys_intf (codes "vlan_tag"))
                exec_cmd (tag_command vlan_tag))
              else pure tt)
        else pure tt

  unfoldable pub add_address : Value → Action Trace (Unit {0})
  unfolding getitem item_at value_eq mask_of add_command
  add_address net_info = do
    name ← lift (getitem net_info (codes "name"))
    if name == str (codes "mgmt")
        then (do
          ip_ranges ← lift (getitem net_info (codes "ip_ranges"))
          ip_range ← lift (item_at ip_ranges 0)
          mgmt_ip_range_end ← lift (item_at ip_range 1)
          cidr ← lift (getitem net_info (codes "cidr"))
          mgmt_netmask ← lift (mask_of cidr)
          exec_cmd (add_command mgmt_ip_range_end mgmt_netmask))
        else pure tt

  unfoldable pub main : Action Trace (Unit {0})
  unfolding getitem iterate for_each set_tag add_address
  main = do
    network_config_file ← lift (or_raise (E.getenv (codes "NETWORK")) key_error)
    network_config ← load E network_config_file
    exec_cmd (
        codes
          "sudo ovs-vsctl --may-exist add-port br-external mgmt_vnic -- set Interface mgmt_vnic type=internal")
    exec_cmd (codes "sudo ip addr flush mgmt_vnic")
    exec_cmd (codes "sudo ip link set mgmt_vnic up")
    mappings ← lift (getitem network_config (codes "sys_intf_mappings"))
    sys_intfs ← lift (iterate mappings)
    for_each set_tag sys_intfs
    settings ← lift (getitem network_config (codes "ip_settings"))
    net_infos ← lift (iterate settings)
    for_each add_address net_infos
