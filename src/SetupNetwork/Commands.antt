-- ===== src/SetupNetwork/Commands.antt =====
-- setup_networks.py: the links, ports and addresses of a host. netaddr is a parameter: the broadcast
-- address of a network, as text, or the exception of `IPNetwork`.
use compass4nfv.Base.{List, [], ◌∷◌, ◌++◌, Text, codes, ◌==◌, if◌then◌else◌}
use compass4nfv.Base.Dict.{Dict, lookup, insert, values}
use compass4nfv.Result.{Result, ok, err, or_raise, key_error, type_error}
use compass4nfv.Value.{Value, null, str, dict, value_eq}
use compass4nfv.Value.Access.{truthy, getitem, get, is_in, iterate, hashable}
use compass4nfv.Effects.{Environment, show, Trace, Action, pure, lift, for_each, ◌>>=◌, ◌>>◌}
use compass4nfv.Effects.Emits.{run_command}
use compass4nfv.JumpHost.{load, with_values}
use compass4nfv.SetupNetwork.{named_items}

abbrev pub vlan_format : List Text
vlan_format =
    codes "ip link add link "
    ∷ codes " name "
    ∷ codes " type vlan id "
    ∷ codes "; ip link set "
    ∷ codes " up; ip link set "
    ∷ codes " up"
    ∷ []

-- The first part of the port's command, its tag, and the rest.
abbrev pub port_format : List Text
port_format = codes "ovs-vsctl --may-exist add-port " ∷ codes " " ∷ []

abbrev pub interface_format : List Text
interface_format =
    codes " -- set Interface "
    ∷ codes " type=internal;ip link set dev "
    ∷ codes " address         `ip link show "
    ∷ codes " |awk '/link\\/ether/{print $2}'`;ip link set "
    ∷ codes " up;"
    ∷ []

-- `d[k]` for a key `k` of any kind; the keys of a dict are texts.
unfoldable pub subscript : Value → Value → Result Value
unfolding getitem
subscript d (str k) = getitem d k
subscript (dict fs) k = if hashable k then err key_error else err type_error
subscript d k = err type_error

-- `uplink_map[k]` and `uplink_map[k] = v`
unfoldable pub uplink_of : Dict Value Value → Value → Result Value
unfolding lookup value_eq
uplink_of uplink_map k =
    if hashable k then or_raise (lookup k uplink_map) key_error else err type_error

unfoldable pub set_uplink : Value → Value → Dict Value Value → Result (Dict Value Value)
unfolding insert value_eq
set_uplink k v uplink_map = if hashable k then ok (insert k v uplink_map) else err type_error

-- The first loop of `main`.
unfoldable pub uplinks : List Value → Dict Value Value → Action Trace (Dict Value Value)
unfolding getitem set_uplink
uplinks [] uplink_map = pure uplink_map
uplinks (provider_net ∷ more) uplink_map = do
  interface ← lift (getitem provider_net (codes "interface"))
  name ← lift (getitem provider_net (codes "name"))
  longer ← lift (set_uplink name interface uplink_map)
  uplinks more longer

module _ (E : Environment) (ip_network : Value → Result Text) where
  unfoldable pub add_vlan_link : Text → Value → Value → Action Trace (Unit {0})
  unfolding with_values show
  add_vlan_link interface ifname vlan_id = run_command (
      with_values vlan_format
        (show E ifname ∷ interface ∷ show E vlan_id ∷ interface ∷ show E ifname ∷ []))

  unfoldable pub add_ovs_port : Value → Text → Value → Value → Action Trace (Unit {0})
  unfolding with_values show
  add_ovs_port ovs_br ifname uplink vlan_id =
      let port = with_values port_format (show E ovs_br ∷ ifname ∷ []) in
      let tag = if truthy vlan_id then codes " tag=" ++ show E vlan_id else [] in
      let interface =
        with_values interface_format (ifname ∷ ifname ∷ show E uplink ∷ ifname ∷ []) in
      run_command (port ++ (tag ++ interface))

  unfoldable pub setup_intf : Dict Value Value → Text × Value → Action Trace (Unit {0})
  unfolding getitem get value_eq uplink_of add_vlan_link add_ovs_port
  setup_intf uplink_map (intf_name, intf_info) = do
    kind ← lift (getitem intf_info (codes "type"))
    if kind == str (codes "vlan")
        then (do
          interface ← lift (getitem intf_info (codes "interface"))
          vlan_tag ← lift (getitem intf_info (codes "vlan_tag"))
          add_vlan_link intf_name interface vlan_tag)
        else if kind == str (codes "ovs")
        then (do
          interface ← lift (getitem intf_info (codes "interface"))
          uplink ← lift (uplink_of uplink_map interface)
          vlan_tag ← lift (get intf_info (codes "vlan_tag") null)
          add_ovs_port interface intf_name uplink vlan_tag)
        else pure tt

  unfoldable pub setup_intfs : Value → Dict Value Value → Action Trace (Unit {0})
  unfolding named_items for_each setup_intf
  setup_intfs sys_intf_mappings uplink_map = do
    intfs ← lift (named_items sys_intf_mappings)
    for_each (setup_intf uplink_map) intfs

  -- The device that an address goes to.
  unfoldable pub device : Value → Value → Action Trace Value
  unfolding getitem subscript value_eq
  device sys_intf_mappings intf_info = do
    name ← lift (getitem intf_info (codes "name"))
    intf ← lift (subscript sys_intf_mappings name)
    kind ← lift (getitem intf (codes "type"))
    if kind == str (codes "ovs")
        then lift (getitem intf_info (codes "name"))
        else lift (getitem intf_info (codes "alias"))

  -- The part of the command for the gateway.
  unfoldable pub route : Value → Value → Action Trace Text
  unfolding getitem is_in with_values show
  route intf_info intf_name = do
    has_gw ← lift (is_in (codes "gw") intf_info)
    if has_gw
        then (do
          gw ← lift (getitem intf_info (codes "gw"))
          pure (
              with_values (codes "route del default;ip route add default via " ∷ codes " dev " ∷ [])
                (show E gw ∷ show E intf_name ∷ [])))
        else pure []

  unfoldable pub setup_ip : Value → Value → Action Trace (Unit {0})
  unfolding getitem with_values show device route
  setup_ip sys_intf_mappings intf_info = do
    cidr ← lift (getitem intf_info (codes "cidr"))
    broadcast ← lift (ip_network cidr)
    intf_name ← device sys_intf_mappings intf_info
    ip ← lift (getitem intf_info (codes "ip"))
    netmask ← lift (getitem intf_info (codes "netmask"))
    way ← route intf_info intf_name
    run_command (
        with_values
          (codes "ip addr add " ∷ codes "/" ∷ codes " brd " ∷ codes " dev " ∷ codes ";" ∷ [])
          (show E ip ∷ show E netmask ∷ broadcast ∷ show E intf_name ∷ [])
        ++ way)

  unfoldable pub setup_ips : Value → Value → Action Trace (Unit {0})
  unfolding named_items for_each setup_ip
  setup_ips ip_settings sys_intf_mappings = do
    settings ← lift (named_items ip_settings)
    for_each (setup_ip sys_intf_mappings) (values settings)

  -- `setup_bondings` only prints the bonds.
  unfoldable pub main : Value → Action Trace (Unit {0})
  unfolding getitem iterate uplinks setup_intfs setup_ips
  main config = do
    bonds ← lift (getitem config (codes "bond_mappings"))
    listed ← lift (getitem config (codes "provider_net_mappings"))
    provider_nets ← lift (iterate listed)
    uplink_map ← uplinks provider_nets []
    sys_intf_mappings ← lift (getitem config (codes "sys_intf_mappings"))
    setup_intfs sys_intf_mappings uplink_map
    ip_settings ← lift (getitem config (codes "ip_settings"))
    intf_mappings ← lift (getitem config (codes "sys_intf_mappings"))
    setup_ips ip_settings intf_mappings

  -- The script, with the path of its network.cfg.
  unfoldable pub script : Text → Action Trace (Unit {0})
  unfolding main
  script config_path = do
    run_command (codes "service openvswitch-switch status|| service openvswitch-switch start")
    config ← load E config_path
    main config
