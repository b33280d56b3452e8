-- ===== src/SetupNetwork/Tests.antt =====
-- Two hosts, one of which does not answer at its address for management, and the network of a host.
use compass4nfv.Base.{
  ◌≡◌, ◌⊎◌, refl, List, [], ◌∷◌, ◌++◌, Text, codes, text_eq, number_eq, ◌==◌, if◌then◌else◌,
}
use compass4nfv.Base.Dict.{Dict}
use compass4nfv.Result.{ok, err, system_exit}
use compass4nfv.Value.{Value, str, num, array, object, value_eq}
use compass4nfv.Value.Access.{getitem}
use compass4nfv.Effects.{Environment, Trace, command}
use compass4nfv.Effects.Sample.{sample}
use compass4nfv.Effects.Emits.{commands, concat_map}
use compass4nfv.Effects.Runs.{Each, done, next}
use compass4nfv.SetupNetwork.{named_items}
use compass4nfv.SetupNetwork.Check
use compass4nfv.SetupNetwork.Commands
use compass4nfv.SetupNetwork.Outcome.{
  Addresses, HasAddresses, checked, pinged, Reached, Stops, main-outcome,
}

abbrev settings : Text → Value
settings n = object (
    (
      codes "external",
      object (
          (codes "ip", str (codes "192.168.10." ++ n))
          ∷ (codes "gw", str (codes "192.168.10.1"))
          ∷ []),
    )
    ∷ (codes "mgmt", object ((codes "ip", str (codes "10.1.0." ++ n)) ∷ []))
    ∷ [])

abbrev hosts : Dict Text Value
hosts = (codes "host2", settings (codes "52")) ∷ (codes "host3", settings (codes "53")) ∷ []

abbrev of_host : Text → Addresses
of_host n = record {
  external = str (codes "192.168.10." ++ n);
  gateway = str (codes "192.168.10.1");
  mgmt = str (codes "10.1.0." ++ n);
}

abbrev addresses : List Addresses
addresses = of_host (codes "52") ∷ of_host (codes "53") ∷ []

-- Only 10.1.0.52 does not answer.
abbrev printed : Trace → List Text
unfolding text_eq
printed (command c ∷ t) =
    if c == codes "ping -c 2 10.1.0.52"
    then codes "2 packets transmitted, 0 received, 100% packet loss, time 1000ms" ∷ []
    else codes "2 packets transmitted, 2 received, 0% packet loss, time 1000ms" ∷ []
printed t = []

abbrev net : Environment
net = record sample { output = printed }

have_addresses : Each HasAddresses hosts addresses
unfolding getitem text_eq
have_addresses =
    next
      (record {
        external_net = object (
            (codes "ip", str (codes "192.168.10.52"))
            ∷ (codes "gw", str (codes "192.168.10.1"))
            ∷ []);
        mgmt_net = object ((codes "ip", str (codes "10.1.0.52")) ∷ []);
        has_external = refl;
        has_mgmt = refl;
        external_ip = refl;
        external_gw = refl;
        mgmt_ip = refl;
      })
      (next
        (record {
          external_net = object (
              (codes "ip", str (codes "192.168.10.53"))
              ∷ (codes "gw", str (codes "192.168.10.1"))
              ∷ []);
          mgmt_net = object ((codes "ip", str (codes "10.1.0.53")) ∷ []);
          has_external = refl;
          has_mgmt = refl;
          external_ip = refl;
          external_gw = refl;
          mgmt_ip = refl;
        })
        done)

main-outcome_example :
    ((Check.main net (object hosts) [] ≡ (ok tt, pinged net (concat_map checked addresses) []))
      × Reached net (concat_map checked addresses) [])
    ⊎ ((t' : Trace) × (Check.main net (object hosts) [] ≡ (err (system_exit 255), t'))
        × Stops net (concat_map checked addresses) [] t')
unfolding named_items
main-outcome_example = main-outcome net (object hosts) hosts addresses [] refl have_addresses

-- It exits after the ping that has failed.
stops_early :
    Check.script net
      (λ text. ok (if text == codes "host1" then str text else object hosts))
      (codes "check_network.py" ∷ codes "host1" ∷ codes "…" ∷ [])
      []
    ≡ (
      err (system_exit 255),
      command (codes "ping -c 2 10.1.0.52")
          ∷ command (codes "ping -c 2 192.168.10.1")
          ∷ command (codes "ping -c 2 192.168.10.52")
          ∷ [],
    )
unfolding Check.script text_eq number_eq
stops_early = refl

abbrev config : Value
config = object (
    (codes "bond_mappings", array [])
    ∷ (
      codes "provider_net_mappings",
      array (
          object (
            (codes "name", str (codes "br-external"))
            ∷ (codes "interface", str (codes "eth1"))
            ∷ [])
          ∷ []),
    )
    ∷ (
      codes "sys_intf_mappings",
      object (
          (
            codes "mgmt",
            object (
                (codes "type", str (codes "vlan"))
                ∷ (codes "interface", str (codes "eth1"))
                ∷ (codes "vlan_tag", num 101)
                ∷ []),
          )
          ∷ (
            codes "external",
            object (
                (codes "type", str (codes "ovs"))
                ∷ (codes "interface", str (codes "br-external"))
                ∷ []),
          )
          ∷ []),
    )
    ∷ (
      codes "ip_settings",
      object (
          (
            codes "external",
            object (
                (codes "name", str (codes "external"))
                ∷ (codes "cidr", str (codes "192.168.10.0/24"))
                ∷ (codes "ip", str (codes "192.168.10.50"))
                ∷ (codes "netmask", str (codes "24"))
                ∷ (codes "gw", str (codes "192.168.10.1"))
                ∷ []),
          )
          ∷ []),
    )
    ∷ [])

host_commands :
    commands (Commands.main sample (λ cidr. ok (codes "192.168.10.255")) config []).1
    ≡ codes
        "ip link add link eth1 name mgmt type vlan id 101; ip link set mgmt up; ip link set eth1 up"
      ∷ codes
          "ovs-vsctl --may-exist add-port br-external external -- set Interface external type=internal;ip link set dev external address         `ip link show eth1 |awk '/link\\/ether/{print $2}'`;ip link set external up;"
      ∷ codes
          "ip addr add 192.168.10.50/24 brd 192.168.10.255 dev external;route del default;ip route add default via 192.168.10.1 dev external"
      ∷ []
unfolding Commands.main commands text_eq value_eq
host_commands = refl
