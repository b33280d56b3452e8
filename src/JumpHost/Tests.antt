-- ===== src/JumpHost/Tests.antt =====
-- A deployment with a controller and a compute host, for deploy/reset_compute.py, deploy/rename_nics.py,
-- deploy/bonding.py and deploy/setup_vnic.py.
use compass4nfv.Base.{
  ◌≡◌, refl, Bool, true, false, List, [], ◌∷◌, some, Text, codes, text_eq, number_eq,
}
use compass4nfv.Result.{ok}
use compass4nfv.Value.{Value, str, num, array, object, value_eq}
use compass4nfv.Value.Access.{getitem, get, is_in, iterate}
use compass4nfv.Effects.{Environment}
use compass4nfv.Effects.Sample.{sample}
use compass4nfv.Effects.Emits.{commands, concat_map}
use compass4nfv.Effects.Runs.{ran, Each, done, next}
use compass4nfv.JumpHost.ResetCompute.{main}
use compass4nfv.JumpHost.RenameNics.{rename_nics, sync_command}
use compass4nfv.JumpHost.SetupVnic
use compass4nfv.JumpHost.Bonding.{create_bonding}
use compass4nfv.JumpHost.Resets.{Host, baremetal, word, IsDha, IsHost, resets, main-resets}

abbrev machine : Text → Text → Value
machine name role = object (
    (codes "name", str name)
    ∷ (codes "ipmiIp", str (codes "10.0.0.5"))
    ∷ (codes "roles", array (str role ∷ []))
    ∷ (codes "interfaces", array (object ((codes "eth0", str (codes "00:11")) ∷ []) ∷ []))
    ∷ [])

abbrev controller : Value
controller = machine (codes "host1") (codes "controller")

abbrev worker : Value
worker = machine (codes "host2") (codes "compute")

abbrev dha_file : Value
dha_file = object (
    (codes "ipmiPass", str (codes "secret"))
    ∷ (codes "hosts", array (controller ∷ worker ∷ []))
    ∷ [])

abbrev on_disk : Environment
on_disk = record sample { yaml = λ path. some dha_file }

abbrev user : Value
user = str (codes "root")

abbrev pass : Value
pass = str (codes "secret")

abbrev described : Text → Bool → Host
described name is_compute = record {
  is_compute = is_compute;
  name = str name;
  ip = str (codes "10.0.0.5");
  user = user;
  pass = pass;
}

abbrev hosts : List Host
hosts = described (codes "host1") false ∷ described (codes "host2") true ∷ []

on_disk-IsDha : IsDha on_disk (codes "dha.yml") (controller ∷ worker ∷ []) user pass
unfolding get iterate text_eq
on_disk-IsDha = record {
  document = dha_file;
  listed = array (controller ∷ worker ∷ []);
  parsed = refl;
  has_user = refl;
  has_pass = refl;
  has_hosts = refl;
  are_hosts = refl;
}

are_described : Each (IsHost baremetal user pass) (controller ∷ worker ∷ []) hosts
unfolding getitem get is_in text_eq value_eq
are_described =
    next
      (record {
        roles = array (str (codes "controller") ∷ []);
        has_roles = refl;
        knows_role = refl;
        has_ip = λ c. refl;
        user_given = refl;
        pass_given = refl;
      })
      (next
        (record {
          roles = array (str (codes "compute") ∷ []);
          has_roles = refl;
          knows_role = refl;
          has_ip = λ c. refl;
          user_given = refl;
          pass_given = refl;
        })
        done)

main-resets_example :
    main on_disk (word baremetal ∷ codes "dha.yml" ∷ []) []
    ≡ (ok tt, ran (concat_map (resets on_disk baremetal) hosts) [])
main-resets_example =
    main-resets on_disk baremetal (codes "dha.yml") [] (controller ∷ worker ∷ []) user pass hosts []
      on_disk-IsDha are_described

reset_commands :
    commands (main on_disk (word baremetal ∷ codes "dha.yml" ∷ []) []).1
    ≡ codes "ipmitool -I lanplus -H 10.0.0.5 -U root -P secret chassis power reset >/dev/null" ∷ []
unfolding main commands text_eq value_eq
reset_commands = refl

nic_commands :
    commands (rename_nics on_disk dha_file []).1
    ≡ codes
        "sudo docker exec compass-cobbler bash -c                          'cobbler system edit --name=host1 --interface=eth0 --mac=00:11 --static=1'"
      ∷ codes
          "sudo docker exec compass-cobbler bash -c                          'cobbler system edit --name=host2 --interface=eth0 --mac=00:11 --static=1'"
      ∷ sync_command
      ∷ []
unfolding rename_nics commands text_eq
nic_commands = refl

abbrev network : Value
network = object (
    (
      codes "sys_intf_mappings",
      array (object ((codes "name", str (codes "mgmt")) ∷ (codes "vlan_tag", num 101) ∷ []) ∷ []),
    )
    ∷ (
      codes "ip_settings",
      array (
          object (
            (codes "name", str (codes "mgmt"))
            ∷ (codes "cidr", str (codes "10.1.0.0/24"))
            ∷ (
              codes "ip_ranges",
              array (array (str (codes "10.1.0.50") ∷ str (codes "10.1.0.100") ∷ []) ∷ []),
            )
            ∷ [])
          ∷ []),
    )
    ∷ [])

vnic_commands :
    commands
      (SetupVnic.main
        (record sample { yaml = λ path. some network; getenv = λ name. some (codes "network.yml") })
        []).1
    ≡ codes
        "sudo ovs-vsctl --may-exist add-port br-external mgmt_vnic -- set Interface mgmt_vnic type=internal"
      ∷ codes "sudo ip addr flush mgmt_vnic"
      ∷ codes "sudo ip link set mgmt_vnic up"
      ∷ codes "sudo ovs-vsctl set port mgmt_vnic tag=101"
      ∷ codes "sudo ip addr add 10.1.0.100/24 dev mgmt_vnic"
      ∷ []
unfolding SetupVnic.main commands text_eq value_eq
vnic_commands = refl

-- A bond without interfaces is left alone.
no_slaves :
    create_bonding sample [] []
      (object (
        (
          codes "bond_mappings",
          array (
              object (
                (codes "name", str (codes "bond0"))
                ∷ (codes "bond-mode", num 4)
                ∷ (codes "bond-miimon", num 100)
                ∷ (codes "bond-lacp_rate", str (codes "fast"))
                ∷ (codes "bond-xmit_hash_policy", str (codes "layer2"))
                ∷ (codes "mtu", num 9000)
                ∷ [])
              ∷ []),
        )
        ∷ []))
      []
    ≡ (ok tt, [])
unfolding create_bonding text_eq
no_slaves = refl
