-- ===== src/ConfigParse/Export.antt =====
-- The exports of deploy/config_parse.py and its script.
use compass4nfv.Base.{
  ℕ, Bool, true, false, not, List, [], ◌∷◌, ◌++◌, none, Text, codes, text_eq, number_eq, ◌==◌,
  if◌then◌else◌,
}
use compass4nfv.Base.Dict.{Dict, insert}
use compass4nfv.Result.{
  Result, ok, err, or_raise, each, key_error, type_error, io_error, system_exit,
}
use compass4nfv.Value.{Value, null, str, value_eq, array, object, num}
use compass4nfv.Value.Access.{truthy, getitem, item_at, get, iterate}
use compass4nfv.Text.{join}
use compass4nfv.Text.Paths.{path_join}
use compass4nfv.Effects.{Environment, write, Action, pure, lift, raise, raise_if, ◌>>=◌, ◌>>◌}
use compass4nfv.ConfigParse.Shell.{World, happen, system, mac_generator, export_env_dict}
use compass4nfv.ConfigParse.{
  join_values, hostmachines, named, first_of, host_networks, install_network_env, len, dha_env,
}

-- A value that is a text.
unfoldable text_of : Value → Result Text
text_of (str s) = ok s
text_of v = err type_error

-- What the random numbers are.
module _ (choice : ℕ → ℕ) where
  -- A virtual machine for each host: its addresses, and the entries of the list of machines.
  unfoldable pub virtual_machines : List Value → Action World (List Text × List Value)
  unfolding mac_generator
  virtual_machines [] = pure ([], [])
  virtual_machines (host ∷ hosts) = do
    mac ← mac_generator choice
    (macs, machines) ← virtual_machines hosts
    pure (
      mac ∷ macs,
      object (
            (codes "mac", object ((codes "eth0", str mac) ∷ []))
            ∷ (codes "power_type", str (codes "libvirt"))
            ∷ [])
          ∷ machines,
    )

-- The order of the hash tables, the random numbers, the netaddr iterator and the templates of Cheetah.
module _ (E : Environment) (items : Dict Text Value → Dict Text Value) (choice : ℕ → ℕ)
    (next_ip : Value → Value → ℕ → Result Text) (render : Text → Value → Result Text) where
  unfoldable pub export_network_file : Value → Value → Text → Action World (Unit {0})
  unfolding getitem item_at iterate each join_values named first_of host_networks
      install_network_env export_env_dict
  export_network_file dha network output_path = do
    ip_settings ← lift (getitem network (codes "ip_settings"))
    settings ← lift (iterate ip_settings)
    mgmt_nets ← lift (named (codes "mgmt") settings)
    mgmt_net ← lift (first_of mgmt_nets)
    install_env ← lift (install_network_env mgmt_net network)
    export_env_dict E items install_env output_path false
    pxe_nic ← lift (or_raise (E.getenv (codes "PXE_NIC")) key_error)
    ip_ranges ← lift (getitem mgmt_net (codes "ip_ranges"))
    host_ip_range ← lift (item_at ip_ranges 0)
    start ← lift (item_at host_ip_range 0)
    end ← lift (item_at host_ip_range 1)
    listed ← lift (getitem dha (codes "hosts"))
    hosts ← lift (iterate listed)
    networks ← lift (host_networks E next_ip pxe_nic start end 0 hosts)
    cidrs ← lift (each (λ item. getitem item (codes "cidr")) settings)
    subnets ← lift (join_values (codes ",") cidrs)
    export_env_dict E items
        ((codes "NETWORK_MAPPING", str (codes "install=" ++ pxe_nic))
          ∷ (codes "HOST_NETWORKS", str (join (codes ";") networks))
          ∷ (codes "SUBNETS", str subnets)
          ∷ [])
        output_path true

  -- The machines, and `env` with their addresses.
  unfoldable pub machines_of : Value → Dict Text Value → Action World (List Value × Dict Text Value)
  unfolding get iterate insert join hostmachines virtual_machines value_eq text_eq
  machines_of dha env = do
    type_ ← lift (get dha (codes "TYPE") null)
    if type_ == str (codes "virtual")
        then (do
          listed ← lift (get dha (codes "hosts") null)
          hosts ← lift (iterate listed)
          (macs, machines) ← virtual_machines choice hosts
          pure (machines, insert (codes "HOST_MACS") (str (join (codes ",") macs)) env))
        else (do
          value ← lift (hostmachines dha none)
          machines ← lift (iterate value)
          pure (machines, env))

  -- The number of hosts, for virtual machines.
  unfoldable pub count_machines : Value → Dict Text Value → Action World (Dict Text Value)
  unfolding get getitem len insert value_eq text_eq
  count_machines dha env = do
    type_ ← lift (get dha (codes "TYPE") (str (codes "virtual")))
    if type_ == str (codes "virtual")
        then (do
          hosts ← lift (getitem dha (codes "hosts"))
          n ← lift (len hosts)
          pure (insert (codes "VIRT_NUMBER") (num n) env))
        else pure env

  unfoldable pub export_dha_file : Value → Text → Text → Action World (Unit {0})
  unfolding dha_env machines_of count_machines export_env_dict
  export_dha_file dha output_path machine_path = do
    env ← lift (dha_env E items dha)
    (machine, env) ← machines_of dha env
    happen (write machine_path (array machine))
    env ← count_machines dha env
    export_env_dict E items env output_path false

  -- `tmpl_file_name + '.tmpl'` needs a text.
  unfoldable pub export_reset_file : Value → Text → Text → Text → Action World (Unit {0})
  unfolding get path_join text_of export_env_dict
  export_reset_file dha tmpl_dir output_dir output_path = do
    tool ← lift (get dha (codes "POWER_TOOL") (str []))
    if not (truthy tool) then pure tt else (do
      tmpl_file_name ← lift (text_of tool)
      text ← lift (
          render (path_join (path_join tmpl_dir (codes "power")) (tmpl_file_name ++ codes ".tmpl"))
            dha)
      let reset_file_name = path_join output_dir (tmpl_file_name ++ codes ".sh")
      happen (write reset_file_name (str text))
      export_env_dict E items ((codes "POWER_MANAGE", str reset_file_name) ∷ []) output_path true)

  -- `os.path.exists(path)` now
  abbrev exists_now : Text → Action World Bool
  exists_now path w = (ok (E.exists w.trace path), w)

  -- `load_yaml(file)`; the names of the files are shown as the shell gets them.
  unfoldable pub main : List Text → Action World (Unit {0})
  unfolding path_join export_dha_file export_network_file export_reset_file
  main
        (program ∷ dha_file ∷ network_file ∷ tmpl_dir ∷ output_dir ∷ output_file ∷ machine_file
          ∷ []) =
      do
        there ← exists_now dha_file
        raise_if (not there) (system_exit 1)
        let output_path = path_join output_dir output_file
        let machine_path = path_join output_dir machine_file
        system (codes "touch " ++ output_path)
        system (codes "echo \\#config file deployment parameter > " ++ output_path)
        system (codes "touch " ++ machine_path)
        dha_data ← lift (or_raise (E.yaml dha_file) io_error)
        network_data ← lift (or_raise (E.yaml network_file) io_error)
        export_dha_file dha_data output_path machine_path
        export_network_file dha_data network_data output_path
        export_reset_file dha_data tmpl_dir output_dir output_path
        raise (system_exit 0)
  main argv = raise (system_exit 1)
