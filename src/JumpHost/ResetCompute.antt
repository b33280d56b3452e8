-- ===== src/JumpHost/ResetCompute.antt =====
-- deploy/reset_compute.py: the compute hosts of a DHA file are switched off and on.
use compass4nfv.Base.{List, [], ◌∷◌, ◌++◌, Text, codes, text_eq, ◌==◌, if◌then◌else◌}
use compass4nfv.Result.{err, index_error}
use compass4nfv.Value.{Value, str, array}
use compass4nfv.Value.Access.{getitem, get, is_in, iterate}
use compass4nfv.Effects.{Environment, show, Trace, Action, pure, lift, for_each, ◌>>=◌, ◌>>◌}
use compass4nfv.JumpHost.{exec_cmd, load}

-- The commands, with the values that are put into them.
abbrev pub power_reset : Text → Text → Text → Text
power_reset ip user pass =
    codes "ipmitool -I lanplus -H "
    ++ (ip
        ++ (codes " -U "
            ++ (user ++ (codes " -P " ++ (pass ++ codes " chassis power reset >/dev/null")))))

abbrev pub virsh_destroy : Text → Text
virsh_destroy name = codes "virsh destroy " ++ name

abbrev pub virsh_start : Text → Text
virsh_start name = codes "virsh start " ++ name

module _ (E : Environment) where
  -- The bodies of the two loops.
  unfoldable pub reset_by_ipmi : Value → Value → Value → Action Trace (Unit {0})
  unfolding getitem is_in get show
  reset_by_ipmi user_default pass_default host = do
    roles ← lift (getitem host (codes "roles"))
    is_compute ← lift (is_in (codes "compute") roles)
    if is_compute
        then (do
          user ← lift (get host (codes "ipmiUser") user_default)
          pass ← lift (get host (codes "ipmiPass") pass_default)
          ip ← lift (getitem host (codes "ipmiIp"))
          exec_cmd (power_reset (show E ip) (show E user) (show E pass)))
        else pure tt

  unfoldable pub restart_host : Value → Action Trace (Unit {0})
  unfolding getitem is_in show
  restart_host host = do
    roles ← lift (getitem host (codes "roles"))
    is_compute ← lift (is_in (codes "compute") roles)
    if is_compute
        then (do
          name ← lift (getitem host (codes "name"))
          exec_cmd (virsh_destroy (show E name))
          exec_cmd (virsh_start (show E name)))
        else pure tt

  unfoldable pub reset_baremetal : Text → Action Trace (Unit {0})
  unfolding get iterate for_each reset_by_ipmi
  reset_baremetal dha_info = do
    hosts_info ← load E dha_info
    user_default ← lift (get hosts_info (codes "ipmiUser") (str (codes "root")))
    pass_default ← lift (get hosts_info (codes "ipmiPass") (str (codes "Huawei@123")))
    listed ← lift (get hosts_info (codes "hosts") (array []))
    hosts ← lift (iterate listed)
    for_each (reset_by_ipmi user_default pass_default) hosts

  unfoldable pub reset_virtual : Text → Action Trace (Unit {0})
  unfolding get iterate for_each restart_host
  reset_virtual dha_info = do
    hosts_info ← load E dha_info
    listed ← lift (get hosts_info (codes "hosts") (array []))
    hosts ← lift (iterate listed)
    for_each restart_host hosts

  -- `sys.argv`, after the program's name
  unfoldable pub main : List Text → Action Trace (Unit {0})
  unfolding text_eq reset_baremetal reset_virtual
  main (deploy_type ∷ dha_info ∷ more) =
      if deploy_type == codes "baremetal"
      then reset_baremetal dha_info
      else if deploy_type == codes "virtual"
      then reset_virtual dha_info
      else pure tt
  main argv = lift (err index_error)
