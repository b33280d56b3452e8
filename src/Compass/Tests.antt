-- ===== src/Compass/Tests.antt =====
-- Runs of the deployment client at one configuration.
use compass4nfv.Base.{
  ◌+◌, ◌*◌, ◌<◌, ◌≡◌, ◌≢◌, ◌↔◌, contains, inl, refl, true, false, ◌&&◌, [], ◌∷◌, none, some, codes,
  if◌then◌else◌, text_eq,
}
use compass4nfv.Base.Dict.{has_key, lookup}
use compass4nfv.Result.{ok, err, out_of_fuel, succeeds}
use compass4nfv.Value.{Value, str, num, value_eq}
use compass4nfv.Value.Access.{getitem}
use compass4nfv.Effects.{Trace, clock, terminate}
use compass4nfv.Effects.Sample.{sample, sample-IsClock, sample-KeepsKeys}
use compass4nfv.Restful.{Session}
use compass4nfv.Compass.{Compass}
use compass4nfv.Compass.Config.{Config, defaults}
use compass4nfv.Compass.Roles.{set_all_hosts_roles, is_waiting}
use compass4nfv.Compass.Roles.Waiting.{
  set_all_hosts_roles_complete, set_all_hosts_roles_ignores_defaults,
}
use compass4nfv.Compass.Progress.{
  get_installing_progress, get_ansible_print, deploy_clusters, host_ids, get_cluster_state,
  judge_state,
}
use compass4nfv.Compass.Progress.Time.{get_ansible_print_ends}
use compass4nfv.Compass.Progress.Finish.{
  ReadsSuccess, get_installing_progress_ends, get_installing_progress_success,
}
use compass4nfv.Compass.Deploy.{main}
use compass4nfv.Compass.Deploy.Order.{
  accepted, deployed, reviewed, deploy_clusters-trace, main_fails,
}

abbrev session : Session
session = record {
  url_ = codes "http://127.0.0.1/api";
  headers = [];
  proxies = none;
  stream = none;
  trace = [];
}

-- Two hosts are known, and of two roles one waits.
abbrev two_hosts : Compass
two_hosts = record {
  session = session;
  subnet_mapping = [];
  role_mapping = (str (codes "controller"), true) ∷ (str (codes "compute"), false) ∷ [];
  host_mapping = (str (codes "host1"), num 1) ∷ (str (codes "host2"), num 2) ∷ [];
  host_ips = [];
  host_roles = [];
}

abbrev listing : Config
listing = record defaults { host_roles = codes "host1=controller,compute;host2=compute" }

abbrev with_roles : Compass
unfolding set_all_hosts_roles
with_roles = (set_all_hosts_roles sample listing (num 1) two_hosts).1

with_roles_returns : set_all_hosts_roles sample listing (num 1) two_hosts ≡ (ok tt, with_roles)
unfolding set_all_hosts_roles with_roles
with_roles_returns = refl

abbrev installed : Compass
unfolding get_installing_progress
installed = (get_installing_progress sample defaults (num 1) two_hosts).1

installed_returns : get_installing_progress sample defaults (num 1) two_hosts ≡ (ok tt, installed)
unfolding get_installing_progress installed get_cluster_state judge_state getitem text_eq value_eq
installed_returns = refl

set_all_hosts_roles_complete_example :
    ((h : Value)
      → has_key h with_roles.host_mapping ≡ true
      → has_key h with_roles.host_roles ≡ true)
    × ((r : Value) → is_waiting with_roles.role_mapping r ≡ false)
set_all_hosts_roles_complete_example =
    set_all_hosts_roles_complete sample sample-KeepsKeys (num 1) listing two_hosts with_roles
      with_roles_returns

set_all_hosts_roles_ignores_defaults_example :
    set_all_hosts_roles sample
      (record listing { default_roles = codes "compute" })
      (num 1)
      two_hosts
    ≡ set_all_hosts_roles sample listing (num 1) two_hosts
set_all_hosts_roles_ignores_defaults_example =
    set_all_hosts_roles_ignores_defaults sample sample-KeepsKeys (num 1) listing (codes "compute")
      two_hosts

get_installing_progress_ends_example :
    ((get_installing_progress sample defaults (num 1) two_hosts).0 ≢ err out_of_fuel)
    × ((t : Trace) × ((get_installing_progress sample defaults (num 1) two_hosts).1.session.trace
          ≡ terminate ∷ t))
get_installing_progress_ends_example =
    get_installing_progress_ends sample sample-IsClock defaults (num 1) two_hosts

get_installing_progress_success_example :
    (d : Compass) × ReadsSuccess sample (num 1) d
    × (installed.session.trace ≡ terminate ∷ clock ∷ d.session.trace)
    × (sample.time (clock ∷ d.session.trace)
        < sample.time (clock ∷ two_hosts.session.trace) + 60 * defaults.deployment_timeout)
get_installing_progress_success_example =
    get_installing_progress_success sample sample-IsClock defaults (num 1) two_hosts installed
      installed_returns

get_ansible_print_ends_example : (get_ansible_print sample defaults two_hosts).0 ≢ err out_of_fuel
get_ansible_print_ends_example = get_ansible_print_ends sample sample-IsClock defaults two_hosts

deploy_clusters-trace_example :
    ((deploy_clusters sample (num 1) two_hosts).1.session.trace ≡ (
      if accepted (sample.reply (reviewed sample (num 1) two_hosts))
      then deployed sample (num 1) two_hosts
      else reviewed sample (num 1) two_hosts))
    × (succeeds (deploy_clusters sample (num 1) two_hosts).0 ≡ (
        accepted (sample.reply (reviewed sample (num 1) two_hosts))
        && accepted (sample.reply (deployed sample (num 1) two_hosts))))
    × ((id : Value)
        → (contains id (host_ids sample two_hosts) ≡ true)
          ↔ ((host : Value) × (lookup host two_hosts.host_mapping ≡ some id)))
deploy_clusters-trace_example = deploy_clusters-trace sample (num 1) two_hosts sample-KeepsKeys

abbrev again : Config
again = record defaults { deploy_flag = codes "redeploy" }

main_fails_example : succeeds (main sample again two_hosts).0 ≡ false
main_fails_example = main_fails sample again two_hosts (inl refl)
