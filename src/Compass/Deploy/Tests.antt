-- ===== src/Compass/Deploy/Tests.antt =====
-- A deployment of one host, from the login to the end.
use compass4nfv.Base.{◌≡◌, refl, List, [], ◌∷◌, none, codes, arith, text_eq, number_eq}
use compass4nfv.Result.{ok}
use compass4nfv.Value.{Value, str, num, array, object, value_eq}
use compass4nfv.Effects.{Environment, IsClock, KeepsKeys}
use compass4nfv.Effects.Sample.{serving}
use compass4nfv.Compass.{Compass, init}
use compass4nfv.Compass.Config.{Config, defaults}
use compass4nfv.Compass.Deploy.{main, set_cluster_package_config}
use compass4nfv.Compass.Login.{login, get_machines, get_adapter}
use compass4nfv.Compass.Subnets.{add_subnets}
use compass4nfv.Compass.Cluster.{add_cluster, add_cluster_hosts}
use compass4nfv.Compass.Networking.{set_host_networking}
use compass4nfv.Compass.OsConfig.{set_cluster_os_config}
use compass4nfv.Compass.Roles.{set_all_hosts_roles}
use compass4nfv.Compass.Dashboard.{check_dashboard_links}
use compass4nfv.Compass.Progress.{
  deploy_clusters, get_ansible_print, get_installing_progress, get_cluster_state, judge_state,
}
use compass4nfv.Compass.Deploy.Success.{Installed, main_success}

abbrev one_host : Config
one_host = record defaults {
  machine_file = codes "machines";
  subnets = codes "10.1.0.0/24";
  hostnames = codes "host1";
  host_networks = codes "host1:eth0=10.1.0.2";
  host_roles = codes "host1=controller";
  domain = codes "ods.com";
  default_gateway = codes "10.1.0.1";
  partitions = [];
  plugins = [];
  cluster_param = [];
}

abbrev machine : Value
machine = object ((codes "mac", str (codes "00:01")) ∷ (codes "id", num 1) ∷ [])

abbrev documents : List Value
documents =
    object ((codes "token", str (codes "secret")) ∷ [])
    ∷ array (machine ∷ [])
    ∷ array (object ((codes "subnet", str (codes "10.1.0.0/24")) ∷ (codes "id", num 1) ∷ []) ∷ [])
    ∷ array (
        object (
          (codes "id", num 1)
          ∷ (
            codes "supported_oses",
            array
                (object ((codes "name", str (codes "centos")) ∷ (codes "os_id", num 1) ∷ []) ∷ []),
          )
          ∷ (
            codes "flavors",
            array (object ((codes "name", str (codes "allinone")) ∷ (codes "id", num 1) ∷ []) ∷ []),
          )
          ∷ [])
        ∷ [])
    ∷ object (
        (codes "id", num 1)
        ∷ (
          codes "flavor",
          object (
              (codes "roles", array (object ((codes "name", str (codes "controller")) ∷ []) ∷ []))
              ∷ []),
        )
        ∷ [])
    ∷ object (
        (
          codes "hosts",
          array (object ((codes "hostname", str (codes "host1")) ∷ (codes "id", num 1) ∷ []) ∷ []),
        )
        ∷ [])
    ∷ []

abbrev server : Environment
server = serving documents (array (machine ∷ []))

server-IsClock : IsClock server
server-IsClock = record { runs = λ e t. ground arith; sleeps = λ n t. ground arith }

server-KeepsKeys : KeepsKeys server
server-KeepsKeys k ks = refl

abbrev fresh : Compass
unfolding init
fresh =
    init (record { url_ = codes "http"; headers = []; proxies = none; stream = none; trace = [] })

abbrev final : Compass
unfolding main
final = (main server one_host fresh).1

main_returns : main server one_host fresh ≡ (ok tt, final)
unfolding main final fresh login get_machines add_subnets get_adapter add_cluster add_cluster_hosts
    set_host_networking set_cluster_os_config set_cluster_package_config set_all_hosts_roles
    deploy_clusters get_ansible_print get_installing_progress get_cluster_state judge_state
    check_dashboard_links
main_returns = refl

main_success_example : Installed server one_host final
main_success_example =
    main_success server server-IsClock server-KeepsKeys one_host fresh final main_returns
