-- ===== src/Compass/RunTests.antt =====
-- Calls of the deployment client on hosts and machines.
use compass4nfv.Base.{◌+◌, ◌≤◌, ◌<◌, ◌≡◌, refl, true, false, [], ◌∷◌, none, codes, text_eq}
use compass4nfv.Base.Dict.{has_key}
use compass4nfv.Result.{ok}
use compass4nfv.Value.{Value, str, num, value_eq}
use compass4nfv.Value.Access.{getitem}
use compass4nfv.Effects.Sample.{sample}
use compass4nfv.Restful.{Session, Reply}
use compass4nfv.Compass.Documents.{pieces}
use compass4nfv.Compass.Documents.Machines.{HasMac, Wanted}
use compass4nfv.Compass.Login.{is_ok, get_machines}
use compass4nfv.Compass.Login.Chosen.{Read, get_machines_correct}
use compass4nfv.Compass.Cluster.{last_machines, add_cluster_hosts}
use compass4nfv.Compass.Cluster.Known.{add_cluster_hosts_known}
use compass4nfv.Compass.Progress.Polling.{get_cluster_state_bounded}
use compass4nfv.Effects.{Environment, requests}
use compass4nfv.Effects.Sample.{serving}
use compass4nfv.Base.{List, Text, contains, length, map, ◌||◌}
use compass4nfv.Value.{array, object}
use compass4nfv.Compass.{Compass}
use compass4nfv.Compass.Config.{Config, defaults}
use compass4nfv.Compass.Progress.{get_cluster_state}

abbrev session : Session
session = record {
  url_ = codes "http://127.0.0.1/api";
  headers = [];
  proxies = none;
  stream = none;
  trace = [];
}

-- Two hosts are known, and of two roles one waits.
abbrev two_hosts : Compass
two_hosts = record {
  session = session;
  subnet_mapping = [];
  role_mapping = (str (codes "controller"), true) ∷ (str (codes "compute"), false) ∷ [];
  host_mapping = (str (codes "host1"), num 1) ∷ (str (codes "host2"), num 2) ∷ [];
  host_ips = [];
  host_roles = [];
}

get_cluster_state_bounded_example :
    (reply : Reply) × ((get_cluster_state sample (num 1) two_hosts).0 ≡ ok reply)
    × (requests two_hosts.session.trace
        < requests (get_cluster_state sample (num 1) two_hosts).1.session.trace)
    × (requests (get_cluster_state sample (num 1) two_hosts).1.session.trace
        ≤ requests two_hosts.session.trace + 10)
    × (is_ok reply.0 ≡ false
        → requests (get_cluster_state sample (num 1) two_hosts).1.session.trace
          ≡ requests two_hosts.session.trace + 10)
get_cluster_state_bounded_example = get_cluster_state_bounded sample (num 1) two_hosts

abbrev machine : Value
machine = object ((codes "mac", str (codes "00:01")) ∷ (codes "id", num 1) ∷ [])

abbrev machine_server : Environment
machine_server = serving (array (machine ∷ []) ∷ []) (array (machine ∷ []))

abbrev asked : Compass
unfolding get_machines
asked = (get_machines machine_server defaults two_hosts).1

asked_returns : get_machines machine_server defaults two_hosts ≡ (ok (num 1 ∷ []), asked)
unfolding get_machines asked text_eq
asked_returns = refl

get_machines_correct_example :
    (macs : List Text) × (machines : List Value) × Read machine_server defaults two_hosts macs
      machines
    × ((mac : Text)
        → contains mac macs ≡ true
        → (m : Value) × (contains m machines ≡ true) × HasMac machine_server mac m)
    × ((i : Value) → contains i (num 1 ∷ []) ≡ true → Wanted machine_server macs machines i)
    × ((m : Value) (mac : Text)
        → contains m machines ≡ true
        → HasMac machine_server mac m
        → contains mac macs ≡ true
        → (i : Value) × (getitem m (codes "id") ≡ ok i) × (contains i (num 1 ∷ []) ≡ true))
get_machines_correct_example =
    get_machines_correct machine_server defaults two_hosts (num 1 ∷ []) asked asked_returns

abbrev host_server : Environment
host_server =
    serving
      (object (
          (
            codes "hosts",
            array
                (object ((codes "hostname", str (codes "host3")) ∷ (codes "id", num 3) ∷ []) ∷ []),
          )
          ∷ [])
        ∷ [])
      machine

abbrev adding : Config
adding = record defaults { hostnames = codes "host3" }

abbrev added : Compass
unfolding add_cluster_hosts
added = (add_cluster_hosts host_server adding (num 1) (num 1 ∷ []) two_hosts).1

added_returns : add_cluster_hosts host_server adding (num 1) (num 1 ∷ []) two_hosts ≡ (ok tt, added)
unfolding add_cluster_hosts added text_eq value_eq
added_returns = refl

add_cluster_hosts_known_example :
    (length (last_machines (length (pieces b',' adding.hostnames)) (num 1 ∷ []))
      ≡ length (pieces b',' adding.hostnames))
    × ((h : Value)
        → has_key h added.host_mapping ≡ true
        → (has_key h two_hosts.host_mapping
            || contains h (map (λ s. str s) (pieces b',' adding.hostnames)))
          ≡ true)
add_cluster_hosts_known_example =
    add_cluster_hosts_known host_server adding (num 1) (num 1 ∷ []) two_hosts added added_returns
