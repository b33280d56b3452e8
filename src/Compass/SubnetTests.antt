-- ===== src/Compass/SubnetTests.antt =====
-- Adding a subnet that the server has, and connecting a host.
use compass4nfv.Compass.Networking.{set_host_networking}
use compass4nfv.Compass.Networking.Recorded.{IsKnown, set_host_networking-IsKnown}
use compass4nfv.Base.{
  ◌≡◌, refl, [], ◌∷◌, map, none, some, Text, codes, contains, All, if◌then◌else◌, text_eq,
}
use compass4nfv.Base.Dict.{lookup}
use compass4nfv.Result.{ok}
use compass4nfv.Value.{Value, null, str, num, array, object, value_eq}
use compass4nfv.Value.Access.{getitem, iterate}
use compass4nfv.Effects.{Environment}
use compass4nfv.Effects.Sample.{sample, serving}
use compass4nfv.Restful.{Session}
use compass4nfv.Restful.Subnets.{list_subnets}
use compass4nfv.Compass.{Compass, init}
use compass4nfv.Compass.Config.{Config, defaults}
use compass4nfv.Compass.Documents.{pieces}
use compass4nfv.Compass.Subnets.{add_subnets}
use compass4nfv.Compass.Subnets.Known.{First, IsListed, add_subnets_known}

abbrev row : Value
row = object ((codes "subnet", str (codes "10.1.0.0/24")) ∷ (codes "id", num 7) ∷ [])

abbrev server : Environment
server = serving (array (row ∷ []) ∷ []) null

abbrev one_subnet : Config
one_subnet = record defaults { subnets = codes "10.1.0.0/24," }

abbrev fresh : Compass
unfolding init
fresh =
    init (record { url_ = codes "http"; headers = []; proxies = none; stream = none; trace = [] })

abbrev asked : Session
unfolding list_subnets fresh
asked = (list_subnets server null null fresh.session).1

answered : list_subnets server null null fresh.session ≡ (ok (200, array (row ∷ [])), asked)
unfolding list_subnets fresh asked
answered = refl

abbrev added : Compass
unfolding add_subnets fresh
added = (add_subnets server one_subnet fresh).1

added_returns : add_subnets server one_subnet fresh ≡ (ok tt, added)
unfolding add_subnets fresh added text_eq value_eq
added_returns = refl

known : All (IsListed (row ∷ [])) (pieces b',' one_subnet.subnets)
unfolding pieces getitem text_eq
known = (
  (
    num 7,
    record {
      before = [];
      entry = row;
      after = [];
      parts = refl;
      others = tt;
      same_subnet = refl;
      has_id = refl;
    },
  ),
  tt,
)

add_subnets_known_example :
    (added.session ≡ asked)
    × ((k : Text) (i : Value)
        → First (row ∷ []) k i
        → lookup (str k) added.subnet_mapping ≡ (
            if contains (str k) (map (λ s. str s) (pieces b',' one_subnet.subnets))
            then some i
            else none))
unfolding iterate
add_subnets_known_example =
    add_subnets_known server one_subnet fresh added (200, array (row ∷ [])) asked (row ∷ [])
      answered refl known added_returns

abbrev mapped : Compass
unfolding fresh
mapped = record fresh {
  subnet_mapping = (str (codes "10.1.0.0/24"), num 7) ∷ [];
  host_mapping = (str (codes "host1"), num 1) ∷ [];
}

abbrev networking : Config
networking = record defaults { host_networks = codes "host1:eth0=10.1.0.2,eth1=10.1.0.3|is_mgmt" }

abbrev connected : Compass
unfolding set_host_networking mapped
connected = (set_host_networking sample networking mapped).1

connected_returns : set_host_networking sample networking mapped ≡ (ok tt, connected)
unfolding set_host_networking mapped connected text_eq value_eq
connected_returns = refl

mapped-IsKnown : IsKnown sample mapped
unfolding mapped fresh lookup
mapped-IsKnown host ips ip found inside = cc found

set_host_networking-IsKnown_example : IsKnown sample connected
set_host_networking-IsKnown_example =
    set_host_networking-IsKnown sample networking mapped connected mapped-IsKnown connected_returns
