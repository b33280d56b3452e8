-- ===== src/ConfigParse/NetworkTests.antt =====
-- Two hosts whose addresses deploy/config_parse.py hands to deploy/client.py.
use compass4nfv.Base.{
  ◌≡◌, ℕ, zero, suc, refl, List, [], ◌∷◌, map, none, Text, codes, number_eq, text_eq,
}
use compass4nfv.Result.{Result, ok}
use compass4nfv.Value.{Value, num, str, object, value_eq}
use compass4nfv.Value.Access.{getitem}
use compass4nfv.Text.{join}
use compass4nfv.Text.Blanks.{has_blank}
use compass4nfv.Effects.{for_each}
use compass4nfv.Effects.Sample.{sample}
use compass4nfv.Compass.{Compass}
use compass4nfv.Compass.Config.{defaults}
use compass4nfv.Compass.Networking.{set_host_networking}
use compass4nfv.ConfigParse.{host_networks}
use compass4nfv.ConfigParse.Networks.{
  Placed, IsWord, IsPlaced, AllWords, connect, host_networks-connect,
}

-- The iterator over two addresses.
abbrev addresses : Value → Value → ℕ → Result Text
addresses start end zero = ok (codes "10.1.0.50")
addresses start end (suc n) = ok (codes "10.1.0.51")

abbrev host : Text → Value
host name = object ((codes "name", str name) ∷ [])

abbrev first : Placed
first = record { value = host (codes "host1"); name = codes "host1"; ip = codes "10.1.0.50" }

abbrev second : Placed
second = record { value = host (codes "host2"); name = codes "host2"; ip = codes "10.1.0.51" }

abbrev from : Value
from = str (codes "10.1.0.50")

abbrev till : Value
till = str (codes "10.1.0.51")

entries_written :
    host_networks sample addresses
      (codes "eth0")
      from
      till
      0
      (host (codes "host1") ∷ host (codes "host2") ∷ [])
    ≡ ok (codes "host1:eth0=10.1.0.50|is_mgmt" ∷ codes "host2:eth0=10.1.0.51|is_mgmt" ∷ [])
unfolding host_networks text_eq
entries_written = refl

hosts-IsPlaced : IsPlaced sample addresses (codes "eth0") from till 0 (first ∷ second ∷ [])
unfolding getitem text_eq
hosts-IsPlaced = (refl, refl, (refl, refl, tt))

abbrev deployment : Compass
deployment = record {
  session = record {
    url_ = codes "http://127.0.0.1/api";
    headers = [];
    proxies = none;
    stream = none;
    trace = [];
  };
  subnet_mapping = (str (codes "10.1.0.0/24"), num 1) ∷ [];
  role_mapping = [];
  host_mapping = (str (codes "host1"), num 1) ∷ (str (codes "host2"), num 2) ∷ [];
  host_ips = [];
  host_roles = [];
}

eth0-IsWord : IsWord (codes "eth0")
unfolding number_eq has_blank
eth0-IsWord = record {
  colon = refl;
  semicolon = refl;
  comma = refl;
  equals = refl;
  bar = refl;
  blank = refl;
}

are_words : AllWords (first ∷ second ∷ [])
unfolding number_eq has_blank
are_words = (
  (
    record {
      colon = refl;
      semicolon = refl;
      comma = refl;
      equals = refl;
      bar = refl;
      blank = refl;
    },
    record {
      colon = refl;
      semicolon = refl;
      comma = refl;
      equals = refl;
      bar = refl;
      blank = refl;
    },
  ),
  (
    (
      record {
        colon = refl;
        semicolon = refl;
        comma = refl;
        equals = refl;
        bar = refl;
        blank = refl;
      },
      record {
        colon = refl;
        semicolon = refl;
        comma = refl;
        equals = refl;
        bar = refl;
        blank = refl;
      },
    ),
    tt,
  ),
)

host_networks-connect_example :
    (entries : List Text) × (host_networks sample addresses
        (codes "eth0")
        from
        till
        0
        (map (λ (h : Placed). h.value) (first ∷ second ∷ []))
      ≡ ok entries)
    × (set_host_networking sample
          (record defaults { host_networks = join (codes ";") entries })
          deployment
        ≡ for_each (connect sample (codes "eth0")) (first ∷ second ∷ []) deployment)
host_networks-connect_example =
    host_networks-connect sample addresses (codes "eth0") from till defaults first (second ∷ [])
      deployment hosts-IsPlaced eth0-IsWord are_words

both_recorded :
    (for_each (connect sample (codes "eth0")) (first ∷ second ∷ []) deployment).1.host_ips
    ≡ (str (codes "host1"), codes "10.1.0.50" ∷ [])
      ∷ (str (codes "host2"), codes "10.1.0.51" ∷ [])
      ∷ []
unfolding connect for_each text_eq value_eq
both_recorded = refl
