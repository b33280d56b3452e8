-- ===== src/ConfigParse/Tests.antt =====
-- Configuration files for deploy/config_parse.py.
use compass4nfv.Base.{
  ℕ, ◌≤◌, ◌<◌, ◌-◌, ◌^◌, ◌≡◌, refl, ◌⊎◌, true, List, [], ◌∷◌, ◌++◌, map, none, some, Text, codes,
  All, length, number_eq, text_eq,
}
use compass4nfv.Base.Int.{pos}
use compass4nfv.Result.{ok, err, value_error}
use compass4nfv.Value.{Value, value_eq, num, str, array, object}
use compass4nfv.Value.Access.{get, iterate}
use compass4nfv.Effects.Sample.{sample}
use compass4nfv.CheckValid.{is_valid_mac}
use compass4nfv.ConfigParse.{hostroles, netmask, shift_of}
use compass4nfv.ConfigParse.Shell.{World}
use compass4nfv.ConfigParse.Export.{virtual_machines}
use compass4nfv.ConfigParse.Netmask.{dotted, netmask_lem}
use compass4nfv.ConfigParse.Macs.{virtual_machines_lem, machine_with}
use compass4nfv.ConfigParse.ReadBack.{Host, IsPlain, hand, hostroles-hand}
use compass4nfv.Text.Blanks.{has_blank}
use compass4nfv.Effects.{for_each, ◌>>◌}
use compass4nfv.Compass.{Compass}
use compass4nfv.Compass.Config.{defaults}
use compass4nfv.Compass.Roles.{set_waiting, set_defaults, set_all_hosts_roles}

abbrev start : World
start = record { trace = []; drawn = 0 }

netmask_24 : netmask 8 ≡ codes "255.255.255.0"
unfolding netmask
netmask_24 = refl

netmask_20 : netmask 12 ≡ codes "255.255.240.0"
unfolding netmask
netmask_20 = refl

abbrev roles_value : Value
roles_value = array (str (codes "controller") ∷ str (codes "ha") ∷ [])

abbrev host_value : Value
host_value = object ((codes "name", str (codes "host1")) ∷ (codes "roles", roles_value) ∷ [])

host_named : get host_value (codes "name") (str []) ≡ ok (str (codes "host1"))
unfolding get text_eq
host_named = refl

host_given : get host_value (codes "roles") (array []) ≡ ok roles_value
unfolding get text_eq
host_given = refl

roles_texts : iterate roles_value ≡ ok (map (λ r. str r) (codes "controller" ∷ codes "ha" ∷ []))
unfolding iterate
roles_texts = refl

abbrev controller : Host
controller = record {
  value = host_value;
  name = codes "host1";
  roles = codes "controller" ∷ codes "ha" ∷ [];
  listed = roles_value;
  named = host_named;
  roles_given = host_given;
  texts_only = roles_texts;
}

controller-IsPlain : IsPlain controller
unfolding number_eq has_blank
controller-IsPlain = record {
  name_blank = refl;
  roles_blank = (refl, (refl, tt));
  name_plain = refl;
  name_free = refl;
  roles_plain = ((refl, refl), ((refl, refl), tt));
  roles_free = (refl, (refl, tt));
}

abbrev file : Value
file = object ((codes "hosts", array (host_value ∷ [])) ∷ [])

file_hosts : get file (codes "hosts") (array []) ≡ ok (array (host_value ∷ []))
unfolding get text_eq
file_hosts = refl

hosts_listed :
    iterate (array (host_value ∷ [])) ≡ ok (map (λ (h : Host). h.value) (controller ∷ []))
unfolding iterate
hosts_listed = refl

abbrev knowing : Compass
knowing = record {
  session = record {
    url_ = codes "http://127.0.0.1/api";
    headers = [];
    proxies = none;
    stream = none;
    trace = [];
  };
  subnet_mapping = [];
  role_mapping = [];
  host_mapping = (str (codes "host1"), num 1) ∷ [];
  host_ips = [];
  host_roles = [];
}

hostroles-hand_example :
    (text : Text) × (hostroles sample file (some (codes ";"))
      ≡ ok (str (b'"' ∷ text ++ (b'"' ∷ []))))
    × (set_all_hosts_roles sample (record defaults { host_roles = text }) (num 7) knowing
        ≡ (for_each (hand sample (num 7)) (controller ∷ [])
              >> (set_waiting sample (num 7)
                  >> set_defaults sample (record defaults { host_roles = text }) (num 7)))
            knowing)
hostroles-hand_example =
    hostroles-hand sample file (array (host_value ∷ [])) controller [] defaults (num 7) knowing
      file_hosts hosts_listed (controller-IsPlain, tt)

-- The host that is known has its roles.
roles_given :
    (hand sample (num 7) controller knowing).1.host_roles
    ≡ (str (codes "host1"), str (codes "controller") ∷ str (codes "ha") ∷ []) ∷ []
unfolding hand text_eq value_eq
roles_given = refl

netmask_lem_example :
    ((24 ≤ 32)
      × (n : ℕ) × (shift_of (pos 24) ≡ ok n)
      × (netmask n ≡ dotted (4294967296 - 2 ^ (32 - 24))))
    ⊎ ((32 < 24) × (shift_of (pos 24) ≡ err value_error))
netmask_lem_example = netmask_lem 24

virtual_machines_lem_example :
    (macs : List Text) × (w' : World) × (virtual_machines (λ n. n) (host_value ∷ []) start
      ≡ (ok (macs, map machine_with macs), w'))
    × (length macs ≡ 1)
    × All (λ mac. is_valid_mac (str mac) ≡ ok true) macs
virtual_machines_lem_example = virtual_machines_lem (λ n. n) (host_value ∷ []) start
