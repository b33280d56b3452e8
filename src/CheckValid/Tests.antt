-- ===== src/CheckValid/Tests.antt =====
-- Configuration files for util/check_valid.py.
use compass4nfv.Base.{◌≡◌, ◌<◌, refl, ◌↔◌, ◌⊎◌, true, false, List, [], ◌∷◌, Text, codes, length}
use compass4nfv.Result.{Result, ok}
use compass4nfv.Value.{Value, str, array, object}
use compass4nfv.CheckValid.{
  Printed, is_valid_ip, is_valid_mac, check_network_file, check_dha_file, main,
}
use compass4nfv.CheckValid.Address.{IsAddress}
use compass4nfv.CheckValid.Address.Found.{is_valid_ip_lem}
use compass4nfv.CheckValid.Mac.{IsMac, is_valid_mac_lem}
use compass4nfv.CheckValid.Accepted.{
  IsGoodNetwork, check_network_file_lem, check_network_file_silent,
}
use compass4nfv.CheckValid.Dha.{IsGoodDha, check_dha_file_lem}
use compass4nfv.CheckValid.Files.{Holds, main_lem}

abbrev setting : Text → Text → Value
setting name cidr = object (
    (codes "name", str name)
    ∷ (codes "cidr", str cidr)
    ∷ (codes "gw", str (codes "192.168.10.1"))
    ∷ (
      codes "ip_ranges",
      array (array (str (codes "10.1.0.50") ∷ str (codes "10.1.0.100") ∷ []) ∷ []),
    )
    ∷ [])

abbrev network : Text → Value
network cidr = object (
    (
      codes "ip_settings",
      array (setting (codes "mgmt") cidr ∷ setting (codes "external") cidr ∷ []),
    )
    ∷ (
      codes "public_net_info",
      object (
          (codes "network", str (codes "ext-net"))
          ∷ (codes "external_gw", str (codes "192.168.10.1"))
          ∷ (codes "floating_ip_cidr", str (codes "192.168.10.0/24"))
          ∷ (codes "floating_ip_start", str (codes "192.168.10.100"))
          ∷ (codes "floating_ip_end", str (codes "192.168.10.200"))
          ∷ []),
    )
    ∷ [])

abbrev dha : Text → Value
dha mac = object (
    (codes "TYPE", str (codes "baremetal"))
    ∷ (
      codes "hosts",
      array (
          object (
            (codes "name", str (codes "host1"))
            ∷ (codes "interfaces", object ((codes "eth1", str mac) ∷ []))
            ∷ (codes "power_ip", str (codes "172.16.130.26"))
            ∷ [])
          ∷ []),
    )
    ∷ [])

accepts_prefix : is_valid_ip (str (codes "10.1.0.0/24")) ≡ ok true
unfolding is_valid_ip
accepts_prefix = refl

refuses_256 : is_valid_ip (str (codes "10.1.0.256")) ≡ ok false
unfolding is_valid_ip
refuses_256 = refl

refuses_prefix_33 : is_valid_ip (str (codes "10.1.0.0/33")) ≡ ok false
unfolding is_valid_ip
refuses_prefix_33 = refl

-- No address of a network card has the letter Z.
accepts_Z : is_valid_mac (str (codes "ZZ:4A:BF:55:A2:8D")) ≡ ok true
unfolding is_valid_mac
accepts_Z = refl

accepts_network : check_network_file (network (codes "10.1.0.0/24")) [] ≡ (ok true, [])
unfolding check_network_file
accepts_network = refl

accepts_dha : check_dha_file (dha (codes "F8:4A:BF:55:A2:8D")) [] ≡ (ok true, [])
unfolding check_dha_file
accepts_dha = refl

is_valid_ip_lem_example :
    (is_valid_ip (str (codes "10.1.0.0/24")) ≡ ok true) ↔ IsAddress (codes "10.1.0.0/24")
is_valid_ip_lem_example = is_valid_ip_lem (codes "10.1.0.0/24")

is_valid_mac_lem_example :
    (is_valid_mac (str (codes "F8:4A:BF:55:A2:8D")) ≡ ok true) ↔ IsMac (codes "F8:4A:BF:55:A2:8D")
is_valid_mac_lem_example = is_valid_mac_lem (codes "F8:4A:BF:55:A2:8D")

check_network_file_lem_example :
    ((s' : Printed) × (check_network_file (network (codes "10.1.0.0/24")) [] ≡ (ok true, s')))
    ↔ IsGoodNetwork (network (codes "10.1.0.0/24"))
check_network_file_lem_example = check_network_file_lem (network (codes "10.1.0.0/24")) []

check_network_file_silent_example :
    ((true ≡ true) × (◌≡◌ {A = Printed} [] []))
    ⊎ ((true ≡ false) × (length {A = Text × List Value} [] < length {A = Text × List Value} []))
check_network_file_silent_example =
    check_network_file_silent (network (codes "10.1.0.0/24")) [] [] true accepts_network

check_dha_file_lem_example :
    ((s' : Printed) × (check_dha_file (dha (codes "F8:4A:BF:55:A2:8D")) [] ≡ (ok true, s')))
    ↔ IsGoodDha (dha (codes "F8:4A:BF:55:A2:8D"))
check_dha_file_lem_example = check_dha_file_lem (dha (codes "F8:4A:BF:55:A2:8D")) []

-- Two files, whose names are their texts.
abbrev loaded : Text → Result Value
loaded [] = ok (network (codes "10.1.0.0/24"))
loaded (c ∷ s) = ok (dha (codes "F8:4A:BF:55:A2:8D"))

main_lem_example :
    ((s' : Printed) × (main
          (λ file. true)
          (λ file. ok file)
          loaded
          (codes "check_valid.py" ∷ codes "dha.yml" ∷ [] ∷ [])
          []
        ≡ (ok tt, s')))
    ↔ (Holds (λ file. true) (λ file. ok file) loaded IsGoodDha (codes "dha.yml")
        × Holds (λ file. true) (λ file. ok file) loaded IsGoodNetwork [])
main_lem_example =
    main_lem (λ file. true) (λ file. ok file) loaded (codes "check_valid.py") (codes "dha.yml") []
      []
