-- ===== src/CheckValid/Dha.antt =====
-- The DHA files that util/check_valid.py accepts.
use compass4nfv.Base.{
  ◌≡◌, refl, sym, ap, ◌∙◌, ◌↔◌, inl, inr, Bool, true, false, not, ◌||◌, arith, List, [], ◌∷◌, Text,
  codes, text_eq, ◌==◌, All, Bool-cases, if◌then◌else◌,
}
use compass4nfv.Result.{ok}
use compass4nfv.Value.{Value, str, value_eq}
use compass4nfv.Value.Access.{truthy, getitem, iterate}
use compass4nfv.Effects.{pure, lift, ◌>>=◌, ◌>>◌}
use compass4nfv.Effects.Bind.{>>=-eq-ok, >>=-of_ok}
use compass4nfv.CheckValid.{
  Printed, mac_pattern, is_valid_mac, err_print, interface_mac, check_interface, check_host,
  check_hosts, check_dha_file,
}
use compass4nfv.CheckValid.Mac.{IsMac, is_valid_mac_lem}
use compass4nfv.CheckValid.Settings.{IsIp, check_address-Checks, searched-str}
use compass4nfv.CheckValid.Checks.{
  Checks, Checks-iff, Checks-lift, Checks-then, Checks-last, any_invalid-Checks, Reports-lift,
  Checks-branch, Checks-when,
}

-- A text that is six pairs with colons.
abbrev pub IsMacText : Value → Type 0
IsMacText v = (s : Text) × (v ≡ str s) × IsMac s

is_valid_mac-str : (v : Value) → is_valid_mac v ≡ ok true → (s : Text) × (v ≡ str s)
unfolding is_valid_mac
is_valid_mac-str v h = elim (Bool-cases (truthy v)) [
  | inl there ↦ searched-str mac_pattern v (rw there at h)
  | inr empty ↦ cc (rw empty at h)
]

valid-IsMacText : (v : Value) → ((b : Bool) × (is_valid_mac v ≡ ok b) × (b ≡ true)) ↔ IsMacText v
valid-IsMacText v = (
  λ (b, e, yes_).
      let valid : is_valid_mac v ≡ ok true = e ∙ ap ok yes_ in
      let (s, same) = is_valid_mac-str v valid in
      (s, same, (is_valid_mac_lem s).0 (ap is_valid_mac (sym same) ∙ valid)),
  λ (s, same, h). (true, ap is_valid_mac same ∙ (is_valid_mac_lem s).1 h, refl),
)

-- What an interface of a host has.
abbrev pub HasMac : Value → Value → Type 0
HasMac interfaces j = (mac : Value) × (interface_mac interfaces j ≡ ok mac) × IsMacText mac

mac-Checks :
    (i j mac : Value)
    → Checks false
        (lift (is_valid_mac mac) >>= λ valid.
          if valid
          then pure false
          else (lift (getitem i (codes "name")) >>= λ name.
              err_print (codes "hosts: - name: %s interfaces: - %s: %s") (name ∷ j ∷ mac ∷ [])
              >> pure true))
        (IsMacText mac)
unfolding err_print
mac-Checks i j mac = Checks-iff (valid-IsMacText mac) (
    Checks-lift (is_valid_mac mac) (λ valid.
      Checks-branch valid
        (Reports-lift (getitem i (codes "name")) (λ name s s' b e. (cc e, ground (arith, e))))))

check_interface-Checks :
    (i interfaces j : Value) → Checks false (check_interface i interfaces j) (HasMac interfaces j)
unfolding check_interface
check_interface-Checks i interfaces j = Checks-lift (interface_mac interfaces j) (mac-Checks i j)

-- A host with well-formed addresses only.
abbrev pub IsGoodHost : Value → Type 0
IsGoodHost i =
    (interfaces : Value) × (getitem i (codes "interfaces") ≡ ok interfaces)
    × ((names : List Value) × (iterate interfaces ≡ ok names)
        × (All (HasMac interfaces) names
            × ((power_ip : Value) × (getitem i (codes "power_ip") ≡ ok power_ip) × IsIp power_ip)))

check_host-Checks : (i : Value) → Checks false (check_host i) (IsGoodHost i)
unfolding check_host
check_host-Checks i =
    let power = λ (b : Bool) (power_ip : Value).
      Checks-last {acc = false || b} (λ c. b || c)
        (check_address-Checks i (codes "hosts: - name: %s power_ip: %s") power_ip) (λ c. refl) in
    let rest = λ (b : Bool). Checks-lift (getitem i (codes "power_ip")) (power b) in
    let macs = λ (interfaces : Value) (names : List Value).
      Checks-then
        (any_invalid-Checks (check_interface i interfaces) (HasMac interfaces)
          (check_interface-Checks i interfaces) names)
        rest in
    Checks-lift (getitem i (codes "interfaces"))
      (λ interfaces. Checks-lift (iterate interfaces) (macs interfaces))

-- A DHA file of virtual machines, or one whose hosts have well-formed addresses only.
abbrev pub IsGoodDha : Value → Type 0
IsGoodDha dha =
    (type_ : Value) × (getitem dha (codes "TYPE") ≡ ok type_)
    × (type_ ≡ str (codes "baremetal")
        → (listed : Value) × (getitem dha (codes "hosts") ≡ ok listed)
          × ((hosts : List Value) × (iterate listed ≡ ok hosts) × All IsGoodHost hosts))

check_hosts-Checks : (dha : Value) → Checks false (check_hosts dha) (IsGoodDha dha)
unfolding check_hosts
check_hosts-Checks dha =
    let hosts = any_invalid-Checks check_host IsGoodHost check_host-Checks in
    let typed = λ (type_ : Value).
      Checks-when (type_ == str (codes "baremetal")) {C = type_ ≡ str (codes "baremetal")}
        (ground arith)
        (Checks-lift (getitem dha (codes "hosts"))
          (λ listed. Checks-lift (iterate listed) hosts)) in
    Checks-lift (getitem dha (codes "TYPE")) typed

-- `check_dha_file` returns True exactly for a file whose type is not baremetal, or in which every
-- interface of every host has a text of six pairs with colons, and every host's power_ip is an IPv4
-- address.
pub check_dha_file_lem :
    (dha : Value) (s : Printed)
    → ((s' : Printed) × (check_dha_file dha s ≡ (ok true, s'))) ↔ IsGoodDha dha
unfolding check_dha_file
check_dha_file_lem dha s =
    let checks = check_hosts-Checks dha in
    (
      λ (s', e).
          let (b, s1, e1, e2) = >>=-eq-ok (check_hosts dha) (λ b. pure (not b)) s e in
          checks.sound s s1 refl (e1 ∙ ap (λ z. (ok z, s1)) (ground (arith, e2))),
      λ h. (s, >>=-of_ok (check_hosts dha) (λ b. pure (not b)) s (checks.complete s refl h)),
    )
