-- ===== src/CheckValid/Accepted.antt =====
-- The network files that util/check_valid.py accepts.
use compass4nfv.Base.{
  ◌≡◌, ◌<◌, refl, ap, ◌∙◌, subst, ◌↔◌, ◌⊎◌, inl, inr, Bool, true, false, not, ◌||◌, arith, List, [],
  ◌∷◌, Text, codes, text_eq, contains, All, length, if◌then◌else◌,
}
use compass4nfv.Result.{ok}
use compass4nfv.Value.{Value, str, value_eq}
use compass4nfv.Value.Access.{getitem, iterate}
use compass4nfv.Effects.{pure, lift, ◌>>=◌, ◌>>◌}
use compass4nfv.Effects.Bind.{>>=-eq-ok, >>=-of_ok}
use compass4nfv.CheckValid.{
  Printed, is_valid_ip, err_print, check_setting, address_keys, check_public, items_of,
  check_settings, check_network_file,
}
use compass4nfv.CheckValid.Settings.{IsIp, IsGoodSetting, valid-IsIp, check_setting-Checks}
use compass4nfv.CheckValid.Checks.{
  Checks, Checks-iff, Checks-lift, Checks-then, Checks-last, any_invalid-Checks, Checks-branch,
  Checks-when,
}

-- The keys of `public_net_info` that hold addresses.
abbrev pub public_keys : List Text
public_keys =
    codes "external_gw"
    ∷ codes "floating_ip_cidr"
    ∷ codes "floating_ip_start"
    ∷ codes "floating_ip_end"
    ∷ []

abbrev pub IsGoodPublic : Text × Value → Type 0
IsGoodPublic (key, address) = contains key public_keys ≡ true → IsIp address

public-Checks :
    (key : Text) (address : Value)
    → Checks false
        (lift (is_valid_ip address) >>= λ valid.
          if valid
          then pure false
          else (err_print (codes "public_net_info: %s: %s") (str key ∷ address ∷ []) >> pure true))
        (IsIp address)
unfolding err_print
public-Checks key address = Checks-iff (valid-IsIp address) (
    Checks-lift (is_valid_ip address)
      (λ valid. Checks-branch valid (λ s s' b e. (cc e, ground (arith, e)))))

check_public-Checks : (item : Text × Value) → Checks false (check_public item) (IsGoodPublic item)
unfolding check_public
check_public-Checks (key, address) =
    Checks-when (contains key address_keys) (λ h. h, λ h. h) (public-Checks key address)

-- What stands under `public_net_info` are addresses, where they must be.
abbrev pub HasGoodPublic : Value → Type 0
HasGoodPublic network =
    (info : Value) × (getitem network (codes "public_net_info") ≡ ok info)
    × ((items : List (Text × Value)) × (items_of info ≡ ok items) × All IsGoodPublic items)

-- A network file with addresses only.
abbrev pub IsGoodNetwork : Value → Type 0
IsGoodNetwork network =
    (ip_settings : Value) × (getitem network (codes "ip_settings") ≡ ok ip_settings)
    × ((settings : List Value) × (iterate ip_settings ≡ ok settings)
        × (All IsGoodSetting settings × HasGoodPublic network))

check_settings-Checks :
    (network : Value) → Checks false (check_settings network) (IsGoodNetwork network)
unfolding check_settings
check_settings-Checks network =
    let public = λ (b : Bool) (items : List (Text × Value)).
      Checks-last {acc = false || b} (λ c. b || c)
        (any_invalid-Checks check_public IsGoodPublic check_public-Checks items) (λ c. refl) in
    let rest = λ (b : Bool).
      Checks-lift (getitem network (codes "public_net_info"))
        (λ info. Checks-lift (items_of info) (public b)) in
    let settings = λ (settings : List Value).
      Checks-then (any_invalid-Checks check_setting IsGoodSetting check_setting-Checks settings)
        rest in
    Checks-lift (getitem network (codes "ip_settings"))
      (λ ip_settings. Checks-lift (iterate ip_settings) settings)

-- `check_network_file` returns True exactly for a file in which every cidr, the two ends of every first
-- range, the gateway of the external network and whatever `public_net_info` has under external_gw,
-- floating_ip_cidr, floating_ip_start and floating_ip_end are IPv4 addresses.
pub check_network_file_lem :
    (network : Value) (s : Printed)
    → ((s' : Printed) × (check_network_file network s ≡ (ok true, s'))) ↔ IsGoodNetwork network
unfolding check_network_file
check_network_file_lem network s =
    let checks = check_settings-Checks network in
    (
      λ (s', e).
          let (b, s1, e1, e2) = >>=-eq-ok (check_settings network) (λ b. pure (not b)) s e in
          checks.sound s s1 refl (e1 ∙ ap (λ z. (ok z, s1)) (ground (arith, e2))),
      λ h. (s, >>=-of_ok (check_settings network) (λ b. pure (not b)) s (checks.complete s refl h)),
    )

-- A check of a network file that returns has printed nothing if it returns True, and something if it
-- returns False.
pub check_network_file_silent :
    (network : Value) (s s' : Printed) (b : Bool)
    → check_network_file network s ≡ (ok b, s')
    → ((b ≡ true) × (s' ≡ s)) ⊎ ((b ≡ false) × (length s < length s'))
unfolding check_network_file
check_network_file_silent network s s' b e =
    let (c, s1, e1, e2) = >>=-eq-ok (check_settings network) (λ b. pure (not b)) s e in
    elim ((check_settings-Checks network).tells s s1 c e1) [
      | inl (fine, same) ↦ inl (cc, cc)
      | inr (bad, longer) ↦
          inr (cc, let same : s1 ≡ s' = cc in subst (λ z. length s < length z) same longer)
    ]
