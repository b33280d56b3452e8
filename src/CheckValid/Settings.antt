-- ===== src/CheckValid/Settings.antt =====
-- The checks of one of `ip_settings` (util/check_valid.py).
use compass4nfv.Base.{
  ◌≡◌, refl, sym, ap, ◌∙◌, ◌↔◌, inl, inr, Bool, true, false, ◌||◌, arith, [], ◌∷◌, Text, codes,
  text_eq, ◌==◌, Bool-cases, if◌then◌else◌,
}
use compass4nfv.Result.{ok}
use compass4nfv.Value.{Value, null, bool, int, str, list, dict, value_eq}
use compass4nfv.Value.Access.{truthy, getitem, item_at}
use compass4nfv.Effects.{pure, lift, ◌>>=◌, ◌>>◌}
use compass4nfv.Regex.{Regex}
use compass4nfv.CheckValid.{
  ip_pattern, searched, is_valid_ip, err_print, check_address, check_gateway, check_setting,
}
use compass4nfv.CheckValid.Address.{IsAddress}
use compass4nfv.CheckValid.Address.Found.{is_valid_ip_lem}
use compass4nfv.CheckValid.Checks.{
  Checks, Checks-iff, Checks-lift, Checks-then, Checks-last, Reports-lift, Checks-branch,
  Checks-when,
}

-- A text that is an address.
abbrev pub IsIp : Value → Type 0
IsIp v = (s : Text) × (v ≡ str s) × IsAddress s

pub searched-str :
    (pattern : Regex) (v : Value) → searched pattern v ≡ ok true → (s : Text) × (v ≡ str s)
unfolding searched
searched-str pattern null h = cc h
searched-str pattern (bool b) h = cc h
searched-str pattern (int n) h = cc h
searched-str pattern (str s) h = (s, refl)
searched-str pattern (list vs) h = cc h
searched-str pattern (dict fs) h = cc h

is_valid_ip-str : (v : Value) → is_valid_ip v ≡ ok true → (s : Text) × (v ≡ str s)
unfolding is_valid_ip
is_valid_ip-str v h = elim (Bool-cases (truthy v)) [
  | inl there ↦ searched-str ip_pattern v (rw there at h)
  | inr empty ↦ cc (rw empty at h)
]

pub valid-IsIp : (v : Value) → ((b : Bool) × (is_valid_ip v ≡ ok b) × (b ≡ true)) ↔ IsIp v
valid-IsIp v = (
  λ (b, e, yes_).
      let valid : is_valid_ip v ≡ ok true = e ∙ ap ok yes_ in
      let (s, same) = is_valid_ip-str v valid in
      (s, same, (is_valid_ip_lem s).0 (ap is_valid_ip (sym same) ∙ valid)),
  λ (s, same, h). (true, ap is_valid_ip same ∙ (is_valid_ip_lem s).1 h, refl),
)

pub check_address-Checks :
    (i : Value) (info : Text) (address : Value)
    → Checks false (check_address i info address) (IsIp address)
unfolding check_address err_print
check_address-Checks i info address = Checks-iff (valid-IsIp address) (
    Checks-lift (is_valid_ip address) (λ valid.
      Checks-branch valid
        (Reports-lift (getitem i (codes "name")) (λ name s s' b e. (cc e, ground (arith, e))))))

-- The external network has a gateway that is an address.
abbrev pub HasGateway : Value → Type 0
HasGateway i =
    (name : Value) × (getitem i (codes "name") ≡ ok name)
    × (name ≡ str (codes "external") → (gw : Value) × (getitem i (codes "gw") ≡ ok gw) × IsIp gw)

-- The gateway itself.
gateway-Checks :
    (i name gw : Value)
    → Checks false
        (lift (is_valid_ip gw) >>= λ valid.
          if valid
          then pure false
          else (err_print (codes "%s") (gw ∷ [])
              >> (err_print (codes "ip_settings: name: %s gw: %s") (name ∷ gw ∷ []) >> pure true)))
        (IsIp gw)
unfolding err_print
gateway-Checks i name gw = Checks-iff (valid-IsIp gw) (
    Checks-lift (is_valid_ip gw)
      (λ valid. Checks-branch valid (λ s s' b e. (cc e, ground (arith, e)))))

check_gateway-Checks : (i : Value) → Checks false (check_gateway i) (HasGateway i)
unfolding check_gateway
check_gateway-Checks i =
    let gateway = λ (name : Value).
      Checks-when (name == str (codes "external")) {C = name ≡ str (codes "external")}
        (ground arith) (Checks-lift (getitem i (codes "gw")) (gateway-Checks i name)) in
    Checks-lift (getitem i (codes "name")) gateway

-- What stands under `ip_ranges` and `cidr` are addresses.
abbrev pub HasEnd : Value → Value → Type 0
HasEnd i range = (end : Value) × (item_at range 1 ≡ ok end) × (IsIp end × HasGateway i)

abbrev pub HasStart : Value → Value → Type 0
HasStart i range = (start : Value) × (item_at range 0 ≡ ok start) × (IsIp start × HasEnd i range)

abbrev pub HasRanges : Value → Type 0
HasRanges i =
    (ranges : Value) × (getitem i (codes "ip_ranges") ≡ ok ranges)
    × ((range : Value) × (item_at ranges 0 ≡ ok range) × HasStart i range)

-- One of `ip_settings` with addresses only.
abbrev pub IsGoodSetting : Value → Type 0
IsGoodSetting i = (cidr : Value) × (getitem i (codes "cidr") ≡ ok cidr) × (IsIp cidr × HasRanges i)

pub check_setting-Checks : (i : Value) → Checks false (check_setting i) (IsGoodSetting i)
unfolding check_setting
check_setting-Checks i =
    let last = λ (b1 b2 b3 : Bool).
      Checks-last {acc = ((false || b1) || b2) || b3} (λ b4. b1 || (b2 || (b3 || b4)))
        (check_gateway-Checks i) (λ b4. ground arith) in
    let ends = λ (b1 b2 : Bool) (range : Value). Checks-lift (item_at range 1) (λ end.
      Checks-then (check_address-Checks i (codes "ip_settings: name: %s ip_ranges: - %s") end)
        (last b1 b2)) in
    let starts = λ (b1 : Bool) (range : Value). Checks-lift (item_at range 0) (λ start.
      Checks-then (check_address-Checks i (codes "ip_settings: name: %s ip_ranges: - - %s") start)
        (λ b2. ends b1 b2 range)) in
    let ranged = λ (b1 : Bool).
      Checks-lift (getitem i (codes "ip_ranges"))
        (λ ranges. Checks-lift (item_at ranges 0) (starts b1)) in
    Checks-lift (getitem i (codes "cidr")) (λ cidr.
      Checks-then (check_address-Checks i (codes "ip_settings: name: %s cidr: %s") cidr) ranged)
