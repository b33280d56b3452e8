-- ===== src/CheckValid/Found.antt =====
-- What `is_valid_ip` and `is_valid_mac` (util/check_valid.py) search in a text.
use compass4nfv.Base.{◌≡◌, refl, sym, ap, false, not, [], ◌∷◌, Text, if◌then◌else◌}
use compass4nfv.Result.{ok}
use compass4nfv.Value.{str}
use compass4nfv.Value.Access.{truthy}
use compass4nfv.Regex.{Regex, search}
use compass4nfv.CheckValid.{ip_pattern, mac_pattern, searched, is_valid_ip, is_valid_mac}

-- A pattern that is not found in the empty text.
searched-search :
    (pattern : Regex) (s : Text)
    → search pattern [] ≡ false
    → (if not (truthy (str s)) then ok false else searched pattern (str s)) ≡ ok (search pattern s)
unfolding searched
searched-search pattern [] none = ap ok (sym none)
searched-search pattern (c ∷ s) none = refl

pub is_valid_ip-search : (s : Text) → is_valid_ip (str s) ≡ ok (search ip_pattern s)
unfolding is_valid_ip
is_valid_ip-search s = searched-search ip_pattern s refl

pub is_valid_mac-search : (s : Text) → is_valid_mac (str s) ≡ ok (search mac_pattern s)
unfolding is_valid_mac
is_valid_mac-search s = searched-search mac_pattern s refl
