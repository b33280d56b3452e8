-- ===== src/Compass/Package/Given.antt =====
-- The credentials that `set_cluster_package_config` (deploy/client.py) reads from an option.
use compass4nfv.Base.{
  ◌≡◌, refl, false, List, [], ◌∷◌, ◌++◌, map, Text, contains, number_eq, text_eq, All, codes,
}
use compass4nfv.Base.Dict.{Dict, insert, update}
use compass4nfv.Result.{ok}
use compass4nfv.Value.{Value, str, object}
use compass4nfv.Text.Laws.{split_once-append}
use compass4nfv.Compass.Package.Credentials.{triple_of, credentials_of}

pub record Credential : Type 0 where
  pub service : Text
  pub username : Text
  pub password : Text

-- `<service>:<username>=<password>`
abbrev pub written : Credential → Text
written c = c.service ++ (b':' ∷ (c.username ++ (b'=' ∷ c.password)))

abbrev pub entry : Credential → Text × Value
entry c = (
  c.service,
  object ((codes "username", str c.username) ∷ (codes "password", str c.password) ∷ []),
)

-- The two names hold no separator; the password may.
abbrev pub IsReadable : Credential → Type 0
IsReadable c = (contains b':' c.service ≡ false) × (contains b'=' c.username ≡ false)

triple_of-written :
    (c : Credential) → IsReadable c → triple_of (written c) ≡ ok (c.service, c.username, c.password)
unfolding triple_of
triple_of-written c (service, username) =
    rw (split_once-append b':' c.service (c.username ++ (b'=' ∷ c.password)) service)
      (rw (split_once-append b'=' c.username c.password username) refl)

-- Credentials that are written as the option wants them are read back: each goes into the dict under
-- its service, a later one in place of an earlier one of the same service. Neither the name of a
-- service may hold a colon nor a user's name an equals sign.
pub credentials_of-written :
    (cs : List Credential) (config : Dict Text Value)
    → All IsReadable cs
    → credentials_of (map written cs) config ≡ ok (update config (map entry cs))
unfolding credentials_of update
credentials_of-written [] config h = refl
credentials_of-written (c ∷ cs) config (readable, h) =
    rw (triple_of-written c readable)
      (credentials_of-written cs (insert c.service (entry c).1 config) h)
