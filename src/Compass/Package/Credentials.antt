-- ===== src/Compass/Package/Credentials.antt =====
-- The credential and moon options that `CompassClient.set_cluster_package_config` (deploy/client.py)
-- takes apart.
use compass4nfv.Base.{List, [], ◌∷◌, some, Text, codes, text_eq, number_eq}
use compass4nfv.Base.Dict.{Dict, insert, lookup}
use compass4nfv.Result.{Result, ok, or_raise, exception, ◌>>=◌}
use compass4nfv.Value.{Value, str, dict, object, entries}
use compass4nfv.Text.{split_once}

-- `<name>:<key>=<value>`: the three parts.
unfoldable pub triple_of : Text → Result (Text × Text × Text)
unfolding split_once
triple_of item = do
  (name, pair) ← or_raise (split_once b':' item) (exception (codes "there is no : in %s"))
  (key, value) ← or_raise (split_once b'=' pair) (exception (codes "there is no = in %s"))
  ok (name, key, value)

unfoldable pub credentials_of : List Text → Dict Text Value → Result (Dict Text Value)
unfolding triple_of insert text_eq
credentials_of [] config = ok config
credentials_of (c ∷ cs) config = do
  (name, username, password) ← triple_of c
  let credential = object ((codes "username", str username) ∷ (codes "password", str password) ∷ [])
  credentials_of cs (insert name credential config)

-- `config[role][key] = value`, where a role that is new starts as an empty dict.
abbrev set_moon : Text → Text → Text → Dict Text Value → Dict Text Value
unfolding lookup insert text_eq
set_moon role key value config = elim (lookup role config) [
  | some (dict fs) ↦ insert role (object (insert key (str value) (entries fs))) config
  | _ ↦ insert role (object ((key, str value) ∷ [])) config
]

unfoldable pub moon_of : List Text → Dict Text Value → Result (Dict Text Value)
unfolding triple_of lookup insert text_eq
moon_of [] config = ok config
moon_of (c ∷ cs) config = do
  (role, key, value) ← triple_of c
  moon_of cs (set_moon role key value config)
