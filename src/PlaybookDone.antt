-- ===== src/PlaybookDone.antt =====
-- deploy/ansible_plugins/callback/playbook_done.py: a callback at the end of a playbook. What it displays
-- is left out.
mod Tests
use compass4nfv.Base.{
  ℕ, Bool, true, false, ◌||◌, List, [], ◌∷◌, Option, none, some, Text, codes, leb, if◌then◌else◌,
}
use compass4nfv.Result.{
  Result, ok, err, or_raise, raise_if, attribute_error, exception, ◌>>=◌, ◌>>◌,
}
use compass4nfv.Value.{Value, str}
use compass4nfv.Value.Access.{getitem}
use compass4nfv.StatusCallback.{Stats, least, has_failed}

-- `flags.OPTIONS`
pub record Flags : Type 0 where
  pub compass_server : Text
  pub compass_user_email : Text
  pub compass_user_password : Text

abbrev pub default_flags : Flags
default_flags = record {
  compass_server = codes "http://compass-deck/api";
  compass_user_email = codes "admin@huawei.com";
  compass_user_password = codes "admin";
}

-- The fields that `__init__` sets. The client is that of the package compass, which is a parameter.
pub record Plugin (Client : Type 0) : Type 0 where
  -- a play is what its variables are
  pub play : Option Value
  pub disabled : Bool
  pub client : Option Client

-- `__init__`: if no client can be made, the plugin is disabled.
unfoldable pub start_plugin : {Client : Type 0} → (Text → Result Client) → Flags → Plugin Client
start_plugin new_client flags = elim (new_client flags.compass_server) [
  | ok c ↦ record { play = none; disabled = false; client = some c }
  | err e ↦ record { play = none; disabled = true; client = none }
]

-- `_login`, on the answer of the client's `get_token`
unfoldable pub log_in :
    {Client : Type 0} → (Client → Text → Text → Result (ℕ × Value)) → Flags → Client → Result Value
unfolding getitem
log_in get_token flags client = do
  (status, resp) ← get_token client flags.compass_user_email flags.compass_user_password
  raise_if (leb 400 status) (exception (codes "failed to login %s with user %s"))
  getitem resp (codes "token")

unfoldable pub on_play_start : {Client : Type 0} → Value → Plugin Client → Plugin Client
on_play_start play p = record p { play = some play }

-- Has a host of the playbook failed?
unfoldable pub any_failed : Stats → List Text → Bool
unfolding has_failed
any_failed stats [] = false
any_failed stats (host ∷ hosts) = has_failed (stats.summarize host) || any_failed stats hosts

-- It changes nothing, and both ends of the method return nothing.
unfoldable pub on_stats : {Client : Type 0} → Stats → Plugin Client → Result (Unit {0})
unfolding getitem least any_failed
on_stats stats p = do
  all_vars ← or_raise p.play attribute_error
  host_vars ← getitem all_vars (codes "hostvars")
  first ← least stats.processed
  vars ← getitem host_vars first
  cluster_name ← getitem vars (codes "cluster_name")
  if any_failed stats stats.processed then ok tt else ok tt
