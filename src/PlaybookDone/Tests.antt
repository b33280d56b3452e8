-- ===== src/PlaybookDone/Tests.antt =====
-- A playbook on one host, for deploy/ansible_plugins/callback/playbook_done.py.
use compass4nfv.Base.{◌≡◌, refl, true, [], ◌∷◌, codes, text_eq, Text}
use compass4nfv.Result.{ok, err, attribute_error, connection_error, exception}
use compass4nfv.Value.{Value, null, str, object}
use compass4nfv.StatusCallback.{Stats}
use compass4nfv.PlaybookDone.{Plugin, default_flags, start_plugin, log_in, on_play_start, on_stats}

-- The client is the server's url.
abbrev fresh : Plugin Text
unfolding start_plugin
fresh = start_plugin (λ url. ok url) default_flags

abbrev counted : Stats
counted = record {
  processed = codes "host1" ∷ [];
  summarize = λ host. record { failures = 1; unreachable = 0 };
}

abbrev variables : Value
variables = object (
    (
      codes "hostvars",
      object ((codes "host1", object ((codes "cluster_name", str (codes "opnfv")) ∷ [])) ∷ []),
    )
    ∷ [])

playbook_ends : on_stats counted (on_play_start variables fresh) ≡ ok tt
unfolding on_play_start on_stats text_eq start_plugin
playbook_ends = refl

-- Statistics without a play.
no_play : on_stats counted fresh ≡ err attribute_error
unfolding on_stats start_plugin
no_play = refl

no_server :
    (start_plugin {Client = Text} (λ url. err connection_error) default_flags).disabled ≡ true
unfolding start_plugin
no_server = refl

refused :
    log_in
      (λ (client email password : Text). ok (401, null))
      default_flags
      (codes "http://compass-deck/api")
    ≡ err (exception (codes "failed to login %s with user %s"))
unfolding log_in
refused = refl
