-- ===== src/StatusCallback/Tests.antt =====
-- A playbook on two hosts, one of which has failed, for
-- deploy/ansible_plugins/callback/status_callback.py.
use compass4nfv.Base.{
  ◌≡◌, refl, ℕ, [], ◌∷◌, some, Text, codes, text_eq, number_eq, ◌==◌, if◌then◌else◌,
}
use compass4nfv.Result.{ok}
use compass4nfv.Value.{Value, str, num, array, object, value_eq}
use compass4nfv.Effects.{Environment, Trace, requests}
use compass4nfv.Effects.Sample.{sample, answer_at}
use compass4nfv.StatusCallback.{Stats, report_stats}
use compass4nfv.StatusCallback.Notices.{notices}
use compass4nfv.StatusCallback.Report.{Reported, report_stats-Reported}

abbrev item : Text → Text → ℕ → Value
item cluster hostname id = object (
    (codes "clustername", str cluster)
    ∷ (codes "hostname", str hostname)
    ∷ (codes "clusterhost_id", num id)
    ∷ [])

-- The server's list of hosts.
abbrev hosts : Value
hosts = array (
    item (codes "opnfv") (codes "host1") 1
    ∷ item (codes "opnfv") (codes "host2") 2
    ∷ item (codes "other") (codes "host3") 3
    ∷ [])

-- The first reply has a token, the second the list.
abbrev server : Environment
server = record sample {
  reply = λ t.
      some
        (answer_at (object ((codes "token", str (codes "secret")) ∷ []) ∷ hosts ∷ []) (requests t));
}

abbrev variables : Value
variables = object (
    (
      codes "hostvars",
      object ((codes "host1", object ((codes "cluster_name", str (codes "opnfv")) ∷ [])) ∷ []),
    )
    ∷ [])

abbrev counted : Stats
counted = record {
  processed = codes "host2" ∷ codes "host1" ∷ [];
  summarize = λ host.
      if host == codes "host2"
      then record { failures = 1; unreachable = 0 }
      else record { failures = 0; unreachable = 0 };
}

abbrev finished : Trace
finished = (report_stats server variables counted []).1

two_reports :
    notices finished
    ≡ (
      codes "compass-deck/api/clusterhosts/1/state",
      some (object ((codes "state", str (codes "SUCCESSFUL")) ∷ [])),
    )
      ∷ (
        codes "compass-deck/api/clusterhosts/2/state",
        some (object ((codes "state", str (codes "ERROR")) ∷ [])),
      )
      ∷ []
unfolding report_stats notices text_eq
two_reports = refl

report_returns : report_stats server variables counted [] ≡ (ok tt, finished)
unfolding report_stats text_eq
report_returns = refl

report_stats-Reported_example : Reported server variables counted [] finished
report_stats-Reported_example =
    report_stats-Reported server variables counted [] finished report_returns
