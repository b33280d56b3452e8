-- ===== src/StatusCallback/Notices.antt =====
-- What the callback of deploy/ansible_plugins/callback/status_callback.py tells the server.
use compass4nfv.Base.{
  ◌≡◌, sym, ap, ◌∙◌, inl, inr, Bool, false, not, ◌||◌, ◌&&◌, ltb, List, [], ◌∷◌, ◌++◌, append-nil,
  Option, none, some, Text, codes, text_eq, number_eq, ◌==◌, contains, Bool-cases, Option-cases,
  if◌then◌else◌,
}
use compass4nfv.Base.Dict.{Dict, lookup}
use compass4nfv.Result.{or_raise, value_error}
use compass4nfv.Value.{Value, null, bool, int, list, dict, str, value_eq, object}
use compass4nfv.Value.Access.{getitem, iterate}
use compass4nfv.Effects.{
  Method, get, post, put, patch, delete, Request, Response, request, sleep, clock, command, start,
  is_alive, terminate, write, Trace, Environment, show, Action, for_each,
}
use compass4nfv.Effects.Emits.{
  Emits, Emits-stays, Emits-pure, Emits-lift, Emits-bind, Emits-for_each, concat_map,
}
use compass4nfv.StatusCallback.{
  Stats, compass_host, token_url, admin_credential, state_body, raise_for_status, has_failed,
  map_items, exchange, auth, state_url, notify_host, status_of, report_host, get_mapping, is_forced,
  with_token, json_headers,
}

-- A message about a host: where it goes, and what it says.
abbrev pub Notice : Type 0
Notice = Text × Option Value

-- Does the request ask for no token?
abbrev is_notice : Method → Text → Bool
is_notice post url = not (url == compass_host ++ token_url)
is_notice get url = false
is_notice put url = false
is_notice patch url = false
is_notice delete url = false

-- The messages of a run, oldest first: the POST requests, but for those that ask for a token.
unfoldable pub notices : Trace → List Notice
unfolding text_eq
notices [] = []
notices (request r ∷ t) =
    let before = notices t in
    if is_notice r.method r.url then before ++ ((r.url, r.body) ∷ []) else before
notices (sleep n ∷ t) = notices t
notices (clock ∷ t) = notices t
notices (command c ∷ t) = notices t
notices (start ∷ t) = notices t
notices (is_alive ∷ t) = notices t
notices (terminate ∷ t) = notices t
notices (write path v ∷ t) = notices t

-- Has ansible counted a failure of this host, or that it was unreachable?
abbrev pub counted : Stats → Text → Bool
counted stats host =
    ltb 0 (stats.summarize host).failures || ltb 0 (stats.summarize host).unreachable

-- What is said of a host: ERROR if that has been counted for the host, or for localhost where it has been
-- processed.
abbrev pub verdict : Stats → Text → Value
unfolding text_eq
verdict stats hostname =
    if counted stats hostname
      || (contains (codes "localhost") stats.processed && counted stats (codes "localhost"))
    then object ((codes "state", str (codes "ERROR")) ∷ [])
    else object ((codes "state", str (codes "SUCCESSFUL")) ∷ [])

state_body-verdict :
    (stats : Stats) (hostname : Text)
    → state_body (status_of stats (is_forced stats) hostname) ≡ some (verdict stats hostname)
unfolding state_body status_of has_failed is_forced verdict text_eq
state_body-verdict stats hostname =
    elim (Bool-cases (
      counted stats hostname
      || (contains (codes "localhost") stats.processed && counted stats (codes "localhost")))) [
        | inl failed ↦ rw failed
        | inr fine ↦ rw fine
      ]

module _ (E : Environment) where
  -- The message that a host of the cluster is due, if it has been processed.
  unfoldable pub due : Stats → Dict Value Value → Value → List Notice
  unfolding text_eq value_eq lookup
  due stats mapping (str hostname) =
      if contains hostname stats.processed
      then elim (lookup (str hostname) mapping) [
        | none ↦ []
        | some hostid ↦
            (
              codes "compass-deck/api/clusterhosts/" ++ (show E hostid ++ codes "/state"),
              some (verdict stats hostname),
            )
            ∷ []
      ]
      else []
  due stats mapping v = []

  abbrev pub all_due : Stats → Dict Value Value → List Value → List Notice
  all_due stats mapping vs = concat_map (due stats mapping) vs

  -- An action whose messages are these, where it returns.
  abbrev pub Says : {A : Type 0} → Action Trace A → List Notice → Type 0
  Says m news = Emits notices m news

  -- A request that is no message, and one that is.
  Says-exchange :
      (method : Method) (url : Text) (body : Option Value) (headers : Dict Text Value)
      → Says
          (exchange E method url body headers)
          (if is_notice method (compass_host ++ url) then (compass_host ++ url, body) ∷ [] else [])
  unfolding exchange notices
  Says-exchange method url body headers = record {
    emits = λ t t' resp e.
        let r : Request = record {
          method = method;
          url = compass_host ++ url;
          params = none;
          body = body;
          headers = headers;
        } in
        let same : request r ∷ t ≡ t' = cc in
        ap notices (sym same) ∙ elim (Bool-cases (is_notice method (compass_host ++ url))) [
          | inl message ↦ rw message
          | inr other ↦ rw other (sym (append-nil (notices t)))
        ];
  }

  raise_for_status-Says : (resp : Response) → Says (raise_for_status resp) []
  unfolding raise_for_status
  raise_for_status-Says resp = Emits-stays notices (λ t t' b e. cc e)

  auth-Says : Says (auth E) []
  unfolding auth text_eq
  auth-Says =
      let read = λ (resp : Response).
        Emits-bind notices (Emits-lift notices (or_raise resp.json value_error))
          (λ reply. Emits-lift notices (getitem reply (codes "token"))) in
      Emits-bind notices (Says-exchange post token_url (some admin_credential) json_headers)
        (λ resp. Emits-bind notices (raise_for_status-Says resp) (λ _. read resp))

  notify_host-Says :
      (hostid : Value) (status : Text) (body : Value)
      → state_body status ≡ some body
      → Says (notify_host E hostid status) ((compass_host ++ state_url E hostid, some body) ∷ [])
  unfolding notify_host text_eq
  notify_host-Says hostid status body known =
      let sent = λ (token : Value).
        Emits-bind notices (Says-exchange post (state_url E hostid) (some body) (with_token token))
          (λ resp. raise_for_status-Says resp) in
      rw (known, notify_host) (Emits-bind notices auth-Says sent)

  report_host-Says :
      (stats : Stats) (mapping : Dict Value Value) (v : Value)
      → Says (report_host E stats (is_forced stats) mapping v) (due stats mapping v)
  unfolding report_host due
  report_host-Says stats mapping null = Emits-pure notices tt
  report_host-Says stats mapping (bool b) = Emits-pure notices tt
  report_host-Says stats mapping (int n) = Emits-pure notices tt
  report_host-Says stats mapping (list vs) = Emits-pure notices tt
  report_host-Says stats mapping (dict fs) = Emits-pure notices tt
  report_host-Says stats mapping (str hostname) =
      elim (Bool-cases (contains hostname stats.processed)) [
        | inr absent ↦ rw absent (Emits-pure notices tt)
        | inl there ↦ elim (Option-cases (lookup (str hostname) mapping)) [
          | inl unknown ↦ rw (there, unknown) (Emits-pure notices tt)
          | inr (hostid, known) ↦
              rw (there, known)
                (notify_host-Says hostid (status_of stats (is_forced stats) hostname)
                  (verdict stats hostname) (state_body-verdict stats hostname))
        ]
      ]

  pub reports-Says :
      (stats : Stats) (mapping : Dict Value Value) (vs : List Value)
      → Says
          (for_each (report_host E stats (is_forced stats) mapping) vs)
          (all_due stats mapping vs)
  reports-Says stats mapping vs =
      Emits-for_each notices (due stats mapping) (report_host-Says stats mapping) vs

  pub get_mapping-Says : (cluster_name : Value) → Says (get_mapping E cluster_name) []
  unfolding get_mapping text_eq
  get_mapping-Says cluster_name =
      let mapped = λ (resp : Response).
        Emits-bind notices (Emits-lift notices (or_raise resp.json value_error)) (λ reply.
          Emits-bind notices (Emits-lift notices (iterate reply))
            (λ items. Emits-lift notices (map_items cluster_name items []))) in
      let answered = λ (token : Value).
        Emits-bind notices (Says-exchange get (codes "/api/clusterhosts") none (with_token token))
          (λ resp. Emits-bind notices (raise_for_status-Says resp) (λ _. mapped resp)) in
      Emits-bind notices auth-Says answered
