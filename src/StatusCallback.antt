-- ===== src/StatusCallback.antt =====
-- deploy/ansible_plugins/callback/status_callback.py: at the end of a playbook ansible tells the compass
-- server, for each host of the cluster, whether its tasks went well. What is displayed is left out.
pub mod Hooks
pub mod Mapping
pub mod Notices
pub mod Report
mod Tests
use compass4nfv.Base.{
  ℕ, ltb, Bool, true, false, not, ◌||◌, ◌&&◌, List, [], ◌∷◌, ◌++◌, map, Option, none, some, Text,
  codes, text_eq, ◌==◌, contains, if◌then◌else◌,
}
use compass4nfv.Base.Dict.{Dict, keys, lookup, insert}
use compass4nfv.Result.{
  Result, ok, err, or_raise, connection_error, value_error, type_error, index_error,
  attribute_error, runtime_error,
}
use compass4nfv.Value.{Value, str, value_eq, object}
use compass4nfv.Value.Access.{getitem, iterate, hashable}
use compass4nfv.Effects.{
  Method, get as get_method, post as post_method, Request, Response, request, Trace, Environment,
  show, Action, pure, lift, raise, raise_if, modify, for_each, ◌>>=◌, ◌>>◌,
}

-- What ansible has counted for a host.
pub record Summary : Type 0 where
  pub failures : ℕ
  pub unreachable : ℕ

-- `stats`: the hosts that have been processed, in no order, and the summary of any host.
pub record Stats : Type 0 where
  pub processed : List Text
  pub summarize : Text → Summary

-- `<` on texts
unfoldable pub text_lt : Text → Text → Bool
text_lt s [] = false
text_lt [] (d ∷ t) = true
text_lt (c ∷ s) (d ∷ t) =
    let rest = text_lt s t in if ltb c d then true else if ltb d c then false else rest

-- `sorted(texts)[0]`
unfoldable pub least : List Text → Result Text
unfolding text_lt
least [] = err index_error
least (s ∷ []) = ok s
least (s ∷ t ∷ more) =
    let rest = least (t ∷ more) in
    elim rest [ err e ↦ err e | ok u ↦ ok (if text_lt u s then u else s) ]

abbrev pub compass_host : Text
compass_host = codes "compass-deck"

-- `{"Content-type": "application/json", "Accept": "*/*"}`
abbrev pub json_headers : Dict Text Value
json_headers =
    (codes "Content-type", str (codes "application/json"))
    ∷ (codes "Accept", str (codes "*/*"))
    ∷ []

-- `headers["X-Auth-Token"] = token`
abbrev pub with_token : Value → Dict Text Value
with_token token = json_headers ++ ((codes "X-Auth-Token", token) ∷ [])

abbrev pub token_url : Text
token_url = codes "/api/users/token"

abbrev pub admin_credential : Value
admin_credential =
    object (
      (codes "email", str (codes "admin@huawei.com"))
      ∷ (codes "password", str (codes "admin"))
      ∷ [])

-- The body that is sent for a status, which is one of two.
unfoldable pub state_body : Text → Option Value
unfolding text_eq
state_body status =
    if status == codes "succ"
    then some (object ((codes "state", str (codes "SUCCESSFUL")) ∷ []))
    else if status == codes "error"
    then some (object ((codes "state", str (codes "ERROR")) ∷ []))
    else none

unfoldable pub raise_for_status : Response → Action Trace (Unit {0})
raise_for_status resp =
    raise_if (ltb resp.status 200 || ltb 300 resp.status) (runtime_error (codes "%s, %s, %s"))

-- Does the host's summary count a failure?
unfoldable pub has_failed : Summary → Bool
has_failed summary = ltb 0 summary.failures || ltb 0 summary.unreachable

-- `clusterhost_mapping.update({item["hostname"]: item["clusterhost_id"]})`, if the item is of the cluster
unfoldable pub map_item : Value → Value → Dict Value Value → Result (Dict Value Value)
unfolding getitem insert value_eq
map_item cluster_name item mapping = elim (getitem item (codes "clustername")) [
  | err e ↦ err e
  | ok name ↦
      if name == cluster_name
      then elim (getitem item (codes "hostname")) [
        | err e ↦ err e
        | ok hostname ↦ elim (getitem item (codes "clusterhost_id")) [
          | err e ↦ err e
          | ok hostid ↦
              if hashable hostname then ok (insert hostname hostid mapping) else err type_error
        ]
      ]
      else ok mapping
]

unfoldable pub map_items : Value → List Value → Dict Value Value → Result (Dict Value Value)
unfolding map_item
map_items cluster_name [] mapping = ok mapping
map_items cluster_name (item ∷ more) mapping = elim (map_item cluster_name item mapping) [
  | err e ↦ err e
  | ok mapping' ↦ map_items cluster_name more mapping'
]

-- `force_error`
unfoldable pub is_forced : Stats → Bool
unfolding has_failed text_eq
is_forced stats =
    contains (codes "localhost") stats.processed && has_failed (stats.summarize (codes "localhost"))

-- The status that is reported of a host.
unfoldable pub status_of : Stats → Bool → Text → Text
unfolding has_failed
status_of stats force_error hostname =
    if has_failed (stats.summarize hostname) || force_error then codes "error" else codes "succ"

module _ (E : Environment) where
  -- `conn.request(…)` and `conn.getresponse()`; the body is the value whose JSON is sent.
  unfoldable pub exchange : Method → Text → Option Value → Dict Text Value → Action Trace Response
  exchange method url body headers t =
      let r : Request = record {
        method = method;
        url = compass_host ++ url;
        params = none;
        body = body;
        headers = headers;
      } in
      (or_raise (E.reply (request r ∷ t)) connection_error, request r ∷ t)

  -- `json.loads(resp.read())`
  abbrev pub loads : Response → Result Value
  loads resp = or_raise resp.json value_error

  unfoldable pub auth : Action Trace Value
  unfolding exchange raise_for_status getitem
  auth = do
    resp ← exchange post_method token_url (some admin_credential) json_headers
    raise_for_status resp
    reply ← lift (loads resp)
    lift (getitem reply (codes "token"))

  abbrev pub state_url : Value → Text
  state_url hostid = codes "/api/clusterhosts/" ++ (show E hostid ++ codes "/state")

  unfoldable pub notify_host : Value → Text → Action Trace (Unit {0})
  unfolding state_body auth exchange raise_for_status show
  notify_host hostid status = elim (state_body status) [
    | none ↦ pure tt
    | some body ↦ do
      token ← auth
      resp ← exchange post_method (state_url hostid) (some body) (with_token token)
      raise_for_status resp
  ]

  -- The body of the loop over the mapping.
  unfoldable pub report_host : Stats → Bool → Dict Value Value → Value → Action Trace (Unit {0})
  unfolding lookup value_eq text_eq notify_host status_of
  report_host stats force_error mapping (str hostname) =
      if contains hostname stats.processed
      then elim (lookup (str hostname) mapping) [
        | none ↦ pure tt
        | some hostid ↦ notify_host hostid (status_of stats force_error hostname)
      ]
      else pure tt
  report_host stats force_error mapping v = pure tt

  -- The mapping of the cluster's hosts, read from the server.
  unfoldable pub get_mapping : Value → Action Trace (Dict Value Value)
  unfolding auth exchange raise_for_status iterate map_items
  get_mapping cluster_name = do
    token ← auth
    resp ← exchange get_method (codes "/api/clusterhosts") none (with_token token)
    raise_for_status resp
    clusterhost_data ← lift (loads resp)
    items ← lift (iterate clusterhost_data)
    lift (map_items cluster_name items [])

  -- `v2_playbook_on_stats`, where the play has these variables.
  unfoldable pub report_stats : Value → Stats → Action Trace (Unit {0})
  unfolding getitem least get_mapping is_forced for_each report_host
  report_stats all_vars stats = do
    host_vars ← lift (getitem all_vars (codes "hostvars"))
    first ← lift (least stats.processed)
    vars ← lift (getitem host_vars first)
    cluster_name ← lift (getitem vars (codes "cluster_name"))
    mapping ← get_mapping cluster_name
    for_each (report_host stats (is_forced stats) mapping) (E.order (keys mapping))
