-- ===== src/Restful.antt =====
-- `class Client` of deploy/restful.py: the wrapper of the compass REST api. Its state is the
-- `requests` session (headers, proxies, stream), with the trace of the requests sent. An optional
-- argument that a caller leaves out is passed as its default. Logging is left out.
pub mod Switches
pub mod SwitchMachines
pub mod Machines
pub mod Subnets
pub mod Adapters
pub mod Clusters
pub mod ClusterHosts
pub mod ClusterHostConfig
pub mod Hosts
pub mod HostNetworks
pub mod Sending
pub mod Token
pub mod Faults
mod Tests
use compass4nfv.Base.{
  ℕ, List, [], ◌∷◌, ◌++◌, Option, none, some, Text, codes, text_eq, ltb, if◌then◌else◌,
}
use compass4nfv.Base.Dict.{Dict, insert, update}
use compass4nfv.Result.{Result, ok, err, type_error, value_error, connection_error}
use compass4nfv.Value.{Value, null, str, dict, entries, object}
use compass4nfv.Value.Access.{truthy, getitem}
use compass4nfv.Effects.{
  Method, get as get_method, post as post_method, put as put_method, patch as patch_method,
  delete as delete_method, Request, Response, Event, request, Trace, Environment, Action, pure,
  lift, modify, ◌>>=◌, ◌>>◌,
}

pub record Session : Type 0 where
  pub url_ : Text
  pub headers : Dict Text Value
  pub proxies : Option Value
  pub stream : Option Value
  pub trace : Trace

-- The status code and the decoded object.
abbrev pub Reply : Type 0
Reply = ℕ × Value

abbrev pub Call : Type 0
Call = Action Session Reply

-- The session that `__init__` sets up. `defaults` are the headers that `requests.Session()` has.
unfoldable pub init :
    Dict Text Value → Text → Dict Text Value → Option Value → Option Value → Trace → Session
unfolding update insert text_eq
init defaults url headers proxies stream trace =
    let given = update defaults headers in
    record {
      url_ = url;
      headers = update given ((codes "Accept", str (codes "application/json")) ∷ []);
      proxies = proxies;
      stream = stream;
      trace = trace;
    }

-- The status code, and the JSON object or what stands for a body that is not JSON.
unfoldable pub get_response : Response → Reply
get_response resp = elim resp.json [
  | some v ↦ (resp.status, v)
  | none ↦ (
    resp.status,
    object (
        (codes "status", str (codes "Json Parsing Failed"))
        ∷ (codes "message", str resp.content)
        ∷ []),
  )
]

-- `if data:` sends the data, else nothing.
unfoldable pub payload : Value → Option Value
payload fields = if truthy fields then some fields else none

-- `if v: data[k] = v` for each pair in turn.
unfoldable pub given : Dict Text Value → Dict Text Value → Dict Text Value
unfolding insert text_eq
given [] fields = fields
given ((k, v) ∷ args) fields = given args (if truthy v then insert k v fields else fields)

-- The `data` of a method that fills an empty dict with the arguments that are given.
unfoldable pub filled : Dict Text Value → Value
unfolding given
filled args = object (given args [])

-- `data = raw_data` if that is given, else the filled dict.
unfoldable pub raw_or : Value → Value → Value
raw_or raw_data fields = if truthy raw_data then raw_data else fields

-- `data.update(raw_data)` if that is given, else `data` and the arguments that are given. A list of
-- pairs, which `update` takes too, is not modelled.
unfoldable pub updated : Value → Dict Text Value → Dict Text Value → Result Value
unfolding update given insert text_eq
updated (dict fs) fields args =
    if truthy (dict fs)
    then ok (object (update fields (entries fs)))
    else ok (object (given args fields))
updated (str s) fields args =
    if truthy (str s) then err value_error else ok (object (given args fields))
updated raw fields args = if truthy raw then err type_error else ok (object (given args fields))

abbrev pub credential : Value → Value → Value
credential email password = object ((codes "email", email) ∷ (codes "password", password) ∷ [])

unfoldable pub keep_token : ℕ → Value → Action Session (Unit {0})
unfolding getitem insert text_eq
keep_token status resp =
    if ltb status 400
    then (do
      token ← lift (getitem resp (codes "token"))
      modify (λ s. record s { headers = insert (codes "X-Auth-Token") token s.headers }))
    else pure tt

module _ (E : Environment) where
  -- The session sends one request; `requests` raises if no response comes back.
  unfoldable pub send : (Session → Request) → Action Session Response
  send build s =
      let s' = record s { trace = request (build s) ∷ s.trace } in
      elim (E.reply s'.trace) [ none ↦ (err connection_error, s') | some resp ↦ (ok resp, s') ]

  unfoldable pub get : Text → Value → Call
  unfolding send get_response payload
  get req_url fields = do
    resp ← send λ s. record {
      method = get_method;
      url = s.url_ ++ req_url;
      params = payload fields;
      body = none;
      headers = s.headers;
    }
    pure (get_response resp)

  -- `_post`, `_put` and `_patch` differ in the method alone.
  unfoldable pub with_body : Method → Text → Value → Call
  unfolding send get_response payload
  with_body method req_url fields = do
    resp ← send λ s. record {
      method = method;
      url = s.url_ ++ req_url;
      params = none;
      body = payload fields;
      headers = s.headers;
    }
    pure (get_response resp)

  unfoldable pub post : Text → Value → Call
  unfolding with_body
  post = with_body post_method

  unfoldable pub put : Text → Value → Call
  unfolding with_body
  put = with_body put_method

  unfoldable pub patch : Text → Value → Call
  unfolding with_body
  patch = with_body patch_method

  unfoldable pub delete : Text → Call
  unfolding send get_response
  delete req_url = do
    resp ← send λ s. record {
      method = delete_method;
      url = s.url_ ++ req_url;
      params = none;
      body = none;
      headers = s.headers;
    }
    pure (get_response resp)

  unfoldable pub login : Value → Value → Call
  unfolding post
  login email password = post (codes "/users/login") (credential email password)

  -- On a status below 400 the token becomes a header of the session.
  unfoldable pub get_token : Value → Value → Call
  unfolding post keep_token
  get_token email password = do
    (status, resp) ← post (codes "/users/token") (credential email password)
    keep_token status resp
    pure (status, resp)

  unfoldable pub get_users : Call
  unfolding get
  get_users = get (codes "/users") null
