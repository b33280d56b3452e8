-- ===== src/Restful/Sending.antt =====
-- What each verb of `class Client` (deploy/restful.py) sends and leaves.
use compass4nfv.Base.{◌≡◌, ◌≢◌, refl, Text, none, ◌∷◌, ◌++◌, arith}
use compass4nfv.Result.{err, out_of_fuel}
use compass4nfv.Value.{Value}
use compass4nfv.Effects.{
  Method, get as get_method, delete as delete_method, Request, request, Environment,
}
use compass4nfv.Restful.{Session, Call, get, delete, with_body, payload}

-- One request is sent, to that URL; nothing else of the session changes; and the call raises only
-- what `requests` raises.
pub record Sends (m : Call) (req_url : Text) (s : Session) : Type 0 where
  pub sent : Request
  pub at : sent.url ≡ s.url_ ++ req_url
  pub authorized : sent.headers ≡ s.headers
  pub state : (m s).1 ≡ record s { trace = request sent ∷ s.trace }
  pub outcome : (m s).0 ≢ err out_of_fuel

module _ (E : Environment) (req_url : Text) (fields : Value) (s : Session) where
  abbrev get_request : Request
  unfolding payload
  get_request = record {
    method = get_method;
    url = s.url_ ++ req_url;
    params = payload fields;
    body = none;
    headers = s.headers;
  }

  pub get-Sends : Sends (get E req_url fields) req_url s
  unfolding get
  get-Sends = record {
    sent = get_request;
    at = refl;
    authorized = refl;
    state = ground arith;
    outcome = ground arith;
  }

  abbrev body_request : Method → Request
  unfolding payload
  body_request method = record {
    method = method;
    url = s.url_ ++ req_url;
    params = none;
    body = payload fields;
    headers = s.headers;
  }

  pub with_body-Sends : (method : Method) → Sends (with_body E method req_url fields) req_url s
  unfolding with_body
  with_body-Sends method = record {
    sent = body_request method;
    at = refl;
    authorized = refl;
    state = ground arith;
    outcome = ground arith;
  }

module _ (E : Environment) (req_url : Text) (s : Session) where
  abbrev delete_request : Request
  delete_request = record {
    method = delete_method;
    url = s.url_ ++ req_url;
    params = none;
    body = none;
    headers = s.headers;
  }

  pub delete-Sends : Sends (delete E req_url) req_url s
  unfolding delete
  delete-Sends = record {
    sent = delete_request;
    at = refl;
    authorized = refl;
    state = ground arith;
    outcome = ground arith;
  }
