-- ===== src/Restful/Tests.antt =====
-- Calls of the REST client against the sample server.
use compass4nfv.Base.{◌≡◌, ◌≢◌, ◌≤◌, ◌<◌, refl, [], ◌∷◌, none, some, Text, codes, text_eq}
use compass4nfv.Base.Dict.{lookup}
use compass4nfv.Result.{ok}
use compass4nfv.Value.{Value, str, num, value_eq}
use compass4nfv.Value.Access.{getitem}
use compass4nfv.Effects.{Request, request}
use compass4nfv.Effects.Sample.{sample, answer}
use compass4nfv.Restful.{Session, get, get_token, get_response}
use compass4nfv.Restful.Machines.{delete_machine, get_machine}
use compass4nfv.Restful.Token.{token_key, get_token_authorizes}
use compass4nfv.Restful.Faults.{delete_machine_misses}

abbrev session : Session
session = record {
  url_ = codes "http://127.0.0.1/api";
  headers = [];
  proxies = none;
  stream = none;
  trace = [];
}

abbrev logged_in : Session
unfolding get_token
logged_in = (get_token sample (str (codes "admin")) (str (codes "root")) session).1

abbrev reply : Value
unfolding get_response
reply = (get_response answer).1

logged_in_returns :
    get_token sample (str (codes "admin")) (str (codes "root")) session
    ≡ (ok (200, reply), logged_in)
unfolding get_token logged_in reply
logged_in_returns = refl

get_token_authorizes_example :
    (200 < 400
      → (token : Value) × (getitem reply (codes "token") ≡ ok token)
        × ((req_url : Text) (fields : Value)
            → (r : Request) × ((get sample req_url fields logged_in).1.trace
                ≡ request r ∷ logged_in.trace)
              × (lookup token_key r.headers ≡ some token)))
    × (400 ≤ 200 → logged_in.headers ≡ session.headers)
get_token_authorizes_example =
    get_token_authorizes sample (str (codes "admin")) (str (codes "root")) session 200 reply
      logged_in logged_in_returns

delete_machine_misses_example :
    (deleted read : Request) × ((delete_machine sample (num 1) session).1.trace
      ≡ request deleted ∷ session.trace)
    × ((get_machine sample (num 1) session).1.trace ≡ request read ∷ session.trace)
    × (deleted.url ≢ read.url)
delete_machine_misses_example = delete_machine_misses sample (num 1) session
