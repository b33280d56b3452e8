-- ===== src/Restful/Token.antt =====
-- The token that `Client.get_token` (deploy/restful.py) keeps.
use compass4nfv.Base.{ℕ, ◌≡◌, ◌<◌, ◌≤◌, ap, Text, codes, some, ◌∷◌, arith, text_eq}
use compass4nfv.Base.Dict.{lookup, insert, lookup-insert}
use compass4nfv.Result.{ok}
use compass4nfv.Value.{Value}
use compass4nfv.Value.Access.{getitem}
use compass4nfv.Effects.{Environment, pure, ◌>>◌, Request, request}
use compass4nfv.Effects.Bind.{>>=-eq-ok}
use compass4nfv.Restful.{Session, get, post, get_token, keep_token, credential}
use compass4nfv.Restful.Sending.{get-Sends}

abbrev pub token_key : Text
token_key = codes "X-Auth-Token"

keep_token_low :
    (status : ℕ) (resp : Value) (s : Session) {s' : Session}
    → keep_token status resp s ≡ (ok tt, s')
    → status < 400
    → (token : Value) × (getitem resp (codes "token") ≡ ok token)
      × (s'.headers ≡ insert token_key token s.headers)
unfolding keep_token
keep_token_low status resp s e low = ground arith

keep_token_high :
    (status : ℕ) (resp : Value) (s : Session) {s' : Session}
    → keep_token status resp s ≡ (ok tt, s')
    → 400 ≤ status
    → s' ≡ s
unfolding keep_token
keep_token_high status resp s e high = ground arith

module _ (E : Environment) (email password : Value) (s : Session) where
  -- If `get_token` returns, then on a status below 400 the reply's token is the value of the
  -- header X-Auth-Token in the session, and the next GET request, to any URL, is sent with it; on
  -- another status the headers are as they were.
  pub get_token_authorizes :
      (status : ℕ) (resp : Value) (s' : Session)
      → get_token E email password s ≡ (ok (status, resp), s')
      → (status < 400
          → (token : Value) × (getitem resp (codes "token") ≡ ok token)
            × ((req_url : Text) (fields : Value)
                → (r : Request) × ((get E req_url fields s').1.trace ≡ request r ∷ s'.trace)
                  × (lookup token_key r.headers ≡ some token)))
        × (400 ≤ status → s'.headers ≡ s.headers)
  unfolding get_token
  get_token_authorizes status resp s' e =
      let login = post E (codes "/users/token") (credential email password) in
      let ((code, reply), t, sent, kept) =
        >>=-eq-ok login (λ (code, reply). keep_token code reply >> pure (code, reply)) s e in
      let (_, u, stored, done) =
        >>=-eq-ok (keep_token code reply) (λ _. pure (code, reply)) t kept in
      (
        λ low.
            let (token, has, headers) = keep_token_low code reply t stored (ground arith) in
            (
              token,
              ground arith,
              λ req_url fields.
                  let next = get-Sends E req_url fields s' in
                  (
                    next.sent,
                    ap (λ (x : Session). x.trace) next.state,
                    ground
                        (arith, next.authorized, lookup-insert token_key token_key token t.headers),
                  ),
            ),
        λ high. ground (arith, keep_token_high code reply t stored),
      )
