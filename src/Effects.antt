-- ===== src/Effects.antt =====
-- How the program meets its environment. A program's state holds the trace of what it has done to
-- the outside world; the environment answers as a function of that trace, so a server, a clock or
-- a process that changes over time is one such function.
pub mod Bind
pub mod Sample
pub mod Emits
pub mod Runs
use compass4nfv.Base.{
  ℕ, zero, suc, Bool, true, false, List, [], ◌∷◌, Option, Text, codes, ◌++◌, contains, ◌≡◌, ◌+◌,
  ◌≤◌, if◌then◌else◌,
}
use compass4nfv.Base.Int.{pos, negsuc}
use compass4nfv.Base.Dict.{Dict}
use compass4nfv.Result.{Error, Result, ok, err, assertion_error}
use compass4nfv.Value.{Value, null, bool, int, str, list, dict, value_eq}
use compass4nfv.Text.{decimal}

pub data Method : Type 0 where
  get post put patch delete : Method

-- A request as the `requests` session sends it, with the session's headers at that time.
pub record Request : Type 0 where
  pub method : Method
  pub url : Text
  pub params : Option Value
  pub body : Option Value
  pub headers : Dict Text Value

-- `json` is what the body parses to, if it is JSON.
pub record Response : Type 0 where
  pub status : ℕ
  pub json : Option Value
  pub content : Text

pub data Event : Type 0 where
  request : Request → Event
  sleep : ℕ → Event
  clock : Event
  command : Text → Event
  start is_alive terminate : Event
  -- a file and what is written into it
  write : Text → Value → Event

-- The newest event comes first.
abbrev pub Trace : Type 0
Trace = List Event

-- How many requests have been sent.
abbrev pub requests : Trace → ℕ
requests [] = 0
requests (request r ∷ t) = suc (requests t)
requests (sleep n ∷ t) = requests t
requests (clock ∷ t) = requests t
requests (command s ∷ t) = requests t
requests (start ∷ t) = requests t
requests (is_alive ∷ t) = requests t
requests (terminate ∷ t) = requests t
requests (write path v ∷ t) = requests t

-- What the program takes from outside: the peers, the clock (in seconds), other processes, files,
-- the libraries netaddr and re at the patterns of the configuration, and the order in which
-- Python's hash tables yield their keys.
pub record Environment : Type 0 where
  -- the answer to the newest event; `none` if `requests` raises
  pub reply : Trace → Option Response
  pub time : Trace → ℕ
  pub alive : Trace → Bool
  -- a file's parsed text; `none` if it cannot be opened
  pub yaml : Text → Option Value
  pub getenv : Text → Option Text
  pub ip_address : Text → Bool
  pub ip_network : Value → Bool
  pub in_network : Text → Value → Bool
  -- `re.compile(pattern).match(text)` and `.search(text)` succeed
  pub re_match : Text → Text → Bool
  pub re_search : Text → Text → Bool
  -- Python's `str` of a list or a dict
  pub repr : Value → Text
  pub order : List Value → List Value
  -- the newest command's exit status and the lines that it prints
  pub exit_status : Trace → ℕ
  pub output : Trace → List Text
  -- `os.path.exists(path)`
  pub exists : Trace → Text → Bool

-- Time does not run backwards, and a sleep lasts as long as it should.
pub record IsClock (E : Environment) : Type 0 where
  pub runs : (e : Event) (t : Trace) → E.time t ≤ E.time (e ∷ t)
  pub sleeps : (n : ℕ) (t : Trace) → E.time t + n ≤ E.time (sleep n ∷ t)

-- The order of a hash table lists the same keys.
abbrev pub KeepsKeys : Environment → Type 0
KeepsKeys E = (k : Value) (ks : List Value) → contains k (E.order ks) ≡ contains k ks

-- `'%s' % v`
unfoldable pub show : Environment → Value → Text
unfolding decimal
show E null = codes "None"
show E (bool true) = codes "True"
show E (bool false) = codes "False"
show E (int (pos n)) = decimal n
show E (int (negsuc n)) = codes "-" ++ decimal (suc n)
show E (str s) = s
show E (list vs) = E.repr (list vs)
show E (dict fs) = E.repr (dict fs)

-- A method call on a state: it returns or raises, and what was written stays written.
abbrev pub Action : Type 0 → Type 0 → Type 0
Action S A = S → Result A × S

module _ {S A : Type 0} where
  abbrev pub pure : A → Action S A
  pure a s = (ok a, s)

  abbrev pub raise : Error → Action S A
  raise e s = (err e, s)

  abbrev pub lift : Result A → Action S A
  lift r s = (r, s)

  abbrev pub gets : (S → A) → Action S A
  gets f s = (ok (f s), s)

module _ {S : Type 0} where
  abbrev pub modify : (S → S) → Action S (Unit {0})
  modify f s = (ok tt, f s)

  abbrev pub raise_if : Bool → Error → Action S (Unit {0})
  raise_if c e s = (if c then err e else ok tt, s)

  -- `assert(c)`
  abbrev pub assert : Bool → Action S (Unit {0})
  assert c s = (if c then ok tt else err assertion_error, s)

infixl 5 ◌>>=◌ ◌>>◌
abbrev pub ◌>>=◌ : {S A B : Type 0} → Action S A → (A → Action S B) → Action S B
◌>>=◌ m f s = let (r, s') = m s in elim r [ ok a ↦ f a s' | err e ↦ (err e, s') ]

abbrev pub ◌>>◌ : {S A B : Type 0} → Action S A → Action S B → Action S B
m >> n = m >>= λ _. n

-- `for x in xs: body(x)`
unfoldable pub for_each : {S A : Type 0} → (A → Action S (Unit {0})) → List A → Action S (Unit {0})
for_each body [] = pure tt
for_each body (x ∷ xs) = do body x; for_each body xs
