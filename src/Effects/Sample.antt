-- ===== src/Effects/Sample.antt =====
-- An environment for tests: a server that answers every request alike, a clock that only sleeping
-- moves, a process that lives, and hash tables that keep the order of insertion.
use compass4nfv.Base.{zero, suc, ℕ, ◌+◌, refl, true, [], ◌∷◌, none, some, codes, arith}
use compass4nfv.Base.{List}
use compass4nfv.Value.{Value, object, str}
use compass4nfv.Effects.{
  requests, request, sleep, clock, command, start, is_alive, terminate, write, Trace, Response,
  Environment, IsClock, KeepsKeys,
}

abbrev pub slept : Trace → ℕ
slept [] = 0
slept (sleep n ∷ t) = slept t + n
slept (request r ∷ t) = slept t
slept (clock ∷ t) = slept t
slept (command s ∷ t) = slept t
slept (start ∷ t) = slept t
slept (is_alive ∷ t) = slept t
slept (terminate ∷ t) = slept t
slept (write path v ∷ t) = slept t

-- A slow machine: each reading of the clock takes 2000 seconds.
abbrev pub slow : Trace → ℕ
slow [] = 0
slow (sleep n ∷ t) = slow t + n
slow (request r ∷ t) = slow t
slow (clock ∷ t) = slow t + 2000
slow (command s ∷ t) = slow t
slow (start ∷ t) = slow t
slow (is_alive ∷ t) = slow t
slow (terminate ∷ t) = slow t
slow (write path v ∷ t) = slow t

abbrev pub answer : Response
answer = record {
  status = 200;
  json = some (
      object
        ((codes "state", str (codes "SUCCESSFUL")) ∷ (codes "token", str (codes "secret")) ∷ []));
  content = [];
}

-- The environment whose clock has been set to run by `tick`.
abbrev pub clocked : (Trace → ℕ) → Environment
clocked tick = record {
  reply = λ t. some answer;
  time = tick;
  alive = λ t. true;
  yaml = λ path. none;
  getenv = λ name. none;
  ip_address = λ s. true;
  ip_network = λ v. true;
  in_network = λ ip net. true;
  re_match = λ pattern text. true;
  re_search = λ pattern text. true;
  repr = λ v. [];
  order = λ keys. keys;
  exit_status = λ t. 0;
  output = λ t. [];
  exists = λ t path. true;
}

abbrev pub sample : Environment
sample = clocked slept

pub sample-IsClock : IsClock sample
sample-IsClock = record { runs = λ e t. ground arith; sleeps = λ n t. ground arith }

pub sample-KeepsKeys : KeepsKeys sample
sample-KeepsKeys k ks = refl

-- The answer to the request of that number, counted from one.
abbrev pub answer_at : List Value → ℕ → Response
answer_at vs zero = answer
answer_at [] (suc n) = answer
answer_at (v ∷ vs) (suc zero) = record { status = 200; json = some v; content = [] }
answer_at (v ∷ vs) (suc (suc n)) = answer_at vs (suc n)

-- A server that answers the first requests with these documents and every later one alike; each
-- file holds the same document.
abbrev pub serving : List Value → Value → Environment
serving documents file = record sample {
  reply = λ t. some (answer_at documents (requests t));
  yaml = λ path. some file;
}
