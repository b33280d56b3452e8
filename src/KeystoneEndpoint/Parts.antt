-- ===== src/KeystoneEndpoint/Parts.antt =====
-- The reads of `main` (keystone_endpoint.py): the service, the endpoints, and what is done with them.
use compass4nfv.Base.{
  ◌≡◌, sym, ap, ◌∙◌, subst, true, false, not, arith, List, [], ◌∷◌, Option, none, some, Text, codes,
  keep, text_eq, inl, inr,
}
use compass4nfv.Result.{Result, ok, exception, Result-cases}
use compass4nfv.Value.{value_eq}
use compass4nfv.Effects.{Action, pure, lift, raise_if, ◌>>=◌, ◌>>◌}
use compass4nfv.Effects.Bind.{>>=-eq-ok, >>=-of_ok, lift-eq-ok}
use compass4nfv.KeystoneEndpoint.{
  Endpoint, Params, Shade, Exit, not_shown, system_state_change, is_target, one_service,
  one_endpoint, find_endpoint, apply_state, main,
}

abbrev pub as_list : Option Endpoint → List Endpoint
as_list none = []
as_list (some e) = e ∷ []

-- The result of a call, in an equation of its outcomes.
first :
    {S A : Type 0} {r r' : Result A} {s s' : S} → ◌≡◌ {A = Result A × S} (r, s) (r', s') → r ≡ r'
first {S} {A} e = ap (λ (p : Result A × S). p.0) e

one_service-ok : (l : List Text) {x : Text} → one_service l ≡ ok x → l ≡ x ∷ []
unfolding one_service
one_service-ok [] e = cc e
one_service-ok (x ∷ []) e = cc e
one_service-ok (x ∷ y ∷ l) e = cc e

one_endpoint-ok : (l : List Endpoint) {x : Option Endpoint} → one_endpoint l ≡ ok x → l ≡ as_list x
unfolding one_endpoint
one_endpoint-ok [] e = ground (arith, e)
one_endpoint-ok (x ∷ []) e = ground (arith, e)
one_endpoint-ok (x ∷ y ∷ l) e = cc e

module _ {S : Type 0} (cloud : Shade S) (params : Params) where
  -- The endpoints that the parameters mean, in a state of the cloud with one service of that name.
  pub record Found (service : Text) (endpoints : List Endpoint) (s : S) : Type 0 where
    pub all : List Endpoint
    pub services : cloud.search_services params.name params.service_type s ≡ ok (service ∷ [])
    pub listed : cloud.list_endpoints s ≡ ok all
    pub targets : keep (is_target params service) all ≡ endpoints

  -- Once the service and the endpoints have been read.
  find_endpoint-listed :
      (s : S) (services : List Text) (name : Text) (l : List Endpoint) {service : Text}
      {endpoint : Option Endpoint} {s' : S}
      → cloud.search_services params.name params.service_type s ≡ ok services
      → one_service services ≡ ok name
      → cloud.list_endpoints s ≡ ok l
      → ◌>>=◌ {B = Text × Option Endpoint}
          (lift {S = S} (one_endpoint (keep (is_target params name) l)))
          (λ e. pure (name, e))
          s
        ≡ (ok (service, endpoint), s')
      → Found service (as_list endpoint) s × (s' ≡ s)
  find_endpoint-listed s services name l {service} {endpoint} read one listed e =
      elim (Result-cases (one_endpoint (keep (is_target params name) l))) [
        | inr (x, bad) ↦ cc (rw bad at e)
        | inl (y, single) ↦
            let same : name ≡ service = cc (rw single at e) in
            let result : y ≡ endpoint = cc (rw single at e) in
            (
              record {
                all = l;
                services = read ∙ ap ok (one_service-ok services one) ∙ ap (λ z. ok (z ∷ [])) same;
                listed = listed;
                targets =
                    subst (λ z. keep (is_target params z) l ≡ as_list endpoint) same
                      (one_endpoint-ok (keep (is_target params name) l) single ∙ ap as_list result);
              },
              cc (rw single at e),
            )
      ]

  find_endpoint-Found :
      (s : S) {service : Text} {endpoint : Option Endpoint} {s' : S}
      → find_endpoint cloud params s ≡ (ok (service, endpoint), s')
      → Found service (as_list endpoint) s × (s' ≡ s)
  unfolding find_endpoint
  find_endpoint-Found s {service} {endpoint} {s'} e =
      elim (Result-cases (cloud.search_services params.name params.service_type s)) [
        | inr (x, bad) ↦ cc (rw bad at e)
        | inl (services, read) ↦ elim (Result-cases (one_service services)) [
          | inr (x, bad) ↦ cc (rw (read, bad) at e)
          | inl (name, one) ↦ elim (Result-cases (cloud.list_endpoints s)) [
            | inr (x, bad) ↦ cc (rw (read, one, bad) at e)
            | inl (l, listed) ↦
                find_endpoint-listed s services name l read one listed (rw (read, one, listed) at e)
          ]
        ]
      ]

  pub main-parts :
      (s : S) {exit : Exit} {s' : S}
      → main cloud false params s ≡ (ok exit, s')
      → (service : Text) × (endpoint : Option Endpoint) × Found service (as_list endpoint) s
        × (apply_state cloud params service params.state endpoint s ≡ (ok exit, s'))
        × (main cloud true params s
            ≡ (ok (system_state_change params params.state endpoint, not_shown), s))
  unfolding main
  main-parts s e =
      let old = exception (
        codes
          "To utilize this module, the installed version ofthe shade library MUST be >=1.6.0") in
      let act =
        λ (found : Text × Option Endpoint). apply_state cloud params found.0 params.state found.1 in
      let foresee = λ (found : Text × Option Endpoint).
        pure {S = S} {A = Exit} (system_state_change params params.state found.1, not_shown) in
      let joined = λ (f : Text × Option Endpoint → Action S Exit).
        lift (cloud.operator_cloud params) >> (find_endpoint cloud params >>= f) in
      let (_, s1, there, e1) =
        >>=-eq-ok
          (raise_if (not cloud.installed) (exception (codes "shade is required for this module")))
          (λ _. raise_if (not cloud.recent) old >> joined act) s e in
      let (_, s2, new, e2) = >>=-eq-ok (raise_if (not cloud.recent) old) (λ _. joined act) s1 e1 in
      let (_, opened, e2') =
        lift-eq-ok (cloud.operator_cloud params) (λ _. find_endpoint cloud params >>= act) s2 e2 in
      let (found, s3, sought, e3) = >>=-eq-ok (find_endpoint cloud params) act s2 e2' in
      let start : s2 ≡ s = cc (there, new) in
      let asked : find_endpoint cloud params s ≡ (ok found, s3) =
        ap (find_endpoint cloud params) (sym start) ∙ sought in
      let (known, same) = find_endpoint-Found s asked in
      let installed : cloud.installed ≡ true = ground (arith, there) in
      let recent : cloud.recent ≡ true = ground (arith, new) in
      (
        found.0,
        found.1,
        known,
        ap (act found) (sym same) ∙ e3,
        >>=-of_ok
              (raise_if (not cloud.installed)
                (exception (codes "shade is required for this module")))
              (λ _. raise_if (not cloud.recent) old >> joined foresee) s (ground (arith, installed))
            ∙ >>=-of_ok (raise_if (not cloud.recent) old) (λ _. joined foresee) s
                (ground (arith, recent))
            ∙ >>=-of_ok (lift (cloud.operator_cloud params))
                (λ _. find_endpoint cloud params >>= foresee) s (ap (λ r. (r, s)) opened)
            ∙ >>=-of_ok (find_endpoint cloud params) foresee s asked
            ∙ ap (foresee found) same,
      )
