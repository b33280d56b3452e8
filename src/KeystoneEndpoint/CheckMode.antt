-- ===== src/KeystoneEndpoint/CheckMode.antt =====
-- The check mode of keystone_endpoint.py.
use compass4nfv.Base.{
  ◌≡◌, sym, ap, ◌∙◌, true, false, Option, none, some, Text, text_eq, Bool-cases, inl, inr,
}
use compass4nfv.Result.{ok}
use compass4nfv.Value.{value_eq}
use compass4nfv.Effects.{pure}
use compass4nfv.Effects.Bind.{>>=-eq-ok}
use compass4nfv.KeystoneEndpoint.{
  Endpoint, State, present, absent, Params, Shade, Exit, not_shown, one_shown, new_shown,
  needs_update, system_state_change, apply_state, main,
}
use compass4nfv.KeystoneEndpoint.Parts.{main-parts}

module _ {S : Type 0} (cloud : Shade S) (params : Params) where
  apply_state-changed :
      (service : Text) (state : State) (endpoint : Option Endpoint) (s : S) {exit : Exit} {s' : S}
      → apply_state cloud params service state endpoint s ≡ (ok exit, s')
      → exit.0 ≡ system_state_change params state endpoint
  unfolding apply_state system_state_change
  apply_state-changed service present none s {exit} {s'} e =
      let (_, s1, _, rest) =
        >>=-eq-ok
          (cloud.create_endpoint service params.enabled params.region params.interface params.url)
          (λ endpoint. pure {S = S} {A = Exit} (true, new_shown endpoint)) s e in
      cc rest
  apply_state-changed service present (some endpoint) s {exit} {s'} e =
      elim (Bool-cases (needs_update params endpoint)) [
        | inl stale ↦
            let (_, s1, _, rest) =
              >>=-eq-ok
                (cloud.update_endpoint endpoint.id service params.enabled params.region
                  params.interface params.url)
                (λ updated. pure {S = S} {A = Exit} (true, one_shown updated)) s (rw stale at e) in
            cc (stale, rest)
        | inr fresh ↦ cc (fresh, rw fresh at e)
      ]
  apply_state-changed service absent none s e = cc e
  apply_state-changed service absent (some endpoint) s e =
      let (_, s1, _, rest) =
        >>=-eq-ok (cloud.delete_endpoint endpoint.id)
          (λ _. pure {S = S} {A = Exit} (true, not_shown)) s e in
      cc rest

  -- When a run returns, a run in check mode at the same state returns the same flag `changed` with
  -- no endpoint, and leaves the cloud as it is.
  pub check_mode_predicts :
      (s : S) {exit : Exit} {s' : S}
      → main cloud false params s ≡ (ok exit, s')
      → main cloud true params s ≡ (ok (exit.0, not_shown), s)
  check_mode_predicts s e =
      let (service, endpoint, _, applied, foreseen) = main-parts cloud params s e in
      foreseen
      ∙ ap (λ b. (ok (b, not_shown), s))
          (sym (apply_state-changed service params.state endpoint s applied))
