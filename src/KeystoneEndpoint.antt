-- ===== src/KeystoneEndpoint.antt =====
-- The ansible module deploy/adapters/ansible/ansible_modules/keystone_endpoint.py. The library shade
-- is a parameter: a cloud with its operations. `exit_json` returns, with the flag `changed` and the
-- endpoint; `fail_json` raises. A shade exception ends in `fail_json`, so it stays an exception.
pub mod Parts
pub mod CheckMode
pub mod Outcome
mod Tests
use compass4nfv.Base.{
  ℕ, Bool, true, false, not, ◌&&◌, List, [], ◌∷◌, Option, none, some, Text, codes, text_eq, ◌==◌,
  keep, if◌then◌else◌,
}
use compass4nfv.Result.{Result, ok, err, exception}
use compass4nfv.Value.{Value, value_eq}
use compass4nfv.Effects.{Action, pure, raise_if, lift, ◌>>=◌, ◌>>◌}

-- An endpoint, as `list_endpoints` and `update_endpoint` return it.
pub record Endpoint : Type 0 where
  pub id : Text
  pub service_id : Text
  pub interface : Value
  pub region : Value
  pub url : Value
  pub enabled : Bool

pub data State : Type 0 where
  present absent : State

-- `module.params`
pub record Params : Type 0 where
  pub enabled : Bool
  pub name : Text
  pub service_type : Text
  pub state : State
  pub region : Value
  pub interface : Value
  pub url : Value

-- What the module calls of shade: a service is its id; each call may raise.
pub record Shade (S : Type 0) : Type 0 where
  -- the library is there, and is new enough
  pub installed : Bool
  pub recent : Bool
  pub search_services : Text → Text → S → Result (List Text)
  pub list_endpoints : S → Result (List Endpoint)
  -- `shade.operator_cloud(**module.params)`
  pub operator_cloud : Params → Result (Unit {0})
  -- the service, enabled, the region, the interface and the url; the new endpoints come back
  pub create_endpoint : Text → Bool → Value → Value → Value → Action S (List Endpoint)
  -- the same after the endpoint's id
  pub update_endpoint : Text → Text → Bool → Value → Value → Value → Action S Endpoint
  pub delete_endpoint : Text → Action S (Unit {0})

unfoldable pub needs_update : Params → Endpoint → Bool
unfolding value_eq
needs_update params endpoint =
    not (endpoint.url == params.url) && endpoint.interface == params.interface

-- The state is one of the two.
unfoldable pub system_state_change : Params → State → Option Endpoint → Bool
unfolding needs_update
system_state_change params absent (some endpoint) = true
system_state_change params absent none = false
system_state_change params present none = true
system_state_change params present (some endpoint) = needs_update params endpoint

-- The condition of the comprehension over the endpoints.
unfoldable pub is_target : Params → Text → Endpoint → Bool
unfolding text_eq value_eq
is_target params service x =
    x.service_id == service && (x.interface == params.interface && x.region == params.region)

unfoldable pub one_service : List Text → Result Text
one_service [] = err (exception (codes "No services with name %s"))
one_service (service ∷ []) = ok service
one_service (service ∷ other ∷ more) =
    err (exception (codes "Service name %s and type %s are not unique"))

unfoldable pub one_endpoint : List Endpoint → Result (Option Endpoint)
one_endpoint [] = ok none
one_endpoint (endpoint ∷ []) = ok (some endpoint)
one_endpoint (endpoint ∷ other ∷ more) = err (exception (codes "%d endpoints with service name %s"))

-- `endpoint` of `exit_json(changed=…, endpoint=…)`: missing, an endpoint, or what has been created.
pub data Shown : Type 0 where
  not_shown : Shown
  one_shown : Endpoint → Shown
  new_shown : List Endpoint → Shown

abbrev pub Exit : Type 0
Exit = Bool × Shown

-- A read of the cloud.
abbrev pub query : {S A : Type 0} → (S → Result A) → Action S A
query m s = (m s, s)

module _ {S : Type 0} (cloud : Shade S) where
  -- The last part of `main`.
  unfoldable pub apply_state : Params → Text → State → Option Endpoint → Action S Exit
  unfolding needs_update
  apply_state params service present none = do
    endpoint ←
        cloud.create_endpoint service params.enabled params.region params.interface params.url
    pure (true, new_shown endpoint)
  apply_state params service present (some endpoint) =
      if needs_update params endpoint
      then (do
        updated ←
            cloud.update_endpoint endpoint.id service params.enabled params.region params.interface
              params.url
        pure (true, one_shown updated))
      else pure (false, one_shown endpoint)
  apply_state params service absent none = pure (false, not_shown)
  apply_state params service absent (some endpoint) = do
    cloud.delete_endpoint endpoint.id
    pure (true, not_shown)

  -- The service, and the endpoint that the parameters mean, if there is one.
  unfoldable pub find_endpoint : Params → Action S (Text × Option Endpoint)
  unfolding one_service one_endpoint is_target keep
  find_endpoint params = do
    services ← query (cloud.search_services params.name params.service_type)
    service ← lift (one_service services)
    all ← query cloud.list_endpoints
    endpoint ← lift (one_endpoint (keep (is_target params service) all))
    pure (service, endpoint)

  unfoldable pub main : Bool → Params → Action S Exit
  unfolding find_endpoint system_state_change apply_state
  main check_mode params = do
    raise_if (not cloud.installed) (exception (codes "shade is required for this module"))
    raise_if (not cloud.recent) (
        exception (
          codes
            "To utilize this module, the installed version ofthe shade library MUST be >=1.6.0"))
    lift (cloud.operator_cloud params)
    (service, endpoint) ← find_endpoint params
    if check_mode
        then pure (system_state_change params params.state endpoint, not_shown)
        else apply_state params service params.state endpoint
