-- ===== src/Compass/Roles.antt =====
-- `CompassClient.set_host_roles` and `set_all_hosts_roles`. Hosts and roles are walked in the order
-- in which Python's hash tables yield them. A role that is waiting is one that `role_mapping`
-- marks ROLE_UNASSIGNED, which is True; `is_role_unassigned` is the identity.
pub mod Hosts
pub mod Waiting
use compass4nfv.Base.{
  ℕ, Bool, true, false, not, List, [], ◌∷◌, map, Option, none, some, Text, codes, contains, keep,
  length, leb, if◌then◌else◌,
}
use compass4nfv.Base.Dict.{Dict, keys, lookup, insert, has_key}
use compass4nfv.Result.{ok, err, or_raise, runtime_error, key_error, value_error}
use compass4nfv.Value.{Value, null, str, array, value_eq}
use compass4nfv.Value.Access.{truthy}
use compass4nfv.Text.{split, split_once, strip}
use compass4nfv.Effects.{
  Environment, Action, pure, gets, raise, raise_if, assert, lift, modify, for_each, ◌>>=◌, ◌>>◌,
}
use compass4nfv.Restful.ClusterHosts.{update_cluster_host}
use compass4nfv.Compass.{Compass, on_client}
use compass4nfv.Compass.Config.{Config}
use compass4nfv.Compass.Documents.{pieces}
use compass4nfv.Compass.Login.{is_ok}

-- The loop that marks the roles of a host as assigned.
unfoldable pub assign : List Value → Dict Value Bool → Dict Value Bool
unfolding has_key insert value_eq
assign [] mapping = mapping
assign (role ∷ roles) mapping =
    assign roles (if has_key role mapping then insert role false mapping else mapping)

-- `self.host_roles[hostname] = roles`
unfoldable pub record_roles : Value → List Value → Action Compass (Unit {0})
unfolding insert value_eq
record_roles hostname roles =
    modify (λ c. record c { host_roles = insert hostname roles c.host_roles })

-- `map(None, hostnames, roles)`: the shorter list is filled up with None.
unfoldable pub pair_roles : List Value → List Value → List (Value × Value)
pair_roles [] [] = []
pair_roles [] (r ∷ rs) = (null, r) ∷ pair_roles [] rs
pair_roles (h ∷ hs) [] = (h, null) ∷ pair_roles hs []
pair_roles (h ∷ hs) (r ∷ rs) = (h, r) ∷ pair_roles hs rs

-- `is_role_unassigned(status)` for the status of the role
abbrev pub is_waiting : Dict Value Bool → Value → Bool
is_waiting mapping role = elim (lookup role mapping) [ none ↦ false | some status ↦ status ]

module _ (E : Environment) where
  -- `set(self.host_mapping.keys()) - set(self.host_roles.keys())`
  unfoldable pub unassigned_hosts : Compass → List Value
  unfolding keep has_key value_eq
  unassigned_hosts c = E.order (keep (λ h. not (has_key h c.host_roles)) (keys c.host_mapping))

  unfoldable pub unassigned_roles : Compass → List Value
  unfolding keep lookup value_eq
  unassigned_roles c = keep (is_waiting c.role_mapping) (E.order (keys c.role_mapping))

  unfoldable pub set_host_roles : Value → Value → List Value → Action Compass (Unit {0})
  unfolding update_cluster_host assign
  set_host_roles cluster_id host_id roles = do
    (status, response) ← on_client (update_cluster_host E cluster_id host_id (array roles) null)
    raise_if (not (is_ok status)) (runtime_error (codes "set host roles failed"))
    modify (λ c. record c { role_mapping = assign roles c.role_mapping })

  -- The body of each of the three loops: a host that is known gets the roles.
  unfoldable pub give_roles : Value → Value → List Value → Action Compass (Unit {0})
  unfolding lookup value_eq set_host_roles record_roles
  give_roles cluster_id hostname roles = do
    host_id ← (λ c. (or_raise (lookup hostname c.host_mapping) key_error, c))
    set_host_roles cluster_id host_id roles
    record_roles hostname roles

  -- One entry of the option: `<hostname>=<comma separated roles>`.
  unfoldable pub set_listed : Value → Text → Action Compass (Unit {0})
  unfolding strip split_once has_key value_eq split keep give_roles
  set_listed cluster_id host_str = do
    (hostname, roles_str) ← lift (or_raise (split_once b'=' (strip host_str)) value_error)
    known ← gets (λ c. has_key (str hostname) c.host_mapping)
    assert known
    let roles = map (λ role. str (strip role)) (pieces b',' roles_str)
    give_roles cluster_id (str hostname) roles

  -- The roles that wait go to the hosts that have none.
  unfoldable pub set_waiting : Value → Action Compass (Unit {0})
  unfolding unassigned_hosts unassigned_roles pair_roles for_each give_roles
  set_waiting cluster_id = do
    hostnames ← gets unassigned_hosts
    roles ← gets unassigned_roles
    assert (leb (length roles) (length hostnames))
    for_each (λ (hostname, role). give_roles cluster_id hostname (role ∷ []))
        (pair_roles hostnames roles)

  -- `itertools.cycle(default_roles)` deals the roles out in turn.
  unfoldable pub set_cycling :
      Value → List Text → List Text → List Value → Action Compass (Unit {0})
  unfolding give_roles
  set_cycling cluster_id all_roles next [] = pure tt
  set_cycling cluster_id [] next (h ∷ hs) = raise value_error
  set_cycling cluster_id (r ∷ rs) [] (h ∷ hs) = do
    give_roles cluster_id h (str r ∷ [])
    set_cycling cluster_id (r ∷ rs) rs hs
  set_cycling cluster_id (r ∷ rs) (n ∷ next) (h ∷ hs) = do
    give_roles cluster_id h (str n ∷ [])
    set_cycling cluster_id (r ∷ rs) next hs

  -- What is left after that gets the default roles.
  unfoldable pub set_defaults : Config → Value → Action Compass (Unit {0})
  unfolding unassigned_hosts pieces set_cycling
  set_defaults conf cluster_id = do
    hostnames ← gets unassigned_hosts
    if truthy (array hostnames)
        then (do
          let default_roles = pieces b',' conf.default_roles
          assert (truthy (array (map (λ r. str r) default_roles)))
          set_cycling cluster_id default_roles default_roles hostnames)
        else pure tt

  unfoldable pub set_all_hosts_roles : Config → Value → Action Compass (Unit {0})
  unfolding split for_each set_listed set_waiting set_defaults
  set_all_hosts_roles conf cluster_id = do
    for_each (set_listed cluster_id) (split b';' conf.host_roles)
    set_waiting cluster_id
    set_defaults conf cluster_id
