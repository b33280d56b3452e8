-- ===== src/Compass/Cluster.antt =====
-- `CompassClient.add_cluster` and `add_cluster_hosts`.
pub mod Known
use compass4nfv.Base.{
  ℕ, zero, suc, ◌-◌, false, not, List, [], ◌∷◌, map, Text, codes, contains, length, drop, eqb,
  if◌then◌else◌,
}
use compass4nfv.Base.Dict.{insert}
use compass4nfv.Result.{Result, ok, runtime_error, type_error}
use compass4nfv.Value.{Value, null, bool, str, list, array, object, value_eq}
use compass4nfv.Value.Access.{getitem, get, item_at, iterate, truthy, hashable}
use compass4nfv.Effects.{
  Environment, Action, pure, raise_if, assert, lift, modify, for_each, ◌>>=◌, ◌>>◌,
}
use compass4nfv.Restful.Clusters.{add_cluster as request_cluster, add_hosts_to_cluster}
use compass4nfv.Compass.{Compass, on_client}
use compass4nfv.Compass.Config.{Config}
use compass4nfv.Compass.Documents.{pieces}
use compass4nfv.Compass.Login.{is_ok}

-- `resp[0] if isinstance(resp, list) else resp`
abbrev first_of_list : Value → Result Value
unfolding item_at
first_of_list (list vs) = item_at (list vs) 0
first_of_list v = ok v

-- ROLE_UNASSIGNED is True: a role that is not optional waits for a host.
note_role : Value → Action Compass (Unit {0})
unfolding get getitem insert value_eq
note_role role = do
  optional ← lift (get role (codes "optional") (bool false))
  name ← lift (getitem role (codes "name"))
  raise_if (not (hashable name)) type_error
  modify (λ c. record c { role_mapping = insert name (not (truthy optional)) c.role_mapping })

-- `machines[-n:]`
unfoldable pub last_machines : ℕ → List Value → List Value
last_machines zero machines = machines
last_machines (suc n) machines = drop (length machines - suc n) machines

-- `zip`, as the dicts that the request lists
unfoldable pub pair_machines : List Value → List Text → List Value
pair_machines (machine_id ∷ machines) (hostname ∷ hostnames) =
    object ((codes "machine_id", machine_id) ∷ (codes "name", str hostname) ∷ [])
    ∷ pair_machines machines hostnames
pair_machines _ _ = []

-- The body of the loop over the reply's hosts.
note_host : List Value → Value → Action Compass (Unit {0})
unfolding getitem insert value_eq
note_host hostnames host = do
  hostname ← lift (getitem host (codes "hostname"))
  if contains hostname hostnames
      then (do
        host_id ← lift (getitem host (codes "id"))
        modify (λ c. record c { host_mapping = insert hostname host_id c.host_mapping }))
      else pure tt

module _ (E : Environment) (conf : Config) where
  unfoldable pub add_cluster : Value → Value → Value → Action Compass Value
  unfolding request_cluster item_at get getitem iterate for_each note_role
  add_cluster adapter_id os_id flavor_id = do
    assert (truthy (str conf.cluster_name))
    (status, resp) ←
        on_client (request_cluster E (str conf.cluster_name) adapter_id os_id flavor_id null)
    raise_if (not (is_ok status)) (runtime_error (codes "add cluster failed"))
    cluster ← lift (first_of_list resp)
    cluster_id ← lift (getitem cluster (codes "id"))
    flavor ← lift (get cluster (codes "flavor") (object []))
    roles ← lift (get flavor (codes "roles") (array []))
    roles ← lift (iterate roles)
    for_each note_role roles
    pure cluster_id

  unfoldable pub add_cluster_hosts : Value → List Value → Action Compass (Unit {0})
  unfolding pieces last_machines pair_machines add_hosts_to_cluster getitem iterate for_each
      note_host
  add_cluster_hosts cluster_id machines = do
    let hostnames = pieces b',' conf.hostnames
    let chosen = last_machines (length hostnames) machines
    assert (eqb (length chosen) (length hostnames))
    (status, resp) ← on_client (
        add_hosts_to_cluster E cluster_id
          (object ((codes "machines", array (pair_machines chosen hostnames)) ∷ [])))
    raise_if (not (is_ok status)) (runtime_error (codes "add host to cluster failed"))
    hosts ← lift (getitem resp (codes "hosts"))
    hosts ← lift (iterate hosts)
    for_each (note_host (map (λ h. str h) hostnames)) hosts
