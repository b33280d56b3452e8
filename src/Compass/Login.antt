-- ===== src/Compass/Login.antt =====
-- `CompassClient.is_ok`, `login`, `get_machines`, `list_clusters` and `get_adapter`.
pub mod Chosen
use compass4nfv.Base.{ℕ, Bool, not, ◌&&◌, ◌||◌, leb, ltb, List, if◌then◌else◌, codes}
use compass4nfv.Result.{or_raise, runtime_error, exception, io_error, each}
use compass4nfv.Value.{Value, null, str}
use compass4nfv.Value.Access.{getitem, is_in, item_at, iterate, truthy}
use compass4nfv.Effects.{Environment, Action, pure, raise_if, assert, lift, ◌>>=◌, ◌>>◌}
use compass4nfv.Restful.{get_token}
use compass4nfv.Restful.Machines.{list_machines}
use compass4nfv.Restful.Clusters.{list_clusters as request_clusters}
use compass4nfv.Restful.Adapters.{list_adapters}
use compass4nfv.Compass.{Compass, on_client}
use compass4nfv.Compass.Config.{Config}
use compass4nfv.Compass.Documents.{mac_of, ids_of, first_match, is_subset}

-- It returns None for another status, which is as false.
abbrev pub is_ok : ℕ → Bool
is_ok status = ltb status 300 && leb 200 status

module _ (E : Environment) (conf : Config) where
  unfoldable pub login : Action Compass Value
  unfolding get_token getitem
  login = do
    (status, resp) ←
        on_client (get_token E (str conf.compass_user_email) (str conf.compass_user_password))
    raise_if (not (is_ok status)) (exception (codes "failed to login %s with user %s"))
    lift (getitem resp (codes "token"))

  unfoldable pub get_machines : Action Compass (List Value)
  unfolding list_machines iterate each mac_of is_subset ids_of
  get_machines = do
    (status, resp) ← on_client (list_machines E null null null)
    raise_if (not (is_ok status)) (runtime_error (codes "failed to get machines"))
    file ← lift (or_raise (E.yaml conf.machine_file) io_error)
    entries ← lift (iterate file)
    machines_to_add ← lift (each (mac_of E) entries)
    machines ← lift (iterate resp)
    machines_db ← lift (each (mac_of E) machines)
    raise_if (not (is_subset machines_to_add machines_db))
        (runtime_error (codes "unidentify machine to add"))
    lift (ids_of E machines_to_add machines)

  unfoldable pub list_clusters : Action Compass Value
  unfolding request_clusters item_at getitem
  list_clusters = do
    (status, resp) ← on_client (request_clusters E (str conf.cluster_name) null null null null)
    raise_if (not (is_ok status) || not (truthy resp))
        (runtime_error (codes "failed to list cluster"))
    cluster ← lift (item_at resp 0)
    lift (getitem cluster (codes "id"))

  -- The loop over the flavors, if the adapter has any.
  flavor_of : Value → Action Compass Value
  unfolding is_in getitem iterate first_match
  flavor_of adapter = do
    has_flavors ← lift (is_in (codes "flavors") adapter)
    if has_flavors
        then (do
          flavors ← lift (getitem adapter (codes "flavors"))
          flavors ← lift (iterate flavors)
          lift (first_match E conf.adapter_flavor_pattern (codes "id") flavors))
        else pure null

  unfoldable pub get_adapter : Action Compass (Value × Value × Value)
  unfolding list_adapters item_at getitem iterate first_match flavor_of
  get_adapter = do
    (status, resp) ← on_client (list_adapters E (str conf.adapter_name) null null null)
    raise_if (not (is_ok status) || not (truthy resp))
        (runtime_error (codes "failed to get adapters"))
    adapter ← lift (item_at resp 0)
    adapter_id ← lift (getitem adapter (codes "id"))
    oses ← lift (getitem adapter (codes "supported_oses"))
    oses ← lift (iterate oses)
    os_id ← lift (first_match E conf.adapter_os_pattern (codes "os_id") oses)
    flavor_id ← flavor_of adapter
    assert (truthy os_id && truthy flavor_id)
    pure (adapter_id, os_id, flavor_id)
