-- ===== src/Compass/Subnets.antt =====
-- `CompassClient.add_subnets`.
pub mod Known
use compass4nfv.Base.{not, List, [], ◌∷◌, map, none, some, Text, codes}
use compass4nfv.Base.Dict.{Dict, insert}
use compass4nfv.Result.{runtime_error, type_error}
use compass4nfv.Value.{Value, null, str, array, value_eq}
use compass4nfv.Value.Access.{getitem, iterate, truthy, hashable}
use compass4nfv.Effects.{Environment, Action, pure, raise_if, assert, lift, modify, ◌>>=◌, ◌>>◌}
use compass4nfv.Restful.Subnets.{list_subnets, add_subnet}
use compass4nfv.Compass.{Compass, on_client}
use compass4nfv.Compass.Config.{Config}
use compass4nfv.Compass.Documents.{pieces, find_subnet}
use compass4nfv.Compass.Login.{is_ok}

module _ (E : Environment) where
  -- A subnet that the database lacks is added, under the name and id of the reply.
  create_subnet : Text → Dict Value Value → Action Compass (Dict Value Value)
  unfolding add_subnet getitem insert value_eq
  create_subnet subnet mapping = do
    (status, resp) ← on_client (add_subnet E (str subnet) null null)
    raise_if (not (is_ok status)) (runtime_error (codes "failed to add subnet %s"))
    subnet_id ← lift (getitem resp (codes "id"))
    name ← lift (getitem resp (codes "subnet"))
    raise_if (not (hashable name)) type_error
    pure (insert name subnet_id mapping)

  -- One round of the loop.
  unfoldable pub map_subnet : Value → Text → Dict Value Value → Action Compass (Dict Value Value)
  unfolding iterate find_subnet create_subnet insert value_eq
  map_subnet in_db subnet mapping = do
    raise_if (not (E.ip_network (str subnet))) (runtime_error (codes "subnet %s format is invalid"))
    subnets_in_db ← lift (iterate in_db)
    found ← lift (find_subnet subnet subnets_in_db)
    elim found [
      | some subnet_id ↦ pure (insert (str subnet) subnet_id mapping)
      | none ↦ create_subnet subnet mapping
    ]

  unfoldable pub map_subnets :
      Value → List Text → Dict Value Value → Action Compass (Dict Value Value)
  unfolding map_subnet
  map_subnets in_db [] mapping = pure mapping
  map_subnets in_db (subnet ∷ subnets) mapping = do
    mapping' ← map_subnet in_db subnet mapping
    map_subnets in_db subnets mapping'

  unfoldable pub add_subnets : Config → Action Compass (Unit {0})
  unfolding pieces list_subnets map_subnets
  add_subnets conf = do
    let subnets = pieces b',' conf.subnets
    assert (truthy (array (map (λ s. str s) subnets)))
    (_, in_db) ← on_client (list_subnets E null null)
    subnet_mapping ← map_subnets in_db subnets []
    modify (λ c. record c { subnet_mapping = subnet_mapping })
