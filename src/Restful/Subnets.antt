-- ===== src/Restful/Subnets.antt =====
-- The methods of `class Client` (deploy/restful.py) on the subnets.
use compass4nfv.Base.{[], ◌∷◌, ◌++◌, codes, text_eq}
use compass4nfv.Value.{Value, null}
use compass4nfv.Effects.{Environment, show, lift, ◌>>=◌}
use compass4nfv.Restful.{Call, get, post, put, delete, filled, raw_or, updated}

module _ (E : Environment) where
  unfoldable pub list_subnets : Value → Value → Call
  unfolding get filled
  list_subnets subnet name =
      get E (codes "/subnets") (filled ((codes "subnet", subnet) ∷ (codes "name", name) ∷ []))

  unfoldable pub get_subnet : Value → Call
  unfolding get show
  get_subnet subnet_id = get E (codes "/subnets/" ++ show E subnet_id) null

  unfoldable pub add_subnet : Value → Value → Value → Call
  unfolding post updated
  add_subnet subnet name raw_data = do
    form ← lift (updated raw_data ((codes "subnet", subnet) ∷ []) ((codes "name", name) ∷ []))
    post E (codes "/subnets") form

  unfoldable pub update_subnet : Value → Value → Value → Value → Call
  unfolding put show raw_or filled
  update_subnet subnet_id subnet name raw_data =
      put E (codes "/subnets/" ++ show E subnet_id)
        (raw_or raw_data (filled ((codes "subnet", subnet) ∷ (codes "name", name) ∷ [])))

  unfoldable pub delete_subnet : Value → Call
  unfolding delete show
  delete_subnet subnet_id = delete E (codes "/subnets/" ++ show E subnet_id)
