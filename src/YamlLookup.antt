-- ===== src/YamlLookup.antt =====
-- deploy/ansible_plugins/lookup/yamlfile.py: an ansible lookup of keys in yaml files.
pub mod Given
mod Tests
use compass4nfv.Base.{
  ℕ, Bool, true, false, not, List, [], ◌∷◌, ◌++◌, Option, none, some, Text, codes, text_eq, ◌==◌,
  if◌then◌else◌,
}
use compass4nfv.Result.{
  Result, ok, err, or_raise, each, index_error, value_error, attribute_error, io_error, exception,
  ◌>>=◌,
}
use compass4nfv.Value.{Value, null, str, list, elements}
use compass4nfv.Value.Access.{truthy, getitem, is_in}
use compass4nfv.Text.{split, words}
use compass4nfv.Effects.{Environment}

-- `param_dict`: the key and the default.
pub record TermParams : Type 0 where
  pub key : Value
  pub default : Value

-- `key, value = param.split('=')` and what follows. The assertion's error becomes an AnsibleError, whose
-- message is empty; the ValueError of the unpacking is not caught.
unfoldable pub set_param : List Text → TermParams → Result TermParams
unfolding text_eq
set_param (key ∷ value ∷ []) params =
    if key == codes "key"
    then ok (record params { key = str value })
    else if key == codes "default"
    then ok (record params { default = str value })
    else err (exception [])
set_param parts params = err value_error

unfoldable pub set_params : List Text → TermParams → Result TermParams
unfolding split set_param
set_params [] params = ok params
set_params (param ∷ more) params = do
  changed ← set_param (split b'=' param) params
  set_params more changed

module _ (E : Environment) where
  unfoldable pub read_yaml : Text → Value → Value → Result Value
  unfolding is_in getitem
  read_yaml yaml_path (str key) default =
      if truthy (str key)
      then (do
        yaml_data ← or_raise (E.yaml yaml_path) io_error
        there ← is_in key yaml_data
        if there then getitem yaml_data key else ok default)
      else ok null
  read_yaml yaml_path key default = ok null

  unfoldable pub read_term : Value → Result Value
  unfolding words set_params read_yaml
  read_term (str term) = elim (words term) [
    | [] ↦ err index_error
    | yaml_path ∷ given ↦ do
      params ← set_params given (record { key = null; default = null })
      read_yaml yaml_path params.key params.default
  ]
  read_term term = err attribute_error

  unfoldable pub run : Value → Result (List Value)
  unfolding each read_term
  run (list terms) = each read_term (elements terms)
  run term = each read_term (term ∷ [])
