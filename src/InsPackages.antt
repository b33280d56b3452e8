-- ===== src/InsPackages.antt =====
-- repo/gen_ins_pkg_script.py: the names of the packages that the ansible roles install, and the scripts
-- that download them.
pub mod Named
pub mod Listed
pub mod Script
mod Tests
use compass4nfv.Base.{
  Bool, true, false, not, ◌&&◌, ◌||◌, List, [], ◌∷◌, ◌++◌, map, Option, none, some, Text, codes,
  text_eq, ◌==◌, contains, keep, if◌then◌else◌,
}
use compass4nfv.Base.Dict.{Dict, lookup}
use compass4nfv.Result.{Result, ok, err, or_raise, io_error, attribute_error, key_error, ◌>>=◌}
use compass4nfv.Value.{
  Value, null, bool, int, str, list, dict, value_eq, elements, entries, array, object,
}
use compass4nfv.Value.Access.{truthy}
use compass4nfv.Text.{split}
use compass4nfv.Text.Paths.{path_join, ends_with, basename}
use compass4nfv.Effects.{Environment, write, Event}

-- `os.listdir` and `os.path.exists`.
module _ (listdir : Text → Result (List Text)) (exists : Text → Bool) where
  -- The files of one role.
  unfoldable pub role_files : Text → Text → Text → List Text
  unfolding keep path_join
  role_files root arch dir =
      let var_dir = path_join (path_join (path_join root (codes "roles")) dir) (codes "vars") in
      keep exists
        (map (λ name. path_join var_dir name) (codes "main.yml" ∷ (arch ++ codes ".yml") ∷ []))

  unfoldable all_files : Text → Text → List Text → List Text
  unfolding role_files
  all_files root arch [] = []
  all_files root arch (dir ∷ dirs) = role_files root arch dir ++ all_files root arch dirs

  unfoldable pub get_file_list : Text → Text → Result (List Text)
  unfolding all_files path_join
  get_file_list root arch =
      listdir (path_join root (codes "roles")) >>= λ dirs. ok (all_files root arch dirs)

-- Is the key looked at?
unfoldable pub is_package_key : Text → Bool
unfolding text_eq ends_with
is_package_key key =
    not (key == codes "pip_packages")
    && (ends_with (codes "packages") key || ends_with (codes "packages_noarch") key)

-- `value`, as the list that the loop runs over.
unfoldable pub as_packages : Value → List Value
as_packages (list vs) = elements vs
as_packages v = if truthy v then v ∷ [] else []

-- The packages of one file: those under its keys, in order.
unfoldable pub listed_in : Dict Text Value → List Value
unfolding is_package_key as_packages
listed_in [] = []
listed_in ((key, value) ∷ more) =
    let rest = listed_in more in if is_package_key key then as_packages value ++ rest else rest

-- The innermost loop, with `package_name_list` so far.
unfoldable pub add_packages : List Text → List Value → List Value → List Value
unfolding value_eq
add_packages special [] names = names
add_packages special (i ∷ more) names = add_packages special more (
    if contains i (map (λ s. str s) special)
    then names
    else if contains i names
    then names
    else names ++ (i ∷ []))

-- `datas.items()`, in the order of the file.
unfoldable pub items_of : Value → Result (Dict Text Value)
items_of (dict fs) = ok (entries fs)
items_of v = err attribute_error

module _ (E : Environment) where
  -- `yaml.safe_load(open(file))`, and what the file lists.
  unfoldable pub file_packages : Text → Result (List Value)
  unfolding items_of listed_in
  file_packages file = do
    datas ← or_raise (E.yaml file) io_error
    if not (truthy datas) then ok [] else (do fields ← items_of datas; ok (listed_in fields))

  -- The loop over the files, with `package_name_list` so far.
  unfoldable pub add_files : List Text → List Text → List Value → Result (List Value)
  unfolding file_packages add_packages
  add_files special [] names = ok names
  add_files special (file ∷ files) names = file_packages file >>= λ packages.
      add_files special files (add_packages special packages names)

  unfoldable pub get_packages_name_list : List Text → List Text → Result (List Value)
  unfolding add_files
  get_packages_name_list file_list special_packages = add_files special_packages file_list []
