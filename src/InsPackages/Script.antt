-- ===== src/InsPackages/Script.antt =====
-- The two scripts that repo/gen_ins_pkg_script.py writes.
use compass4nfv.Base.{Bool, List, [], ◌∷◌, ◌++◌, map, Text, codes, text_eq, keep, if◌then◌else◌}
use compass4nfv.Base.Dict.{Dict, lookup}
use compass4nfv.Result.{Result, ok, err, or_raise, key_error, index_error}
use compass4nfv.Value.{Value, str, array, object}
use compass4nfv.Text.{split}
use compass4nfv.Text.Paths.{path_join, basename}
use compass4nfv.Effects.{Environment, Trace, write, Action, lift, modify, ◌>>=◌, ◌>>◌}
use compass4nfv.InsPackages.{get_file_list, get_packages_name_list}

-- `const.os_map`
abbrev pub os_map : Dict Text Text
os_map =
    (codes "trusty", codes "14.04.3")
    ∷ (codes "xenial", codes "16.04")
    ∷ (codes "rhel7", codes "7.2.1511")
    ∷ (codes "redhat7", codes "rhel7.2")
    ∷ []

-- `text.split('.')[0]`
abbrev before_dot : Text → Text
before_dot text = elim (split b'.' text) [ [] ↦ [] | p ∷ ps ↦ p ]

-- Files and directories: `walk` lists each directory below one with the names of its files. `render`
-- is what a template of Cheetah makes of a dict.
module _ (E : Environment) (listdir : Text → Result (List Text)) (exists : Text → Bool)
    (walk : Text → List (Text × List Text)) (isfile : Text → Bool)
    (render : Text → Value → Result Text) where
  -- `make_script`
  unfoldable pub make_scripts : Text → List Text → List Value
  unfolding path_join
  make_scripts dir [] = []
  make_scripts dir (i ∷ more) =
      let name = codes "make_" ++ (i ++ codes ".sh") in
      let rest = make_scripts dir more in
      if exists (path_join dir name) then str name ∷ rest else rest

  -- `special_packages_names`
  unfoldable pub files_below : List (Text × List Text) → List Value
  unfolding keep path_join
  files_below [] = []
  files_below ((parent, names) ∷ more) =
      map (λ n. str n) (keep (λ n. isfile (path_join parent n)) names) ++ files_below more

  -- `package_name_list`; there is none without a root.
  unfoldable pub package_names : Text → Text → List Text → Result (List Value)
  unfolding get_file_list get_packages_name_list
  package_names [] arch special = ok []
  package_names (c ∷ root) arch special = elim (get_file_list listdir exists (c ∷ root) arch) [
    | err e ↦ err e
    | ok files ↦ get_packages_name_list E files special
  ]

  -- Opening a file to write it is an event with what is written.
  abbrev write_file : Text → Text → Action Trace (Unit {0})
  write_file path text = modify (λ t. write path (str text) ∷ t)

  unfoldable pub generate_download_script :
      Text
      → Text
      → Text
      → Text
      → List Text
      → List Text
      → Text
      → Text
      → Text
      → Action Trace (Unit {0})
  unfolding package_names make_scripts files_below path_join basename lookup text_eq split
  generate_download_script root arch tmpl docker_tmpl default_packages special_packages
        special_packages_script_dir special_packages_dir os_ver =
      do
        package_name_list ← lift (package_names root arch special_packages)
        text ← lift (
            render tmpl (
              object (
                (codes "packages", array package_name_list)
                ∷ (codes "default_packages", array (map (λ p. str p) default_packages))
                ∷ [])))
        write_file (codes "work/repo/install_packages.sh") text
        let make_script = make_scripts special_packages_script_dir special_packages
        version ← lift (or_raise (lookup os_ver os_map) key_error)
        let search_list = (codes "scripts", array make_script) ∷ (codes "version", str version) ∷ []
        let full_list =
            if exists special_packages_dir
            then search_list
              ++ ((codes "special_packages", array (files_below (walk special_packages_dir))) ∷ [])
            else search_list
        docker ← lift (render docker_tmpl (object full_list))
        write_file (path_join (codes "work/repo") (before_dot (basename docker_tmpl))) docker

  -- `sys.argv` after the program; two of the arguments are lists with blanks between their items.
  unfoldable pub main : List Text → Action Trace (Unit {0})
  unfolding generate_download_script split
  main (root ∷ arch ∷ tmpl ∷ docker_tmpl ∷ default_ ∷ special ∷ script_dir ∷ dir ∷ os_ver ∷ more) =
      generate_download_script root arch tmpl docker_tmpl (split b' ' default_) (split b' ' special)
        script_dir dir os_ver
  main argv = lift (err index_error)
