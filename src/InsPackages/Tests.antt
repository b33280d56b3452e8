-- ===== src/InsPackages/Tests.antt =====
-- Files for repo/gen_ins_pkg_script.py.
use compass4nfv.Base.{◌≡◌, refl, ◌↔◌, true, false, List, [], ◌∷◌, codes, contains, some}
use compass4nfv.Result.{ok}
use compass4nfv.Value.{Value, str, array, object, value_eq}
use compass4nfv.Effects.{Environment}
use compass4nfv.Effects.Sample.{sample}
use compass4nfv.InsPackages.{get_packages_name_list}
use compass4nfv.InsPackages.Listed.{
  IsUnique, IsListed, specials, get_packages_name_list-IsUnique, get_packages_name_list-IsListed,
}

-- A role's variables: two lists of packages, one of them for pip.
abbrev variables : Value
variables = object (
    (codes "packages", array (str (codes "nova") ∷ str (codes "ceph") ∷ str (codes "nova") ∷ []))
    ∷ (codes "services", array (str (codes "ntp") ∷ []))
    ∷ (codes "pip_packages", array (str (codes "six") ∷ []))
    ∷ (codes "server_packages_noarch", str (codes "glance"))
    ∷ [])

abbrev roles : Environment
roles = record sample { yaml = λ path. some variables }

abbrev names : List Value
names = str (codes "nova") ∷ str (codes "glance") ∷ []

two_files : get_packages_name_list roles (codes "a" ∷ codes "b" ∷ []) (codes "ceph" ∷ []) ≡ ok names
unfolding get_packages_name_list
two_files = refl

get_packages_name_list-IsUnique_example : IsUnique names
get_packages_name_list-IsUnique_example =
    get_packages_name_list-IsUnique roles (codes "a" ∷ codes "b" ∷ []) (codes "ceph" ∷ []) two_files

get_packages_name_list-IsListed_example : (contains (str (codes "glance")) names ≡ true) ↔ (
    (contains (str (codes "glance")) (specials (codes "ceph" ∷ [])) ≡ false)
    × IsListed roles (str (codes "glance")) (codes "a" ∷ codes "b" ∷ []))
get_packages_name_list-IsListed_example =
    get_packages_name_list-IsListed roles (codes "a" ∷ codes "b" ∷ []) (codes "ceph" ∷ [])
      (str (codes "glance")) two_files
