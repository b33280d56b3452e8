-- ===== src/YamlLookup/Tests.antt =====
-- Two terms on one file, and a parameter with two equals signs.
use compass4nfv.Base.{◌≡◌, refl, [], ◌∷◌, map, All, none, some, codes, text_eq, number_eq}
use compass4nfv.Result.{ok, err, value_error, exception}
use compass4nfv.Value.{Values, Fields, str, null, list, dict, of_elements, of_entries}
use compass4nfv.Text.{join}
use compass4nfv.Text.Blanks.{has_blank}
use compass4nfv.Effects.{Environment}
use compass4nfv.Effects.Sample.{sample}
use compass4nfv.YamlLookup.{run}
use compass4nfv.YamlLookup.Given.{Term, IsGiven, answer, run-answer}

abbrev file : Fields
file = of_entries ((codes "region", str (codes "RegionOne")) ∷ [])

abbrev on_disk : Environment
on_disk = record sample { yaml = λ path. some (dict file) }

abbrev region : Term
region = record { path = codes "/opt/vars.yml"; key = codes "region"; default = none }

abbrev zone : Term
zone = record { path = codes "/opt/vars.yml"; key = codes "zone"; default = some (codes "nova") }

abbrev asked : Values
asked = of_elements (
    str (codes "/opt/vars.yml key=region") ∷ str (codes "/opt/vars.yml key=zone default=nova") ∷ [])

terms-IsGiven : All (IsGiven on_disk (λ path. file)) (region ∷ zone ∷ [])
unfolding has_blank number_eq
terms-IsGiven = (
  record {
    path_word = refl;
    key_plain = (refl, refl);
    key_there = refl;
    default_plain = tt;
    file = refl;
  },
  (
    record {
      path_word = refl;
      key_plain = (refl, refl);
      key_there = refl;
      default_plain = (refl, refl);
      file = refl;
    },
    tt,
  ),
)

run-answer_example : run on_disk (list asked) ≡ ok (map (λ a. answer file a) (region ∷ zone ∷ []))
unfolding join
run-answer_example = run-answer on_disk (λ path. file) (region ∷ zone ∷ []) asked refl terms-IsGiven

both_found : run on_disk (list asked) ≡ ok (str (codes "RegionOne") ∷ str (codes "nova") ∷ [])
unfolding run text_eq number_eq
both_found = refl

-- The exception of the unpacking is not caught.
two_equals_signs : run on_disk (str (codes "/opt/vars.yml key=a=b")) ≡ err value_error
unfolding run text_eq number_eq
two_equals_signs = refl

unknown_parameter : run on_disk (str (codes "/opt/vars.yml name=a")) ≡ err (exception [])
unfolding run text_eq number_eq
unknown_parameter = refl

no_key : run on_disk (str (codes "/opt/vars.yml")) ≡ ok (null ∷ [])
unfolding run text_eq number_eq
no_key = refl
