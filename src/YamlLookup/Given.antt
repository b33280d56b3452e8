-- ===== src/YamlLookup/Given.antt =====
-- What a term asks for that is written as the lookup reads it.
use compass4nfv.Base.{
  ◌≡◌, refl, sym, ap, ◌∙◌, inl, inr, true, false, List, [], ◌∷◌, ◌++◌, map, All, Option, none, some,
  Text, codes, contains, text_eq, number_eq, Option-cases,
}
use compass4nfv.Base.Dict.{lookup, has_key-of_lookup}
use compass4nfv.Result.{Result, ok, err, index_error, each, ◌>>=◌}
use compass4nfv.Value.{Value, Values, null, str, list, Fields, dict, entries, elements}
use compass4nfv.Value.Access.{truthy, getitem, is_in}
use compass4nfv.Text.{split, join}
use compass4nfv.Text.Laws.{split-append, split-free}
use compass4nfv.Text.Blanks.{has_blank, IsOneWord, words-join}
use compass4nfv.Effects.{Environment}
use compass4nfv.YamlLookup.{TermParams, set_param, set_params, read_yaml, read_term, run}

-- A term: a file, a key, and a default or none.
pub record Term : Type 0 where
  pub path : Text
  pub key : Text
  pub default : Option Text

abbrev pub written : Text → Option Text → List Text
written key none = (codes "key=" ++ key) ∷ []
written key (some d) = (codes "key=" ++ key) ∷ (codes "default=" ++ d) ∷ []

abbrev pub text_of : Term → Value
text_of a = str (join (codes " ") (a.path ∷ written a.key a.default))

abbrev pub or_null : Option Text → Value
or_null none = null
or_null (some d) = str d

-- What the file has for the key, or the default.
abbrev pub answer : Fields → Term → Value
answer fs a = elim (lookup a.key (entries fs)) [ none ↦ or_null a.default | some v ↦ v ]

-- No blank and no equals sign.
abbrev pub IsPlain : Text → Type 0
IsPlain s = (has_blank s ≡ false) × (contains b'=' s ≡ false)

abbrev IsDefault : Option Text → Type 0
IsDefault none = Unit
IsDefault (some d) = IsPlain d

module _ (E : Environment) (files : Text → Fields) where
  -- The term can be written, and the file holds a dict.
  pub record IsGiven (a : Term) : Type 0 where
    pub path_word : IsOneWord a.path
    pub key_plain : IsPlain a.key
    pub key_there : truthy (str a.key) ≡ true
    pub default_plain : IsDefault a.default
    pub file : E.yaml a.path ≡ some (dict (files a.path))

param-IsOneWord :
    (key : Text) (default : Option Text)
    → IsPlain key
    → IsDefault default
    → All IsOneWord (written key default)
unfolding has_blank number_eq
param-IsOneWord key none (blank, free) plain = (blank, tt)
param-IsOneWord key (some d) (blank, free) (none_blank, none_free) = (blank, (none_blank, tt))

split-param :
    (name value : Text)
    → contains b'=' name ≡ false
    → contains b'=' value ≡ false
    → split b'=' (name ++ (b'=' ∷ value)) ≡ name ∷ value ∷ []
split-param name value free value_free =
    split-append b'=' name value free ∙ ap (λ ps. name ∷ ps) (split-free b'=' value value_free)

set_params-cons :
    (param : Text) (more : List Text) (q : TermParams) (parts : List Text)
    → split b'=' param ≡ parts
    → set_params (param ∷ more) q ≡ (set_param parts q >>= λ changed. set_params more changed)
unfolding set_params
set_params-cons param more q parts e =
    ap (λ ps. set_param ps q >>= λ changed. set_params more changed) e

set_params-written :
    (key : Text) (default : Option Text)
    → IsPlain key
    → IsDefault default
    → set_params (written key default) (record { key = null; default = null })
      ≡ ok (record { key = str key; default = or_null default })
unfolding set_params set_param text_eq number_eq
set_params-written key none (blank, free) plain =
    set_params-cons (codes "key=" ++ key) [] (record { key = null; default = null })
      (codes "key" ∷ key ∷ []) (split-param (codes "key") key refl free)
set_params-written key (some d) (blank, free) (none_blank, none_free) =
    let second = codes "default=" ++ d in
    set_params-cons (codes "key=" ++ key) (second ∷ []) (record { key = null; default = null })
      (codes "key" ∷ key ∷ []) (split-param (codes "key") key refl free)
    ∙ set_params-cons second [] (record { key = str key; default = null })
        (codes "default" ∷ d ∷ []) (split-param (codes "default") d refl none_free)

module _ (E : Environment) (files : Text → Fields) where
  read_yaml-answer :
      (a : Term)
      → IsGiven E files a
      → read_yaml E a.path (str a.key) (or_null a.default) ≡ ok (answer (files a.path) a)
  unfolding read_yaml is_in getitem
  read_yaml-answer a given = elim (Option-cases (lookup a.key (entries (files a.path)))) [
    | inl absent ↦
        rw (given.key_there, given.file, has_key-of_lookup a.key (entries (files a.path)), absent)
          (ap (λ o. ok (elim o [ none ↦ or_null a.default | some v ↦ v ])) (sym absent))
    | inr (v, there) ↦
        rw (given.key_there, given.file, has_key-of_lookup a.key (entries (files a.path)), there)
          (ap (λ o. ok (elim o [ none ↦ or_null a.default | some v ↦ v ])) (sym there))
  ]

  read_term-answer :
      (a : Term) → IsGiven E files a → read_term E (text_of a) ≡ ok (answer (files a.path) a)
  unfolding read_term
  read_term-answer a given =
      let all = param-IsOneWord a.key a.default given.key_plain given.default_plain in
      let q : TermParams = record { key = null; default = null } in
      let at_words = λ (ws : List Text). elim ws as (λ ws. Result Value) [
        | [] ↦ err index_error
        | path ∷ parts ↦ set_params parts q >>= λ params. read_yaml E path params.key params.default
      ] in
      ap at_words (words-join a.path (written a.key a.default) (given.path_word, all))
      ∙ ap (λ r. r >>= λ (params : TermParams). read_yaml E a.path params.key params.default)
          (set_params-written a.key a.default given.key_plain given.default_plain)
      ∙ read_yaml-answer a given

  each-answer :
      (terms : List Term)
      → All (IsGiven E files) terms
      → each (read_term E) (map text_of terms)
        ≡ ok (map (λ (a : Term). answer (files a.path) a) terms)
  unfolding each
  each-answer [] given = refl
  each-answer (a ∷ more) (given, others) = rw (read_term-answer a given, each-answer more others)

  pub run-answer :
      (terms : List Term) (vs : Values)
      → elements vs ≡ map text_of terms
      → All (IsGiven E files) terms
      → run E (list vs) ≡ ok (map (λ (a : Term). answer (files a.path) a) terms)
  unfolding run
  run-answer terms vs are given = ap (λ xs. each (read_term E) xs) are ∙ each-answer terms given
