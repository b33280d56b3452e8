-- ===== src/Value.antt =====
-- The values that JSON and YAML documents hold in Python: what `json.loads`, `yaml.load` and dict
-- literals build. Floats do not occur in the program's data; `str` and `unicode` are one type, and
-- so `byteify` of deploy/client.py, which turns the one into the other at every depth, is the
-- identity on these values.
pub mod Access
use compass4nfv.Base.{ℕ, Bool, List, [], ◌∷◌, Text, Eq, text_eq, ℕ_discrete}
use compass4nfv.Base.Int.{ℤ, pos}
use compass4nfv.Base.Dict.{Dict}

mutual
  pub data Value : Type 0 where
    null : Value
    bool : Bool → Value
    int : ℤ → Value
    str : Text → Value
    list : Values → Value
    dict : Fields → Value

  pub data Values : Type 0 where
    nil : Values
    cons : Value → Values → Values

  pub data Fields : Type 0 where
    end : Fields
    field : Text → Value → Fields → Fields

value_dec : Discrete Value
value_dec = hlevel ℕ_discrete

instance unfoldable pub value_eq : Eq Value
unfolding value_dec ℕ_discrete
value_eq = record { dec = value_dec }

abbrev pub elements : Values → List Value
elements nil = []
elements (cons v vs) = v ∷ elements vs

abbrev pub of_elements : List Value → Values
of_elements [] = nil
of_elements (v ∷ vs) = cons v (of_elements vs)

abbrev pub entries : Fields → Dict Text Value
entries end = []
entries (field k v fs) = (k, v) ∷ entries fs

abbrev pub of_entries : Dict Text Value → Fields
of_entries [] = end
of_entries ((k, v) ∷ d) = field k v (of_entries d)

-- A list literal, a dict literal and a number.
abbrev pub array : List Value → Value
array vs = list (of_elements vs)

abbrev pub object : Dict Text Value → Value
object d = dict (of_entries d)

abbrev pub num : ℕ → Value
num n = int (pos n)
