-- ===== src/Compass/Documents.antt =====
-- What the methods of `CompassClient` (deploy/client.py) read from replies, files and options.
pub mod Machines
pub mod Pieces
use compass4nfv.Base.{
  ℕ, Bool, true, false, List, [], ◌∷◌, Option, none, some, Text, codes, ◌==◌, contains, text_eq,
  keep, if◌then◌else◌,
}
use compass4nfv.Result.{Result, ok, err, type_error, ◌>>=◌}
use compass4nfv.Value.{Value, null, str, value_eq}
use compass4nfv.Value.Access.{getitem, truthy}
use compass4nfv.Text.{split}
use compass4nfv.Effects.{Environment, show}

-- A library that takes nothing but a text.
unfoldable pub text_of : Value → Result Text
text_of (str s) = ok s
text_of v = err type_error

-- `[x for x in text.split(sep) if x]`
unfoldable pub pieces : ℕ → Text → List Text
unfolding keep split
pieces sep text = keep (λ s. truthy (str s)) (split sep text)

module _ (E : Environment) where
  -- `str(m["mac"])`
  unfoldable pub mac_of : Value → Result Text
  unfolding getitem show
  mac_of m = do mac ← getitem m (codes "mac"); ok (show E mac)

  -- `[m["id"] for m in resp if str(m["mac"]) in machines_to_add]`
  unfoldable pub ids_of : List Text → List Value → Result (List Value)
  unfolding mac_of getitem text_eq
  ids_of macs [] = ok []
  ids_of macs (m ∷ ms) =
      let rest = ids_of macs ms in
      do
        mac ← mac_of m
        if contains mac macs then (do i ← getitem m (codes "id"); is ← rest; ok (i ∷ is)) else rest

  -- The loops of `get_adapter`: the id of the first item whose name matches, `None` if none does.
  unfoldable pub first_match : Text → Text → List Value → Result Value
  unfolding getitem text_of
  first_match pattern key [] = ok null
  first_match pattern key (v ∷ vs) =
      let rest = first_match pattern key vs in
      do
        name ← getitem v (codes "name")
        text ← text_of name
        if E.re_match pattern text then getitem v key else rest

-- `set(xs).issubset(set(ys))`
unfoldable pub is_subset : List Text → List Text → Bool
unfolding text_eq
is_subset [] ys = true
is_subset (x ∷ xs) ys = let rest = is_subset xs ys in if contains x ys then rest else false

-- The inner loop of `add_subnets`: the id of the first subnet of the database that is `subnet`.
unfoldable pub find_subnet : Text → List Value → Result (Option Value)
unfolding getitem value_eq
find_subnet subnet [] = ok none
find_subnet subnet (v ∷ vs) =
    let rest = find_subnet subnet vs in
    do
      known ← getitem v (codes "subnet")
      if str subnet == known then (do i ← getitem v (codes "id"); ok (some i)) else rest
