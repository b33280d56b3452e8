-- ===== src/Value/Access.antt =====
-- Python's truth test, subscripts, `get`, `in` and iteration on values, with the exceptions that
-- they raise.
use compass4nfv.Base.{
  ℕ, zero, suc, Bool, true, false, ◌&&◌, ◌||◌, List, [], ◌∷◌, map, none, some, Text, ◌==◌, contains,
  text_eq, number_eq, get_elem?,
}
use compass4nfv.Base.Int.{pos, negsuc}
use compass4nfv.Base.Dict.{keys, lookup, insert, has_key}
use compass4nfv.Result.{
  Result, ok, err, or_raise, key_error, type_error, index_error, attribute_error,
}
use compass4nfv.Value.{
  Value, null, bool, int, str, list, dict, nil, cons, end, field, value_eq, elements, entries,
  object,
}

-- `bool(v)`
abbrev pub truthy : Value → Bool
truthy null = false
truthy (bool b) = b
truthy (int (pos zero)) = false
truthy (int (pos (suc n))) = true
truthy (int (negsuc n)) = true
truthy (str []) = false
truthy (str (c ∷ s)) = true
truthy (list nil) = false
truthy (list (cons v vs)) = true
truthy (dict end) = false
truthy (dict (field k v fs)) = true

-- `v[k]` for a text `k`
unfoldable pub getitem : Value → Text → Result Value
unfolding lookup
getitem (dict fs) k = or_raise (lookup k (entries fs)) key_error
getitem v k = err type_error

-- `v[i]` for a number `i`. The keys of a dict are texts.
unfoldable pub item_at : Value → ℕ → Result Value
item_at (list vs) i = or_raise (get_elem? (elements vs) i) index_error
item_at (str s) i = or_raise (get_elem? (map (λ c. str (c ∷ [])) s) i) index_error
item_at (dict fs) i = err key_error
item_at v i = err type_error

-- `v.get(k, default)`
unfoldable pub get : Value → Text → Value → Result Value
unfolding lookup
get (dict fs) k default = elim (lookup k (entries fs)) [ none ↦ ok default | some v ↦ ok v ]
get v k default = err attribute_error

-- `for x in v`
unfoldable pub iterate : Value → Result (List Value)
iterate (list vs) = ok (elements vs)
iterate (dict fs) = ok (map (λ k. str k) (keys (entries fs)))
iterate (str s) = ok (map (λ c. str (c ∷ [])) s)
iterate v = err type_error

-- `v[k] = w`
unfoldable pub setitem : Value → Text → Value → Result Value
unfolding insert
setitem (dict fs) k w = ok (object (insert k w (entries fs)))
setitem v k w = err type_error

is_prefix : Text → Text → Bool
unfolding number_eq
is_prefix [] t = true
is_prefix (c ∷ s) [] = false
is_prefix (c ∷ s) (d ∷ t) = c == d && is_prefix s t

unfoldable pub is_infix : Text → Text → Bool
unfolding is_prefix
is_infix s [] = is_prefix s []
is_infix s (d ∷ t) = is_prefix s (d ∷ t) || is_infix s t

-- `k in v` for a text `k`
unfoldable pub is_in : Text → Value → Result Bool
unfolding has_key is_infix is_prefix
is_in k (dict fs) = ok (has_key k (entries fs))
is_in k (list vs) = ok (contains (str k) (elements vs))
is_in k (str s) = ok (is_infix k s)
is_in k v = err type_error

-- Can the value be a key of a dict?
abbrev pub hashable : Value → Bool
hashable (list vs) = false
hashable (dict fs) = false
hashable v = true
