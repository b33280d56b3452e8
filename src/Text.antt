-- ===== src/Text.antt =====
-- Python's text methods: `split`, `join`, `strip`, `endswith`, `'%d'` and `int`.
pub mod Laws
pub mod Paths
pub mod Blanks
use compass4nfv.Base.{
  ℕ, zero, suc, ◌+◌, ◌*◌, ◌-◌, ◌/◌, ◌%◌, Bool, true, false, not, ◌||◌, ◌&&◌, List, [], ◌∷◌, ◌++◌,
  Option, none, some, Text, ◌==◌, number_eq, ltb, leb, if◌then◌else◌,
}
use mathlib.Core.List.{reverse}
use mathlib.Core.Option
use compass4nfv.Base.Int.{ℤ, pos, negsuc}

-- One more character in front of the first piece.
abbrev onto_first : ℕ → List Text → List Text
onto_first c [] = (c ∷ []) ∷ []
onto_first c (p ∷ ps) = (c ∷ p) ∷ ps

-- `s.split(sep)` for a separator of one character
unfoldable pub split : ℕ → Text → List Text
split sep [] = [] ∷ []
split sep (c ∷ s) = let rest = split sep s in if c == sep then [] ∷ rest else onto_first c rest

-- `s.split(sep, 1)`: the two parts, or `none` where `s` lacks the separator.
unfoldable pub split_once : ℕ → Text → Option (Text × Text)
split_once sep [] = none
split_once sep (c ∷ s) =
    let rest = split_once sep s in
    if c == sep then some ([], s) else elim rest [ none ↦ none | some (a, b) ↦ some (c ∷ a, b) ]

-- `sep.join(parts)`
unfoldable pub join : Text → List Text → Text
join sep [] = []
join sep (p ∷ []) = p
join sep (p ∷ q ∷ ps) = p ++ (sep ++ join sep (q ∷ ps))

abbrev pub is_space : ℕ → Bool
is_space c = c == 32 || (leb 9 c && leb c 13)

unfoldable pub lstrip : Text → Text
lstrip [] = []
lstrip (c ∷ s) = let rest = lstrip s in if is_space c then rest else c ∷ s

-- `s.strip()`
unfoldable pub strip : Text → Text
unfolding lstrip
strip s = reverse (lstrip (reverse (lstrip s)))

unfoldable pub begins_word : Text → Bool
begins_word [] = false
begins_word (c ∷ s) = not (is_space c)

-- `s.split()`
unfoldable pub words : Text → List Text
unfolding begins_word
words [] = []
words (c ∷ s) =
    let rest = words s in
    if is_space c then rest else if begins_word s then onto_first c rest else (c ∷ []) ∷ rest

-- `s[:-1]` where `s` ends in the character, else nothing
unfoldable pub chop : ℕ → Text → Option Text
chop c [] = none
chop c (d ∷ []) = if d == c then some [] else none
chop c (d ∷ e ∷ s) = elim (chop c (e ∷ s)) [ none ↦ none | some t ↦ some (d ∷ t) ]

decimal_from : ℕ → ℕ → Text → Text
decimal_from zero n out = out
decimal_from (suc f) n out = elim (ltb n 10) [
  | true ↦ (b'0' + n) ∷ out
  | false ↦ decimal_from f (n / 10) ((b'0' + n % 10) ∷ out)
]

-- `'%d' % n`. Each round divides by ten, so n + 1 rounds are more than enough.
unfoldable pub decimal : ℕ → Text
unfolding decimal_from
decimal n = decimal_from (suc n) n []

abbrev pub is_digit : ℕ → Bool
is_digit c = leb b'0' c && leb c b'9'

-- The value of a run of digits, with the value of those in front of it.
digits_value : ℕ → Text → Option ℕ
digits_value n [] = some n
digits_value n (c ∷ s) =
    let rest = digits_value (n * 10 + (c - b'0')) s in if is_digit c then rest else none

unsigned : Text → Option ℕ
unfolding digits_value
unsigned [] = none
unsigned (c ∷ s) = digits_value 0 (c ∷ s)

abbrev negated : ℕ → ℤ
negated zero = pos zero
negated (suc n) = negsuc n

signed : Text → Option ℤ
unfolding unsigned number_eq
signed [] = none
signed (c ∷ s) =
    if c == b'-'
    then Option.map negated (unsigned s)
    else if c == b'+'
    then Option.map (λ n. pos n) (unsigned s)
    else Option.map (λ n. pos n) (unsigned (c ∷ s))

-- `int(s)`; `none` is the ValueError.
unfoldable pub parse_int : Text → Option ℤ
unfolding signed strip
parse_int s = signed (strip s)
