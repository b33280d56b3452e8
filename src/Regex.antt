-- ===== src/Regex.antt =====
-- The part of Python's regular expressions that util/check_valid.py uses, for patterns `^…$`.
pub mod Laws
use compass4nfv.Base.{ℕ, zero, suc, Bool, true, false, ◌&&◌, ◌||◌, [], ◌∷◌, Text, leb, eqb}

pub data Regex : Type 0 where
  -- a character of a class
  one : (ℕ → Bool) → Regex
  seq : Regex → Regex → Regex
  -- `a|b`
  alt : Regex → Regex → Regex
  -- `a?`
  maybe : Regex → Regex
  -- `a{n}`
  times : ℕ → Regex → Regex

abbrev pub char : ℕ → Regex
char c = one (λ d. eqb d c)

-- `[a-b]`
abbrev pub range : ℕ → ℕ → Regex
range a b = one (λ d. leb a d && leb d b)

-- `\d`, in a text that is no unicode text
abbrev pub digit : Regex
digit = range b'0' b'9'

-- What is read again and again, and then the rest.
abbrev pub repeat : ℕ → ((Text → Bool) → Text → Bool) → (Text → Bool) → Text → Bool
repeat zero reads rest = rest
repeat (suc n) reads rest = reads (repeat n reads rest)

-- Does the pattern match the front of the text, so that `rest` holds of what is left? Of several
-- ways each is tried.
unfoldable pub matches : Regex → (Text → Bool) → Text → Bool
matches (one p) rest [] = false
matches (one p) rest (c ∷ s) = p c && rest s
matches (seq a b) rest s = matches a (matches b rest) s
matches (alt a b) rest s = matches a rest s || matches b rest s
matches (maybe a) rest s = matches a rest s || rest s
matches (times n a) rest s = repeat n (matches a) rest s

-- `$`: the end of the text, or a newline that ends it
unfoldable pub at_end : Text → Bool
at_end [] = true
at_end (c ∷ []) = eqb c 10
at_end (c ∷ d ∷ s) = false

-- `re.search('^' + pattern + '$', s) is not None`
unfoldable pub search : Regex → Text → Bool
unfolding matches at_end
search pattern s = matches pattern at_end s
