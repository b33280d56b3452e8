-- ===== src/Text/Paths.antt =====
-- Paths as Python's `os.path` handles them, and `endswith`.
use compass4nfv.Base.{
  Bool, [], ◌∷◌, ◌++◌, Text, contains, ◌==◌, ◌||◌, number_eq, text_eq, if◌then◌else◌,
}

-- A path with a slash at its end, unless it is empty.
unfoldable slashed : Text → Text
slashed [] = []
slashed (c ∷ []) = if c == b'/' then c ∷ [] else c ∷ b'/' ∷ []
slashed (c ∷ d ∷ a) = c ∷ slashed (d ∷ a)

-- `os.path.join(a, b)`
unfoldable pub path_join : Text → Text → Text
unfolding slashed
path_join a [] = slashed a
path_join a (c ∷ b) = if c == b'/' then c ∷ b else slashed a ++ (c ∷ b)

-- `s.endswith(suffix)`
unfoldable pub ends_with : Text → Text → Bool
unfolding text_eq
ends_with suffix [] = suffix == []
ends_with suffix (c ∷ s) = suffix == (c ∷ s) || ends_with suffix s

-- `os.path.basename(path)`: what stands behind the last slash.
unfoldable pub basename : Text → Text
unfolding number_eq
basename [] = []
basename (c ∷ s) = let rest = basename s in if contains b'/' (c ∷ s) then rest else c ∷ s
