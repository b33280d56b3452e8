-- ===== src/Text/Laws.antt =====
-- Laws of `split`, `split_once` and `join`.
use compass4nfv.Base.{
  ◌≡◌, refl, ap, ◌∙◌, false, arith, List, [], ◌∷◌, ◌++◌, some, Text, contains, number_eq, All, ℕ,
}
use compass4nfv.Text.{split, split_once, join}

-- The first separator cuts the text in two.
pub split_once-append :
    (sep : ℕ) (s t : Text) → contains sep s ≡ false → split_once sep (s ++ (sep ∷ t)) ≡ some (s, t)
unfolding split_once
split_once-append sep [] t free = ground arith
split_once-append sep (c ∷ s) t free = ground (arith, split_once-append sep s t)

pub split-free : (sep : ℕ) (s : Text) → contains sep s ≡ false → split sep s ≡ s ∷ []
unfolding split
split-free sep [] free = refl
split-free sep (c ∷ s) free = ground (arith, split-free sep s)

pub split-append :
    (sep : ℕ) (s t : Text) → contains sep s ≡ false → split sep (s ++ (sep ∷ t)) ≡ s ∷ split sep t
unfolding split
split-append sep [] t free = ground arith
split-append sep (c ∷ s) t free = ground (arith, split-append sep s t)

-- A text without the separator.
abbrev pub IsFree : ℕ → Text → Type 0
IsFree sep s = contains sep s ≡ false

pub split-join :
    (sep : ℕ) (s : Text) (parts : List Text)
    → All (IsFree sep) (s ∷ parts)
    → split sep (join (sep ∷ []) (s ∷ parts)) ≡ s ∷ parts
unfolding join
split-join sep s [] (free, _) = split-free sep s free
split-join sep s (t ∷ parts) (free, rest) =
    split-append sep s (join (sep ∷ []) (t ∷ parts)) free
    ∙ ap (λ ps. s ∷ ps) (split-join sep t parts rest)
