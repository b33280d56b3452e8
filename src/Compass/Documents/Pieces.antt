-- ===== src/Compass/Documents/Pieces.antt =====
-- The lists that the options of deploy/client.py hold.
use compass4nfv.Base.{
  ◌≡◌, refl, ap, ◌∙◌, true, false, arith, List, [], ◌∷◌, Text, contains, number_eq, All, ℕ, keep,
}
use compass4nfv.Value.{str}
use compass4nfv.Value.Access.{truthy}
use compass4nfv.Text.{split, join}
use compass4nfv.Text.Laws.{IsFree, split-join}
use compass4nfv.Compass.Documents.{pieces}

-- An item that can stand in a list: not empty, and without the separator.
abbrev pub IsItem : ℕ → Text → Type 0
IsItem sep s = (truthy (str s) ≡ true) × (contains sep s ≡ false)

items-IsFree : (sep : ℕ) (parts : List Text) → All (IsItem sep) parts → All (IsFree sep) parts
items-IsFree sep [] h = h
items-IsFree sep (p ∷ parts) ((_, free), h) = (free, items-IsFree sep parts h)

keep-items :
    (sep : ℕ) (parts : List Text)
    → All (IsItem sep) parts
    → keep (λ s. truthy (str s)) parts ≡ parts
unfolding keep
keep-items sep [] h = refl
keep-items sep (p ∷ parts) ((full, _), h) = ground (arith, keep-items sep parts h)

-- The comprehension `[x for x in text.split(sep) if x]` gives back the items that have been joined by
-- the separator, if none is empty or holds the separator.
pub pieces-join :
    (sep : ℕ) (parts : List Text)
    → All (IsItem sep) parts
    → pieces sep (join (sep ∷ []) parts) ≡ parts
unfolding pieces join split keep
pieces-join sep [] h = refl
pieces-join sep (p ∷ parts) h =
    ap (keep (λ s. truthy (str s))) (split-join sep p parts (items-IsFree sep (p ∷ parts) h))
    ∙ keep-items sep (p ∷ parts) h
