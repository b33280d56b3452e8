-- ===== src/Regex/Laws.antt =====
-- Which texts a regular expression means, and that the matcher finds them.
use compass4nfv.Base.{
  ℕ, zero, suc, ◌≡◌, refl, sym, ap, ◌∙◌, ◌↔◌, ◌⊎◌, inl, inr, Bool, true, arith, [], ◌∷◌, ◌++◌,
  append_assoc, Text, Bool-cases,
}
use compass4nfv.Regex.{Regex, one, seq, alt, maybe, times, repeat, matches, at_end, search}

-- Texts in a row, each in the language.
abbrev pub Power : ℕ → (Text → Type 0) → Text → Type 0
Power zero L u = u ≡ []
Power (suc n) L u = (v : Text) × (w : Text) × (u ≡ v ++ w) × L v × Power n L w

-- The texts that a pattern means.
abbrev pub Language : Regex → Text → Type 0
Language (one p) u = (c : ℕ) × (u ≡ c ∷ []) × (p c ≡ true)
Language (seq a b) u = (v : Text) × (w : Text) × (u ≡ v ++ w) × Language a v × Language b w
Language (alt a b) u = Language a u ⊎ Language b u
Language (maybe a) u = Language a u ⊎ (u ≡ [])
Language (times n a) u = Power n (Language a) u

-- The text has a front in the language, and what is left has the property.
abbrev pub Front : (Text → Type 0) → (Text → Bool) → Text → Type 0
Front L rest s = (u : Text) × (v : Text) × (s ≡ u ++ v) × L u × (rest v ≡ true)

repeat-Front :
    (L : Text → Type 0) (reads : (Text → Bool) → Text → Bool)
    → ((rest : Text → Bool) (s : Text) → reads rest s ≡ true → Front L rest s)
    → (n : ℕ) (rest : Text → Bool) (s : Text) → repeat n reads rest s ≡ true
    → Front (Power n L) rest s
repeat-Front L reads sound zero rest s h = ([], s, refl, refl, h)
repeat-Front L reads sound (suc n) rest s h =
    let (u, v, split, hu, left) = sound (repeat n reads rest) s h in
    let (u', v', split', hu', left') = repeat-Front L reads sound n rest v left in
    (
      u ++ u',
      v',
      split ∙ ap (λ z. u ++ z) split' ∙ sym (append_assoc u u' v'),
      (u, u', refl, hu, hu'),
      left',
    )

repeat-of_Front :
    (L : Text → Type 0) (reads : (Text → Bool) → Text → Bool)
    → ((rest : Text → Bool) (s : Text) → Front L rest s → reads rest s ≡ true)
    → (n : ℕ) (rest : Text → Bool) (s : Text) → Front (Power n L) rest s
    → repeat n reads rest s ≡ true
repeat-of_Front L reads complete zero rest s (u, v, split, empty, left) =
    ap rest (split ∙ ap (λ z. z ++ v) empty) ∙ left
repeat-of_Front L reads complete (suc n) rest s (u, v, split, (u1, u2, same, h1, h2), left) =
    complete (repeat n reads rest) s (
      u1,
      u2 ++ v,
      split ∙ ap (λ z. z ++ v) same ∙ append_assoc u1 u2 v,
      h1,
      repeat-of_Front L reads complete n rest (u2 ++ v) (u2, v, refl, h2, left),
    )

pub matches-Front :
    (r : Regex) (rest : Text → Bool) (s : Text)
    → matches r rest s ≡ true
    → Front (Language r) rest s
unfolding matches
matches-Front (one p) rest [] h = cc h
matches-Front (one p) rest (c ∷ s) h =
    (c ∷ [], s, refl, (c, refl, ground (arith, h)), ground (arith, h))
matches-Front (seq a b) rest s h =
    let (u, v, split, hu, left) = matches-Front a (matches b rest) s h in
    let (u', v', split', hu', left') = matches-Front b rest v left in
    (
      u ++ u',
      v',
      split ∙ ap (λ z. u ++ z) split' ∙ sym (append_assoc u u' v'),
      (u, u', refl, hu, hu'),
      left',
    )
matches-Front (alt a b) rest s h = elim (Bool-cases (matches a rest s)) [
  | inl left ↦
      let (u, v, split, hu, more) = matches-Front a rest s left in (u, v, split, inl hu, more)
  | inr other ↦
      let (u, v, split, hu, more) = matches-Front b rest s (rw other at h) in
      (u, v, split, inr hu, more)
]
matches-Front (maybe a) rest s h = elim (Bool-cases (matches a rest s)) [
  | inl left ↦
      let (u, v, split, hu, more) = matches-Front a rest s left in (u, v, split, inl hu, more)
  | inr other ↦ ([], s, refl, inr refl, rw other at h)
]
matches-Front (times n a) rest s h =
    repeat-Front (Language a) (matches a) (matches-Front a) n rest s h

pub matches-of_Front :
    (r : Regex) (rest : Text → Bool) (s : Text)
    → Front (Language r) rest s
    → matches r rest s ≡ true
unfolding matches
matches-of_Front (one p) rest s (u, v, split, (c, single, h), left) =
    ap (matches (one p) rest) (split ∙ ap (λ z. z ++ v) single) ∙ ground (arith, h, left)
matches-of_Front (seq a b) rest s (u, v, split, (u1, u2, same, h1, h2), left) =
    matches-of_Front a (matches b rest) s (
      u1,
      u2 ++ v,
      split ∙ ap (λ z. z ++ v) same ∙ append_assoc u1 u2 v,
      h1,
      matches-of_Front b rest (u2 ++ v) (u2, v, refl, h2, left),
    )
matches-of_Front (alt a b) rest s (u, v, split, inl h, left) =
    let found = matches-of_Front a rest s (u, v, split, h, left) in ground (arith, found)
matches-of_Front (alt a b) rest s (u, v, split, inr h, left) =
    let found = matches-of_Front b rest s (u, v, split, h, left) in ground (arith, found)
matches-of_Front (maybe a) rest s (u, v, split, inl h, left) =
    let found = matches-of_Front a rest s (u, v, split, h, left) in ground (arith, found)
matches-of_Front (maybe a) rest s (u, v, split, inr empty, left) =
    let whole : s ≡ v = split ∙ ap (λ z. z ++ v) empty in
    let ends : rest s ≡ true = ap rest whole ∙ left in ground (arith, ends)
matches-of_Front (times n a) rest s h =
    repeat-of_Front (Language a) (matches a) (matches-of_Front a) n rest s h

-- What `$` allows after the pattern.
abbrev pub IsEnd : Text → Type 0
IsEnd t = (t ≡ []) ⊎ (t ≡ 10 ∷ [])

at_end-IsEnd : (t : Text) → at_end t ≡ true → IsEnd t
unfolding at_end
at_end-IsEnd [] h = inl refl
at_end-IsEnd (c ∷ []) h = inr (ground (arith, h))
at_end-IsEnd (c ∷ d ∷ t) h = cc h

at_end-of_IsEnd : (t : Text) → IsEnd t → at_end t ≡ true
unfolding at_end
at_end-of_IsEnd t (inl e) = ap at_end e
at_end-of_IsEnd t (inr e) = ap at_end e

-- A pattern `^…$` finds the texts of its language, with a newline after them or none.
pub search_lem :
    (r : Regex) (s : Text)
    → (search r s ≡ true) ↔ ((u : Text) × (v : Text) × (s ≡ u ++ v) × Language r u × IsEnd v)
unfolding search
search_lem r s = (
  λ h.
      let (u, v, split, hu, left) = matches-Front r at_end s h in
      (u, v, split, hu, at_end-IsEnd v left),
  λ (u, v, split, hu, left). matches-of_Front r at_end s (u, v, split, hu, at_end-of_IsEnd v left),
)
