-- ===== src/Text/Blanks.antt =====
-- Texts without blanks, which `strip` leaves alone.
use compass4nfv.Base.{
  ℕ, List, All, ◌≡◌, refl, ap, ◌∙◌, Bool, false, ◌||◌, arith, [], ◌∷◌, ◌++◌, Text, number_eq,
}
use mathlib.Core.List.{reverse, reverse-reverse, reverse-append}
use compass4nfv.Text.{is_space, lstrip, strip, words, join, begins_word, onto_first}

unfoldable pub has_blank : Text → Bool
unfolding number_eq
has_blank [] = false
has_blank (c ∷ s) = is_space c || has_blank s

pub has_blank-append : (s t : Text) → has_blank (s ++ t) ≡ (has_blank s || has_blank t)
unfolding has_blank
has_blank-append [] t = refl
has_blank-append (c ∷ s) t = ground (arith, has_blank-append s t)

has_blank-reverse : (s : Text) → has_blank s ≡ false → has_blank (reverse s) ≡ false
unfolding has_blank
has_blank-reverse [] free = refl
has_blank-reverse (c ∷ s) free =
    let e : has_blank (reverse (c ∷ s)) ≡ (has_blank (reverse s) || (is_space c || false)) =
      ap has_blank (reverse-append (c ∷ []) s) ∙ has_blank-append (reverse s) (c ∷ []) in
    ground (arith, e, free, has_blank-reverse s)

lstrip-free : (s : Text) → has_blank s ≡ false → lstrip s ≡ s
unfolding has_blank lstrip
lstrip-free [] free = refl
lstrip-free (c ∷ s) free = ground (arith, free)

-- A text without blanks.
pub strip-free : (s : Text) → has_blank s ≡ false → strip s ≡ s
unfolding strip
strip-free s free =
    ap (λ z. reverse (lstrip (reverse z))) (lstrip-free s free)
    ∙ ap reverse (lstrip-free (reverse s) (has_blank-reverse s free))
    ∙ reverse-reverse s

-- A text that is one word: it is not empty and has no blank.
abbrev pub IsOneWord : Text → Type 0
IsOneWord [] = ⊥
IsOneWord (c ∷ s) = has_blank (c ∷ s) ≡ false

words-cons :
    (c d : ℕ) (s : Text)
    → has_blank (c ∷ d ∷ []) ≡ false
    → words (c ∷ d ∷ s) ≡ onto_first c (words (d ∷ s))
unfolding has_blank words begins_word
words-cons c d s free = ground (arith, free)

first_two :
    (c d : ℕ) (s : Text)
    → has_blank (c ∷ d ∷ s) ≡ false
    → (has_blank (c ∷ d ∷ []) ≡ false) × (has_blank (d ∷ s) ≡ false)
unfolding has_blank
first_two c d s free = (ground (arith, free), ground (arith, free))

words-append : (w s : Text) → IsOneWord w → words (w ++ (32 ∷ s)) ≡ w ∷ words s
unfolding has_blank words number_eq
words-append [] s one = elim one [ ]
words-append (c ∷ []) s one = ground (arith, one)
words-append (c ∷ d ∷ w) s one =
    let (two, rest) = first_two c d w one in
    words-cons c d (w ++ (32 ∷ s)) two ∙ ap (onto_first c) (words-append (d ∷ w) s rest)

words_single : (w : Text) → IsOneWord w → words w ≡ w ∷ []
unfolding has_blank words
words_single [] one = elim one [ ]
words_single (c ∷ []) one = ground (arith, one)
words_single (c ∷ d ∷ w) one =
    let (two, rest) = first_two c d w one in
    words-cons c d w two ∙ ap (onto_first c) (words_single (d ∷ w) rest)

pub words-join :
    (w : Text) (ws : List Text) → All IsOneWord (w ∷ ws) → words (join (32 ∷ []) (w ∷ ws)) ≡ w ∷ ws
unfolding join
words-join w [] (one, more) = words_single w one
words-join w (v ∷ ws) (one, more) =
    words-append w (join (32 ∷ []) (v ∷ ws)) one ∙ ap (λ z. w ∷ z) (words-join v ws more)
