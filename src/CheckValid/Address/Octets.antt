-- ===== src/CheckValid/Address/Octets.antt =====
-- The parts of the regular expression of `is_valid_ip` (util/check_valid.py), against the values of
-- digits.
use compass4nfv.Base.{
  ℕ, ◌+◌, ◌*◌, ◌-◌, ◌≤◌, ◌<◌, ◌≡◌, refl, subst, sym, ap, ◌⊎◌, inl, inr, true, ◌&&◌, arith, [], ◌∷◌,
  Text, length, leb,
}
use compass4nfv.Regex.Laws.{Language}
use compass4nfv.CheckValid.{high, low, first_octet, octet, prefix}
use compass4nfv.CheckValid.Address.{IsDigit, IsFirst, IsOctet, IsPrefix}

ltb-cases : (a b : ℕ) → (a < b) ⊎ (b ≤ a)
ltb-cases a b = omega arith

-- A character of a class of digits.
range-IsDigit : (a b c : ℕ) → leb a c && leb c b ≡ true → (a ≤ c) × (c ≤ b)
range-IsDigit a b c h = ground (arith, h)

three-IsOctet :
    (c d x : ℕ)
    → IsDigit c
    → IsDigit d
    → IsDigit x
    → 49 ≤ c
    → ((c - 48) * 10 + (d - 48)) * 10 + (x - 48) ≤ 255
    → IsOctet (c ∷ d ∷ x ∷ [])
three-IsOctet c d x hc hd hx least most =
    (((hc, (hd, (hx, tt))), omega arith, omega arith, omega arith), λ _. omega arith)

high-IsOctet : (u : Text) → Language high u → IsOctet u
high-IsOctet u (inl (v, w, e, (c, e1, h1), (v', w', e', (d, e2, h2), (x, e3, h3)))) =
    let whole : c ∷ d ∷ x ∷ [] ≡ u = cc in
    let hc : c ≡ 49 = ground (arith, h1) in
    let hd = range-IsDigit 48 57 d h2 in
    let hx = range-IsDigit 48 57 x h3 in
    subst IsOctet whole (three-IsOctet c d x (omega arith) hd hx (omega arith) (omega arith))
high-IsOctet u (inr (inl (v, w, e, (c, e1, h1), (v', w', e', (d, e2, h2), (x, e3, h3))))) =
    let whole : c ∷ d ∷ x ∷ [] ≡ u = cc in
    let hc : c ≡ 50 = ground (arith, h1) in
    let hd = range-IsDigit 48 52 d h2 in
    let hx = range-IsDigit 48 57 x h3 in
    subst IsOctet whole
      (three-IsOctet c d x (omega arith) (omega arith, omega arith) hx (omega arith) (omega arith))
high-IsOctet u (inr (inr (v, w, e, (c, e1, h1), (v', w', e', (d, e2, h2), (x, e3, h3))))) =
    let whole : c ∷ d ∷ x ∷ [] ≡ u = cc in
    let hc : c ≡ 50 = ground (arith, h1) in
    let hd : d ≡ 53 = ground (arith, h2) in
    let hx = range-IsDigit 48 53 x h3 in
    subst IsOctet whole (
      three-IsOctet c d x (omega arith) (omega arith) (omega arith, omega arith) (omega arith)
        (omega arith))

low-IsOctet : (u : Text) → Language low u → IsOctet u
low-IsOctet u (v, w, e, (c, e1, h1), inl (d, e2, h2)) =
    let whole : c ∷ d ∷ [] ≡ u = cc in
    let hc = range-IsDigit 48 57 c h1 in
    let hd = range-IsDigit 48 57 d h2 in
    subst IsOctet whole
      (((hc, (hd, tt)), omega arith, omega arith, omega arith), λ z. omega (arith, z))
low-IsOctet u (v, w, e, (c, e1, h1), inr e2) =
    let whole : c ∷ [] ≡ u = cc in
    let hc = range-IsDigit 48 57 c h1 in
    subst IsOctet whole (((hc, tt), omega arith, omega arith, omega arith), λ z. omega (arith, z))

-- A zero in front of one or two digits.
zero-IsFirst : (s : Text) → IsOctet s → length s ≤ 2 → IsFirst (48 ∷ s)
zero-IsFirst s ((hs, least, three, bound), _) two =
    (((omega arith, omega arith), hs), omega arith, omega arith, bound)

low-short : (u : Text) → Language low u → length u ≤ 2
low-short u (v, w, e, (c, e1, h1), inl (d, e2, h2)) =
    let whole : u ≡ c ∷ d ∷ [] = cc in omega (arith, ap length whole)
low-short u (v, w, e, (c, e1, h1), inr e2) =
    let whole : u ≡ c ∷ [] = cc in omega (arith, ap length whole)

pub octet-IsOctet : (u : Text) → Language octet u → IsOctet u
octet-IsOctet u (inl h) = low-IsOctet u h
octet-IsOctet u (inr h) = high-IsOctet u h

pub first_octet-IsFirst : (u : Text) → Language first_octet u → IsFirst u
first_octet-IsFirst u (inr h) = (high-IsOctet u h).0
first_octet-IsFirst u (inl (v, w, e, inr e1, h)) =
    let same : w ≡ u = cc in subst IsFirst same (low-IsOctet w h).0
first_octet-IsFirst u (inl (v, w, e, inl (c, e1, h1), h)) =
    let hc : c ≡ 48 = ground (arith, h1) in
    let whole : 48 ∷ w ≡ u = cc in
    subst IsFirst whole (zero-IsFirst w (low-IsOctet w h) (low-short w h))

pub prefix-IsPrefix : (u : Text) → Language prefix u → IsPrefix u
prefix-IsPrefix u (inl (c, e, h)) =
    let hc = range-IsDigit 48 57 c h in
    subst IsPrefix (sym e) ((hc, tt), omega arith, omega arith, omega arith, λ z. omega (arith, z))
prefix-IsPrefix u (inr (inl (v, w, e, (c, e1, h1), (d, e2, h2)))) =
    let whole : c ∷ d ∷ [] ≡ u = cc in
    let hc = range-IsDigit 49 50 c h1 in
    let hd = range-IsDigit 48 57 d h2 in
    subst IsPrefix whole (
      ((omega arith, omega arith), (hd, tt)),
      omega arith,
      omega arith,
      omega arith,
      λ z. omega arith,
    )
prefix-IsPrefix u (inr (inr (v, w, e, (c, e1, h1), (d, e2, h2)))) =
    let whole : c ∷ d ∷ [] ≡ u = cc in
    let hc : c ≡ 51 = ground (arith, h1) in
    let hd = range-IsDigit 48 50 d h2 in
    subst IsPrefix whole (
      ((omega arith, omega arith), ((omega arith, omega arith), tt)),
      omega arith,
      omega arith,
      omega arith,
      λ z. omega arith,
    )

-- The other way.
class_of : (a b c : ℕ) → a ≤ c → c ≤ b → leb a c && leb c b ≡ true
class_of a b c ha hb = ground arith

low-one : (c : ℕ) → IsDigit c → Language low (c ∷ [])
low-one c (h, k) = (c ∷ [], [], refl, (c, refl, class_of 48 57 c h k), inr refl)

low-two : (c d : ℕ) → IsDigit c → IsDigit d → Language low (c ∷ d ∷ [])
low-two c d (h, k) (h', k') =
    (c ∷ [], d ∷ [], refl, (c, refl, class_of 48 57 c h k), inl (d, refl, class_of 48 57 d h' k'))

high-three :
    (c d x : ℕ)
    → IsDigit c
    → IsDigit d
    → IsDigit x
    → 49 ≤ c
    → ((c - 48) * 10 + (d - 48)) * 10 + (x - 48) ≤ 255
    → Language high (c ∷ d ∷ x ∷ [])
high-three c d x (hc, kc) (hd, kd) (hx, kx) least most = elim (ltb-cases c 50) [
  | inl below ↦ inl (
    c ∷ [],
    d ∷ x ∷ [],
    refl,
    (c, refl, ground arith),
    (d ∷ [], x ∷ [], refl, (d, refl, class_of 48 57 d hd kd), (x, refl, class_of 48 57 x hx kx)),
  )
  | inr above ↦ elim (ltb-cases d 53) [
    | inl below ↦ inr (
        inl (
          c ∷ [],
          d ∷ x ∷ [],
          refl,
          (c, refl, ground arith),
          (
            d ∷ [],
            x ∷ [],
            refl,
            (d, refl, class_of 48 52 d hd (omega arith)),
            (x, refl, class_of 48 57 x hx kx),
          ),
        ))
    | inr five ↦ inr (
        inr (
          c ∷ [],
          d ∷ x ∷ [],
          refl,
          (c, refl, ground arith),
          (
            d ∷ [],
            x ∷ [],
            refl,
            (d, refl, ground arith),
            (x, refl, class_of 48 53 x hx (omega arith)),
          ),
        ))
  ]
]

pub IsOctet-octet : (u : Text) → IsOctet u → Language octet u
IsOctet-octet [] ((_, least, _, _), _) = absurd (omega (arith, least))
IsOctet-octet (c ∷ []) (((hc, _), _, _, _), _) = inl (low-one c hc)
IsOctet-octet (c ∷ d ∷ []) (((hc, (hd, _)), _, _, _), _) = inl (low-two c d hc hd)
IsOctet-octet (c ∷ d ∷ x ∷ []) (((hc, (hd, (hx, _))), _, _, most), full) =
    let least = full refl in
    inr (high-three c d x hc hd hx (omega (arith, least, most)) (omega (arith, most)))
IsOctet-octet (c ∷ d ∷ x ∷ y ∷ s) ((_, _, most, _), _) = absurd (omega (arith, most))

pub IsFirst-first_octet : (u : Text) → IsFirst u → Language first_octet u
IsFirst-first_octet [] (_, least, _, _) = absurd (omega (arith, least))
IsFirst-first_octet (c ∷ []) ((hc, _), _, _, _) = inl ([], c ∷ [], refl, inr refl, low-one c hc)
IsFirst-first_octet (c ∷ d ∷ []) ((hc, (hd, _)), _, _, _) =
    inl ([], c ∷ d ∷ [], refl, inr refl, low-two c d hc hd)
IsFirst-first_octet (c ∷ d ∷ x ∷ []) ((hc, (hd, (hx, _))), _, _, most) = elim (ltb-cases c 49) [
  | inl below ↦
      inl (c ∷ [], d ∷ x ∷ [], refl, inl (c, refl, ground (arith, hc, below)), low-two d x hd hx)
  | inr least ↦ inr (high-three c d x hc hd hx least (omega (arith, most)))
]
IsFirst-first_octet (c ∷ d ∷ x ∷ y ∷ s) (_, _, most, _) = absurd (omega (arith, most))

pub IsPrefix-prefix : (u : Text) → IsPrefix u → Language prefix u
IsPrefix-prefix [] (_, least, _, _, _) = absurd (omega (arith, least))
IsPrefix-prefix (c ∷ []) (((h, k), _), _, _, _, _) = inl (c, refl, class_of 48 57 c h k)
IsPrefix-prefix (c ∷ d ∷ []) (((hc, kc), ((hd, kd), _)), _, _, most, full) =
    let least = full refl in
    elim (ltb-cases c 51) [
      | inl below ↦ inr (
          inl (
            c ∷ [],
            d ∷ [],
            refl,
            (c, refl, class_of 49 50 c (omega (arith, least)) (omega arith)),
            (d, refl, class_of 48 57 d hd kd),
          ))
      | inr above ↦ inr (
          inr (
            c ∷ [],
            d ∷ [],
            refl,
            (c, refl, ground (arith, most, above, kc, hd)),
            (d, refl, class_of 48 50 d hd (omega (arith, most, above))),
          ))
    ]
IsPrefix-prefix (c ∷ d ∷ x ∷ s) (_, _, most, _, _) = absurd (omega (arith, most))
