-- ===== src/ConfigParse/Netmask.antt =====
-- The netmask that deploy/config_parse.py makes from the length of a prefix.
use compass4nfv.Base.{
  ℕ, zero, suc, ◌-◌, ◌^◌, ◌/◌, ◌%◌, ◌≤◌, ◌<◌, ◌≡◌, refl, subst, ◌⊎◌, inl, inr, Bool, true, ◌&&◌,
  arith, ◌∷◌, ◌++◌, Text, eqb, leb, Bool-cases,
}
use compass4nfv.Base.Int.{pos}
use compass4nfv.Result.{ok, err, value_error}
use compass4nfv.ConfigParse.{mask_octet, shift_of, netmask}
use compass4nfv.Text.{decimal, join}

-- A test of all numbers below a bound.
abbrev all_below : ℕ → (ℕ → Bool) → Bool
all_below zero p = true
all_below (suc n) p = p n && all_below n p

below : (n : ℕ) (p : ℕ → Bool) → all_below n p ≡ true → (i : ℕ) → i < n → p i ≡ true
below zero p h i small = absurd (omega (arith, small))
below (suc n) p h i small = elim (Bool-cases (eqb i n)) [
  | inl last ↦
      let same : i ≡ n = ground (arith, last) in
      subst (λ j. p j ≡ true) {x = n} {y = i} (ground (arith, same)) (ground (arith, h))
  | inr before ↦ below n p (ground (arith, h)) i (ground (arith, before, small))
]

-- A number of 32 bits as four decimal numbers between dots, the most significant first.
abbrev pub dotted : ℕ → Text
unfolding decimal
dotted x =
    decimal (x / 16777216)
    ++ (b'.' ∷ decimal (x / 65536 % 256)
        ++ (b'.' ∷ decimal (x / 256 % 256) ++ (b'.' ∷ decimal (x % 256))))

-- The four octets of the number 2^32 - 2^n.
abbrev are_octets : ℕ → Bool
unfolding mask_octet
are_octets n =
    eqb (mask_octet n 24) ((4294967296 - 2 ^ n) / 16777216)
    && (eqb (mask_octet n 16) ((4294967296 - 2 ^ n) / 65536 % 256)
        && (eqb (mask_octet n 8) ((4294967296 - 2 ^ n) / 256 % 256)
            && eqb (mask_octet n 0) ((4294967296 - 2 ^ n) % 256)))

all_octets : all_below 33 are_octets ≡ true
unfolding are_octets mask_octet
all_octets = refl

netmask-dotted : (n : ℕ) → are_octets n ≡ true → netmask n ≡ dotted (4294967296 - 2 ^ n)
unfolding netmask dotted are_octets join
netmask-dotted n h =
    let a : mask_octet n 24 ≡ (4294967296 - 2 ^ n) / 16777216 = ground (arith, h) in
    let b : mask_octet n 16 ≡ (4294967296 - 2 ^ n) / 65536 % 256 = ground (arith, h) in
    let c : mask_octet n 8 ≡ (4294967296 - 2 ^ n) / 256 % 256 = ground (arith, h) in
    let d : mask_octet n 0 ≡ (4294967296 - 2 ^ n) % 256 = ground (arith, h) in rw (a, b, c, d) refl

-- For the prefix lengths from 0 to 32, and no other natural number, the netmask is made, and it is the
-- number 2^32 - 2^(32 - prefix), written as four decimal numbers between dots.
pub netmask_lem :
    (prefix : ℕ)
    → ((prefix ≤ 32)
        × (n : ℕ) × (shift_of (pos prefix) ≡ ok n)
        × (netmask n ≡ dotted (4294967296 - 2 ^ (32 - prefix))))
      ⊎ ((32 < prefix) × (shift_of (pos prefix) ≡ err value_error))
unfolding shift_of
netmask_lem prefix = elim (Bool-cases (leb prefix 32)) [
  | inl small ↦ inl (
    ground (arith, small),
    32 - prefix,
    ground (arith, small),
    netmask-dotted (32 - prefix) (below 33 are_octets all_octets (32 - prefix) (omega arith)),
  )
  | inr large ↦ inr (ground (arith, large), ground (arith, large))
]
