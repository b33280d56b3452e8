-- ===== src/CheckValid/Mac.antt =====
-- The texts that `is_valid_mac` (util/check_valid.py) accepts.
use compass4nfv.Base.{
  ℕ, zero, suc, ◌≤◌, ◌≡◌, refl, subst, sym, ap, ◌∙◌, ◌↔◌, ◌⊎◌, inl, inr, true, ◌&&◌, arith, List,
  [], ◌∷◌, ◌++◌, append_assoc, Text, All, length, leb,
}
use compass4nfv.Result.{ok}
use compass4nfv.Value.{str}
use compass4nfv.Text.{join}
use compass4nfv.Regex.{Regex, one, seq, alt, char, search}
use compass4nfv.Regex.Laws.{Language, Power, IsEnd, search_lem}
use compass4nfv.CheckValid.{pair, mac_pattern, is_valid_mac}
use compass4nfv.CheckValid.Found.{is_valid_mac-search}

-- A letter or a digit of ASCII.
abbrev pub IsAlnum : ℕ → Type 0
IsAlnum c = ((b'a' ≤ c) × (c ≤ b'z')) ⊎ (((b'A' ≤ c) × (c ≤ b'Z')) ⊎ ((b'0' ≤ c) × (c ≤ b'9')))

abbrev pub IsPair : Text → Type 0
IsPair p = (length p ≡ 2) × All IsAlnum p

-- Six pairs with colons between them, and what `$` allows.
pub record IsMac (s : Text) : Type 0 where
  pub pairs : List Text
  pub rest : Text
  pub six : length pairs ≡ 6
  pub paired : All IsPair pairs
  pub ends : IsEnd rest
  pub whole : s ≡ join (b':' ∷ []) pairs ++ rest

abbrev class : ℕ → ℕ → Regex
class a b = one (λ d. leb a d && leb d b)

class-IsAlnum :
    (u : Text)
    → Language (alt (class b'a' b'z') (alt (class b'A' b'Z') (class b'0' b'9'))) u
    → (c : ℕ) × (u ≡ c ∷ []) × IsAlnum c
class-IsAlnum u (inl (c, e, h)) = (c, e, ground (arith, h))
class-IsAlnum u (inr (inl (c, e, h))) = (c, e, ground (arith, h))
class-IsAlnum u (inr (inr (c, e, h))) = (c, e, ground (arith, h))

IsAlnum-class :
    (c : ℕ)
    → IsAlnum c
    → Language (alt (class b'a' b'z') (alt (class b'A' b'Z') (class b'0' b'9'))) (c ∷ [])
IsAlnum-class c (inl h) = inl (c, refl, ground (arith, h))
IsAlnum-class c (inr (inl h)) = inr (inl (c, refl, ground (arith, h)))
IsAlnum-class c (inr (inr h)) = inr (inr (c, refl, ground (arith, h)))

pair-IsPair : (u : Text) → Language pair u → IsPair u
pair-IsPair u (v, w, e, h, (v', w', e', h', nil)) =
    let (c, e1, hc) = class-IsAlnum v h in
    let (d, e2, hd) = class-IsAlnum v' h' in
    let whole : c ∷ d ∷ [] ≡ u = cc in subst IsPair whole (refl, (hc, (hd, tt)))

IsPair-pair : (u : Text) → IsPair u → Language pair u
IsPair-pair [] (two, _) = absurd (omega (arith, two))
IsPair-pair (c ∷ []) (two, _) = absurd (omega (arith, two))
IsPair-pair (c ∷ d ∷ []) (two, (hc, (hd, _))) =
    (c ∷ [], d ∷ [], refl, IsAlnum-class c hc, (d ∷ [], [], refl, IsAlnum-class d hd, refl))
IsPair-pair (c ∷ d ∷ x ∷ u) (two, _) = absurd (omega (arith, two))

-- Parts that end in a colon, and one more.
abbrev ColonAfter : Text → Type 0
ColonAfter = Language (seq pair (char b':'))

join-cons :
    (p q : Text) (ps : List Text)
    → join (b':' ∷ []) (p ∷ q ∷ ps) ≡ p ++ (b':' ∷ join (b':' ∷ []) (q ∷ ps))
unfolding join
join-cons p q ps = refl

Power-pairs :
    (n : ℕ) (u p : Text)
    → Power n ColonAfter u
    → IsPair p
    → (q : Text) × (ps : List Text) × (length (q ∷ ps) ≡ suc n)
      × All IsPair (q ∷ ps)
      × (u ++ p ≡ join (b':' ∷ []) (q ∷ ps))
unfolding join
Power-pairs zero u p nil hp = (p, [], refl, (hp, tt), ap (λ z. z ++ p) nil)
Power-pairs (suc n) u p (v, w, e, (x, y, e', hx, (c, e1, hc)), rest) hp =
    let (q, ps, number, paired, joined) = Power-pairs n w p rest hp in
    let colon : c ≡ 58 = ground (arith, hc) in
    let front : v ≡ x ++ (58 ∷ []) = cc in
    (
      x,
      q ∷ ps,
      omega (arith, number),
      (pair-IsPair x hx, paired),
      ap (λ z. z ++ p) e
          ∙ append_assoc v w p
          ∙ ap (λ z. z ++ (w ++ p)) front
          ∙ append_assoc x (58 ∷ []) (w ++ p)
          ∙ ap (λ z. x ++ (58 ∷ z)) joined,
    )

pairs-Power :
    (n : ℕ) (q : Text) (ps : List Text)
    → length (q ∷ ps) ≡ suc n
    → All IsPair (q ∷ ps)
    → (u : Text) × (p : Text) × Power n ColonAfter u
      × IsPair p
      × (join (b':' ∷ []) (q ∷ ps) ≡ u ++ p)
unfolding join
pairs-Power zero q [] number (hq, _) = ([], q, refl, hq, refl)
pairs-Power zero q (p ∷ ps) number h = absurd (omega (arith, number))
pairs-Power (suc n) q [] number h = absurd (omega (arith, number))
pairs-Power (suc n) q (p ∷ ps) number (hq, h) =
    let (u, l, power, hl, joined) = pairs-Power n p ps (omega (arith, number)) h in
    (
      (q ++ (58 ∷ [])) ++ u,
      l,
      (q ++ (58 ∷ []), u, refl, (q, 58 ∷ [], refl, IsPair-pair q hq, (58, refl, refl)), power),
      hl,
      ap (λ z. q ++ (58 ∷ z)) joined
          ∙ sym (append_assoc q (58 ∷ []) (u ++ l))
          ∙ sym (append_assoc (q ++ (58 ∷ [])) u l),
    )

pairs-Language :
    (s : Text) (pairs : List Text) (rest : Text)
    → length pairs ≡ 6
    → All IsPair pairs
    → IsEnd rest
    → s ≡ join (b':' ∷ []) pairs ++ rest
    → (u : Text) × (v : Text) × (s ≡ u ++ v) × Language mac_pattern u × IsEnd v
pairs-Language s [] rest six paired ends whole = absurd (omega (arith, six))
pairs-Language s (q ∷ ps) rest six paired ends whole =
    let (u, p, power, hp, joined) = pairs-Power 5 q ps six paired in
    (u ++ p, rest, whole ∙ ap (λ z. z ++ rest) joined, (u, p, refl, power, IsPair-pair p hp), ends)

-- `is_valid_mac` returns True for a text exactly if it is six pairs of ASCII letters and digits with
-- colons between them, and a newline at the end or none.
pub is_valid_mac_lem : (s : Text) → (is_valid_mac (str s) ≡ ok true) ↔ IsMac s
is_valid_mac_lem s = (
  λ h.
      let found : search mac_pattern s ≡ true = cc (is_valid_mac-search s, h) in
      let (u, v, split, (a, b, parts, ha, hb), ends) = (search_lem mac_pattern s).0 found in
      let (q, ps, number, paired, joined) = Power-pairs 5 a b ha (pair-IsPair b hb) in
      record {
        pairs = q ∷ ps;
        rest = v;
        six = number;
        paired = paired;
        ends = ends;
        whole = split ∙ ap (λ z. z ++ v) (parts ∙ joined);
      },
  λ h.
      is_valid_mac-search s
      ∙ ap ok (
          (search_lem mac_pattern s).1
            (pairs-Language s h.pairs h.rest h.six h.paired h.ends h.whole)),
)
