-- ===== src/CheckValid/Address/Found.antt =====
-- The texts that `is_valid_ip` (util/check_valid.py) accepts.
use compass4nfv.Base.{
  ◌≡◌, refl, sym, ap, ◌∙◌, ◌↔◌, ◌⊎◌, inl, inr, true, arith, [], ◌∷◌, ◌++◌, append_assoc, Text,
}
use compass4nfv.Result.{ok}
use compass4nfv.Value.{str}
use compass4nfv.Regex.{seq, maybe, char, search}
use compass4nfv.Regex.Laws.{Language, IsEnd, search_lem}
use compass4nfv.CheckValid.{octet, prefix, ip_pattern, is_valid_ip}
use compass4nfv.CheckValid.Found.{is_valid_ip-search}
use compass4nfv.CheckValid.Address.{IsOctet, IsPrefix, IsAddress}
use compass4nfv.CheckValid.Address.Octets.{
  octet-IsOctet, first_octet-IsFirst, prefix-IsPrefix, IsOctet-octet, IsFirst-first_octet,
  IsPrefix-prefix,
}

-- A dot and an octet.
dotted : (u : Text) → Language (seq (char b'.') octet) u → (b : Text) × (u ≡ b'.' ∷ b) × IsOctet b
dotted u (v, w, e, (c, e1, h), o) =
    let hc : c ≡ 46 = ground (arith, h) in (w, cc, octet-IsOctet w o)

masking :
    (u : Text)
    → Language (maybe (seq (char b'/') prefix)) u
    → (u ≡ []) ⊎ ((p : Text) × (u ≡ b'/' ∷ p) × IsPrefix p)
masking u (inr e) = inl e
masking u (inl (v, w, e, (c, e1, h), p)) =
    let hc : c ≡ 47 = ground (arith, h) in inr (w, cc, prefix-IsPrefix w p)

regroup :
    (a b c d n m t : Text)
    → n ≡ []
    → (a ++ ((b ++ (c ++ (d ++ n))) ++ m)) ++ t ≡ a ++ (b ++ (c ++ (d ++ (m ++ t))))
regroup a b c d n m t h = simp (append_assoc, h)

pub Language-IsAddress : (s u t : Text) → s ≡ u ++ t → Language ip_pattern u → IsEnd t → IsAddress s
Language-IsAddress s u t e
      (a, x, e1, ha, (x', mask, e2, (y1, x1, e3, hb, (y2, x2, e4, hc, (y3, x3, e5, hd, nil))), hm))
      ends =
    let (b, sb, ob) = dotted y1 hb in
    let (c, sc, oc) = dotted y2 hc in
    let (d, sd, od) = dotted y3 hd in
    let parts : u ≡ a ++ ((y1 ++ (y2 ++ (y3 ++ x3))) ++ mask) = cc in
    record {
      a = a;
      b = b;
      c = c;
      d = d;
      mask = mask;
      rest = t;
      octets = (first_octet-IsFirst a ha, ob, oc, od);
      masked = masking mask hm;
      ends = ends;
      whole = e ∙ ap (λ z. z ++ t) parts ∙ regroup a y1 y2 y3 x3 mask t nil ∙ cc;
    }

dot : (o : Text) → IsOctet o → Language (seq (char b'.') octet) (b'.' ∷ o)
dot o k = (b'.' ∷ [], o, refl, (b'.', refl, refl), IsOctet-octet o k)

of_mask :
    (mask : Text)
    → (mask ≡ []) ⊎ ((p : Text) × (mask ≡ b'/' ∷ p) × IsPrefix p)
    → Language (maybe (seq (char b'/') prefix)) mask
of_mask mask (inl e) = inr e
of_mask mask (inr (p, e, h)) = inl (b'/' ∷ [], p, e, (b'/', refl, refl), IsPrefix-prefix p h)

IsAddress-Language :
    (s : Text)
    → IsAddress s
    → (u : Text) × (v : Text) × (s ≡ u ++ v) × Language ip_pattern u × IsEnd v
IsAddress-Language s h =
    let (oa, ob, oc, od) = h.octets in
    (
      h.a ++ (((b'.' ∷ h.b) ++ ((b'.' ∷ h.c) ++ ((b'.' ∷ h.d) ++ []))) ++ h.mask),
      h.rest,
      h.whole ∙ sym (regroup h.a (b'.' ∷ h.b) (b'.' ∷ h.c) (b'.' ∷ h.d) [] h.mask h.rest refl),
      (
        h.a,
        ((b'.' ∷ h.b) ++ ((b'.' ∷ h.c) ++ ((b'.' ∷ h.d) ++ []))) ++ h.mask,
        refl,
        IsFirst-first_octet h.a oa,
        (
          (b'.' ∷ h.b) ++ ((b'.' ∷ h.c) ++ ((b'.' ∷ h.d) ++ [])),
          h.mask,
          refl,
          (
            b'.' ∷ h.b,
            (b'.' ∷ h.c) ++ ((b'.' ∷ h.d) ++ []),
            refl,
            dot h.b ob,
            (
              b'.' ∷ h.c,
              (b'.' ∷ h.d) ++ [],
              refl,
              dot h.c oc,
              (b'.' ∷ h.d, [], refl, dot h.d od, refl),
            ),
          ),
          of_mask h.mask h.masked,
        ),
      ),
      h.ends,
    )

-- `is_valid_ip` returns True for a text exactly if it is an IPv4 address: four octets up to 255 in
-- one to three digits with dots between them, where only the first may have a zero in front of two
-- digits, a prefix length up to 32 after a slash or none, and a newline at the end or none.
pub is_valid_ip_lem : (s : Text) → (is_valid_ip (str s) ≡ ok true) ↔ IsAddress s
is_valid_ip_lem s = (
  λ h.
      let found : search ip_pattern s ≡ true = cc (is_valid_ip-search s, h) in
      let (u, v, split, hu, ends) = (search_lem ip_pattern s).0 found in
      Language-IsAddress s u v split hu ends,
  λ h. is_valid_ip-search s ∙ ap ok ((search_lem ip_pattern s).1 (IsAddress-Language s h)),
)
