-- ===== src/ConfigParse/Macs.antt =====
-- The addresses that deploy/config_parse.py draws for virtual machines, and the check of
-- util/check_valid.py.
use compass4nfv.Base.{
  ℕ, zero, suc, ◌%◌, ◌≤◌, ◌<◌, ◌≡◌, refl, sym, ap, ◌∙◌, inl, inr, true, arith, List, [], ◌∷◌, ◌++◌,
  append-nil, append_assoc, map, some, Text, codes, All, length, get_elem?,
}
use compass4nfv.Result.{ok}
use compass4nfv.Value.{Value, str, object}
use compass4nfv.Text.{join}
use compass4nfv.Effects.{pure, ◌>>=◌}
use compass4nfv.Effects.Bind.{>>=-of_ok}
use compass4nfv.CheckValid.{is_valid_mac}
use compass4nfv.CheckValid.Mac.{IsAlnum, IsPair, is_valid_mac_lem}
use compass4nfv.ConfigParse.Shell.{World, random_hex, mac_rounds, mac_generator}
use compass4nfv.ConfigParse.Export.{virtual_machines}

-- An element at an index within the bounds.
get_elem?-All :
    (P : ℕ → Type 0) (l : List ℕ) (i : ℕ)
    → All P l
    → i < length l
    → (c : ℕ) × (get_elem? l i ≡ some c) × P c
get_elem?-All P [] i h small = absurd (omega (arith, small))
get_elem?-All P (x ∷ l) zero (hx, h) small = (x, refl, hx)
get_elem?-All P (x ∷ l) (suc i) (hx, h) small = get_elem?-All P l i h (omega (arith, small))

-- A digit, and a capital letter.
IsAlnum-digit : (c : ℕ) → b'0' ≤ c → c ≤ b'9' → IsAlnum c
IsAlnum-digit c low high = inr (inr (low, high))

IsAlnum-capital : (c : ℕ) → b'A' ≤ c → c ≤ b'Z' → IsAlnum c
IsAlnum-capital c low high = inr (inl (low, high))

hex_digits : All IsAlnum (codes "0123456789ABCDEF")
hex_digits = (
  IsAlnum-digit 48 (omega arith) (omega arith),
  (
    IsAlnum-digit 49 (omega arith) (omega arith),
    (
      IsAlnum-digit 50 (omega arith) (omega arith),
      (
        IsAlnum-digit 51 (omega arith) (omega arith),
        (
          IsAlnum-digit 52 (omega arith) (omega arith),
          (
            IsAlnum-digit 53 (omega arith) (omega arith),
            (
              IsAlnum-digit 54 (omega arith) (omega arith),
              (
                IsAlnum-digit 55 (omega arith) (omega arith),
                (
                  IsAlnum-digit 56 (omega arith) (omega arith),
                  (
                    IsAlnum-digit 57 (omega arith) (omega arith),
                    (
                      IsAlnum-capital 65 (omega arith) (omega arith),
                      (
                        IsAlnum-capital 66 (omega arith) (omega arith),
                        (
                          IsAlnum-capital 67 (omega arith) (omega arith),
                          (
                            IsAlnum-capital 68 (omega arith) (omega arith),
                            (
                              IsAlnum-capital 69 (omega arith) (omega arith),
                              (IsAlnum-capital 70 (omega arith) (omega arith), tt),
                            ),
                          ),
                        ),
                      ),
                    ),
                  ),
                ),
              ),
            ),
          ),
        ),
      ),
    ),
  ),
)

join-snoc :
    (q : Text) (ps : List Text) (p : Text)
    → join (b':' ∷ []) (q ∷ (ps ++ (p ∷ []))) ≡ join (b':' ∷ []) (q ∷ ps) ++ (b':' ∷ p)
unfolding join
join-snoc q [] p = refl
join-snoc q (r ∷ ps) p =
    ap (λ z. q ++ (b':' ∷ z)) (join-snoc r ps p)
    ∙ sym (append_assoc q (b':' ∷ join (b':' ∷ []) (r ∷ ps)) (b':' ∷ p))

-- The machine that the list has for an address.
abbrev pub machine_with : Text → Value
machine_with mac = object (
    (codes "mac", object ((codes "eth0", str mac) ∷ []))
    ∷ (codes "power_type", str (codes "libvirt"))
    ∷ [])

module _ (choice : ℕ → ℕ) where
  random_hex_lem :
      (w : World)
      → (c : ℕ) × (random_hex choice w ≡ (ok c, record w { drawn = suc w.drawn })) × IsAlnum c
  unfolding random_hex
  random_hex_lem w =
      let (c, found, h) =
        get_elem?-All IsAlnum (codes "0123456789ABCDEF") (choice w.drawn % 16) hex_digits
          (omega arith) in
      (c, rw found, h)

  -- The rounds put pairs behind those there are.
  mac_rounds-pairs :
      (n : ℕ) (q : Text) (ps : List Text) (w : World)
      → (new : List Text) × (w' : World) × (length new ≡ n)
        × All IsPair new
        × (mac_rounds choice n (join (b':' ∷ []) (q ∷ ps)) w
            ≡ (ok (join (b':' ∷ []) (q ∷ (ps ++ new))), w'))
  unfolding mac_rounds
  mac_rounds-pairs zero q ps w =
      ([], w, refl, tt, ap (λ z. (ok (join (b':' ∷ []) (q ∷ z)), w)) (sym (append-nil ps)))
  mac_rounds-pairs (suc n) q ps w =
      let (c, e1, hc) = random_hex_lem w in
      let w1 : World = record w { drawn = suc w.drawn } in
      let (d, e2, hd) = random_hex_lem w1 in
      let w2 : World = record w { drawn = suc (suc w.drawn) } in
      let p = c ∷ d ∷ [] in
      let (new, w', number, paired, e) = mac_rounds-pairs n q (ps ++ (p ∷ [])) w2 in
      let mac = join (b':' ∷ []) (q ∷ ps) in
      (
        p ∷ new,
        w',
        omega (arith, number),
        ((refl, (hc, (hd, tt))), paired),
        >>=-of_ok (random_hex choice)
              (λ x. random_hex choice >>= λ y. mac_rounds choice n (mac ++ (b':' ∷ x ∷ y ∷ []))) w
              e1
            ∙ >>=-of_ok (random_hex choice) (λ y. mac_rounds choice n (mac ++ (b':' ∷ c ∷ y ∷ [])))
                w1 e2
            ∙ ap (λ m. mac_rounds choice n m w2) (sym (join-snoc q ps p))
            ∙ e
            ∙ ap (λ z. (ok (join (b':' ∷ []) (q ∷ z)), w')) (append_assoc ps (p ∷ []) new),
      )

  -- `mac_generator` returns whatever the random numbers are, and what it returns is six pairs with
  -- colons, so `is_valid_mac` of util/check_valid.py accepts it.
  pub mac_generator-is_valid_mac :
      (w : World)
      → (mac : Text) × (w' : World) × (mac_generator choice w ≡ (ok mac, w'))
        × (is_valid_mac (str mac) ≡ ok true)
  unfolding mac_generator join
  mac_generator-is_valid_mac w =
      let zeros : Text = b'0' ∷ b'0' ∷ [] in
      let (new, w', number, paired, e) = mac_rounds-pairs 4 zeros (zeros ∷ []) w in
      let zero_pair : IsPair zeros = (
        refl,
        (
          IsAlnum-digit b'0' (omega arith) (omega arith),
          (IsAlnum-digit b'0' (omega arith) (omega arith), tt),
        ),
      ) in
      let mac = join (b':' ∷ []) (zeros ∷ zeros ∷ new) in
      (
        mac,
        w',
        e,
        (is_valid_mac_lem mac).1 (record {
          pairs = zeros ∷ zeros ∷ new;
          rest = [];
          six = omega (arith, number);
          paired = (zero_pair, (zero_pair, paired));
          ends = inl refl;
          whole = sym (append-nil mac);
        }),
      )

  -- For any hosts, a virtual machine is made for each: as many addresses as hosts, all of them accepted
  -- by `is_valid_mac`, and one entry with each address in the list of machines, in the same order.
  pub virtual_machines_lem :
      (hosts : List Value) (w : World)
      → (macs : List Text) × (w' : World) × (virtual_machines choice hosts w
          ≡ (ok (macs, map machine_with macs), w'))
        × (length macs ≡ length hosts)
        × All (λ mac. is_valid_mac (str mac) ≡ ok true) macs
  unfolding virtual_machines
  virtual_machines_lem [] w = ([], w, refl, refl, tt)
  virtual_machines_lem (host ∷ hosts) w =
      let (mac, w1, e1, valid) = mac_generator-is_valid_mac w in
      let (macs, w2, e2, number, all_valid) = virtual_machines_lem hosts w1 in
      (
        mac ∷ macs,
        w2,
        >>=-of_ok (mac_generator choice)
              (λ x. virtual_machines choice hosts >>= λ (found : List Text × List Value).
                pure (x ∷ found.0, machine_with x ∷ found.1))
              w e1
            ∙ >>=-of_ok (virtual_machines choice hosts)
                (λ (found : List Text × List Value).
                  pure (mac ∷ found.0, machine_with mac ∷ found.1))
                w1 e2,
        omega (arith, number),
        (valid, all_valid),
      )
