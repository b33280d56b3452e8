-- ===== src/Compass/Documents/Machines.antt =====
-- The machines that `CompassClient.get_machines` (deploy/client.py) looks up by their MAC addresses.
use compass4nfv.Base.{
  ◌≡◌, true, arith, List, [], ◌∷◌, Text, codes, contains, ◌==◌, text_eq, Bool-cases, inl, inr,
  if◌then◌else◌,
}
use compass4nfv.Result.{Result, ok, each, ◌>>=◌, >>=-returns}
use compass4nfv.Value.{Value, value_eq}
use compass4nfv.Value.Access.{getitem}
use compass4nfv.Effects.{Environment}
use compass4nfv.Compass.Documents.{mac_of, ids_of, is_subset}

pub is_subset-contains :
    (xs ys : List Text) (x : Text)
    → is_subset xs ys ≡ true
    → contains x xs ≡ true
    → contains x ys ≡ true
unfolding is_subset
is_subset-contains [] ys x h e = cc e
is_subset-contains (z ∷ xs) ys x h e = ground (arith, is_subset-contains xs ys x)

module _ (E : Environment) where
  -- The machine has that address.
  abbrev pub HasMac : Text → Value → Type 0
  HasMac mac m = mac_of E m ≡ ok mac

  pub each-mac_of :
      (ms : List Value) {macs : List Text} (mac : Text)
      → each (mac_of E) ms ≡ ok macs
      → contains mac macs ≡ true
      → (m : Value) × (contains m ms ≡ true) × HasMac mac m
  unfolding each
  each-mac_of [] mac e h = cc
  each-mac_of (m ∷ ms) mac e h =
      let (x, has, e1) =
        >>=-returns (mac_of E m) (λ y. each (mac_of E) ms >>= λ ys. ok (y ∷ ys)) e in
      let (xs, others, e2) = >>=-returns (each (mac_of E) ms) (λ ys. ok (x ∷ ys)) e1 in
      elim (Bool-cases (mac == x)) [
        | inl here ↦ (m, ground arith, ground (arith, has, here))
        | inr later ↦
            let (k, listed, found) = each-mac_of ms mac others (ground (arith, h, e2, later)) in
            (k, ground (arith, listed), found)
      ]

  -- The id of a machine with one of the addresses.
  abbrev pub Wanted : List Text → List Value → Value → Type 0
  Wanted macs ms i =
      (m : Value) × (mac : Text) × (contains m ms ≡ true)
      × HasMac mac m
      × (contains mac macs ≡ true)
      × (getitem m (codes "id") ≡ ok i)

  abbrev picking : List Text → Value → List Value → Text → Result (List Value)
  picking macs m ms mac =
      if contains mac macs
      then (getitem m (codes "id") >>= λ i. ids_of E macs ms >>= λ is. ok (i ∷ is))
      else ids_of E macs ms

  pub ids_of-Wanted :
      (macs : List Text) (ms : List Value) {ids : List Value} (i : Value)
      → ids_of E macs ms ≡ ok ids
      → contains i ids ≡ true
      → Wanted macs ms i
  unfolding ids_of
  ids_of-Wanted macs [] i e h = cc
  ids_of-Wanted macs (m ∷ ms) i e h =
      let (mac, has, e1) = >>=-returns (mac_of E m) (picking macs m ms) e in
      elim (Bool-cases (contains mac macs)) [
        | inr other ↦
            let (k, x, listed, found, within, named) = ids_of-Wanted macs ms i (rw other at e1) h in
            (k, x, ground (arith, listed), found, within, named)
        | inl wanted ↦
            let (j, id, e2) =
              >>=-returns (getitem m (codes "id")) (λ j. ids_of E macs ms >>= λ is. ok (j ∷ is))
                (rw wanted at e1) in
            let (is, others, e3) = >>=-returns (ids_of E macs ms) (λ is. ok (j ∷ is)) e2 in
            elim (Bool-cases (i == j)) [
              | inl here ↦ (m, mac, ground arith, has, wanted, ground (arith, id, here))
              | inr later ↦
                  let (k, x, listed, found, within, named) =
                    ids_of-Wanted macs ms i others (ground (arith, h, e3, later)) in
                  (k, x, ground (arith, listed), found, within, named)
            ]
      ]

  pub ids_of_all :
      (macs : List Text) (ms : List Value) {ids : List Value} (m : Value) (mac : Text)
      → ids_of E macs ms ≡ ok ids
      → contains m ms ≡ true
      → HasMac mac m
      → contains mac macs ≡ true
      → (i : Value) × (getitem m (codes "id") ≡ ok i) × (contains i ids ≡ true)
  unfolding ids_of
  ids_of_all macs [] m mac e h has wanted = cc
  ids_of_all macs (k ∷ ms) m mac e h has wanted =
      let (x, found, e1) = >>=-returns (mac_of E k) (picking macs k ms) e in
      elim (Bool-cases (contains x macs)) [
        | inr other ↦
            ids_of_all macs ms m mac (rw other at e1) (ground (arith, h, other, wanted, has, found))
              has wanted
        | inl taken ↦
            let (j, id, e2) =
              >>=-returns (getitem k (codes "id")) (λ j. ids_of E macs ms >>= λ is. ok (j ∷ is))
                (rw taken at e1) in
            let (is, others, e3) = >>=-returns (ids_of E macs ms) (λ is. ok (j ∷ is)) e2 in
            elim (Bool-cases (m == k)) [
              | inl here ↦ (j, ground (arith, id, here), ground (arith, e3))
              | inr later ↦
                  let (i, named, listed) =
                    ids_of_all macs ms m mac others (ground (arith, h, later)) has wanted in
                  (i, named, ground (arith, e3, listed))
            ]
      ]
