-- ===== src/Compass/Networking/Known.antt =====
-- Which subnet `get_subnet` of `CompassClient.set_host_networking` (deploy/client.py) picks.
use compass4nfv.Base.{
  ◌≡◌, true, false, arith, List, [], ◌∷◌, none, some, Text, contains, Bool-cases, inl, inr,
}
use compass4nfv.Base.Dict.{Dict, keys, lookup, has_key, has_key-lookup}
use compass4nfv.Value.{Value, value_eq}
use compass4nfv.Effects.{Environment, KeepsKeys}
use compass4nfv.Compass.Networking.{first_subnet, get_subnet}

module _ (E : Environment) (ip : Text) (mapping : Dict Value Value) where
  first_subnet-found :
      (cidrs : List Value) (id : Value)
      → first_subnet E ip mapping cidrs ≡ some id
      → (cidr : Value) × (contains cidr cidrs ≡ true)
        × (E.ip_network cidr ≡ true)
        × (E.in_network ip cidr ≡ true)
        × (lookup cidr mapping ≡ some id)
  unfolding first_subnet
  first_subnet-found [] id e = cc e
  first_subnet-found (cidr ∷ cidrs) id e = elim (Bool-cases (E.ip_network cidr)) [
    | inr wrong ↦ cc (rw wrong at e)
    | inl valid ↦ elim (Bool-cases (E.in_network ip cidr)) [
      | inl here ↦ (cidr, ground arith, valid, here, rw (valid, here) at e)
      | inr away ↦
          let (c, listed, valid_c, inside, known) =
            first_subnet-found cidrs id (rw (valid, away) at e) in
          (c, ground (arith, listed), valid_c, inside, known)
    ]
  ]

  first_subnet-missing :
      (cidrs : List Value)
      → ((cidr : Value)
          → contains cidr cidrs ≡ true
          → (E.ip_network cidr ≡ true) × (has_key cidr mapping ≡ true))
      → first_subnet E ip mapping cidrs ≡ none
      → (cidr : Value) → contains cidr cidrs ≡ true
      → E.in_network ip cidr ≡ false
  unfolding first_subnet
  first_subnet-missing [] h e cidr listed = cc listed
  first_subnet-missing (k ∷ cidrs) h e cidr listed = ground (
    arith,
    h k,
    has_key-lookup k mapping,
    first_subnet-missing cidrs (λ c inside. h c (ground (arith, inside)))
        (ground (arith, e, h k, has_key-lookup k mapping)) cidr,
  )

module _ (E : Environment) (order : KeepsKeys E) (ip : Text) (mapping : Dict Value Value) where
  -- If hash tables list their keys: an id that `get_subnet` finds is that of a known subnet which holds
  -- the address. If the address is valid, the known subnets are valid and `get_subnet` finds none, then
  -- no known subnet holds the address.
  pub get_subnet_correct :
      ((id : Value)
        → get_subnet E ip mapping ≡ some id
        → (cidr : Value) × (E.in_network ip cidr ≡ true) × (lookup cidr mapping ≡ some id))
      × (E.ip_address ip ≡ true
          → ((cidr : Value) → has_key cidr mapping ≡ true → E.ip_network cidr ≡ true)
          → get_subnet E ip mapping ≡ none
          → (cidr : Value) → has_key cidr mapping ≡ true
          → E.in_network ip cidr ≡ false)
  unfolding get_subnet has_key
  get_subnet_correct = (
    λ id found. elim (Bool-cases (E.ip_address ip)) [
      | inr wrong ↦ cc (rw wrong at found)
      | inl valid ↦
          let (cidr, _, _, inside, known) =
            first_subnet-found E ip mapping (E.order (keys mapping)) id (rw valid at found) in
          (cidr, inside, known)
    ],
    λ valid networks missing cidr listed.
        first_subnet-missing E ip mapping (E.order (keys mapping))
          (λ c inside. (
            networks c (ground (arith, order c (keys mapping), inside)),
            ground (arith, order c (keys mapping), inside),
          ))
          (rw valid at missing) cidr (ground (arith, order cidr (keys mapping), listed)),
  )
