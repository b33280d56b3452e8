-- ===== src/Compass/Subnets/Known.antt =====
-- What `CompassClient.add_subnets` (deploy/client.py) does with subnets that the server has.
use compass4nfv.Base.{
  ◌≡◌, ◌≢◌, ap, ◌∙◌, arith, List, [], ◌∷◌, ◌++◌, codes, map, none, some, Text, contains, ◌==◌,
  Bool-cases, inl, inr, if◌then◌else◌, All,
}
use compass4nfv.Base.Dict.{Dict, lookup, insert, lookup-insert}
use compass4nfv.Result.{ok}
use compass4nfv.Value.{Value, null, str, array, value_eq}
use compass4nfv.Value.Access.{getitem, iterate, truthy}
use compass4nfv.Effects.{Environment, assert, modify, ◌>>=◌}
use compass4nfv.Effects.Bind.{>>=-eq-ok}
use compass4nfv.Restful.{Session, Reply}
use compass4nfv.Restful.Subnets.{list_subnets}
use compass4nfv.Compass.{Compass, on_client}
use compass4nfv.Compass.Config.{Config}
use compass4nfv.Compass.Documents.{pieces, find_subnet}
use compass4nfv.Compass.Subnets.{map_subnet, map_subnets, add_subnets}

-- The entry is of another subnet.
abbrev pub IsOther : Text → Value → Type 0
IsOther subnet v = (w : Value) × (getitem v (codes "subnet") ≡ ok w) × (w ≢ str subnet)

-- The id stands in the first entry of the list that is of this subnet.
pub record First (db : List Value) (subnet : Text) (id : Value) : Type 0 where
  pub before : List Value
  pub entry : Value
  pub after : List Value
  pub parts : db ≡ before ++ (entry ∷ after)
  pub others : All (IsOther subnet) before
  pub same_subnet : getitem entry (codes "subnet") ≡ ok (str subnet)
  pub has_id : getitem entry (codes "id") ≡ ok id

-- The server has the subnet.
abbrev pub IsListed : List Value → Text → Type 0
IsListed db subnet = (i : Value) × First db subnet i

find_subnet-append :
    (subnet : Text) (i : Value) (before : List Value) (entry : Value) (after : List Value)
    → All (IsOther subnet) before
    → getitem entry (codes "subnet") ≡ ok (str subnet)
    → getitem entry (codes "id") ≡ ok i
    → find_subnet subnet (before ++ (entry ∷ after)) ≡ ok (some i)
unfolding find_subnet
find_subnet-append subnet i [] entry after none_before same has = rw (same, has) (ground arith)
find_subnet-append subnet i (v ∷ before) entry after ((w, read, other), more) same has =
    let rest = find_subnet-append subnet i before entry after more same has in
    rw (read, rest) (ground (arith, other))

find_subnet-First :
    (db : List Value) (subnet : Text) (i : Value)
    → First db subnet i
    → find_subnet subnet db ≡ ok (some i)
find_subnet-First db subnet i at =
    ap (find_subnet subnet) at.parts
    ∙ find_subnet-append subnet i at.before at.entry at.after at.others at.same_subnet at.has_id

-- The same, as the loop looks for it.
abbrev IsFound : List Value → Text → Type 0
IsFound db subnet = (i : Value) × (find_subnet subnet db ≡ ok (some i))

IsListed-IsFound :
    (db : List Value) (subnets : List Text) → All (IsListed db) subnets → All (IsFound db) subnets
IsListed-IsFound db [] h = tt
IsListed-IsFound db (s ∷ subnets) ((i, at), more) =
    ((i, find_subnet-First db s i at), IsListed-IsFound db subnets more)

module _ (E : Environment) (in_db : Value) (db : List Value) (listed : iterate in_db ≡ ok db) where
  map_subnet-known :
      (subnet : Text) (i : Value) (mapping : Dict Value Value) (c : Compass) {m : Dict Value Value}
      {c' : Compass}
      → find_subnet subnet db ≡ ok (some i)
      → map_subnet E in_db subnet mapping c ≡ (ok m, c')
      → (m ≡ insert (str subnet) i mapping) × (c' ≡ c)
  unfolding map_subnet
  map_subnet-known subnet i mapping c known e = elim (Bool-cases (E.ip_network (str subnet))) [
    | inr wrong ↦ cc (rw wrong at e)
    | inl valid ↦ ground (arith, rw (valid, listed, known) at e)
  ]

  map_subnets-known :
      (subnets : List Text) (mapping : Dict Value Value) (c : Compass) {m : Dict Value Value}
      {c' : Compass}
      → All (IsFound db) subnets
      → map_subnets E in_db subnets mapping c ≡ (ok m, c')
      → (c' ≡ c)
        × ((k : Text) (i : Value)
            → find_subnet k db ≡ ok (some i)
            → lookup (str k) m ≡ (
                if contains (str k) (map (λ s. str s) subnets)
                then some i
                else lookup (str k) mapping))
  unfolding map_subnets
  map_subnets-known [] mapping c h e = (ground (arith, e), λ k i known. ground (arith, e))
  map_subnets-known (s ∷ subnets) mapping c ((j, has), h) e =
      let (next, c1, one, rest) =
        >>=-eq-ok (map_subnet E in_db s mapping) (λ m. map_subnets E in_db subnets m) c e in
      let (stored, same) = map_subnet-known s j mapping c has one in
      let (still, found) = map_subnets-known subnets next c1 h rest in
      (
        still ∙ same,
        λ k i known. elim (Bool-cases (str k == str s)) [
          | inl here ↦ ground (
            arith,
            found k i known,
            stored,
            here,
            lookup-insert (str k) (str s) j mapping,
            known,
            has,
          )
          | inr away ↦
              ground (arith, found k i known, stored, away, lookup-insert (str k) (str s) j mapping)
        ],
      )

module _ (E : Environment) (conf : Config) where
  asked-once :
      (c : Compass) (r reply : Reply) (c2 : Compass) (next : Session)
      → list_subnets E null null c.session ≡ (ok reply, next)
      → on_client (list_subnets E null null) c ≡ (ok r, c2)
      → (r ≡ reply) × (c2.session ≡ next)
  asked-once c r reply c2 next answered asked = ground (arith, answered, asked)

  -- If the server lists every subnet of the configuration and `add_subnets` returns, then it has sent
  -- the request for the list and none else, and of the subnets that the server lists `subnet_mapping`
  -- has exactly those of the configuration, each with the id of its first place in the list.
  pub add_subnets_known :
      (c c' : Compass) (reply : Reply) (next : Session) (db : List Value)
      → list_subnets E null null c.session ≡ (ok reply, next)
      → iterate reply.1 ≡ ok db
      → All (IsListed db) (pieces b',' conf.subnets)
      → add_subnets E conf c ≡ (ok tt, c')
      → (c'.session ≡ next)
        × ((k : Text) (i : Value)
            → First db k i
            → lookup (str k) c'.subnet_mapping ≡ (
                if contains (str k) (map (λ s. str s) (pieces b',' conf.subnets))
                then some i
                else none))
  unfolding add_subnets lookup
  add_subnets_known c c' reply next db answered listed known e =
      let subnets = pieces b',' conf.subnets in
      let store =
        λ (m : Dict Value Value). modify (λ (c : Compass). record c { subnet_mapping = m }) in
      let ask = on_client (list_subnets E null null) in
      let add = λ (r : Reply). map_subnets E r.1 subnets [] >>= store in
      let (_, c1, some_subnet, e1) =
        >>=-eq-ok (assert (truthy (array (map (λ s. str s) subnets)))) (λ _. ask >>= add) c e in
      let (r, c2, asked, e2) = >>=-eq-ok ask add c1 e1 in
      let (m, c3, mapped, e3) = >>=-eq-ok (map_subnets E r.1 subnets []) store c2 e2 in
      let start : c1 ≡ c = ground (arith, some_subnet) in
      let (same, state) = asked-once c r reply c2 next answered (rw start at asked) in
      let (still, found) =
        map_subnets-known E r.1 db (rw same listed) subnets [] c2
          (IsListed-IsFound db subnets known) mapped in
      let last : c' ≡ record c3 { subnet_mapping = m } = ground (arith, e3) in
      (
        ap (λ (x : Compass). x.session) last ∙ ap (λ (x : Compass). x.session) still ∙ state,
        λ k i at.
            ap (λ (x : Compass). lookup (str k) x.subnet_mapping) last
            ∙ found k i (find_subnet-First db k i at),
      )
