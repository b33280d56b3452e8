-- ===== src/Compass/Roles/Hosts.antt =====
-- What giving roles to hosts does to the tables of `CompassClient`.
use compass4nfv.Base.{◌≡◌, Bool, true, false, ◌&&◌, ◌||◌, not, arith, List, [], ◌∷◌, map, contains}
use compass4nfv.Base.Dict.{Dict, insert, has_key, lookup-insert, has_key-insert, has_key-lookup}
use compass4nfv.Value.{Value, value_eq}
use compass4nfv.Result.{Result, ok}
use compass4nfv.Effects.{Environment, for_each}
use compass4nfv.Effects.Bind.{for_each-cons}
use compass4nfv.Compass.{Compass}
use compass4nfv.Compass.Roles.{give_roles, assign, is_waiting, pair_roles}

-- A role waits after the marking if it waited before and was not marked.
pub is_waiting-assign :
    (roles : List Value) (m : Dict Value Bool) (r : Value)
    → is_waiting (assign roles m) r ≡ (is_waiting m r && not (contains r roles))
unfolding assign
is_waiting-assign [] m r = ground arith
is_waiting-assign (s ∷ roles) m r = ground (
  arith,
  is_waiting-assign roles m r,
  is_waiting-assign roles (insert s false m) r,
  lookup-insert r s false m,
  has_key-lookup s m,
)

pub contains-pair_roles_hosts :
    (h : Value) (hs rs : List Value)
    → contains h hs ≡ true
    → contains h (map (λ (p : Value × Value). p.0) (pair_roles hs rs)) ≡ true
unfolding pair_roles
contains-pair_roles_hosts h [] rs e = cc
contains-pair_roles_hosts h (k ∷ hs) [] e = ground (arith, contains-pair_roles_hosts h hs [])
contains-pair_roles_hosts h (k ∷ hs) (r ∷ rs) e = ground (arith, contains-pair_roles_hosts h hs rs)

pub contains-pair_roles_roles :
    (r : Value) (hs rs : List Value)
    → contains r rs ≡ true
    → contains r (map (λ (p : Value × Value). p.1) (pair_roles hs rs)) ≡ true
unfolding pair_roles
contains-pair_roles_roles r hs [] e = cc
contains-pair_roles_roles r [] (s ∷ rs) e = ground (arith, contains-pair_roles_roles r [] rs)
contains-pair_roles_roles r (k ∷ hs) (s ∷ rs) e = ground (arith, contains-pair_roles_roles r hs rs)

module _ (E : Environment) (cluster_id : Value) where
  pub give_roles-ok :
      (h : Value) (roles : List Value) (c : Compass) {c' : Compass}
      → give_roles E cluster_id h roles c ≡ (ok tt, c')
      → (c'.host_roles ≡ insert h roles c.host_roles)
        × (c'.role_mapping ≡ assign roles c.role_mapping)
        × (c'.host_mapping ≡ c.host_mapping)
  unfolding give_roles
  give_roles-ok h roles c e = ground arith

  abbrev pub give_pair : Value × Value → Compass → Result (Unit {0}) × Compass
  give_pair (h, r) = give_roles E cluster_id h (r ∷ [])

  pub give_pairs-hosts :
      (ps : List (Value × Value)) (h : Value) (c : Compass) {c' : Compass}
      → for_each give_pair ps c ≡ (ok tt, c')
      → has_key h c'.host_roles
        ≡ (contains h (map (λ (p : Value × Value). p.0) ps) || has_key h c.host_roles)
  unfolding for_each
  give_pairs-hosts [] h c e = ground arith
  give_pairs-hosts ((k, r) ∷ ps) h c {c'} e =
      let (t, p, q) = for_each-cons give_pair (k, r) ps c e in
      ground (
        arith,
        give_roles-ok k (r ∷ []) c p,
        give_pairs-hosts ps h t q,
        has_key-insert h k (r ∷ []) c.host_roles,
      )

  pub give_pairs-roles :
      (ps : List (Value × Value)) (r : Value) (c : Compass) {c' : Compass}
      → for_each give_pair ps c ≡ (ok tt, c')
      → is_waiting c'.role_mapping r
        ≡ (is_waiting c.role_mapping r && not (contains r (map (λ (p : Value × Value). p.1) ps)))
  unfolding for_each
  give_pairs-roles [] r c e = ground arith
  give_pairs-roles ((k, s) ∷ ps) r c {c'} e =
      let (t, p, q) = for_each-cons give_pair (k, s) ps c e in
      ground (
        arith,
        give_roles-ok k (s ∷ []) c p,
        give_pairs-roles ps r t q,
        is_waiting-assign (s ∷ []) c.role_mapping r,
      )

  pub give_pairs-mapping :
      (ps : List (Value × Value)) (c : Compass) {c' : Compass}
      → for_each give_pair ps c ≡ (ok tt, c')
      → c'.host_mapping ≡ c.host_mapping
  unfolding for_each
  give_pairs-mapping [] c e = cc
  give_pairs-mapping ((k, s) ∷ ps) c e =
      let (t, p, q) = for_each-cons give_pair (k, s) ps c e in
      ground (arith, give_roles-ok k (s ∷ []) c p, give_pairs-mapping ps t q)
