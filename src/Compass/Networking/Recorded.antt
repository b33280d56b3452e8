-- ===== src/Compass/Networking/Recorded.antt =====
-- The addresses that `CompassClient.set_host_networking` (deploy/client.py) records.
use compass4nfv.Base.{
  ◌≡◌, sym, ap, ◌∙◌, subst, true, not, arith, List, [], ◌∷◌, Option, some, Text, codes, contains,
  text_eq, Option-cases, inl, inr,
}
use compass4nfv.Base.Dict.{lookup}
use compass4nfv.Result.{
  Result, ok, or_raise, runtime_error, value_error, type_error, assertion_error,
}
use compass4nfv.Value.{Value, str, value_eq}
use compass4nfv.Effects.{Environment, Action, lift, gets, modify, raise_if, for_each, ◌>>=◌, ◌>>◌}
use compass4nfv.Text.{split, split_once, strip}
use compass4nfv.Restful.{Reply, Session}
use compass4nfv.Restful.HostNetworks.{add_host_network}
use compass4nfv.Compass.Login.{is_ok}
use compass4nfv.Effects.Bind.{>>=-eq-ok, for_each-cons}
use compass4nfv.Compass.{Compass, on_client}
use compass4nfv.Compass.Config.{Config}
use compass4nfv.Compass.Networking.Append.{append_ip-lookup}
use compass4nfv.Compass.Networking.{
  keyword, all_keywords, uncons, append_ip, get_subnet, add_network, add_networks,
  set_host_networking,
}

module _ {A : Type 0} where
  second :
      {r r' : Result A} {c c' : Compass} → ◌≡◌ {A = Result A × Compass} (r, c) (r', c') → c ≡ c'
  second e = ap (λ (p : Result A × Compass). p.1) e

  -- A call of the client leaves the tables.
  kept :
      (m : Action Session A) (c : Compass) {r : Result A} {c' : Compass}
      → on_client m c ≡ (r, c')
      → (c'.host_ips ≡ c.host_ips) × (c'.subnet_mapping ≡ c.subnet_mapping)
  kept m c e = (
    sym (ap (λ (p : Result A × Compass). p.1.host_ips) e),
    sym (ap (λ (p : Result A × Compass). p.1.subnet_mapping) e),
  )

module _ (E : Environment) where
  -- Every recorded address is one for which a known subnet is found.
  abbrev pub IsKnown : Compass → Type 0
  IsKnown c =
      (host : Value) (ips : List Text) (ip : Text)
      → lookup host c.host_ips ≡ some ips
      → contains ip ips ≡ true
      → (id : Value) × (get_subnet E ip c.subnet_mapping ≡ some id)

  -- The end of `add_network`, after the subnet has been found.
  abbrev finish : Text → Text → Reply → Action Compass (Unit {0})
  finish hostname ip r =
      raise_if (not (is_ok r.0)) (runtime_error (codes "add host network failed"))
      >> modify (λ c. record c { host_ips = append_ip hostname ip c.host_ips })

  abbrev connect : Text → Value → Text → Text → List Text → Value → Action Compass (Unit {0})
  connect hostname host_id name ip properties id =
      raise_if (not (all_keywords properties)) type_error
      >> (on_client (
            add_host_network E host_id (str name) (str ip) id (keyword (codes "is_mgmt") properties)
              (keyword (codes "is_promiscuous") properties) (keyword (codes "raw_data") properties))
          >>= finish hostname ip)

  finish-ok :
      (hostname ip : Text) (r : Reply) (c : Compass) {c' : Compass}
      → finish hostname ip r c ≡ (ok tt, c')
      → (c'.host_ips ≡ append_ip hostname ip c.host_ips) × (c'.subnet_mapping ≡ c.subnet_mapping)
  finish-ok hostname ip r c e = ground arith

  connect-ok :
      (hostname : Text) (host_id : Value) (name ip : Text) (properties : List Text) (id : Value)
      (c : Compass) {c' : Compass}
      → connect hostname host_id name ip properties id c ≡ (ok tt, c')
      → (c'.host_ips ≡ append_ip hostname ip c.host_ips) × (c'.subnet_mapping ≡ c.subnet_mapping)
  connect-ok hostname host_id name ip properties id c e =
      let post =
        add_host_network E host_id (str name) (str ip) id (keyword (codes "is_mgmt") properties)
          (keyword (codes "is_promiscuous") properties) (keyword (codes "raw_data") properties) in
      let (_, c1, keywords, e1) =
        >>=-eq-ok (raise_if (not (all_keywords properties)) type_error)
          (λ _. on_client post >>= finish hostname ip) c e in
      let (r, c2, sent, e2) = >>=-eq-ok (on_client post) (finish hostname ip) c1 e1 in
      let (ips, subnets) = finish-ok hostname ip r c2 e2 in
      let (ips1, subnets1) = kept post c1 sent in
      (
        ips
            ∙ ap (append_ip hostname ip)
                (ips1 ∙ ap (λ (x : Compass). x.host_ips) (sym (second keywords))),
        subnets ∙ subnets1 ∙ ap (λ (x : Compass). x.subnet_mapping) (sym (second keywords)),
      )

  -- The middle of `add_network`.
  abbrev find : Text → Value → Text → Text × List Text → Action Compass (Unit {0})
  find hostname host_id name p =
      gets (λ (c : Compass). get_subnet E p.0 c.subnet_mapping) >>= λ found.
      lift (or_raise found (runtime_error (codes "ip addr %s is invalid")))
      >>= connect hostname host_id name p.0 p.1

  -- An address for which a subnet is found goes into the table.
  abbrev Records : Text → Compass → Compass → Type 0
  Records hostname c c' =
      (ip : Text) × (id : Value) × (get_subnet E ip c.subnet_mapping ≡ some id)
      × (c'.host_ips ≡ append_ip hostname ip c.host_ips)
      × (c'.subnet_mapping ≡ c.subnet_mapping)

  find-ok :
      (hostname : Text) (host_id : Value) (name : Text) (p : Text × List Text) (c : Compass)
      {c' : Compass}
      → find hostname host_id name p c ≡ (ok tt, c')
      → Records hostname c c'
  find-ok hostname host_id name p c e = elim (Option-cases (get_subnet E p.0 c.subnet_mapping)) [
    | inl missing ↦ cc (rw missing at e)
    | inr (id, known) ↦
        let (ips, subnets) = connect-ok hostname host_id name p.0 p.1 id c (rw known at e) in
        (p.0, id, known, ips, subnets)
  ]

  add_network-ok :
      (hostname : Text) (host_id : Value) (intf_str : Text) (c : Compass) {c' : Compass}
      → add_network E hostname host_id intf_str c ≡ (ok tt, c')
      → Records hostname c c'
  unfolding add_network
  add_network-ok hostname host_id intf_str c {c'} e =
      let take = λ (p : Text × Text).
        lift {S = Compass} (uncons (split b'|' (strip p.1))) >>= find hostname host_id p.0 in
      let (p, c1, cut, e1) =
        >>=-eq-ok (lift (or_raise (split_once b'=' intf_str) value_error)) take c e in
      let (q, c2, first, e2) =
        >>=-eq-ok (lift (uncons (split b'|' (strip p.1)))) (find hostname host_id p.0) c1 e1 in
      subst (λ x. Records hostname x c') (sym (second cut ∙ second first))
        (find-ok hostname host_id p.0 q c2 e2)

  add_network-IsKnown :
      (hostname : Text) (host_id : Value) (intf_str : Text) (c : Compass) {c' : Compass}
      → add_network E hostname host_id intf_str c ≡ (ok tt, c')
      → IsKnown c
      → IsKnown c'
  add_network-IsKnown hostname host_id intf_str c {c'} e h host ips a found inside =
      let (ip, id, known, stored, same) = add_network-ok hostname host_id intf_str c e in
      elim (append_ip-lookup hostname ip c.host_ips host ips a (rw stored at found) inside) [
        | inl new ↦ (id, rw (new, same) known)
        | inr (old, before, within) ↦ let (i, k) = h host old a before within in (i, rw same k)
      ]

  -- A loop keeps what each round keeps.
  for_each-IsKnown :
      {A : Type 0} (body : A → Action Compass (Unit {0}))
      → ((x : A) (c c' : Compass) → body x c ≡ (ok tt, c') → IsKnown c → IsKnown c')
      → (xs : List A) (c : Compass) {c' : Compass} → for_each body xs c ≡ (ok tt, c')
      → IsKnown c
      → IsKnown c'
  unfolding for_each
  for_each-IsKnown body keeps [] c e h = subst IsKnown (second e) h
  for_each-IsKnown body keeps (x ∷ xs) c e h =
      let (t, one, rest) = for_each-cons body x xs c e in
      for_each-IsKnown body keeps xs t rest (keeps x c t one h)

  add_networks-IsKnown :
      (host_network : Text) (c c' : Compass)
      → add_networks E host_network c ≡ (ok tt, c')
      → IsKnown c
      → IsKnown c'
  unfolding add_networks
  add_networks-IsKnown host_network c c' e h =
      let interfaces = λ (p : Text × Text) (host_id : Value).
        for_each (add_network E (strip p.0) host_id) (split b',' (strip p.1)) in
      let identify = λ (p : Text × Text) (known : Option Value).
        lift {S = Compass} (or_raise known assertion_error) >>= interfaces p in
      let ask =
        λ (p : Text × Text). gets (λ (c : Compass). lookup (str (strip p.0)) c.host_mapping) in
      let (p, c1, cut, e1) =
        >>=-eq-ok (lift (or_raise (split_once b':' host_network) value_error))
          (λ p. ask p >>= identify p) c e in
      let (known, c2, asked, e2) = >>=-eq-ok (ask p) (identify p) c1 e1 in
      let (host_id, c3, found, e3) =
        >>=-eq-ok (lift (or_raise known assertion_error)) (interfaces p) c2 e2 in
      for_each-IsKnown (add_network E (strip p.0) host_id)
        (λ intf_str s s' one k. add_network-IsKnown (strip p.0) host_id intf_str s one k)
        (split b',' (strip p.1)) c3 e3 (subst IsKnown (second cut ∙ second asked ∙ second found) h)

  -- If every address in `host_ips` is one for which `get_subnet` finds an id, then this is so after
  -- `set_host_networking` has returned.
  pub set_host_networking-IsKnown :
      (conf : Config) (c c' : Compass)
      → IsKnown c
      → set_host_networking E conf c ≡ (ok tt, c')
      → IsKnown c'
  unfolding set_host_networking
  set_host_networking-IsKnown conf c c' h e =
      for_each-IsKnown (add_networks E) add_networks-IsKnown (split b';' conf.host_networks) c e h
