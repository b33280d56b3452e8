-- ===== src/Compass/Cluster/Known.antt =====
-- The hosts that `CompassClient.add_cluster_hosts` (deploy/client.py) makes known.
use compass4nfv.Base.{
  ◌≡◌, sym, true, not, ◌||◌, arith, List, [], ◌∷◌, map, codes, contains, length, eqb, Bool-cases,
  inl, inr, if◌then◌else◌,
}
use compass4nfv.Base.Dict.{insert, has_key, has_key-insert}
use compass4nfv.Result.{ok, runtime_error}
use compass4nfv.Value.{Value, str, array, object, value_eq}
use compass4nfv.Value.Access.{getitem, iterate}
use compass4nfv.Effects.{Environment, pure, lift, raise_if, assert, modify, for_each, ◌>>=◌, ◌>>◌}
use compass4nfv.Effects.Bind.{>>=-eq-ok, for_each-cons}
use compass4nfv.Restful.Clusters.{add_hosts_to_cluster}
use compass4nfv.Restful.{Reply}
use compass4nfv.Compass.{Compass, on_client}
use compass4nfv.Compass.Config.{Config}
use compass4nfv.Compass.Documents.{pieces}
use compass4nfv.Compass.Login.{is_ok}
use compass4nfv.Compass.Cluster.{note_host, last_machines, pair_machines, add_cluster_hosts}

-- The ids of the reply go into `host_mapping` under names of the list only.
note_host-ok :
    (hostnames : List Value) (host : Value) (c : Compass) {c' : Compass} (h : Value)
    → note_host hostnames host c ≡ (ok tt, c')
    → has_key h c'.host_mapping ≡ true
    → (has_key h c.host_mapping || contains h hostnames) ≡ true
unfolding note_host
note_host-ok hostnames host c h e known =
    let store = λ (hostname : Value) (host_id : Value).
      modify
        (λ (c : Compass). record c { host_mapping = insert hostname host_id c.host_mapping }) in
    let note = λ (hostname : Value).
      if contains hostname hostnames
      then (lift (getitem host (codes "id")) >>= store hostname)
      else pure {S = Compass} tt in
    let (name, c1, read, e1) = >>=-eq-ok (lift (getitem host (codes "hostname"))) note c e in
    elim (Bool-cases (contains name hostnames)) [
      | inr other ↦ ground (arith, read, rw other at e1, known)
      | inl listed ↦
          let (i, c2, found, e2) =
            >>=-eq-ok (lift (getitem host (codes "id"))) (store name) c1 (rw listed at e1) in
          ground (arith, read, found, e2, known, listed, has_key-insert h name i c.host_mapping)
    ]

note_hosts-ok :
    (hostnames : List Value) (hosts : List Value) (c : Compass) {c' : Compass} (h : Value)
    → for_each (note_host hostnames) hosts c ≡ (ok tt, c')
    → has_key h c'.host_mapping ≡ true
    → (has_key h c.host_mapping || contains h hostnames) ≡ true
unfolding for_each
note_hosts-ok hostnames [] c h e known = ground arith
note_hosts-ok hostnames (host ∷ hosts) c h e known =
    let (c1, first, rest) = for_each-cons (note_host hostnames) host hosts c e in
    ground
      (arith, note_hosts-ok hostnames hosts c1 h rest known, note_host-ok hostnames host c h first)

module _ (E : Environment) (conf : Config) (cluster_id : Value) (machines : List Value) where
  -- If `add_cluster_hosts` returns, there is a machine for each hostname of the configuration, and a
  -- host that `host_mapping` holds then was held before or is one of these hostnames.
  pub add_cluster_hosts_known :
      (c c' : Compass)
      → add_cluster_hosts E conf cluster_id machines c ≡ (ok tt, c')
      → (length (last_machines (length (pieces b',' conf.hostnames)) machines)
          ≡ length (pieces b',' conf.hostnames))
        × ((h : Value)
            → has_key h c'.host_mapping ≡ true
            → (has_key h c.host_mapping
                || contains h (map (λ s. str s) (pieces b',' conf.hostnames)))
              ≡ true)
  unfolding add_cluster_hosts
  add_cluster_hosts_known c c' e =
      let names = pieces b',' conf.hostnames in
      let chosen = last_machines (length names) machines in
      let post =
        add_hosts_to_cluster E cluster_id
          (object ((codes "machines", array (pair_machines chosen names)) ∷ [])) in
      let note = λ (hosts : List Value). for_each (note_host (map (λ s. str s) names)) hosts in
      let each_host = λ (hosts : Value). lift {S = Compass} (iterate hosts) >>= note in
      let read = λ (r : Reply). lift {S = Compass} (getitem r.1 (codes "hosts")) >>= each_host in
      let refused = λ (r : Reply).
        raise_if {S = Compass} (not (is_ok r.0))
          (runtime_error (codes "add host to cluster failed")) in
      let (_, c1, fits, e1) =
        >>=-eq-ok (assert (eqb (length chosen) (length names)))
          (λ _. on_client post >>= λ r. refused r >> read r) c e in
      let (r, c2, sent, e2) = >>=-eq-ok (on_client post) (λ r. refused r >> read r) c1 e1 in
      let (_, c3, good, e3) = >>=-eq-ok (refused r) (λ _. read r) c2 e2 in
      let (hosts, c4, found, e4) = >>=-eq-ok (lift (getitem r.1 (codes "hosts"))) each_host c3 e3 in
      let (items, c5, listed, e5) = >>=-eq-ok (lift (iterate hosts)) note c4 e4 in
      let same : c5.host_mapping ≡ c.host_mapping =
        ground (arith, fits, sent, good, found, listed) in
      (
        ground (arith, fits),
        λ h known. rw (sym same) (note_hosts-ok (map (λ s. str s) names) items c5 h e5 known),
      )
