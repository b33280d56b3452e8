-- ===== src/StatusCallback/Mapping.antt =====
-- `clusterhost_mapping` of deploy/ansible_plugins/callback/status_callback.py, against the items that the
-- server lists.
use compass4nfv.Base.{
  ◌≡◌, sym, ap, ◌∙◌, subst, ◌⊎◌, inl, inr, true, arith, List, [], ◌∷◌, some, codes, ◌==◌, contains,
  Bool-cases,
}
use compass4nfv.Base.Dict.{Dict, lookup, insert, lookup-insert}
use compass4nfv.Result.{ok, Result-cases}
use compass4nfv.Value.{Value, value_eq}
use compass4nfv.Value.Access.{getitem}
use compass4nfv.StatusCallback.{map_item, map_items}

-- The item is of the cluster, and has this hostname and this id.
abbrev pub Lists : Value → Value → Value → Value → Type 0
Lists cluster_name item hostname hostid =
    (getitem item (codes "clustername") ≡ ok cluster_name)
    × (getitem item (codes "hostname") ≡ ok hostname)
    × (getitem item (codes "clusterhost_id") ≡ ok hostid)

-- What one item does to the mapping.
map_item-cases :
    (cluster_name item : Value) (mapping mapping' : Dict Value Value)
    → map_item cluster_name item mapping ≡ ok mapping'
    → ((mapping' ≡ mapping)
        × ((hostname hostid : Value) → Lists cluster_name item hostname hostid → ⊥))
      ⊎ ((hostname : Value) × (hostid : Value) × Lists cluster_name item hostname hostid
          × (mapping' ≡ insert hostname hostid mapping))
unfolding map_item
map_item-cases cluster_name item mapping mapping' e =
    elim (Result-cases (getitem item (codes "clustername"))) [
      | inr (x, bad) ↦ cc (rw (bad, map_item) at e)
      | inl (name, named) ↦ elim (Bool-cases (name == cluster_name)) [
        | inr other ↦ inl (
          cc (rw (named, other, map_item) at e),
          λ hostname hostid (c, _, _). ground (arith, named, other, c),
        )
        | inl same ↦ elim (Result-cases (getitem item (codes "hostname"))) [
          | inr (x, bad) ↦ cc (rw (named, same, bad, map_item) at e)
          | inl (hostname, found) ↦ elim (Result-cases (getitem item (codes "clusterhost_id"))) [
            | inr (x, bad) ↦ cc (rw (named, same, found, bad, map_item) at e)
            | inl (hostid, given) ↦ inr (
              hostname,
              hostid,
              (ground (arith, named, same), found, given),
              ground (arith, rw (named, same, found, given, map_item) at e),
            )
          ]
        ]
      ]
    ]

-- Every entry of the mapping is one of an item, or was there before.
pub map_items_sound :
    (cluster_name : Value) (items : List Value) (mapping mapping' : Dict Value Value)
    (hostname hostid : Value)
    → map_items cluster_name items mapping ≡ ok mapping'
    → lookup hostname mapping' ≡ some hostid
    → (lookup hostname mapping ≡ some hostid)
      ⊎ ((item : Value) × (contains item items ≡ true) × Lists cluster_name item hostname hostid)
unfolding map_items
map_items_sound cluster_name [] mapping mapping' hostname hostid e found =
    let same : mapping' ≡ mapping = cc in inl (ap (lookup hostname) (sym same) ∙ found)
map_items_sound cluster_name (item ∷ items) mapping mapping' hostname hostid e found =
    elim (Result-cases (map_item cluster_name item mapping)) [
      | inr (x, bad) ↦ cc (rw (bad, map_items) at e)
      | inl (mapping1, done) ↦
          elim (map_items_sound cluster_name items mapping1 mapping' hostname hostid
            (rw (done, map_items) at e) found) [
              | inr (other, there, lists) ↦ inr (other, ground (arith, there), lists)
              | inl before ↦ elim (map_item-cases cluster_name item mapping mapping1 done) [
                | inl (same, _) ↦ inl (ap (lookup hostname) (sym same) ∙ before)
                | inr (h, i, lists, added) ↦
                    let looked = ap (lookup hostname) added ∙ lookup-insert hostname h i mapping in
                    elim (Bool-cases (hostname == h)) [
                      | inl equal ↦
                          let name : h ≡ hostname = ground (arith, equal) in
                          let id : i ≡ hostid = ground (arith, equal, looked, before) in
                          inr (
                            item,
                            ground arith,
                            subst (λ x. Lists cluster_name item x hostid) name
                                (subst (λ x. Lists cluster_name item h x) id lists),
                          )
                      | inr other ↦ inl (ground (arith, other, looked, before))
                    ]
              ]
            ]
    ]

-- What is known before an item is read is known after it.
later :
    (cluster_name item : Value) (items : List Value) (mapping mapping1 : Dict Value Value)
    (hostname : Value)
    → map_item cluster_name item mapping ≡ ok mapping1
    → ((hostid : Value) × (lookup hostname mapping ≡ some hostid))
      ⊎ ((other : Value) × (hostid : Value) × (contains other (item ∷ items) ≡ true)
          × Lists cluster_name other hostname hostid)
    → ((hostid : Value) × (lookup hostname mapping1 ≡ some hostid))
      ⊎ ((other : Value) × (hostid : Value) × (contains other items ≡ true)
          × Lists cluster_name other hostname hostid)
later cluster_name item items mapping mapping1 hostname done (inl (hostid, before)) =
    elim (map_item-cases cluster_name item mapping mapping1 done) [
      | inl (same, _) ↦ inl (hostid, ap (lookup hostname) same ∙ before)
      | inr (h, i, _, added) ↦
          let looked = ap (lookup hostname) added ∙ lookup-insert hostname h i mapping in
          elim (Bool-cases (hostname == h)) [
            | inl equal ↦ inl (i, ground (arith, looked, equal))
            | inr other ↦ inl (hostid, ground (arith, looked, other, before))
          ]
    ]
later cluster_name item items mapping mapping1 hostname done (inr (other, hostid, there, lists)) =
    elim (Bool-cases (other == item)) [
      | inr elsewhere ↦ inr (other, hostid, ground (arith, there, elsewhere), lists)
      | inl here ↦
          let same : other ≡ item = ground (arith, here) in
          let (cluster, name, id) = subst (λ x. Lists cluster_name x hostname hostid) same lists in
          elim (map_item-cases cluster_name item mapping mapping1 done) [
            | inl (_, foreign) ↦ absurd (foreign hostname hostid (cluster, name, id))
            | inr (h, i, (_, name', _), added) ↦
                let equal : hostname ≡ h = cc in
                let looked = ap (lookup hostname) added ∙ lookup-insert hostname h i mapping in
                inl (i, ground (arith, looked, equal))
          ]
    ]

-- Every item of the cluster has its hostname in the mapping.
pub map_items_complete :
    (cluster_name : Value) (items : List Value) (mapping mapping' : Dict Value Value)
    (hostname : Value)
    → map_items cluster_name items mapping ≡ ok mapping'
    → ((hostid : Value) × (lookup hostname mapping ≡ some hostid))
      ⊎ ((item : Value) × (hostid : Value) × (contains item items ≡ true)
          × Lists cluster_name item hostname hostid)
    → (hostid : Value) × (lookup hostname mapping' ≡ some hostid)
unfolding map_items
map_items_complete cluster_name [] mapping mapping' hostname e h =
    let same : mapping ≡ mapping' = cc in
    elim h [
      | inl (hostid, before) ↦ (hostid, ap (lookup hostname) (sym same) ∙ before)
      | inr (item, hostid, none_there, lists) ↦ cc none_there
    ]
map_items_complete cluster_name (item ∷ items) mapping mapping' hostname e h =
    elim (Result-cases (map_item cluster_name item mapping)) [
      | inr (x, bad) ↦ cc (rw (bad, map_items) at e)
      | inl (mapping1, done) ↦
          map_items_complete cluster_name items mapping1 mapping' hostname
            (rw (done, map_items) at e)
            (later cluster_name item items mapping mapping1 hostname done h)
    ]
