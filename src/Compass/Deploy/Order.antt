-- ===== src/Compass/Deploy/Order.antt =====
-- The order of the requests of `CompassClient.deploy_clusters`, and the ways through `main` that raise
-- (deploy/client.py).
use compass4nfv.Base.{
  ◌≡◌, ◌≢◌, sym, ap, ◌∙◌, ◌↔◌, ◌⊎◌, inl, inr, List, contains, Option-cases, Bool, true, false, ◌&&◌,
  [], ◌∷◌, ◌++◌, Option, none, some, Text, codes, arith, ◌==◌, text_eq, if◌then◌else◌, Bool-cases,
}
use compass4nfv.Base.Dict.{Dict, keys, lookup, has_key, has_key-of_lookup}
use compass4nfv.Result.{succeeds, type_error}
use compass4nfv.Value.{Value, value_eq, array, object, num, null}
use compass4nfv.Value.Access.{iterate}
use compass4nfv.Effects.{
  Environment, KeepsKeys, Response, Request, request, Trace, show, post as post_method, lift,
}
use compass4nfv.Effects.Bind.{Fails, Fails-bind, Fails-raise}
use compass4nfv.Compass.{Compass, on_client}
use compass4nfv.Compass.Config.{Config}
use compass4nfv.Compass.Login.{is_ok, login, get_machines, list_clusters}
use compass4nfv.Compass.Progress.{values_at, host_ids, deploy_clusters, redeploy_clusters}
use compass4nfv.Compass.Deploy.{
  cluster_named, set_cluster_package_config, deploy, redeploy, main, expansion_deployment,
}
use compass4nfv.Compass.Subnets.{add_subnets}
use compass4nfv.Compass.Cluster.{add_cluster_hosts}
use compass4nfv.Compass.Networking.{set_host_networking}
use compass4nfv.Compass.OsConfig.{set_cluster_os_config}
use compass4nfv.Compass.Roles.{set_all_hosts_roles}
use compass4nfv.Restful.Clusters.{list_clusters as request_clusters}

values_at_sound :
    (E : Environment) (d : Dict Value Value) (ks : List Value) (v : Value)
    → contains v (values_at E d ks) ≡ true
    → (k : Value) × (lookup k d ≡ some v)
unfolding values_at
values_at_sound E d [] v h = cc h
values_at_sound E d (k ∷ ks) v h = elim (Option-cases (lookup k d)) [
  | inl missing ↦ values_at_sound E d ks v (rw missing at h)
  | inr (w, there) ↦ elim (Bool-cases (v == w)) [
    | inl here ↦ let same : v ≡ w = ground (arith, here) in (k, there ∙ ap (λ z. some z) (sym same))
    | inr away ↦ values_at_sound E d ks v (ground (arith, rw there at h, away))
  ]
]

values_at_complete :
    (E : Environment) (d : Dict Value Value) (ks : List Value) (k v : Value)
    → contains k ks ≡ true
    → lookup k d ≡ some v
    → contains v (values_at E d ks) ≡ true
unfolding values_at
values_at_complete E d [] k v h there = cc h
values_at_complete E d (j ∷ ks) k v h there = elim (Bool-cases (k == j)) [
  | inl here ↦
      let same : lookup j d ≡ some v = ap (λ z. lookup z d) (sym (ground (arith, here))) ∙ there in
      rw same (ground arith)
  | inr away ↦
      let rest = values_at_complete E d ks k v (ground (arith, h, away)) there in
      elim (Option-cases (lookup j d)) [
        | inl missing ↦ rw missing rest
        | inr (w, other) ↦ rw other (ground (arith, rest))
      ]
]

-- The ids of all hosts, and no other.
host_ids-lookup :
    (E : Environment) (c : Compass) (order : KeepsKeys E) (id : Value)
    → (contains id (host_ids E c) ≡ true)
      ↔ ((host : Value) × (lookup host c.host_mapping ≡ some id))
unfolding host_ids has_key
host_ids-lookup E c order id =
    let ks = E.order (keys c.host_mapping) in
    (
      λ h. values_at_sound E c.host_mapping ks id h,
      λ (host, there).
          let listed : contains host (keys c.host_mapping) ≡ true =
            has_key-of_lookup host c.host_mapping
            ∙ ap (λ o. elim o [ none ↦ false | some v ↦ true ]) there in
          values_at_complete E c.host_mapping ks host id (order host (keys c.host_mapping) ∙ listed)
            there,
    )

-- A reply that `is_ok` takes.
abbrev pub accepted : Option Response → Bool
accepted none = false
accepted (some r) = is_ok r.status

module _ (E : Environment) (cluster_id : Value) (c : Compass) where
  -- The request for an action on all hosts of the cluster.
  abbrev pub action_request : Text → Request
  action_request action = record {
    method = post_method;
    url = c.session.url_ ++ (codes "/clusters/" ++ show E cluster_id ++ codes "/action");
    params = none;
    body = some (object ((action, object ((codes "hosts", array (host_ids E c)) ∷ [])) ∷ []));
    headers = c.session.headers;
  }

  abbrev pub reviewed : Trace
  reviewed = request (action_request (codes "review")) ∷ c.session.trace

  abbrev pub deployed : Trace
  deployed = request (action_request (codes "deploy")) ∷ reviewed

  deploy_clusters-requests :
      ((deploy_clusters E cluster_id c).1.session.trace
        ≡ (if accepted (E.reply reviewed) then deployed else reviewed))
      × (succeeds (deploy_clusters E cluster_id c).0
          ≡ (accepted (E.reply reviewed) && accepted (E.reply deployed)))
  unfolding deploy_clusters
  deploy_clusters-requests = ground arith

  -- If hash tables list their keys: `deploy_clusters` sends a review of the hosts whose ids are those of
  -- `host_mapping`, all of them and no other. If the reply's status is good it sends the deployment of the
  -- same hosts, else nothing more; and it returns exactly if both statuses are good.
  pub deploy_clusters-trace :
      KeepsKeys E
      → ((deploy_clusters E cluster_id c).1.session.trace
          ≡ (if accepted (E.reply reviewed) then deployed else reviewed))
        × (succeeds (deploy_clusters E cluster_id c).0
            ≡ (accepted (E.reply reviewed) && accepted (E.reply deployed)))
        × ((id : Value)
            → (contains id (host_ids E c) ≡ true)
              ↔ ((host : Value) × (lookup host c.host_mapping ≡ some id)))
  deploy_clusters-trace order =
      (deploy_clusters-requests.0, deploy_clusters-requests.1, host_ids-lookup E c order)

module _ (E : Environment) (conf : Config) where
  redeploy-Fails : Fails (redeploy E conf)
  unfolding redeploy
  redeploy-Fails = Fails-bind (login E conf) _ λ _.
      Fails-bind (list_clusters E conf) _
        λ cluster_id. Fails-bind (redeploy_clusters E cluster_id) _ λ _. Fails-raise type_error

  expansion_deployment-Fails : Fails (expansion_deployment E conf)
  unfolding expansion_deployment
  expansion_deployment-Fails = Fails-bind (login E conf) _ λ _.
      Fails-bind (get_machines E conf) _ λ machines. Fails-bind (add_subnets E conf) _ λ _.
        Fails-bind (on_client (request_clusters E null null null null null)) _ λ reply.
          Fails-bind (lift (iterate reply.1)) _ λ clusters.
            Fails-bind (cluster_named conf.cluster_name clusters (num 1)) _ λ cluster_id.
              Fails-bind (add_cluster_hosts E conf cluster_id machines) _ λ _.
                Fails-bind (set_host_networking E conf) _ λ _.
                  Fails-bind (set_cluster_os_config E conf cluster_id) _ λ _.
                    Fails-bind (set_cluster_package_config E conf cluster_id) _ λ _.
                      Fails-bind (set_all_hosts_roles E conf cluster_id) _
                        λ _. Fails-bind (deploy_clusters E cluster_id) _ λ _. Fails-raise type_error

  deploy_fails :
      (c : Compass) → conf.expansion ≢ codes "false" → succeeds (deploy E conf c).0 ≡ false
  unfolding deploy
  deploy_fails c h = elim (Bool-cases (conf.expansion == codes "false")) [
    | inl fresh ↦ absurd (h (ground (arith, fresh)))
    | inr other ↦ rw other ((expansion_deployment-Fails).at c)
  ]

  -- Run with the flag `redeploy`, or for an expansion, `main` never returns: it always raises.
  pub main_fails :
      (c : Compass)
      → ((conf.deploy_flag ≡ codes "redeploy") ⊎ (conf.expansion ≢ codes "false"))
      → succeeds (main E conf c).0 ≡ false
  unfolding main
  main_fails c h = elim (Bool-cases (conf.deploy_flag == codes "redeploy")) [
    | inl again ↦ rw again ((redeploy-Fails).at c)
    | inr first ↦ rw first (
        deploy_fails c
          (elim h [ inl again ↦ absurd (ground (arith, first, again)) | inr other ↦ other ]))
  ]
