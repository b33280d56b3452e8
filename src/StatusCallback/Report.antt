-- ===== src/StatusCallback/Report.antt =====
-- The report of `v2_playbook_on_stats` (deploy/ansible_plugins/callback/status_callback.py).
use compass4nfv.Base.{
  ◌≡◌, ap, ◌∙◌, inl, inr, true, arith, List, [], ◌∷◌, ◌++◌, append-nil, none, some, Text, codes,
  contains, Option-cases, ◌≤◌,
}
use compass4nfv.Base.Dict.{Dict, keys, lookup}
use compass4nfv.Result.{ok, connection_error, Result-cases, or_raise-ok}
use compass4nfv.Value.{Value, value_eq}
use compass4nfv.Value.Access.{getitem, iterate}
use compass4nfv.Effects.{
  get, Request, request, Response, Trace, Environment, lift, for_each, ◌>>=◌, ◌>>◌,
}
use compass4nfv.Effects.Bind.{>>=-eq-ok, lift-eq-ok}
use compass4nfv.StatusCallback.{
  Stats, least, map_items, exchange, auth, loads, raise_for_status, with_token, get_mapping,
  is_forced, report_host, report_stats,
}
use compass4nfv.StatusCallback.Mapping.{Lists, map_items_sound, map_items_complete}
use compass4nfv.StatusCallback.Notices.{notices, all_due, reports-Says, get_mapping-Says}

-- The request for the hosts of all clusters.
abbrev pub question : Value → Request
question token = record {
  method = get;
  url = codes "compass-deck/api/clusterhosts";
  params = none;
  body = none;
  headers = with_token token;
}

module _ (E : Environment) where
  -- The hosts of a cluster, as the server lists them in a good reply to the request for the list, which a
  -- run from `start` sends when it has its token.
  pub record IsMapping (start : Trace) (cluster_name : Value) (mapping : Dict Value Value)
      : Type 0 where
    pub before : Trace
    pub token : Value
    pub resp : Response
    pub doc : Value
    pub items : List Value
    pub authorised : auth E start ≡ (ok token, before)
    pub replied : E.reply (request (question token) ∷ before) ≡ some resp
    pub status_bounds : (200 ≤ resp.status) × (resp.status ≤ 300)
    pub json_doc : resp.json ≡ some doc
    pub listed : iterate doc ≡ ok items
    pub sound :
        (hostname hostid : Value)
        → lookup hostname mapping ≡ some hostid
        → (item : Value) × (contains item items ≡ true) × Lists cluster_name item hostname hostid
    pub complete :
        (item hostname hostid : Value)
        → contains item items ≡ true
        → Lists cluster_name item hostname hostid
        → (id : Value) × (lookup hostname mapping ≡ some id)

  -- From a reply that has been read.
  read_mapping :
      (start : Trace) (cluster_name token : Value) (before : Trace) (resp : Response)
      (mapping : Dict Value Value) (t t' : Trace)
      → auth E start ≡ (ok token, before)
      → E.reply (request (question token) ∷ before) ≡ some resp
      → (200 ≤ resp.status) × (resp.status ≤ 300)
      → (lift (loads E resp) >>= λ doc.
            lift (iterate doc) >>= λ items. lift (map_items cluster_name items []))
          t
        ≡ (ok mapping, t')
      → IsMapping start cluster_name mapping
  unfolding lookup
  read_mapping start cluster_name token before resp mapping t t' authorised replied bounds e =
      elim (Option-cases resp.json) [
        | inl nothing ↦ cc (rw nothing at e)
        | inr (doc, parsed) ↦ elim (Result-cases (iterate doc)) [
          | inr (x, bad) ↦ cc (rw (parsed, bad) at e)
          | inl (items, listed) ↦
              let mapped : map_items cluster_name items [] ≡ ok mapping =
                cc (rw (parsed, listed) at e) in
              record {
                before = before;
                token = token;
                resp = resp;
                doc = doc;
                items = items;
                authorised = authorised;
                replied = replied;
                status_bounds = bounds;
                json_doc = parsed;
                listed = listed;
                sound = λ hostname hostid found.
                    elim (map_items_sound cluster_name items [] mapping hostname hostid mapped
                      found) [ inl nowhere ↦ cc nowhere | inr there ↦ there ];
                complete = λ item hostname hostid there lists.
                    map_items_complete cluster_name items [] mapping hostname mapped
                      (inr (item, hostid, there, lists));
              }
        ]
      ]

  -- What has been asked has been answered, if the call returns.
  exchange-replied :
      (token : Value) (t t' : Trace) {resp : Response}
      → exchange E get (codes "/api/clusterhosts") none (with_token token) t ≡ (ok resp, t')
      → E.reply (request (question token) ∷ t) ≡ some resp
  unfolding exchange
  exchange-replied token t t' {resp} e =
      or_raise-ok (E.reply (request (question token) ∷ t)) connection_error (cc e)

  raise_for_status_bounds :
      (resp : Response) (t t' : Trace)
      → raise_for_status resp t ≡ (ok tt, t')
      → (200 ≤ resp.status) × (resp.status ≤ 300)
  unfolding raise_for_status
  raise_for_status_bounds resp t t' e = ground (arith, e)

  get_mapping-IsMapping :
      (cluster_name : Value) (mapping : Dict Value Value) (t t' : Trace)
      → get_mapping E cluster_name t ≡ (ok mapping, t')
      → IsMapping t cluster_name mapping
  unfolding get_mapping
  get_mapping-IsMapping cluster_name mapping t t' e =
      let read = λ (resp : Response). lift {S = Trace} (loads E resp) >>= λ doc.
      lift (iterate doc) >>= λ items. lift (map_items cluster_name items []) in
      let judged = λ (resp : Response). raise_for_status resp >> read resp in
      let asking =
        λ (token : Value). exchange E get (codes "/api/clusterhosts") none (with_token token) in
      let (token, t1, authorised, e1) = >>=-eq-ok (auth E) (λ token. asking token >>= judged) t e in
      let (resp, t2, sent, e2) = >>=-eq-ok (asking token) judged t1 e1 in
      let (_, t3, good, e3) = >>=-eq-ok (raise_for_status resp) (λ _. read resp) t2 e2 in
      read_mapping t cluster_name token t1 resp mapping t3 t' authorised
        (exchange-replied token t1 t2 sent) (raise_for_status_bounds resp t2 t3 good) e3

  -- What a report is: for a cluster, whose hosts the server has listed in a good reply, one message for
  -- each host of the cluster that has been processed, in the order of the hash table.
  pub record Reported (all_vars : Value) (stats : Stats) (t t' : Trace) : Type 0 where
    pub host_vars : Value
    pub first : Text
    pub vars : Value
    pub cluster_name : Value
    pub mapping : Dict Value Value
    pub hostvars : getitem all_vars (codes "hostvars") ≡ ok host_vars
    pub least_host : least stats.processed ≡ ok first
    pub first_vars : getitem host_vars first ≡ ok vars
    pub named : getitem vars (codes "cluster_name") ≡ ok cluster_name
    pub mapped : IsMapping t cluster_name mapping
    pub said : notices t' ≡ notices t ++ all_due E stats mapping (E.order (keys mapping))

  -- After the variables have been read.
  report_from :
      (stats : Stats) (cluster_name : Value) (t t' : Trace)
      → (get_mapping E cluster_name >>= λ mapping.
            for_each (report_host E stats (is_forced stats) mapping) (E.order (keys mapping)))
          t
        ≡ (ok tt, t')
      → (mapping : Dict Value Value) × IsMapping t cluster_name mapping
        × (notices t' ≡ notices t ++ all_due E stats mapping (E.order (keys mapping)))
  report_from stats cluster_name t t' e =
      let (mapping, t1, e1, e2) =
        >>=-eq-ok (get_mapping E cluster_name)
          (λ mapping.
            for_each (report_host E stats (is_forced stats) mapping) (E.order (keys mapping)))
          t e in
      (
        mapping,
        get_mapping-IsMapping cluster_name mapping t t1 e1,
        (reports-Says E stats mapping (E.order (keys mapping))).emits t1 t' tt e2
            ∙ ap (λ z. z ++ all_due E stats mapping (E.order (keys mapping)))
                ((get_mapping-Says E cluster_name).emits t t1 mapping e1 ∙ append-nil (notices t)),
      )

  -- When `v2_playbook_on_stats` returns, it has asked the server for the hosts, with the token of a first
  -- request, and been answered with a good status; and the messages sent are these and no other, in the
  -- order of the hash table: for each host that the answer lists for the cluster of the first host, and
  -- that has been processed, one with its id, which says ERROR if ansible has counted a failure of that
  -- host, or that it was unreachable, or the same of localhost where that has been processed, and
  -- SUCCESSFUL otherwise.
  pub report_stats-Reported :
      (all_vars : Value) (stats : Stats) (t t' : Trace)
      → report_stats E all_vars stats t ≡ (ok tt, t')
      → Reported all_vars stats t t'
  unfolding report_stats
  report_stats-Reported all_vars stats t t' e =
      let report = λ (cluster_name : Value). get_mapping E cluster_name >>= λ mapping.
      for_each (report_host E stats (is_forced stats) mapping) (E.order (keys mapping)) in
      let of_vars = λ (vars : Value). lift (getitem vars (codes "cluster_name")) >>= report in
      let of_first =
        λ (host_vars : Value) (first : Text). lift (getitem host_vars first) >>= of_vars in
      let of_host_vars =
        λ (host_vars : Value). lift (least stats.processed) >>= of_first host_vars in
      let (host_vars, e1, r1) = lift-eq-ok (getitem all_vars (codes "hostvars")) of_host_vars t e in
      let (first, e2, r2) = lift-eq-ok (least stats.processed) (of_first host_vars) t r1 in
      let (vars, e3, r3) = lift-eq-ok (getitem host_vars first) of_vars t r2 in
      let (cluster_name, e4, r4) = lift-eq-ok (getitem vars (codes "cluster_name")) report t r3 in
      let (mapping, mapped, said) = report_from stats cluster_name t t' r4 in
      record {
        host_vars = host_vars;
        first = first;
        vars = vars;
        cluster_name = cluster_name;
        mapping = mapping;
        hostvars = e1;
        least_host = e2;
        first_vars = e3;
        named = e4;
        mapped = mapped;
        said = said;
      }
