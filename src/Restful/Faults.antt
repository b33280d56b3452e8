-- ===== src/Restful/Faults.antt =====
-- The URLs that `Client.delete_machine` and `get_machine` (deploy/restful.py) send to.
use compass4nfv.Base.{◌≡◌, ◌≢◌, ap, sym, ◌∙◌, Text, codes, [], ◌∷◌, ◌++◌, arith, text_eq}
use compass4nfv.Value.{Value, object}
use compass4nfv.Effects.{Environment, Request, request, show}
use compass4nfv.Restful.{Session}
use compass4nfv.Restful.Machines.{builtin_id, get_machine, delete_machine}
use compass4nfv.Restful.Sending.{get-Sends, delete-Sends}

-- Texts that go on differently after the same beginning differ.
append_cancel : (s t u : Text) → s ++ t ≡ s ++ u → t ≡ u
append_cancel [] t u e = e
append_cancel (c ∷ s) t u e = append_cancel s t u (cc)

abbrev id_query : Value
id_query = object ((codes "id", builtin_id) ∷ [])

module _ (E : Environment) (machine_id : Value) (s : Session) where
  -- `delete_machine` and `get_machine` send one request each, and for the same machine the URLs of the
  -- two differ.
  pub delete_machine_misses :
      (deleted read : Request) × ((delete_machine E machine_id s).1.trace
        ≡ request deleted ∷ s.trace)
      × ((get_machine E machine_id s).1.trace ≡ request read ∷ s.trace)
      × (deleted.url ≢ read.url)
  unfolding delete_machine get_machine
  delete_machine_misses =
      let deleting = delete-Sends E (codes "machines/" ++ show E machine_id) s in
      let reading = get-Sends E (codes "/machines/" ++ show E machine_id) id_query s in
      let tail = show E machine_id in
      (
        deleting.sent,
        reading.sent,
        ap (λ (x : Session). x.trace) deleting.state,
        ap (λ (x : Session). x.trace) reading.state,
        λ same.
            let urls : s.url_ ++ (codes "machines/" ++ tail)
                ≡ s.url_ ++ (codes "/machines/" ++ tail) =
              sym deleting.at ∙ same ∙ reading.at in
            ground (
              arith,
              append_cancel s.url_ (codes "machines/" ++ tail) (codes "/machines/" ++ tail) urls,
            ),
      )
