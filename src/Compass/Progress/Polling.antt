-- ===== src/Compass/Progress/Polling.antt =====
-- The requests that `CompassClient.get_cluster_state` (deploy/client.py) sends.
use compass4nfv.Base.{
  ℕ, zero, suc, ◌+◌, ◌≤◌, ◌<◌, ◌≡◌, refl, ap, false, arith, codes, ◌++◌, Bool-cases, inl, inr, [],
}
use compass4nfv.Result.{Result, ok, err}
use compass4nfv.Value.{Value, null, str}
use compass4nfv.Effects.{Environment, requests, sleep, show}
use compass4nfv.Restful.{Session, Reply}
use compass4nfv.Restful.Clusters.{get_cluster_state as request_state}
use compass4nfv.Restful.Sending.{get-Sends}
use compass4nfv.Compass.{Compass, on_client}
use compass4nfv.Compass.Login.{is_ok}
use compass4nfv.Compass.Progress.{with_event, state_rounds, get_cluster_state}

module _ (E : Environment) (cluster_id : Value) where
  asks_once :
      (c : Compass)
      → requests (on_client (request_state E cluster_id) c).1.session.trace
        ≡ suc (requests c.session.trace)
  unfolding request_state
  asks_once c =
      ap (λ (s : Session). requests s.trace)
        (get-Sends E (codes "/clusters/" ++ show E cluster_id ++ codes "/state") null
          c.session).state

  -- After `n` rounds at most.
  abbrev Polled : ℕ → Compass → Result Reply × Compass → Type 0
  Polled n c (r, c') =
      (reply : Reply) × (r ≡ ok reply)
      × (requests c'.session.trace ≤ requests c.session.trace + n)
      × (requests c.session.trace ≤ requests c'.session.trace)
      × (0 < n → requests c.session.trace < requests c'.session.trace)
      × (is_ok reply.0 ≡ false → requests c'.session.trace ≡ requests c.session.trace + n)

  state_rounds-Polled :
      (n : ℕ) (last : Reply) (c : Compass) → Polled n c (state_rounds E n last cluster_id c)
  unfolding state_rounds
  state_rounds-Polled zero last c =
      (last, refl, omega arith, omega arith, λ h. omega arith, λ h. omega arith)
  state_rounds-Polled (suc n) last c =
      let asked = on_client (request_state E cluster_id) c in
      let once = asks_once c in
      let reply : Reply = elim (asked.0) [ ok reply ↦ reply | err e ↦ (500, str []) ] in
      elim (Bool-cases (is_ok reply.0)) [
        | inl good ↦
            rw good (reply, refl, omega arith, omega arith, λ h. omega arith, λ h. cc (good, h))
        | inr bad ↦
            let (final, same, most, grown, least, all) =
              state_rounds-Polled n reply (with_event (sleep 6) asked.1) in
            rw bad
              (final, same, omega arith, omega arith, λ h. omega arith, λ h. omega (arith, all h))
      ]

  -- `get_cluster_state` always returns a reply, and sends at least one request and at most ten: exactly
  -- ten if the status of the reply that it returns is not good.
  pub get_cluster_state_bounded :
      (c : Compass)
      → let before = requests c.session.trace in
        let after = requests (get_cluster_state E cluster_id c).1.session.trace in
        (reply : Reply) × ((get_cluster_state E cluster_id c).0 ≡ ok reply)
        × (before < after)
        × (after ≤ before + 10)
        × (is_ok reply.0 ≡ false → after ≡ before + 10)
  unfolding get_cluster_state
  get_cluster_state_bounded c =
      let (reply, same, most, _, least, all) = state_rounds-Polled 10 (500, str []) c in
      (reply, same, least (omega arith), most, all)
