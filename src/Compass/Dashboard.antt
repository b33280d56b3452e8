-- ===== src/Compass/Dashboard.antt =====
-- `CompassClient.check_dashboard_links` of deploy/client.py.
use compass4nfv.Base.{◌&&◌, not, [], none, some, Text, codes, leb, ltb, if◌then◌else◌}
use compass4nfv.Result.{ok, err, exception, connection_error}
use compass4nfv.Value.{Value, str}
use compass4nfv.Value.Access.{truthy}
use compass4nfv.Effects.{request, get as get_method, Environment, Action, pure, raise_if, ◌>>=◌}
use compass4nfv.Compass.{Compass}
use compass4nfv.Compass.Config.{Config}
use compass4nfv.Compass.Progress.{with_event}

module _ (E : Environment) where
  -- `requests.get` goes past the session; `raise_for_status` raises on 4xx and 5xx.
  fetch : Text → Action Compass Text
  fetch url c =
      let c' =
        with_event
          (request
            (record { method = get_method; url = url; params = none; body = none; headers = [] }))
          c in
      elim (E.reply c'.session.trace) [
        | none ↦ (err connection_error, c')
        | some r ↦
            if leb 400 r.status && ltb r.status 600
            then (err connection_error, c')
            else (ok r.content, c')
      ]

  unfoldable pub check_dashboard_links : Config → Value → Action Compass (Unit {0})
  unfolding fetch
  check_dashboard_links conf cluster_id =
      if truthy (str conf.dashboard_url)
      then (do
        text ← fetch conf.dashboard_url
        raise_if (not (E.re_search conf.dashboard_link_pattern text))
            (exception (codes "%s failed to be downloaded\nthe context is:\n%s\n")))
      else pure tt
