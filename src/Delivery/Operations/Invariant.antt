-- ===== src/Delivery/Operations/Invariant.antt =====
-- What every history of operations of server/internal/delivery keeps, whichever port calls fail.
use beecon.Base.{ℕ, ◌<◌, refl, Option, List, [], ◌∷◌}
use beecon.Base.Effects.Keeps.{Keeps, keeps_rules}
use beecon.Delivery.Types.{Endpoint}
use beecon.Delivery.Ports.{Facade, World}
use beecon.Delivery.Ports.Frames.{OnEndpoints, endpoint_frames}
use beecon.Delivery.Endpoints.{
  get_endpoint, rotate_secret, rotate_secret_for_endpoint, list_endpoints, rotate_endpoint_secret,
}
use beecon.Delivery.Endpoints.Invariant.{
  EndpointsOk, set_endpoint-EndpointsOk, create_endpoint-EndpointsOk, update_endpoint-EndpointsOk,
  delete_endpoint-EndpointsOk, enable_endpoint-EndpointsOk, disable_endpoint-EndpointsOk,
}
use beecon.Delivery.Outbox.Endpoints.{
  enqueue-Endpoints, send_test-Endpoints, redeliver-Endpoints, list_events-Endpoints,
}
use beecon.Delivery.Dispatch.Endpoints.{dispatch_once-EndpointsOk, purge_once-Endpoints}
use beecon.Delivery.Operations.{
  Operation, sets_endpoint, gets_endpoint, rotates_secret, lists_endpoints, creates_endpoint,
  updates_endpoint, deletes_endpoint, enables_endpoint, disables_endpoint, rotates_endpoint_secret,
  enqueues, sends_test, redelivers, lists_events, dispatches, purges, step, run,
}

module _ {E : List Endpoint → Type 0} (f : Facade) where
  get_endpoint-Endpoints : (org : ℕ) → Keeps (OnEndpoints E) (get_endpoint f org)
  unfolding get_endpoint
  get_endpoint-Endpoints org = search (keeps_rules, endpoint_frames) depth 12

  rotated-Endpoints :
      (org : ℕ) (e : Endpoint) (o : Option ℕ)
      → Keeps (OnEndpoints E) (rotate_secret_for_endpoint f org e o)
  unfolding rotate_secret_for_endpoint
  rotated-Endpoints org e o = search (keeps_rules, endpoint_frames)

  rotate_secret-Endpoints : (org : ℕ) (o : Option ℕ) → Keeps (OnEndpoints E) (rotate_secret f org o)
  unfolding rotate_secret
  rotate_secret-Endpoints org o = search (keeps_rules, endpoint_frames, rotated-Endpoints)

  rotate_endpoint_secret-Endpoints :
      (org id : ℕ) (o : Option ℕ) → Keeps (OnEndpoints E) (rotate_endpoint_secret f org id o)
  unfolding rotate_endpoint_secret
  rotate_endpoint_secret-Endpoints org id o =
      search (keeps_rules, endpoint_frames, rotated-Endpoints)

  list_endpoints-items : (org : ℕ) → Keeps (OnEndpoints E) (list_endpoints f org)
  unfolding list_endpoints
  list_endpoints-items org = search (keeps_rules, endpoint_frames) depth 12

module _ (f : Facade) (pos : 0 < f.auto_disable_threshold) (room : 0 < f.endpoint_cap) where
  abbrev Ok : World → Type 0
  Ok = OnEndpoints (EndpointsOk f.auto_disable_threshold f.endpoint_cap)

  step-EndpointsOk : (w : World) (o : Operation) → Ok w → Ok (step f w o)
  unfolding step
  step-EndpointsOk w (sets_endpoint org url) h =
      (set_endpoint-EndpointsOk _ _ f org url pos room).at w h
  step-EndpointsOk w (creates_endpoint org url types) h =
      (create_endpoint-EndpointsOk _ _ f org url types pos refl).at w h
  step-EndpointsOk w (updates_endpoint org id url types) h =
      (update_endpoint-EndpointsOk _ _ f org id url types).at w h
  step-EndpointsOk w (deletes_endpoint org id) h = (delete_endpoint-EndpointsOk _ _ f org id).at w h
  step-EndpointsOk w (enables_endpoint org id) h =
      (enable_endpoint-EndpointsOk _ _ f org id pos).at w h
  step-EndpointsOk w (disables_endpoint org id) h =
      (disable_endpoint-EndpointsOk _ _ f org id).at w h
  step-EndpointsOk w (enqueues org t c) h = (enqueue-Endpoints f org t c).at w h
  step-EndpointsOk w (sends_test org) h = (send_test-Endpoints f org).at w h
  step-EndpointsOk w (redelivers org id) h = (redeliver-Endpoints f org id).at w h
  step-EndpointsOk w (lists_events org p) h = (list_events-Endpoints f org p).at w h
  step-EndpointsOk w dispatches h = (dispatch_once-EndpointsOk _ _ pos f refl).at w h
  step-EndpointsOk w purges h = (purge_once-Endpoints f).at w h
  step-EndpointsOk w (gets_endpoint org) h = (get_endpoint-Endpoints f org).at w h
  step-EndpointsOk w (rotates_secret org o) h = (rotate_secret-Endpoints f org o).at w h
  step-EndpointsOk w (lists_endpoints org) h = (list_endpoints-items f org).at w h
  step-EndpointsOk w (rotates_endpoint_secret org id o) h =
      (rotate_endpoint_secret-Endpoints f org id o).at w h

  -- After any history of requests, dispatcher runs and purges, and whichever calls of the repository,
  -- the work queue and the recorder failed on the way: no two endpoints share an id, an endpoint that
  -- is ENABLED has fewer consecutive failures than the threshold, and no organization has more
  -- endpoints than the cap, provided that this held before and that both settings are above 0.
  pub run-EndpointsOk : (w : World) (os : List Operation) → Ok w → Ok (run f w os)
  unfolding run
  run-EndpointsOk w [] h = h
  run-EndpointsOk w (o ∷ os) h = run-EndpointsOk (step f w o) os (step-EndpointsOk w o h)
