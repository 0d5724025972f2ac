-- ===== src/Delivery/Operations/Changes.antt =====
-- What a history of operations of server/internal/delivery keeps of the stored events, once new events
-- have it and attempts and redeliveries keep it.
use beecon.Base.{ℕ, ◌+◌, ◌≡◌, String, Option, none, some, List, [], ◌∷◌}
use beecon.Base.Effects.Keeps.{Keeps, Keeps-bind, Keeps-check, keeps_rules}
use beecon.Delivery.Types.{Event, Endpoint, pending}
use beecon.Delivery.Memory.{EventRecord}
use beecon.Delivery.Ports.{Facade, World, Reply}
use beecon.Delivery.Ports.Frames.{OnEvents}
use beecon.Delivery.Ports.EventFrames.{event_frames}
use beecon.Delivery.Endpoints.{
  set_endpoint, get_endpoint, rotate_secret, rotate_secret_for_endpoint, list_endpoints,
  create_endpoint, update_endpoint, delete_endpoint, enable_endpoint, disable_endpoint,
  rotate_endpoint_secret, create_endpoint_row, update_endpoint_url, set_endpoint_of,
  change_endpoint,
}
use beecon.Delivery.Outbox.{ListEventsParams, list_events}
use beecon.Delivery.Dispatch.{apply_attempt_outcome}
use beecon.Delivery.Operations.{
  Operation, sets_endpoint, gets_endpoint, rotates_secret, lists_endpoints, creates_endpoint,
  updates_endpoint, deletes_endpoint, enables_endpoint, disables_endpoint, rotates_endpoint_secret,
  enqueues, sends_test, redelivers, lists_events, dispatches, purges, step, run,
}
use beecon.Delivery.Operations.Events.{
  IsNew, AllEvents, enqueue-Good, send_test-Good, redeliver-Good, dispatch_once-Good,
  purge_once-Good,
}

module _ {E : List EventRecord → Type 0} (f : Facade) where
  get_endpoint-Events : (org : ℕ) → Keeps (OnEvents E) (get_endpoint f org)
  unfolding get_endpoint
  get_endpoint-Events org = search (keeps_rules, event_frames) depth 12

  rotated-Events :
      (org : ℕ) (e : Endpoint) (o : Option ℕ)
      → Keeps (OnEvents E) (rotate_secret_for_endpoint f org e o)
  unfolding rotate_secret_for_endpoint
  rotated-Events org e o = search (keeps_rules, event_frames)

  rotate_secret-Events : (org : ℕ) (o : Option ℕ) → Keeps (OnEvents E) (rotate_secret f org o)
  unfolding rotate_secret
  rotate_secret-Events org o = search (keeps_rules, event_frames, rotated-Events)

  rotate_endpoint_secret-Events :
      (org id : ℕ) (o : Option ℕ) → Keeps (OnEvents E) (rotate_endpoint_secret f org id o)
  unfolding rotate_endpoint_secret
  rotate_endpoint_secret-Events org id o = search (keeps_rules, event_frames, rotated-Events)

  list_endpoints-items : (org : ℕ) → Keeps (OnEvents E) (list_endpoints f org)
  unfolding list_endpoints
  list_endpoints-items org = search (keeps_rules, event_frames) depth 12

  row-Events :
      (org : ℕ) (url : String) (types : Option (List String))
      → Keeps (OnEvents E) (create_endpoint_row f org url types)
  unfolding create_endpoint_row
  row-Events org url types = search (keeps_rules, event_frames) depth 20

  set_endpoint_of-Events :
      (org : ℕ) (url : String) (o : Option Endpoint)
      → Keeps (OnEvents E) (set_endpoint_of f org url o)
  unfolding set_endpoint_of update_endpoint_url
  set_endpoint_of-Events org url none = search (keeps_rules, row-Events)
  set_endpoint_of-Events org url (some e) = search (keeps_rules, event_frames)

  set_endpoint-Events : (org : ℕ) (url : String) → Keeps (OnEvents E) (set_endpoint f org url)
  unfolding set_endpoint
  set_endpoint-Events org url = search (keeps_rules, event_frames, set_endpoint_of-Events) depth 12

  create_endpoint-Events :
      (org : ℕ) (url : String) (types : Option (List String))
      → Keeps (OnEvents E) (create_endpoint f org url types)
  unfolding create_endpoint
  create_endpoint-Events org url types = search (keeps_rules, event_frames, row-Events) depth 20

  change_endpoint-Events :
      (org id : ℕ) (change : Endpoint → Endpoint)
      → Keeps (OnEvents E) (change_endpoint f org id change)
  unfolding change_endpoint
  change_endpoint-Events org id change = search (keeps_rules, event_frames) depth 12

  update_endpoint-Events :
      (org id : ℕ) (url : String) (types : Option (List String))
      → Keeps (OnEvents E) (update_endpoint f org id url types)
  unfolding update_endpoint
  update_endpoint-Events org id url types =
      Keeps-bind _ _ (Keeps-check _)
        λ _. Keeps-bind _ _ (Keeps-check _) λ _. change_endpoint-Events org id _

  delete_endpoint-request : (org id : ℕ) → Keeps (OnEvents E) (delete_endpoint f org id)
  unfolding delete_endpoint
  delete_endpoint-request org id = search (keeps_rules, event_frames) depth 12

  list_events-Events : (org : ℕ) (p : ListEventsParams) → Keeps (OnEvents E) (list_events f org p)
  unfolding list_events
  list_events-Events org p = search (keeps_rules, event_frames)

module _ (Q : Event → Type 0) (f : Facade)
    (new_ok : (n : ℕ) (e : Event) → e.id ≡ f.new_event_id n → IsNew e → Q e)
    (attempt_ok : (e : Event) (reply : Reply) (now jitter : ℕ)
      → Q e
      → Q (apply_attempt_outcome e reply now (e.attempts + 1) jitter))
    (redeliver_ok : (e : Event) (now : ℕ)
      → Q e
      → Q (record e { status = pending; next_attempt_at = now })) where
  abbrev Good : World → Type 0
  Good = OnEvents (AllEvents Q)

  step-Good : (w : World) (o : Operation) → Good w → Good (step f w o)
  unfolding step enable_endpoint disable_endpoint
  step-Good w (sets_endpoint org url) h = (set_endpoint-Events f org url).at w h
  step-Good w (creates_endpoint org url types) h = (create_endpoint-Events f org url types).at w h
  step-Good w (updates_endpoint org id url types) h =
      (update_endpoint-Events f org id url types).at w h
  step-Good w (deletes_endpoint org id) h = (delete_endpoint-request f org id).at w h
  step-Good w (enables_endpoint org id) h = (change_endpoint-Events f org id _).at w h
  step-Good w (disables_endpoint org id) h = (change_endpoint-Events f org id _).at w h
  step-Good w (enqueues org t c) h =
      (enqueue-Good Q f new_ok attempt_ok redeliver_ok org t c).at w h
  step-Good w (sends_test org) h = (send_test-Good Q f new_ok attempt_ok redeliver_ok org).at w h
  step-Good w (redelivers org id) h =
      (redeliver-Good Q f new_ok attempt_ok redeliver_ok org id).at w h
  step-Good w (lists_events org p) h = (list_events-Events f org p).at w h
  step-Good w dispatches h = (dispatch_once-Good Q f new_ok attempt_ok redeliver_ok).at w h
  step-Good w purges h = (purge_once-Good Q f new_ok attempt_ok redeliver_ok).at w h
  step-Good w (gets_endpoint org) h = (get_endpoint-Events f org).at w h
  step-Good w (rotates_secret org o) h = (rotate_secret-Events f org o).at w h
  step-Good w (lists_endpoints org) h = (list_endpoints-items f org).at w h
  step-Good w (rotates_endpoint_secret org id o) h =
      (rotate_endpoint_secret-Events f org id o).at w h

  pub run-Good : (w : World) (os : List Operation) → Good w → Good (run f w os)
  unfolding run
  run-Good w [] h = h
  run-Good w (o ∷ os) h = run-Good (step f w o) os (step-Good w o h)
