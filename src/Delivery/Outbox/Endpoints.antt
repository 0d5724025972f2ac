-- ===== src/Delivery/Outbox/Endpoints.antt =====
-- Enqueue, SendTest, Redeliver and ListEvents of server/internal/delivery/facade.go leave the
-- endpoints alone.
use beecon.Base.{ℕ, String, Option, List, [], ◌∷◌}
use beecon.Base.Effects.Keeps.{Keeps, Keeps-collect, keeps_rules}
use beecon.Delivery.Types.{Endpoint, Event}
use beecon.Delivery.Ports.{Facade}
use beecon.Delivery.Ports.Frames.{OnEndpoints, endpoint_frames}
use beecon.Delivery.Outbox.{
  ListEventsParams, enqueue_to_endpoint, enqueue_unrouted, fan_out, enqueue, send_test, redeliver,
  requeue, list_events,
}

module _ {E : List Endpoint → Type 0} (f : Facade) where
  pub enqueue_to_endpoint-Endpoints :
      (e : Endpoint) (event_type : String) (content : Option String)
      → Keeps (OnEndpoints E) (enqueue_to_endpoint f e event_type content)
  unfolding enqueue_to_endpoint
  enqueue_to_endpoint-Endpoints e event_type content =
      search (keeps_rules, endpoint_frames) depth 12

  enqueue_unrouted-Endpoints :
      (org : ℕ) (event_type : String) (content : Option String)
      → Keeps (OnEndpoints E) (enqueue_unrouted f org event_type content)
  unfolding enqueue_unrouted
  enqueue_unrouted-Endpoints org event_type content = search (keeps_rules, endpoint_frames) depth 12

  fan_out-Endpoints :
      (org : ℕ) (event_type : String) (content : Option String) (es : List Endpoint)
      → Keeps (OnEndpoints E) (fan_out f org event_type content es)
  unfolding fan_out
  fan_out-Endpoints org event_type content [] = search (keeps_rules, enqueue_unrouted-Endpoints)
  fan_out-Endpoints org event_type content (e ∷ es) =
      Keeps-collect _ (e ∷ es) (λ x. enqueue_to_endpoint-Endpoints x event_type content)

  pub enqueue-Endpoints :
      (org : ℕ) (event_type : String) (content : Option String)
      → Keeps (OnEndpoints E) (enqueue f org event_type content)
  unfolding enqueue
  enqueue-Endpoints org event_type content =
      search (keeps_rules, endpoint_frames, fan_out-Endpoints)

  pub send_test-Endpoints : (org : ℕ) → Keeps (OnEndpoints E) (send_test f org)
  unfolding send_test
  send_test-Endpoints org = search (keeps_rules, endpoint_frames, enqueue_to_endpoint-Endpoints)

  requeue-Endpoints : (e : Event) → Keeps (OnEndpoints E) (requeue f e)
  unfolding requeue
  requeue-Endpoints e = search (keeps_rules, endpoint_frames) depth 12

  pub redeliver-Endpoints : (org id : ℕ) → Keeps (OnEndpoints E) (redeliver f org id)
  unfolding redeliver
  redeliver-Endpoints org id = search (keeps_rules, endpoint_frames, requeue-Endpoints)

  pub list_events-Endpoints :
      (org : ℕ) (p : ListEventsParams) → Keeps (OnEndpoints E) (list_events f org p)
  unfolding list_events
  list_events-Endpoints org p = search (keeps_rules, endpoint_frames)
