-- ===== src/Delivery/Dispatch/Endpoints.antt =====
-- The dispatcher and the purge of server/internal/delivery/facade.go keep the invariant of the
-- endpoints: what the bookkeeping saves is healthy, and stands for an endpoint that is stored.
use beecon.Base.{
  ℕ, ◌<◌, ◌≡◌, refl, String, Option, none, some, List, arith, ◌==◌, Bool-cases, inl, inr,
}
use beecon.Base.Effects.{Result, ok, err}
use beecon.Base.Effects.Keeps.{Keeps, Keeps-bind, Keeps-if, Keeps-pure, Keeps-modify, keeps_rules}
use beecon.Delivery.Types.{Endpoint, Event, Status, pending, delivered, failed, no_endpoint}
use beecon.Delivery.Signing.{SignedHeaders, sign}
use beecon.Delivery.Memory
use beecon.Delivery.Memory.Lookups.{find_endpoint-Holds, find_endpoint_by_id-Holds}
use beecon.Delivery.Ports.{Facade, World, RetentionReader}
use beecon.Delivery.Ports.Frames.{
  OnEndpoints, endpoint_frames, save_endpoint-Endpoints, find_endpoint-Looks,
  find_endpoint_by_id-Looks,
}
use beecon.Delivery.Endpoints.Invariant.{
  IsHealthy, EndpointsOk, With, Found, put_same-EndpointsOk, then_Found,
}
use beecon.Delivery.Dispatch.{
  bookkeeping, apply_auto_disable_bookkeeping, save_if_some, post_signed, sign_and_post,
  record_attempt_metric, record_attempt, attempt_delivery, dispatch_one, resolve_dispatch_endpoint,
  dispatch_once, purge_org, purge_with, purge_once,
}

-- What the bookkeeping saves has the id and the organization of the endpoint, and is healthy.
pub bookkeeping-IsHealthy :
    (threshold : ℕ) (e e' : Endpoint) (outcome : Status)
    → 0 < threshold
    → IsHealthy threshold e
    → bookkeeping threshold e outcome ≡ some e'
    → (e'.id ≡ e.id) × (e'.org_id ≡ e.org_id) × IsHealthy threshold e'
unfolding bookkeeping
bookkeeping-IsHealthy threshold e e' pending pos h b = ground arith
bookkeeping-IsHealthy threshold e e' delivered pos h b = ground arith
bookkeeping-IsHealthy threshold e e' failed pos h b = ground arith
bookkeeping-IsHealthy threshold e e' no_endpoint pos h b = ground arith

module _ {E : List Endpoint → Type 0} (f : Facade) where
  sign_and_post-Endpoints :
      (url : String) (event : Event) (at : ℕ) (secrets : List String)
      → Keeps (OnEndpoints E) (sign_and_post f url event at secrets)
  unfolding sign_and_post
  sign_and_post-Endpoints url event at secrets =
      posted (sign f.crypto event.id at event.body secrets)
    where
      posted : (r : Result SignedHeaders) → Keeps (OnEndpoints E) (post_signed f url event.body r)
      posted (ok h) = search endpoint_frames
      posted (err e) = Keeps-pure _

  record_attempt-Endpoints :
      (event : Event) (n status duration : ℕ)
      → Keeps (OnEndpoints E) (record_attempt f event n status duration)
  unfolding record_attempt record_attempt_metric
  record_attempt-Endpoints event n status duration =
      Keeps-bind _ _
        (Keeps-if f.metrics _ _ (Keeps-modify _ (λ w h. record { holds = h.holds }))
          (Keeps-pure tt))
        (λ _. search (keeps_rules, endpoint_frames))

module _ (threshold cap : ℕ) (pos : 0 < threshold) (f : Facade)
    (same : f.auto_disable_threshold ≡ threshold) where
  bookkeeping-With :
      (e : Endpoint) (outcome : Status)
      → IsHealthy threshold e
      → Keeps (OnEndpoints (With threshold cap e)) (apply_auto_disable_bookkeeping f e outcome)
  unfolding apply_auto_disable_bookkeeping
  bookkeeping-With e outcome h = saved (bookkeeping f.auto_disable_threshold e outcome) refl
    where
      saved :
          (o : Option Endpoint)
          → bookkeeping f.auto_disable_threshold e outcome ≡ o
          → Keeps (OnEndpoints (With threshold cap e)) (save_if_some f o)
      saved none b = Keeps-pure tt
      saved (some e') b =
          let (i, o, k) = bookkeeping-IsHealthy threshold e e' outcome pos h (rw (← same) b) in
          save_endpoint-Endpoints f e' (λ es w. put_same-EndpointsOk threshold cap e e' es i o k w)

  attempt_delivery-With :
      (event : Event) (e : Endpoint)
      → IsHealthy threshold e
      → Keeps (OnEndpoints (With threshold cap e)) (attempt_delivery f event e)
  unfolding attempt_delivery
  attempt_delivery-With event e h =
      search
        (
          keeps_rules,
          endpoint_frames,
          sign_and_post-Endpoints,
          record_attempt-Endpoints,
          λ (outcome : Status). bookkeeping-With e outcome h,
        )
        depth 20

  pub dispatch_one-EndpointsOk :
      (event : Event) → Keeps (OnEndpoints (EndpointsOk threshold cap)) (dispatch_one f event)
  unfolding dispatch_one resolve_dispatch_endpoint
  dispatch_one-EndpointsOk event = elim (Bool-cases (event.endpoint_id == 0)) [
    | inl unrouted ↦
        rw (unrouted, dispatch_one, resolve_dispatch_endpoint)
          (then_Found threshold cap event.org_id _ (Memory.find_endpoint event.org_id) _
            (find_endpoint-Looks f event.org_id)
            (λ r e h. find_endpoint-Holds event.org_id r e h.distinct)
            (λ w h _. (Keeps-pure {P = OnEndpoints (EndpointsOk threshold cap)} tt).at w h)
            (λ e w found. delivered_to e w found))
    | inr routed ↦
        rw (routed, dispatch_one, resolve_dispatch_endpoint)
          (then_Found threshold cap event.org_id _
            (Memory.find_endpoint_by_id event.org_id event.endpoint_id) _
            (find_endpoint_by_id-Looks f event.org_id event.endpoint_id)
            (λ r e _. find_endpoint_by_id-Holds event.org_id event.endpoint_id r e)
            (λ w h _. (Keeps-pure {P = OnEndpoints (EndpointsOk threshold cap)} tt).at w h)
            (λ e w found. delivered_to e w found))
  ]
    where
      delivered_to :
          (e : Endpoint) (w : World)
          → Found threshold cap event.org_id e w
          → OnEndpoints (EndpointsOk threshold cap) (attempt_delivery f event e w).1
      delivered_to e w found = record {
        holds = ((attempt_delivery-With event e found.healthy).at w found.with_it).holds.all_ok;
      }

  pub dispatch_once-EndpointsOk : Keeps (OnEndpoints (EndpointsOk threshold cap)) (dispatch_once f)
  unfolding dispatch_once
  dispatch_once-EndpointsOk = search (keeps_rules, endpoint_frames, dispatch_one-EndpointsOk)

module _ {E : List Endpoint → Type 0} (f : Facade) where
  purge_org-Endpoints :
      (retention : RetentionReader) (now org : ℕ)
      → Keeps (OnEndpoints E) (purge_org f retention now org)
  unfolding purge_org
  purge_org-Endpoints retention now org = search (keeps_rules, endpoint_frames)

  pub purge_once-Endpoints : Keeps (OnEndpoints E) (purge_once f)
  unfolding purge_once
  purge_once-Endpoints = purged f.retention
    where
      purged : (o : Option RetentionReader) → Keeps (OnEndpoints E) (purge_with f o)
      purged none = Keeps-pure tt
      purged (some r) = search (keeps_rules, endpoint_frames, purge_org-Endpoints)
