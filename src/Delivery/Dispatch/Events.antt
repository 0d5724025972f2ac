-- ===== src/Delivery/Dispatch/Events.antt =====
-- The steps of an attempt of server/internal/delivery/facade.go that leave the events alone.
use beecon.Base.{ℕ, String, Option, none, some, List}
use beecon.Base.Effects.{Result, ok, err}
use beecon.Base.Effects.Keeps.{Keeps, Keeps-pure, Keeps-bind, Keeps-if, Keeps-modify, keeps_rules}
use beecon.Delivery.Types.{Endpoint, Event, Status}
use beecon.Delivery.Memory.{EventRecord}
use beecon.Delivery.Signing.{SignedHeaders, sign}
use beecon.Delivery.Ports.{Facade}
use beecon.Delivery.Ports.Frames.{OnEvents}
use beecon.Delivery.Ports.EventFrames.{event_frames}
use beecon.Delivery.Dispatch.{
  bookkeeping, apply_auto_disable_bookkeeping, save_if_some, post_signed, sign_and_post,
  record_attempt, record_attempt_metric, resolve_dispatch_endpoint,
}

module _ {E : List EventRecord → Type 0} (f : Facade) where
  pub bookkeeping-Events :
      (e : Endpoint) (outcome : Status)
      → Keeps (OnEvents E) (apply_auto_disable_bookkeeping f e outcome)
  unfolding apply_auto_disable_bookkeeping
  bookkeeping-Events e outcome = saved (bookkeeping f.auto_disable_threshold e outcome)
    where
      saved : (o : Option Endpoint) → Keeps (OnEvents E) (save_if_some f o)
      saved none = Keeps-pure tt
      saved (some e') = search event_frames

  pub sign_and_post-Events :
      (url : String) (event : Event) (at : ℕ) (secrets : List String)
      → Keeps (OnEvents E) (sign_and_post f url event at secrets)
  unfolding sign_and_post
  sign_and_post-Events url event at secrets = posted (sign f.crypto event.id at event.body secrets)
    where
      posted : (r : Result SignedHeaders) → Keeps (OnEvents E) (post_signed f url event.body r)
      posted (ok h) = search event_frames
      posted (err e) = Keeps-pure _

  pub record_attempt-Events :
      (event : Event) (n status duration : ℕ)
      → Keeps (OnEvents E) (record_attempt f event n status duration)
  unfolding record_attempt record_attempt_metric
  record_attempt-Events event n status duration =
      Keeps-bind _ _
        (Keeps-if f.metrics _ _ (Keeps-modify _ (λ w h. record { holds = h.holds }))
          (Keeps-pure tt))
        (λ _. search (keeps_rules, event_frames))

  pub resolve-Events : (event : Event) → Keeps (OnEvents E) (resolve_dispatch_endpoint f event)
  unfolding resolve_dispatch_endpoint
  resolve-Events event = search (keeps_rules, event_frames)
