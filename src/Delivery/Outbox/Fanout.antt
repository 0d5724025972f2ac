-- ===== src/Delivery/Outbox/Fanout.antt =====
-- Which events Enqueue of server/internal/delivery/facade.go makes.
use beecon.Base.{ℕ, ◌≡◌, String, Option, List, [], ◌∷◌, arith, inl, inr}
use beecon.Base.Effects.{ok, Result-cases, collect, ◌>>=◌}
use beecon.Base.Effects.Succeeds.{Succeeds}
use beecon.Delivery.Types.{Endpoint, Event, pending, no_endpoint}
use beecon.Delivery.Memory
use beecon.Delivery.Memory.{Repository}
use beecon.Delivery.Ports.{Facade, World, read, call, save_event, list_endpoints, nudge}
use beecon.Delivery.Ports.Frames.{list_endpoints-Looks}
use beecon.Delivery.Outbox.{
  matching_enabled_endpoints, enqueue_to_endpoint, enqueue_unrouted, fan_out, enqueue,
}

-- An event for this endpoint, to be sent.
pub record IsRouted (event_type : String) (endpoint : Endpoint) (e : Event) : Type 0 where
  pub endpoint_id : e.endpoint_id ≡ endpoint.id
  pub org_id : e.org_id ≡ endpoint.org_id
  pub same_type : e.event_type ≡ event_type
  pub status : e.status ≡ pending
  pub attempts : e.attempts ≡ 0

abbrev pub AreRouted : String → List Endpoint → List Event → Type 0
AreRouted t [] [] = Unit
AreRouted t [] (e ∷ es) = ⊥
AreRouted t (x ∷ xs) [] = ⊥
AreRouted t (x ∷ xs) (e ∷ es) = IsRouted t x e × AreRouted t xs es

-- The one event of an organization that no endpoint takes it for.
pub record IsUnrouted (org : ℕ) (event_type : String) (es : List Event) : Type 0 where
  pub event : Event
  pub only : es ≡ event ∷ []
  pub org_id : event.org_id ≡ org
  pub endpoint_id : event.endpoint_id ≡ 0
  pub same_type : event.event_type ≡ event_type
  pub status : event.status ≡ no_endpoint

abbrev pub FannedOut : ℕ → String → List Endpoint → List Event → Type 0
FannedOut org t [] es = IsUnrouted org t es
FannedOut org t (x ∷ xs) es = AreRouted t (x ∷ xs) es

module _ (f : Facade) (event_type : String) (content : Option String) where
  enqueue_to_endpoint-IsRouted :
      (endpoint : Endpoint) (w : World) (e : Event)
      → (enqueue_to_endpoint f endpoint event_type content w).0 ≡ ok e
      → IsRouted event_type endpoint e
  unfolding enqueue_to_endpoint ◌>>=◌ read save_event call nudge
  enqueue_to_endpoint-IsRouted endpoint w e h = record {
    endpoint_id = ground arith;
    org_id = ground arith;
    same_type = ground arith;
    status = ground arith;
    attempts = ground arith;
  }

  fan_out-IsUnrouted :
      (org : ℕ) (w : World) (es : List Event)
      → (fan_out f org event_type content [] w).0 ≡ ok es
      → IsUnrouted org event_type es
  unfolding fan_out enqueue_unrouted ◌>>=◌ read save_event call
  fan_out-IsUnrouted org w es h =
      elim (Result-cases (enqueue_unrouted f org event_type content w).0) [
        | inl (e, r) ↦ record {
          event = e;
          only = ground (arith, r);
          org_id = ground (arith, r);
          endpoint_id = ground (arith, r);
          same_type = ground (arith, r);
          status = ground (arith, r);
        }
        | inr (x, r) ↦ absurd (ground (arith, r))
      ]

  routed_all :
      (endpoints : List Endpoint) (w : World) (es : List Event)
      → (collect (λ endpoint. enqueue_to_endpoint f endpoint event_type content) endpoints w).0
        ≡ ok es
      → AreRouted event_type endpoints es
  unfolding collect ◌>>=◌
  routed_all [] w [] h = tt
  routed_all [] w (e ∷ es) h = ground arith
  routed_all (x ∷ xs) w es h =
      let first = enqueue_to_endpoint f x event_type content w in
      elim (Result-cases first.0) [
        | inl (e, r) ↦
            elim (Result-cases
              (collect (λ endpoint. enqueue_to_endpoint f endpoint event_type content) xs
                first.1).0) [
                  | inl (rest, s) ↦
                      let all : e ∷ rest ≡ es = ground (arith, r, s) in
                      rw (← all)
                        (enqueue_to_endpoint-IsRouted x w e r, routed_all xs first.1 rest s)
                  | inr (z, s) ↦ absurd (ground (arith, r, s))
                ]
        | inr (z, r) ↦ absurd (ground (arith, r))
      ]

  fan_out-FannedOut :
      (org : ℕ) (endpoints : List Endpoint) (w : World) (es : List Event)
      → (fan_out f org event_type content endpoints w).0 ≡ ok es
      → FannedOut org event_type endpoints es
  unfolding fan_out
  fan_out-FannedOut org [] w es h = fan_out-IsUnrouted org w es h
  fan_out-FannedOut org (x ∷ xs) w es h = routed_all (x ∷ xs) w es h

-- An Enqueue that returns has made one PENDING event for each enabled endpoint of the organization
-- whose filter takes the type, in the order in which the endpoints are listed, or, where there is no
-- such endpoint, a single NO_ENDPOINT event that names no endpoint.
pub enqueue-FannedOut :
    (f : Facade) (org : ℕ) (t : String) (c : Option String) (w : World) (es : List Event)
    → (enqueue f org t c w).0 ≡ ok es
    → FannedOut org t (matching_enabled_endpoints (Memory.list_endpoints org w.repo) t) es
unfolding enqueue ◌>>=◌
enqueue-FannedOut f org t c w es h = elim (Result-cases (list_endpoints f org w).0) [
  | inl (endpoints, r) ↦ rw ((list_endpoints-Looks f org).finds w endpoints r) (
      fan_out-FannedOut f t c org (matching_enabled_endpoints endpoints t)
        (list_endpoints f org w).1 es (ground (arith, r)))
  | inr (x, r) ↦ absurd (ground (arith, r))
]
