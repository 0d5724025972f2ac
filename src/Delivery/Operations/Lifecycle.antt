-- ===== src/Delivery/Operations/Lifecycle.antt =====
-- What every history of operations of server/internal/delivery keeps of the stored events.
use beecon.Base.{
  ℕ, ◌+◌, ◌≤◌, ◌<◌, ◌≡◌, ◌≢◌, sym, ◌∙◌, ◌↔◌, inl, inr, ◌&&◌, none, List, arith, Bool-cases,
}
use beecon.Delivery.Types.{Event, Status, pending, delivered, failed, no_endpoint}
use beecon.Delivery.Schedule.{is_exhausted}
use beecon.Delivery.Ports.{Facade, World, Reply}
use beecon.Delivery.Dispatch.{apply_attempt_outcome, is_success_status, no_error}
use beecon.Delivery.Operations.{Operation, run}
use beecon.Delivery.Operations.Events.{IsNew, AllEvents}
use beecon.Delivery.Operations.Changes.{run-Good}

-- How the status of an event, its count of attempts and the time of its last attempt fit together.
abbrev pub StatusFits : Status → ℕ → Type 0
StatusFits pending n = Unit
StatusFits delivered n = 0 < n
StatusFits failed n = 10 ≤ n
StatusFits no_endpoint n = n ≡ 0

pub record IsConsistent (e : Event) : Type 0 where
  pub fits : StatusFits e.status e.attempts
  pub timed : (e.attempts ≡ 0) ↔ (e.last_attempt_at ≡ none)

new-IsConsistent : (e : Event) → IsNew e → IsConsistent e
new-IsConsistent e n = record {
  fits = elim n.status [ inl p ↦ rw p tt | inr (p, _) ↦ rw p n.untried ];
  timed = ((λ _. n.no_attempt), (λ _. n.untried));
}

attempt-IsConsistent :
    (e : Event) (reply : Reply) (now jitter : ℕ)
    → IsConsistent (apply_attempt_outcome e reply now (e.attempts + 1) jitter)
unfolding apply_attempt_outcome is_exhausted
attempt-IsConsistent e reply now jitter = record {
  fits = elim (Bool-cases (no_error reply.error && is_success_status reply.status)) [
    | inl s ↦ rw (s, apply_attempt_outcome) (omega arith)
    | inr s ↦ elim (Bool-cases (is_exhausted (e.attempts + 1))) [
      | inl x ↦ rw (s, x, apply_attempt_outcome) (ground arith)
      | inr x ↦ rw (s, x, apply_attempt_outcome) tt
    ]
  ];
  timed = ground arith;
}

redeliver-IsConsistent :
    (e : Event) (now : ℕ)
    → IsConsistent e
    → IsConsistent (record e { status = pending; next_attempt_at = now })
redeliver-IsConsistent e now h = record { fits = tt; timed = h.timed }

-- After any history of requests, dispatcher runs and purges, and whichever port calls failed on the
-- way, every stored event is consistent if the stored events were before: a DELIVERED event has been
-- attempted, a FAILED one at least ten times, a NO_ENDPOINT one never, and an event has a time of its
-- last attempt exactly when it has been attempted.
pub run-IsConsistent :
    (f : Facade) (w : World) (os : List Operation)
    → AllEvents IsConsistent w.repo.events
    → AllEvents IsConsistent (run f w os).repo.events
run-IsConsistent f w os h =
    (run-Good IsConsistent f (λ n e _ k. new-IsConsistent e k)
      (λ e reply now jitter _. attempt-IsConsistent e reply now jitter) redeliver-IsConsistent w os
      (record { holds = h })).holds

-- What an event says and for whom: all but the state of its delivery.
pub record SameContent (e₀ e : Event) : Type 0 where
  pub org_id : e.org_id ≡ e₀.org_id
  pub endpoint_id : e.endpoint_id ≡ e₀.endpoint_id
  pub same_type : e.event_type ≡ e₀.event_type
  pub body : e.body ≡ e₀.body
  pub created_at : e.created_at ≡ e₀.created_at

attempt-SameContent :
    (e₀ e : Event) (reply : Reply) (now n jitter : ℕ)
    → SameContent e₀ e
    → SameContent e₀ (apply_attempt_outcome e reply now n jitter)
unfolding apply_attempt_outcome
attempt-SameContent e₀ e reply now n jitter h = record {
  org_id = ground (arith, h.org_id);
  endpoint_id = ground (arith, h.endpoint_id);
  same_type = ground (arith, h.same_type);
  body = ground (arith, h.body);
  created_at = ground (arith, h.created_at);
}

id-attempt :
    (e : Event) (reply : Reply) (now n jitter : ℕ)
    → (apply_attempt_outcome e reply now n jitter).id ≡ e.id
unfolding apply_attempt_outcome
id-attempt e reply now n jitter = ground arith

-- No retry and no redelivery rewrites an event: whatever is stored under an event's id after any
-- history of requests, dispatcher runs and purges has the organization, the endpoint, the type, the
-- body byte for byte and the creation time that were stored under it before, provided that the id
-- source never gives that id to a new event.
pub run-SameContent :
    (f : Facade) (w : World) (os : List Operation) (e₀ : Event)
    → ((n : ℕ) → f.new_event_id n ≢ e₀.id)
    → AllEvents (λ e. e.id ≡ e₀.id → SameContent e₀ e) w.repo.events
    → AllEvents (λ e. e.id ≡ e₀.id → SameContent e₀ e) (run f w os).repo.events
run-SameContent f w os e₀ unused h =
    (run-Good (λ e. e.id ≡ e₀.id → SameContent e₀ e) f
      (λ n e same _ is_it. absurd (unused n (sym same ∙ is_it)))
      (λ e reply now jitter k is_it.
        attempt-SameContent e₀ e reply now _ jitter
          (k (sym (id-attempt e reply now _ jitter) ∙ is_it)))
      (λ e now k is_it.
        let s = k is_it in
        record {
          org_id = s.org_id;
          endpoint_id = s.endpoint_id;
          same_type = s.same_type;
          body = s.body;
          created_at = s.created_at;
        })
      w os (record { holds = h })).holds
