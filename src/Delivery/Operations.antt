-- ===== src/Delivery/Operations.antt =====
-- The whole surface of the Facade of server/internal/delivery/facade.go, as a state machine: the
-- requests of the HTTP handlers, the runs of the dispatcher and purge workers, and their outcomes.
pub mod Invariant
pub mod Events
pub mod Changes
pub mod Lifecycle
use beecon.Base.{ℕ, String, Option, List, [], ◌∷◌}
use beecon.Delivery.Ports.{Facade, World}
use beecon.Delivery.Endpoints.{
  set_endpoint, get_endpoint, rotate_secret, list_endpoints, create_endpoint, update_endpoint,
  delete_endpoint, enable_endpoint, disable_endpoint, rotate_endpoint_secret,
}
use beecon.Delivery.Outbox.{ListEventsParams, enqueue, send_test, redeliver, list_events}
use beecon.Delivery.Dispatch.{dispatch_once, purge_once}

pub data Operation : Type 0 where
  sets_endpoint : (org : ℕ) (url : String) → Operation
  gets_endpoint : (org : ℕ) → Operation
  rotates_secret : (org : ℕ) (overlap_hours : Option ℕ) → Operation
  lists_endpoints : (org : ℕ) → Operation
  creates_endpoint : (org : ℕ) (url : String) (types : Option (List String)) → Operation
  updates_endpoint : (org id : ℕ) (url : String) (types : Option (List String)) → Operation
  deletes_endpoint : (org id : ℕ) → Operation
  enables_endpoint : (org id : ℕ) → Operation
  disables_endpoint : (org id : ℕ) → Operation
  rotates_endpoint_secret : (org id : ℕ) (overlap_hours : Option ℕ) → Operation
  enqueues : (org : ℕ) (event_type : String) (content : Option String) → Operation
  sends_test : (org : ℕ) → Operation
  redelivers : (org id : ℕ) → Operation
  lists_events : (org : ℕ) (params : ListEventsParams) → Operation
  dispatches : Operation
  purges : Operation

-- The world after an operation, whatever it returned.
unfoldable pub step : Facade → World → Operation → World
step f w (sets_endpoint org url) = (set_endpoint f org url w).1
step f w (gets_endpoint org) = (get_endpoint f org w).1
step f w (rotates_secret org overlap_hours) = (rotate_secret f org overlap_hours w).1
step f w (lists_endpoints org) = (list_endpoints f org w).1
step f w (creates_endpoint org url types) = (create_endpoint f org url types w).1
step f w (updates_endpoint org id url types) = (update_endpoint f org id url types w).1
step f w (deletes_endpoint org id) = (delete_endpoint f org id w).1
step f w (enables_endpoint org id) = (enable_endpoint f org id w).1
step f w (disables_endpoint org id) = (disable_endpoint f org id w).1
step f w (rotates_endpoint_secret org id overlap_hours) =
    (rotate_endpoint_secret f org id overlap_hours w).1
step f w (enqueues org event_type content) = (enqueue f org event_type content w).1
step f w (sends_test org) = (send_test f org w).1
step f w (redelivers org id) = (redeliver f org id w).1
step f w (lists_events org params) = (list_events f org params w).1
step f w dispatches = (dispatch_once f w).1
step f w purges = (purge_once f w).1

unfoldable pub run : Facade → World → List Operation → World
unfolding step
run f w [] = w
run f w (o ∷ os) = run f (step f w o) os
