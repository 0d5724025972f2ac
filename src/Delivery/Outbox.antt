-- ===== src/Delivery/Outbox.antt =====
-- Enqueue, SendTest, Redeliver and ListEvents of server/internal/delivery/facade.go.
pub mod Endpoints
pub mod Fanout
pub mod Pages
pub mod Strict
pub mod Traversal
use beecon.Base.{
  ℕ, suc, ◌+◌, String, Bool, true, false, ◌&&◌, Option, none, some, List, [], ◌∷◌, length, take,
  get_last?, filter, ltb, leb, ◌==◌, if◌then◌else◌, str_eq,
}
use beecon.Base.Effects.{
  Result, ok, err, Exec, pure, fail, lift, gets, modify, check, or_fail, collect, ◌>>=◌, ◌>>◌,
}
use beecon.Delivery.Types.{
  Endpoint, Event, Status, pending, no_endpoint, is_enabled, matches_event_type, marshal_envelope,
  event_type_webhook_test, err_no_endpoint, err_not_found, err_invalid_cursor,
}
use beecon.Delivery.Memory.{ListCursor}
use beecon.Delivery.Ports.{
  Facade, World, read, find_endpoint, list_endpoints, save_event, find_event, list_events_page,
  nudge,
}

unfoldable pub matching_enabled_endpoints : List Endpoint → String → List Endpoint
matching_enabled_endpoints endpoints event_type =
    filter (λ e. is_enabled e && matches_event_type e event_type) endpoints

unfoldable pub enqueue_to_endpoint : Facade → Endpoint → String → Option String → Exec World Event
unfolding marshal_envelope
enqueue_to_endpoint f endpoint event_type content = do
  now ← read f.now
  id ← read f.new_event_id
  body ← lift (marshal_envelope f.marshal id event_type content now)
  let event : Event = record {
    id = id;
    org_id = endpoint.org_id;
    endpoint_id = endpoint.id;
    event_type = event_type;
    body = body;
    status = pending;
    attempts = 0;
    next_attempt_at = now;
    last_attempt_at = none;
    created_at = now;
  }
  save_event f event
  nudge
  pure event

unfoldable pub enqueue_unrouted : Facade → ℕ → String → Option String → Exec World Event
unfolding marshal_envelope
enqueue_unrouted f org event_type content = do
  now ← read f.now
  id ← read f.new_event_id
  body ← lift (marshal_envelope f.marshal id event_type content now)
  let event : Event = record {
    id = id;
    org_id = org;
    endpoint_id = 0;
    event_type = event_type;
    body = body;
    status = no_endpoint;
    attempts = 0;
    next_attempt_at = now;
    last_attempt_at = none;
    created_at = now;
  }
  save_event f event
  pure event

-- Once the matching endpoints are known.
unfoldable pub fan_out :
    Facade → ℕ → String → Option String → List Endpoint → Exec World (List Event)
fan_out f org event_type content [] = do
  event ← enqueue_unrouted f org event_type content
  pure (event ∷ [])
fan_out f org event_type content (e ∷ es) =
    collect (λ endpoint. enqueue_to_endpoint f endpoint event_type content) (e ∷ es)

unfoldable pub enqueue : Facade → ℕ → String → Option String → Exec World (List Event)
unfolding matching_enabled_endpoints
enqueue f org event_type content = do
  endpoints ← list_endpoints f org
  fan_out f org event_type content (matching_enabled_endpoints endpoints event_type)

unfoldable pub send_test : Facade → ℕ → Exec World Event
send_test f org = do
  found ← find_endpoint f org
  endpoint ← or_fail err_no_endpoint found
  enqueue_to_endpoint f endpoint event_type_webhook_test (some "{}")

-- Redeliver once the event is found.
unfoldable pub requeue : Facade → Event → Exec World Event
requeue f event = do
  now ← read f.now
  let requeued : Event = record event { status = pending; next_attempt_at = now }
  save_event f requeued
  nudge
  pure requeued

unfoldable pub redeliver : Facade → ℕ → ℕ → Exec World Event
redeliver f org id = do
  found ← find_event f org id
  event ← or_fail err_not_found found
  requeue f event

abbrev pub default_list_limit : ℕ
default_list_limit = 50

abbrev pub max_list_limit : ℕ
max_list_limit = 200

-- A request for no page size, or for one below zero, is 0.
unfoldable pub normalize_list_limit : ℕ → ℕ
normalize_list_limit requested =
    if requested == 0
    then default_list_limit
    else if ltb max_list_limit requested
    then max_list_limit
    else requested

-- The cursor that a result carries, before it is encoded.
pub record ListEventsResult : Type 0 where
  pub items : List Event
  pub next_cursor : Option ListCursor

abbrev pub cursor_of : Option Event → Option ListCursor
cursor_of none = none
cursor_of (some e) = some (record { created_at = e.created_at; id = e.id })

unfoldable pub paginate_events : List Event → ℕ → ListEventsResult
paginate_events items limit =
    if ltb limit (length items)
    then record { items = take limit items; next_cursor = cursor_of (get_last? (take limit items)) }
    else record { items = items; next_cursor = none }

pub record ListEventsParams : Type 0 where
  pub event_type : String
  pub delivery_status : Option Status
  pub cursor : Option ListCursor
  pub limit : ℕ

unfoldable pub list_events : Facade → ℕ → ListEventsParams → Exec World ListEventsResult
unfolding normalize_list_limit paginate_events
list_events f org params = do
  items ← list_events_page f org (record {
    event_type = params.event_type;
    delivery_status = params.delivery_status;
    cursor = params.cursor;
    limit = normalize_list_limit params.limit + 1;
  })
  pure (paginate_events items (normalize_list_limit params.limit))
