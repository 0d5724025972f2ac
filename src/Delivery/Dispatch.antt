-- ===== src/Delivery/Dispatch.antt =====
-- DispatchOnce, its steps, and PurgeOnce of server/internal/delivery/facade.go.
pub mod Endpoints
pub mod Events
pub mod Outcome
use beecon.Base.{
  ℕ, suc, ◌+◌, ◌-◌, ◌*◌, ◌/◌, String, Bool, true, false, ◌&&◌, Option, none, some, List, [], ◌∷◌,
  ◌++◌, ltb, leb, ◌==◌, if◌then◌else◌,
}
use beecon.Base.Effects.{
  Result, ok, err, Exec, pure, fail, lift, gets, modify, check, or_fail, for_each, ◌>>=◌, ◌>>◌,
}
use beecon.Httpx.Errors.{Error}
use beecon.Delivery.Types.{
  Endpoint, Event, Status, disabled_auto, pending, delivered, failed, no_endpoint,
}
use beecon.Delivery.Schedule.{second, hour, is_exhausted, next_attempt}
use beecon.Delivery.Signing.{SignedHeaders, sign}
use beecon.Delivery.Ports.{
  Facade, World, Post, Reply, LogEntry, RetentionReader, read, ask, send, record_log, save_endpoint,
  find_endpoint, find_endpoint_by_id, save_event, claim_due, purge_terminal_older_than,
}

abbrev pub claim_batch_limit : ℕ
claim_batch_limit = 50

abbrev pub lease_margin : ℕ
lease_margin = 5 * second

unfoldable pub resolve_dispatch_endpoint : Facade → Event → Exec World (Option Endpoint)
resolve_dispatch_endpoint f event =
    if event.endpoint_id == 0
    then find_endpoint f event.org_id
    else find_endpoint_by_id f event.org_id event.endpoint_id

unfoldable pub is_success_status : ℕ → Bool
is_success_status status = leb 200 status && ltb status 300

abbrev pub no_error : Option Error → Bool
no_error none = true
no_error (some _) = false

-- The jitter is drawn only where a retry is scheduled; here it is an argument.
unfoldable pub apply_attempt_outcome : Event → Reply → ℕ → ℕ → ℕ → Event
unfolding is_success_status
apply_attempt_outcome event reply now attempt_number jitter =
    let updated : Event = record event { last_attempt_at = some now; attempts = attempt_number } in
    if no_error reply.error && is_success_status reply.status
    then record updated { status = delivered }
    else if is_exhausted attempt_number
    then record updated { status = failed }
    else record updated {
      status = pending;
      next_attempt_at = next_attempt now attempt_number jitter;
    }

-- The endpoint as it is saved, or `none` where nothing is saved.
unfoldable pub bookkeeping : ℕ → Endpoint → Status → Option Endpoint
bookkeeping threshold endpoint delivered =
    if endpoint.consecutive_failures == 0
    then none
    else some (record endpoint { consecutive_failures = 0 })
bookkeeping threshold endpoint failed =
    let failures : ℕ = suc endpoint.consecutive_failures in
    some (
      if leb threshold failures
      then record endpoint { consecutive_failures = failures; status = disabled_auto }
      else record endpoint { consecutive_failures = failures })
bookkeeping threshold endpoint _ = none

abbrev pub save_if_some : Facade → Option Endpoint → Exec World (Unit {0})
save_if_some f none = pure tt
save_if_some f (some e) = save_endpoint f e

unfoldable pub apply_auto_disable_bookkeeping : Facade → Endpoint → Status → Exec World (Unit {0})
unfolding bookkeeping
apply_auto_disable_bookkeeping f endpoint outcome =
    save_if_some f (bookkeeping f.auto_disable_threshold endpoint outcome)

abbrev pub post_signed : Facade → String → List ℕ → Result SignedHeaders → Exec World Reply
post_signed f url body (err e) = pure (record { status = 0; error = some e })
post_signed f url body (ok headers) = send f (record { url = url; headers = headers; body = body })

unfoldable pub sign_and_post : Facade → String → Event → ℕ → List String → Exec World Reply
sign_and_post f url event attempted_at secrets =
    post_signed f url event.body (sign f.crypto event.id attempted_at event.body secrets)

unfoldable pub record_attempt_metric : Facade → String → ℕ → Exec World (Unit {0})
unfolding is_success_status
record_attempt_metric f event_type status =
    if f.metrics
    then modify
        (λ w. record w { counted = w.counted ++ (event_type, is_success_status status) ∷ [] })
    else pure tt

abbrev log_entry : Event → ℕ → ℕ → ℕ → LogEntry
log_entry event attempt_number status duration = record {
  org_id = event.org_id;
  event_id = event.id;
  event_type = event.event_type;
  attempt = attempt_number;
  status = status;
  duration_ms = duration / 1_000_000;
}

unfoldable pub record_attempt : Facade → Event → ℕ → ℕ → ℕ → Exec World (Unit {0})
record_attempt f event attempt_number status duration = do
  record_attempt_metric f event.event_type status
  if f.recorder then record_log f (log_entry event attempt_number status duration) else pure tt

unfoldable pub attempt_delivery : Facade → Event → Endpoint → Exec World (Unit {0})
attempt_delivery f event endpoint = do
  secrets ← ask (λ tick. f.secrets.active tick event.org_id endpoint.id)
  started ← read f.now
  reply ← sign_and_post f endpoint.url event started secrets
  finished ← read f.now
  now ← read f.now
  jitter ← read f.jitter
  let updated : Event = apply_attempt_outcome event reply now (event.attempts + 1) jitter
  save_event f updated
  apply_auto_disable_bookkeeping f endpoint updated.status
  record_attempt f event (event.attempts + 1) reply.status (finished - started)

abbrev pub dispatch_to : Facade → Event → Option Endpoint → Exec World (Unit {0})
dispatch_to f event none = pure tt
dispatch_to f event (some endpoint) = attempt_delivery f event endpoint

unfoldable pub dispatch_one : Facade → Event → Exec World (Unit {0})
dispatch_one f event = do endpoint ← resolve_dispatch_endpoint f event; dispatch_to f event endpoint

unfoldable pub dispatch_once : Facade → Exec World (Unit {0})
dispatch_once f = do
  now ← read f.now
  events ← claim_due f now (2 * f.delivery_timeout + lease_margin) claim_batch_limit
  for_each (dispatch_one f) events

-- `now.AddDate(0, 0, -days)` over days of 24 hours; a window of no days keeps everything.
unfoldable pub purge_org : Facade → RetentionReader → ℕ → ℕ → Exec World (Unit {0})
purge_org f retention now org = do
  days ← ask (λ tick. retention.effective_event_retention_days tick org)
  if days == 0
      then pure tt
      else do purge_terminal_older_than f org (now - days * (24 * hour)); pure tt

abbrev pub purge_with : Facade → Option RetentionReader → Exec World (Unit {0})
purge_with f none = pure tt
purge_with f (some retention) = do
  orgs ← ask retention.list_org_ids
  now ← read f.now
  for_each (purge_org f retention now) orgs

unfoldable pub purge_once : Facade → Exec World (Unit {0})
purge_once f = purge_with f f.retention
