-- ===== src/Delivery/Examples.antt =====
-- server/internal/delivery run on concrete inputs: a facade whose receiver is down for the first calls.
mod Parts
use beecon.Base.{
  ℕ, suc, ◌+◌, ◌*◌, ◌≡◌, ◌≢◌, refl, String, Bool, true, false, Option, none, some, List, [], ◌∷◌,
  map, length, arith, All, ltb, if◌then◌else◌, inl, inr,
}
use beecon.Base.Lists.{filter, count}
use beecon.Base.Sort.{sort}
use beecon.Base.Keyed.{find, put}
use beecon.Base.Effects.{for_each, collect, ◌>>=◌, Result, ok, err}
use beecon.Delivery.Types.{
  is_enabled, matches_event_type, validate_endpoint_url, validate_event_type_filter, Endpoint,
  Event, Envelope, Url, enabled, disabled_auto, pending, delivered, failed, no_endpoint,
}
use beecon.Delivery.Schedule.{is_exhausted, next_attempt, second, hour, jitter_scale}
use beecon.Delivery.Memory.{
  oldest_endpoint_first, EventRecord, Repository, claim_due, due_batch, purge_terminal_older_than,
  find_event,
}
use beecon.Delivery.Memory.Keys.{IsValid}
use beecon.Delivery.Memory.Claims.{claim_due-exclusive, find_event-claim_due}
use beecon.Delivery.Memory.Purges.{find_event-purge, purge_complete}
use beecon.Delivery.Memory
use beecon.Delivery.Ports
use beecon.Delivery.Outbox.{enqueue, fan_out, enqueue_unrouted, enqueue_to_endpoint}
use beecon.Delivery.Endpoints.{create_endpoint, create_endpoint_row}
use beecon.Delivery.Dispatch.{
  dispatch_once, dispatch_one, resolve_dispatch_endpoint, attempt_delivery, sign_and_post,
  apply_attempt_outcome, apply_auto_disable_bookkeeping, record_attempt, record_attempt_metric,
}
use beecon.Delivery.Signing.{sign}
use beecon.Delivery.Ports.{
  read, ask, call, send, nudge, record_log, Facade, World, Post, Reply, IssuedSecret, RotatedSecret,
  SecretIssuer, RetentionReader,
}
use beecon.Delivery.Ports.Frames.{OnEndpoints}
use beecon.Delivery.Endpoints.Invariant.{EndpointsOk}
use beecon.Delivery.Operations.{
  Operation, sets_endpoint, creates_endpoint, enqueues, dispatches, purges, disables_endpoint,
  redelivers, run,
}
use beecon.Delivery.Operations.Lifecycle.{
  run-IsConsistent, run-SameContent, IsConsistent, SameContent,
}
use beecon.Delivery.Operations.Events.{AllEvents}
use beecon.Delivery.Signing.Verify.{accepts, HasNoSpace}
use beecon.Delivery.Outbox.{matching_enabled_endpoints}
use beecon.Delivery.Outbox.Fanout.{FannedOut}
use beecon.Delivery.Dispatch.Outcome.{
  Attempt, succeeded, attempt_all, apply_attempt_outcome_lem, retry_time, backoff_grows,
  attempt_all-failing,
}
use beecon.Delivery.Operations.Invariant.{run-EndpointsOk}

abbrev pub up : Reply
up = record { status = 200; error = none }

abbrev pub down : Reply
down = record { status = 503; error = none }

-- Every call takes an hour; ids are made of the tick.
abbrev pub a_facade : Facade
a_facade = record {
  now = λ n. n * hour;
  fault = λ n. none;
  new_endpoint_id = λ n. n + 1;
  new_event_id = λ n. n + 100;
  jitter = λ n. 0;
  secrets = record {
    issue = λ n org id. ok (record { secret = "whsec_AA==" });
    rotate = λ n org id hours.
        ok (record { secret = "whsec_BB=="; prefix = "whsec_BB"; overlap_expires_at = n * hour });
    active = λ n org id. ok ("whsec_AA==" ∷ []);
    prefix = λ n org id. ok "whsec_AA";
  };
  post = λ n p. if ltb n 20 then down else up;
  recorder = true;
  metrics = true;
  retention =
      some (record {
        list_org_ids = λ n. ok (1 ∷ []);
        effective_event_retention_days = λ n org. ok 1;
      });
  delivery_timeout = 10 * second;
  endpoint_cap = 2;
  auto_disable_threshold = 3;
  parse_url = λ t. some (record { scheme = "https"; host = t });
  marshal = λ e. ok (1 ∷ 2 ∷ []);
  crypto = record {
    hmac = λ key content. key;
    encode_base64 = λ bytes. "AA==";
    decode_base64 = λ t. some (1 ∷ []);
    id_bytes = λ id. id ∷ [];
    int_bytes = λ n. n ∷ [];
  };
}

abbrev pub empty_world : World
empty_world = record {
  repo = record { endpoints = []; events = [] };
  tick = 0;
  nudges = 0;
  log = [];
  counted = [];
  posts = [];
}

abbrev history : List Operation
history =
    enqueues 1 "trigger.event" none
    ∷ creates_endpoint 1 "example.org" none
    ∷ enqueues 1 "trigger.event" none
    ∷ dispatches
    ∷ dispatches
    ∷ []

abbrev statuses : World → List (ℕ × ℕ)
statuses w = map (λ x. (x.event.endpoint_id, x.event.attempts)) w.repo.events

-- The first event found no endpoint; the second is tried twice.
run-history : statuses (run a_facade empty_world history) ≡ (0, 0) ∷ (6, 2) ∷ []
unfolding run ◌>>=◌ read ask call send nudge record_log Ports.claim_due Ports.list_endpoints
    Ports.save_event Ports.save_endpoint Ports.find_endpoint_by_id Memory.claim_due
    Memory.list_endpoints Memory.save_event Memory.save_endpoint Memory.find_endpoint_by_id find put
    sort filter is_enabled matches_event_type enqueue fan_out enqueue_unrouted enqueue_to_endpoint
    create_endpoint create_endpoint_row validate_endpoint_url validate_event_type_filter for_each
    collect dispatch_once dispatch_one resolve_dispatch_endpoint attempt_delivery sign_and_post sign
    apply_attempt_outcome is_exhausted next_attempt apply_auto_disable_bookkeeping record_attempt
    record_attempt_metric oldest_endpoint_first
run-history = refl

run-EndpointsOk_example : OnEndpoints (EndpointsOk 3 2) (run a_facade empty_world history)
unfolding count
run-EndpointsOk_example =
    run-EndpointsOk a_facade (omega arith) (omega arith) empty_world history
      (record { holds = record { distinct = tt; healthy = tt; capped = λ org. omega arith } })

abbrev pub an_event : ℕ → Event
an_event id = record {
  id = id;
  org_id = 1;
  endpoint_id = 4;
  event_type = "trigger.event";
  body = 1 ∷ 2 ∷ [];
  status = pending;
  attempts = 0;
  next_attempt_at = 10;
  last_attempt_at = none;
  created_at = id;
}

abbrev pub a_repo : Repository
a_repo = record {
  endpoints = [];
  events =
      record { event = an_event 7; lease_until = none }
      ∷ record { event = an_event 8; lease_until = none }
      ∷ [];
}

abbrev pub a_world : World
a_world = record empty_world { repo = a_repo }

run-IsConsistent_example : AllEvents IsConsistent (run a_facade a_world history).repo.events
run-IsConsistent_example = run-IsConsistent a_facade a_world history (
  record { fits = tt; timed = ((λ _. refl), (λ _. refl)) },
  (record { fits = tt; timed = ((λ _. refl), (λ _. refl)) }, tt),
)

run-SameContent_example :
    AllEvents
      (λ e. e.id ≡ 7 → SameContent (an_event 7) e)
      (run a_facade a_world history).repo.events
run-SameContent_example =
    run-SameContent a_facade a_world history (an_event 7) (λ n e. omega arith)
      (
        (λ _. record {
          org_id = refl;
          endpoint_id = refl;
          same_type = refl;
          body = refl;
          created_at = refl;
        }),
        ((λ e. absurd (omega arith)), tt),
      )

pub a_repo-IsValid : IsValid a_repo
a_repo-IsValid = record { endpoints = tt; events = (((λ e. omega arith), tt), (tt, tt)) }
