-- ===== src/Delivery/Examples/Parts.antt =====
-- The rules of the parts of server/internal/delivery at concrete inputs.
use beecon.Base.{
  ℕ, suc, ◌+◌, ◌*◌, ◌/◌, ◌≤◌, ◌<◌, ◌≡◌, ◌≢◌, ◌↔◌, refl, String, Bool, false, Option, none, some, [],
  ◌∷◌, map, length, arith, All, inl, inr, leb, if◌then◌else◌,
}
use beecon.Delivery.Types.{pending}
use beecon.Delivery.Schedule.{
  jitter_scale, next_attempt, delay_at, delay_index, after_failure_delays,
}
use beecon.Delivery.Memory
use beecon.Delivery.Memory.{
  EventRecord, Repository, claim_due, purge_terminal_older_than, find_event,
}
use beecon.Delivery.Memory.Claims.{claim_due-exclusive, find_event-claim_due}
use beecon.Delivery.Memory.Purges.{IsKept, find_event-purge, purge_complete}
use beecon.Delivery.Signing.{SignedHeaders}
use beecon.Delivery.Outbox.{ListEventsParams}
use beecon.Delivery.Outbox.Pages.{asked_for}
use beecon.Delivery.Outbox.Traversal.{walk, walk_lem}
use beecon.Delivery.Dispatch.{apply_attempt_outcome}
use beecon.Delivery.Dispatch.Outcome.{Attempt, attempt_all, retry_time, attempt_all-failing}
use beecon.Delivery.Examples.{down, a_facade, a_world, a_repo, an_event, a_repo-IsValid}

claim_due-exclusive_example :
    let (first, r') = claim_due 20 30 1 a_repo in
    All (λ e. All (λ e'. e'.id ≢ e.id) (claim_due 40 30 5 r').0) first
claim_due-exclusive_example =
    claim_due-exclusive a_repo 20 30 1 40 30 5 a_repo-IsValid (omega arith)

find_event-claim_due_example : find_event 1 8 (claim_due 20 30 1 a_repo).1 ≡ find_event 1 8 a_repo
find_event-claim_due_example = find_event-claim_due 1 8 20 30 1 a_repo a_repo-IsValid

event_8 : find_event 1 8 a_repo ≡ some (an_event 8)
unfolding find_event beecon.Base.Keyed.find
event_8 = refl

find_event-purge_example :
    find_event 1 8 (purge_terminal_older_than 1 100 a_repo).1 ≡ some (an_event 8)
find_event-purge_example =
    find_event-purge 1 100 1 8 a_repo (an_event 8) a_repo-IsValid event_8 (inl refl)

purge_complete_example :
    let (purged, r') = purge_terminal_older_than 1 100 a_repo in
    All (IsKept 1 100) r'.events × (purged + length r'.events ≡ 2)
purge_complete_example = purge_complete 1 100 a_repo

abbrev a_signature : SignedHeaders
a_signature = record { id = 7; timestamp = 9; signature = "v1,AA== v1,AA==" }

abbrev a_failure : Attempt
a_failure = record { reply = down; now = 50; jitter = 3 }

attempt_all-failing_example :
    let e' = attempt_all (an_event 7) (a_failure ∷ a_failure ∷ []) in
    (e'.attempts ≡ 2) × (e'.status ≡ pending)
unfolding beecon.Delivery.Dispatch.is_success_status
attempt_all-failing_example =
    attempt_all-failing (an_event 7) a_failure (a_failure ∷ []) (refl, (refl, tt))

retry_time_example :
    let delay = delay_at after_failure_delays (delay_index 2) in
    let at = (apply_attempt_outcome (an_event 7) down 50 2 3).next_attempt_at in
    (50 + 4_500_000_000 ≤ at) × (50 + 9 * (delay / 10) ≤ at) × (at ≤ 50 + delay + delay / 10)
unfolding apply_attempt_outcome beecon.Delivery.Schedule.is_exhausted
retry_time_example = retry_time (an_event 7) down 50 2 3 (omega arith) refl

abbrev all_events : ListEventsParams
all_events = record { event_type = ""; delivery_status = none; cursor = none; limit = 1 }

walk_lem_example : walk 3 a_facade 1 all_events a_world ≡ asked_for 1 all_events a_repo
walk_lem_example =
    walk_lem a_facade 1 all_events a_world (λ n. refl) (((λ e. omega arith), tt), (tt, tt))

-- Two pages of one event each, and the page behind them is not asked for.
run_walk : walk 3 a_facade 1 all_events a_world ≡ an_event 8 ∷ an_event 7 ∷ []
unfolding walk beecon.Delivery.Outbox.list_events beecon.Base.Effects.◌>>=◌
    beecon.Delivery.Ports.list_events_page beecon.Delivery.Ports.call Memory.list_events_page
    beecon.Base.Sort.sort beecon.Base.Lists.filter
run_walk = refl
