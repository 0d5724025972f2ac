-- ===== src/Delivery/Memory.antt =====
-- server/internal/delivery/driven/memory/repository.go: the Repository, WorkQueue and OutboxStats of
-- the delivery module. Its maps are lists whose keys are distinct; Go's order of iteration over a map
-- is left open, and here it is the order of the list. The mutex makes each method one step.
pub mod Keys
pub mod Lookups
pub mod Claims
pub mod Purges
use beecon.Base.{
  ℕ, ◌+◌, ◌-◌, Bool, true, false, not, ◌&&◌, ◌||◌, Option, none, some, List, [], ◌∷◌, map, length,
  take, head?, filter, ltb, leb, ◌==◌, str_eq, if◌then◌else◌, String,
}
use beecon.Base.Keyed
use beecon.Base.Sort.{sort}
use beecon.Delivery.Types.{Endpoint, Event, Status, pending, status_eq, is_terminal}

-- A lease belongs to the record: saving an event releases it, and only a claim sets it.
pub record EventRecord : Type 0 where
  pub event : Event
  pub lease_until : Option ℕ

pub record Repository : Type 0 where
  pub endpoints : List Endpoint
  pub events : List EventRecord

abbrev pub endpoint_key : Endpoint → ℕ
endpoint_key e = e.id

abbrev pub event_key : EventRecord → ℕ
event_key r = r.event.id

unfoldable pub new_repository : Repository
new_repository = record { endpoints = []; events = [] }

unfoldable pub save_endpoint : Endpoint → Repository → Repository
save_endpoint e r = record r { endpoints = Keyed.put endpoint_key e r.endpoints }

unfoldable pub endpoints_for_org : ℕ → List Endpoint → List Endpoint
endpoints_for_org org = filter (λ e. e.org_id == org)

unfoldable pub oldest_endpoint_first : Endpoint → Endpoint → Bool
oldest_endpoint_first a b =
    if a.created_at == b.created_at then ltb a.id b.id else ltb a.created_at b.created_at

unfoldable pub list_endpoints : ℕ → Repository → List Endpoint
unfolding endpoints_for_org
list_endpoints org r = sort oldest_endpoint_first (endpoints_for_org org r.endpoints)

unfoldable pub find_endpoint : ℕ → Repository → Option Endpoint
unfolding endpoints_for_org
find_endpoint org r = head? (sort oldest_endpoint_first (endpoints_for_org org r.endpoints))

abbrev if_org : {A : Type 0} → (A → ℕ) → ℕ → Option A → Option A
if_org org_of org none = none
if_org org_of org (some a) = if org_of a == org then some a else none

unfoldable pub find_endpoint_by_id : ℕ → ℕ → Repository → Option Endpoint
find_endpoint_by_id org id r = if_org (λ e. e.org_id) org (Keyed.find endpoint_key id r.endpoints)

unfoldable pub delete_endpoint : ℕ → ℕ → Repository → Repository
delete_endpoint org id r =
    elim (if_org (λ (e : Endpoint). e.org_id) org (Keyed.find endpoint_key id r.endpoints)) [
      | none ↦ r
      | some _ ↦ record r { endpoints = Keyed.remove endpoint_key id r.endpoints }
    ]

unfoldable pub save_event : Event → Repository → Repository
save_event e r = record r {
  events = Keyed.put event_key (record { event = e; lease_until = none }) r.events;
}

unfoldable pub find_event : ℕ → ℕ → Repository → Option Event
find_event org id r = elim (Keyed.find event_key id r.events) [
  | none ↦ none
  | some x ↦ if x.event.org_id == org then some x.event else none
]

pub record ListCursor : Type 0 where
  pub created_at : ℕ
  pub id : ℕ

-- An empty type and no status leave the page unrestricted.
pub record ListFilter : Type 0 where
  pub event_type : String
  pub delivery_status : Option Status
  pub cursor : Option ListCursor
  pub limit : ℕ

unfoldable pub is_after_cursor : Event → ListCursor → Bool
is_after_cursor e c =
    if ltb e.created_at c.created_at
    then true
    else if e.created_at == c.created_at
    then ltb e.id c.id
    else false

abbrev pub passes : {A : Type 0} → (A → Bool) → Option A → Bool
passes p none = true
passes p (some a) = p a

unfoldable pub matches_event_filter : ℕ → ListFilter → Event → Bool
matches_event_filter org f e =
    (e.org_id == org)
    && (str_eq f.event_type "" || str_eq e.event_type f.event_type)
    && passes (status_eq e.status) f.delivery_status
    && passes (is_after_cursor e) f.cursor

unfoldable pub newest_event_first : Event → Event → Bool
newest_event_first a b =
    if a.created_at == b.created_at then ltb b.id a.id else ltb b.created_at a.created_at

-- `limit > 0 && len(matches) > limit`, where the slice is cut.
abbrev pub page : {A : Type 0} → ℕ → List A → List A
page limit xs = if ltb 0 limit && ltb limit (length xs) then take limit xs else xs

unfoldable pub list_events_page : ℕ → ListFilter → Repository → List Event
unfolding matches_event_filter is_after_cursor newest_event_first
list_events_page org f r =
    page f.limit
      (sort newest_event_first (filter (matches_event_filter org f) (map (λ x. x.event) r.events)))

-- `lease_until != nil && lease_until.After(now)`
abbrev pub leased_past : ℕ → Option ℕ → Bool
leased_past now none = false
leased_past now (some until) = ltb now until

unfoldable pub is_due_for_claim : ℕ → EventRecord → Bool
is_due_for_claim now r =
    status_eq r.event.status pending
    && leb r.event.next_attempt_at now
    && not (leased_past now r.lease_until)

abbrev pub older : EventRecord → EventRecord → Bool
older a b = ltb a.event.created_at b.event.created_at

-- The records that a claim takes.
unfoldable pub due_batch : ℕ → ℕ → Repository → List EventRecord
unfolding is_due_for_claim
due_batch now limit r = take limit (sort older (filter (is_due_for_claim now) r.events))

-- `record.leaseUntil = &leaseUntil` for each record of the batch.
unfoldable pub lease_all : ℕ → List EventRecord → List EventRecord → List EventRecord
lease_all until [] events = events
lease_all until (x ∷ xs) events =
    lease_all until xs (Keyed.put event_key (record x { lease_until = some until }) events)

unfoldable pub claim_due : ℕ → ℕ → ℕ → Repository → List Event × Repository
unfolding due_batch lease_all
claim_due now lease_ttl limit r =
    let batch = due_batch now limit r in
    (map (λ x. x.event) batch, record r { events = lease_all (now + lease_ttl) batch r.events })

-- The loop's `oldest` starts at the zero time.
unfoldable pub depth_and_oldest : ℕ → ℕ → List EventRecord → ℕ × ℕ
depth_and_oldest depth oldest [] = (depth, oldest)
depth_and_oldest depth oldest (x ∷ xs) =
    depth_and_oldest (if status_eq x.event.status pending then depth + 1 else depth)
      (if status_eq x.event.status pending && (oldest == 0 || ltb x.event.created_at oldest)
        then x.event.created_at
        else oldest)
      xs

unfoldable pub pending_depth_and_oldest_age : ℕ → Repository → ℕ × ℕ
unfolding depth_and_oldest
pending_depth_and_oldest_age now r =
    let (depth, oldest) = depth_and_oldest 0 0 r.events in
    if depth == 0 then (0, 0) else (depth, now - oldest)

-- The events that the purge deletes.
unfoldable pub is_purgeable : ℕ → ℕ → EventRecord → Bool
is_purgeable org cutoff x =
    (x.event.org_id == org) && is_terminal x.event.status && ltb x.event.created_at cutoff

unfoldable pub purge_terminal_older_than : ℕ → ℕ → Repository → ℕ × Repository
unfolding is_purgeable
purge_terminal_older_than org cutoff r = (
  length (filter (is_purgeable org cutoff) r.events),
  record r { events = filter (λ x. not (is_purgeable org cutoff x)) r.events },
)
