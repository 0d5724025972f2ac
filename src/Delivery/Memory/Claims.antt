-- ===== src/Delivery/Memory/Claims.antt =====
-- ClaimDue of server/internal/delivery/driven/memory/repository.go: what a claim takes, and that two
-- dispatchers never hold one event at once.
use beecon.Base.{
  ℕ, ◌+◌, ◌≤◌, ◌<◌, ◌≡◌, ◌≢◌, refl, true, false, List, [], ◌∷◌, some, arith, All, All-imp, All-imp₂,
  All-filter, All-take, All-map, filter-All, Bool-cases, ◌==◌, inl, inr, ap, ◌∙◌,
}
use beecon.Base.Sort.{sort-All}
use beecon.Base.Keyed
use beecon.Delivery.Types.{pending}
use beecon.Delivery.Memory.{
  EventRecord, Repository, event_key, lease_all, claim_due, due_batch, is_due_for_claim, older,
  leased_past, find_event,
}
use beecon.Delivery.Memory.Keys.{IsValid}

-- Under this key every record is leased until `until`.
abbrev Leased : ℕ → ℕ → EventRecord → Type 0
Leased k until x = event_key x ≡ k → x.lease_until ≡ some until

lease_all-Leased :
    (k until : ℕ) (batch events : List EventRecord)
    → All (Leased k until) events
    → All (Leased k until) (lease_all until batch events)
unfolding lease_all
lease_all-Leased k until [] events h = h
lease_all-Leased k until (x ∷ xs) events h = lease_all-Leased k until xs _ (
    Keyed.put-All event_key (Leased k until) (record x { lease_until = some until }) events
      (λ _. refl) h)

lease_all_covers :
    (until : ℕ) (batch events : List EventRecord)
    → Keyed.Distinct event_key events
    → All (λ b. All (Leased (event_key b) until) (lease_all until batch events)) batch
unfolding lease_all
lease_all_covers until [] events h = tt
lease_all_covers until (x ∷ xs) events h =
    let x' : EventRecord = record x { lease_until = some until } in
    (
      lease_all-Leased (event_key x) until xs (Keyed.put event_key x' events) (
          All-imp _ (Leased (event_key x) until) (λ y e p. ground (arith, e p))
            (Keyed.put event_key x' events) (Keyed.put_unique event_key x' events h)),
      lease_all_covers until xs (Keyed.put event_key x' events)
          (Keyed.put-Distinct event_key x' events h),
    )

Leased-not_due :
    (k until now : ℕ) (x : EventRecord)
    → now < until
    → Leased k until x
    → is_due_for_claim now x ≡ true
    → event_key x ≢ k
unfolding is_due_for_claim
Leased-not_due k until now x h l d e = ground (arith, l e)

due_batch-avoids :
    (k until now limit : ℕ) (r : Repository)
    → now < until
    → All (Leased k until) r.events
    → All (λ x. event_key x ≢ k) (due_batch now limit r)
unfolding due_batch
due_batch-avoids k until now limit r h l = All-take _ limit _ (
    sort-All older _ _ (
      All-imp₂ (Leased k until) (λ x. is_due_for_claim now x ≡ true) (λ x. event_key x ≢ k)
        (λ x. Leased-not_due k until now x h) _
        (All-filter (Leased k until) (is_due_for_claim now) r.events l)
        (filter-All (is_due_for_claim now) r.events)))

-- Of two claims one after the other, the second hands out none of the events of the first while the
-- lease of the first has not run out, in a repository whose maps hold each key once.
pub claim_due-exclusive :
    (r : Repository) (now ttl limit now' ttl' limit' : ℕ)
    → IsValid r
    → now' < now + ttl
    → let (first, r') = claim_due now ttl limit r in
      All (λ e. All (λ e'. e'.id ≢ e.id) (claim_due now' ttl' limit' r').0) first
unfolding claim_due
claim_due-exclusive r now ttl limit now' ttl' limit' v h =
    All-map _ (λ x. x.event) (due_batch now limit r)
      (All-imp _ _
        (λ b l.
          All-map _ (λ x. x.event) (due_batch now' limit' (claim_due now ttl limit r).1)
            (due_batch-avoids (event_key b) (now + ttl) now' limit' (claim_due now ttl limit r).1 h
              l))
        (due_batch now limit r)
        (lease_all_covers (now + ttl) (due_batch now limit r) r.events v.events))

abbrev pub IsDue : ℕ → EventRecord → Type 0
IsDue now x =
    (x.event.status ≡ pending)
    × (x.event.next_attempt_at ≤ now)
    × (leased_past now x.lease_until ≡ false)

-- Under the key of this record the map holds the same event.
abbrev Holds : List EventRecord → EventRecord → Type 0
Holds events b =
    (w : EventRecord) × (Keyed.find event_key (event_key b) events ≡ some w) × (w.event ≡ b.event)

Holds-put :
    (until : ℕ) (x b : EventRecord) (events : List EventRecord)
    → Holds events x
    → Holds events b
    → Holds (Keyed.put event_key (record x { lease_until = some until }) events) b
Holds-put until x b events (v, fx, ex) (w, fb, eb) =
    elim (Bool-cases (event_key x == event_key b)) [
      | inl hit ↦
          let same : event_key x ≡ event_key b = ground arith in
          (
            record x { lease_until = some until },
            ground (
              arith,
              Keyed.find-put event_key (event_key b) (record x { lease_until = some until }) events,
            ),
            ground (arith, ap (λ (k : ℕ). Keyed.find event_key k events) same),
          )
      | inr miss ↦ (
        w,
        ground (
          arith,
          Keyed.find-put event_key (event_key b) (record x { lease_until = some until }) events,
        ),
        eb,
      )
    ]

find_event_held :
    (org id until : ℕ) (x : EventRecord) (r : Repository)
    → Holds r.events x
    → find_event org id
        (record r { events = Keyed.put event_key (record x { lease_until = some until }) r.events })
      ≡ find_event org id r
unfolding find_event
find_event_held org id until x r (w, f, e) = ground (
  arith,
  Keyed.find-put event_key id (record x { lease_until = some until }) r.events,
  λ (same : event_key x ≡ id). ap (λ (k : ℕ). Keyed.find event_key k r.events) same,
)

find_event-lease_all :
    (org id until : ℕ) (batch : List EventRecord) (r : Repository)
    → All (Holds r.events) batch
    → find_event org id (record r { events = lease_all until batch r.events }) ≡ find_event org id r
unfolding lease_all
find_event-lease_all org id until [] r h = refl
find_event-lease_all org id until (x ∷ xs) r h =
    find_event-lease_all org id until xs
      (record r { events = Keyed.put event_key (record x { lease_until = some until }) r.events })
      (All-imp _ _ (λ b hb. Holds-put until x b r.events h.0 hb) xs h.1)
    ∙ find_event_held org id until x r h.0

-- A claim changes no event, only leases: whatever the organization and the id, the same event is found
-- before and after, in a repository whose maps hold each key once.
pub find_event-claim_due :
    (org id now ttl limit : ℕ) (r : Repository)
    → IsValid r
    → find_event org id (claim_due now ttl limit r).1 ≡ find_event org id r
unfolding claim_due due_batch
find_event-claim_due org id now ttl limit r v =
    find_event-lease_all org id (now + ttl) (due_batch now limit r) r (
      All-take _ limit _ (
        sort-All older _ _ (
          All-filter _ (is_due_for_claim now) r.events (
            All-imp _ _ (λ x e. (x, e, refl)) r.events
              (Keyed.find_self event_key r.events v.events)))))
