-- ===== src/Delivery/Memory/Purges.antt =====
-- PurgeTerminalOlderThan of server/internal/delivery/driven/memory/repository.go.
use beecon.Base.{
  ℕ, ◌+◌, ◌≤◌, ◌≡◌, ◌≢◌, ◌⊎◌, true, false, not, some, arith, All, All-imp, filter-All, length,
  length-filter-not, Option-cases, inl, inr,
}
use beecon.Base.Keyed
use beecon.Delivery.Types.{Event, pending, is_terminal}
use beecon.Delivery.Memory.{
  EventRecord, Repository, event_key, find_event, is_purgeable, purge_terminal_older_than,
}
use beecon.Delivery.Memory.Keys.{IsValid}

kept :
    (org cutoff : ℕ) (x : EventRecord)
    → (x.event.status ≡ pending) ⊎ (x.event.org_id ≢ org) ⊎ (cutoff ≤ x.event.created_at)
    → is_purgeable org cutoff x ≡ false
unfolding is_purgeable is_terminal
kept org cutoff x h = ground arith

-- A purge for one organization leaves an event in place that is pending, or that belongs to another
-- organization, or that is not older than the cutoff, in a repository whose maps hold each key once.
pub find_event-purge :
    (org cutoff org' id : ℕ) (r : Repository) (e : Event)
    → IsValid r
    → find_event org' id r ≡ some e
    → (e.status ≡ pending) ⊎ (e.org_id ≢ org) ⊎ (cutoff ≤ e.created_at)
    → find_event org' id (purge_terminal_older_than org cutoff r).1 ≡ some e
unfolding find_event purge_terminal_older_than
find_event-purge org cutoff org' id r e v f h =
    elim (Option-cases (Keyed.find event_key id r.events)) [
      | inl missing ↦ ground arith
      | inr (x, found) ↦ ground (
        arith,
        kept org cutoff x,
        Keyed.find-filter event_key (λ x. not (is_purgeable org cutoff x)) id r.events v.events,
      )
    ]

abbrev pub IsKept : ℕ → ℕ → EventRecord → Type 0
IsKept org cutoff x = x.event.org_id ≡ org → x.event.status ≢ pending → cutoff ≤ x.event.created_at

not_purgeable :
    (org cutoff : ℕ) (x : EventRecord)
    → not (is_purgeable org cutoff x) ≡ true
    → IsKept org cutoff x
unfolding is_purgeable is_terminal
not_purgeable org cutoff x h o p = ground arith

-- After it the organization has no terminal event older than the cutoff, and the count that the purge
-- returns is the number of records that are gone.
pub purge_complete :
    (org cutoff : ℕ) (r : Repository)
    → let (purged, r') = purge_terminal_older_than org cutoff r in
      All (IsKept org cutoff) r'.events × (purged + length r'.events ≡ length r.events)
unfolding purge_terminal_older_than
purge_complete org cutoff r = (
  All-imp _ (IsKept org cutoff) (not_purgeable org cutoff) _
      (filter-All (λ x. not (is_purgeable org cutoff x)) r.events),
  length-filter-not (is_purgeable org cutoff) r.events,
)
