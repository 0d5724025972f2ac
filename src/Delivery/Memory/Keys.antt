-- ===== src/Delivery/Memory/Keys.antt =====
-- The maps of server/internal/delivery/driven/memory/repository.go hold each key once.
use beecon.Base.{ℕ, ◌+◌, List, [], ◌∷◌, none, some}
use beecon.Base.Keyed
use beecon.Delivery.Types.{Endpoint, Event}
use beecon.Delivery.Memory.{
  EventRecord, Repository, endpoint_key, event_key, new_repository, save_endpoint, delete_endpoint,
  save_event, lease_all, claim_due, purge_terminal_older_than, if_org, due_batch,
}

pub record IsValid (r : Repository) : Type 0 where
  pub endpoints : Keyed.Distinct endpoint_key r.endpoints
  pub events : Keyed.Distinct event_key r.events

pub new_repository-IsValid : IsValid new_repository
unfolding new_repository
new_repository-IsValid = record { endpoints = tt; events = tt }

pub save_endpoint-IsValid :
    (e : Endpoint) (r : Repository) → IsValid r → IsValid (save_endpoint e r)
unfolding save_endpoint
save_endpoint-IsValid e r v = record {
  endpoints = Keyed.put-Distinct endpoint_key e r.endpoints v.endpoints;
  events = v.events;
}

pub delete_endpoint-IsValid :
    (org id : ℕ) (r : Repository) → IsValid r → IsValid (delete_endpoint org id r)
unfolding delete_endpoint Keyed.remove
delete_endpoint-IsValid org id r v =
    elim (if_org (λ (e : Endpoint). e.org_id) org (Keyed.find endpoint_key id r.endpoints))
      as (λ o. IsValid (elim o [
        | none ↦ r
        | some _ ↦ record r { endpoints = Keyed.remove endpoint_key id r.endpoints }
      ])) [
        | none ↦ v
        | some e ↦ record {
          endpoints = Keyed.filter-Distinct endpoint_key _ r.endpoints v.endpoints;
          events = v.events;
        }
      ]

pub save_event-IsValid : (e : Event) (r : Repository) → IsValid r → IsValid (save_event e r)
unfolding save_event
save_event-IsValid e r v = record {
  endpoints = v.endpoints;
  events = Keyed.put-Distinct event_key _ r.events v.events;
}

pub lease_all-Distinct :
    (until : ℕ) (batch events : List EventRecord)
    → Keyed.Distinct event_key events
    → Keyed.Distinct event_key (lease_all until batch events)
unfolding lease_all
lease_all-Distinct until [] events h = h
lease_all-Distinct until (x ∷ xs) events h =
    lease_all-Distinct until xs _ (Keyed.put-Distinct event_key _ events h)

pub claim_due-IsValid :
    (now ttl limit : ℕ) (r : Repository) → IsValid r → IsValid (claim_due now ttl limit r).1
unfolding claim_due
claim_due-IsValid now ttl limit r v = record {
  endpoints = v.endpoints;
  events = lease_all-Distinct (now + ttl) (due_batch now limit r) r.events v.events;
}

pub purge-IsValid :
    (org cutoff : ℕ) (r : Repository)
    → IsValid r
    → IsValid (purge_terminal_older_than org cutoff r).1
unfolding purge_terminal_older_than
purge-IsValid org cutoff r v = record {
  endpoints = v.endpoints;
  events = Keyed.filter-Distinct event_key _ r.events v.events;
}
