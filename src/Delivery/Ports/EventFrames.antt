-- ===== src/Delivery/Ports/EventFrames.antt =====
-- Which port calls of server/internal/delivery can change the stored events.
use beecon.Base.{ℕ, ◌≡◌, refl, none, List, arith}
use beecon.Base.Keyed
use beecon.Base.Effects.{Result, Exec, ◌>>=◌}
use beecon.Base.Effects.Keeps.{Keeps}
use beecon.Delivery.Types.{Endpoint, Event}
use beecon.Delivery.Memory
use beecon.Delivery.Memory.{
  EventRecord, ListFilter, Repository, endpoint_key, event_key, due_batch, lease_all, is_purgeable,
}
use beecon.Delivery.Ports.{
  Facade, World, Post, LogEntry, read, ask, call, save_endpoint, find_endpoint, find_endpoint_by_id,
  list_endpoints, delete_endpoint, save_event, find_event, list_events_page,
  purge_terminal_older_than, claim_due, send, nudge, record_log,
}
use beecon.Delivery.Ports.Frames.{OnEvents, call-Keeps}

events-delete_endpoint :
    (org id : ℕ) (r : Repository) → (Memory.delete_endpoint org id r).events ≡ r.events
unfolding Memory.delete_endpoint
events-delete_endpoint org id r = ground arith

module _ {E : List EventRecord → Type 0} where
  pub read-Events : {A : Type 0} (g : ℕ → A) → Keeps (OnEvents E) (read g)
  unfolding read
  read-Events g = record { at = λ w h. record { holds = h.holds } }

  pub ask-Events : {A : Type 0} (g : ℕ → Result A) → Keeps (OnEvents E) (ask g)
  unfolding ask
  ask-Events g = record { at = λ w h. record { holds = h.holds } }

  call-Events :
      {A : Type 0} (f : Facade) (m : World → A × World)
      → ((w : World) → (m w).1.repo.events ≡ w.repo.events)
      → Keeps (OnEvents E) (call f m)
  call-Events f m e =
      call-Keeps (OnEvents E) f m (λ w h. record { holds = h.holds })
        λ w h. record { holds = rw (e w) h.holds }

  pub find_endpoint-Events : (f : Facade) (org : ℕ) → Keeps (OnEvents E) (find_endpoint f org)
  unfolding find_endpoint
  find_endpoint-Events f org = call-Events f _ (λ w. refl)

  pub find_endpoint_by_id-Events :
      (f : Facade) (org id : ℕ) → Keeps (OnEvents E) (find_endpoint_by_id f org id)
  unfolding find_endpoint_by_id
  find_endpoint_by_id-Events f org id = call-Events f _ (λ w. refl)

  pub list_endpoints-Events : (f : Facade) (org : ℕ) → Keeps (OnEvents E) (list_endpoints f org)
  unfolding list_endpoints
  list_endpoints-Events f org = call-Events f _ (λ w. refl)

  pub find_event-Events : (f : Facade) (org id : ℕ) → Keeps (OnEvents E) (find_event f org id)
  unfolding find_event
  find_event-Events f org id = call-Events f _ (λ w. refl)

  pub list_events_page-Events :
      (f : Facade) (org : ℕ) (l : ListFilter) → Keeps (OnEvents E) (list_events_page f org l)
  unfolding list_events_page
  list_events_page-Events f org l = call-Events f _ (λ w. refl)

  pub save_endpoint-Events : (f : Facade) (e : Endpoint) → Keeps (OnEvents E) (save_endpoint f e)
  unfolding save_endpoint Memory.save_endpoint
  save_endpoint-Events f e = call-Events f _ (λ w. refl)

  pub record_log-Events : (f : Facade) (e : LogEntry) → Keeps (OnEvents E) (record_log f e)
  unfolding record_log
  record_log-Events f e = call-Events f _ (λ w. refl)

  pub send-Events : (f : Facade) (p : Post) → Keeps (OnEvents E) (send f p)
  unfolding send
  send-Events f p = record { at = λ w h. record { holds = h.holds } }

  pub nudge-Events : Keeps (OnEvents E) nudge
  unfolding nudge
  nudge-Events = record { at = λ w h. record { holds = h.holds } }

  pub delete_endpoint-Events :
      (f : Facade) (org id : ℕ) → Keeps (OnEvents E) (delete_endpoint f org id)
  unfolding delete_endpoint
  delete_endpoint-Events f org id = call-Events f _ (λ w. events-delete_endpoint org id w.repo)

  pub save_event-Events :
      (f : Facade) (e : Event)
      → ((es : List EventRecord)
          → E es
          → E (Keyed.put event_key (record { event = e; lease_until = none }) es))
      → Keeps (OnEvents E) (save_event f e)
  unfolding save_event Memory.save_event
  save_event-Events f e k =
      call-Keeps (OnEvents E) f _ (λ w h. record { holds = h.holds })
        λ w h. record { holds = k _ h.holds }

  pub claim_due-Events :
      (f : Facade) (now ttl limit : ℕ)
      → ((r : Repository) → E r.events → E (Memory.claim_due now ttl limit r).1.events)
      → Keeps (OnEvents E) (claim_due f now ttl limit)
  unfolding claim_due
  claim_due-Events f now ttl limit k =
      call-Keeps (OnEvents E) f _ (λ w h. record { holds = h.holds })
        λ w h. record { holds = k w.repo h.holds }

  pub purge-Events :
      (f : Facade) (org cutoff : ℕ)
      → ((r : Repository) → E r.events → E (Memory.purge_terminal_older_than org cutoff r).1.events)
      → Keeps (OnEvents E) (purge_terminal_older_than f org cutoff)
  unfolding purge_terminal_older_than
  purge-Events f org cutoff k =
      call-Keeps (OnEvents E) f _ (λ w h. record { holds = h.holds })
        λ w h. record { holds = k w.repo h.holds }

-- What is read at some tick is the value of the source there.
pub read_then-Events :
    {E : List EventRecord → Type 0} {A B : Type 0} (g : ℕ → A) (k : A → Exec World B)
    → ((n : ℕ) → Keeps (OnEvents E) (k (g n)))
    → Keeps (OnEvents E) (read g >>= k)
unfolding read ◌>>=◌
read_then-Events g k h = record { at = λ w p. (h w.tick).at _ (record { holds = p.holds }) }

-- Every port call but save_event, claim_due and purge_terminal_older_than leaves the events alone.
pub ruleset event_frames = (
  read-Events, ask-Events, find_endpoint-Events, find_endpoint_by_id-Events, list_endpoints-Events,
  find_event-Events, list_events_page-Events, save_endpoint-Events, record_log-Events, send-Events,
  nudge-Events, delete_endpoint-Events,
)
