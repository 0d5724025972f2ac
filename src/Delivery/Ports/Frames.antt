-- ===== src/Delivery/Ports/Frames.antt =====
-- Which part of the world each port call of server/internal/delivery can change.
use beecon.Base.{ℕ, suc, ◌≡◌, refl, Option, List, arith, inl, inr, Option-cases, Bool-cases, ◌==◌}
use beecon.Base.Effects.{Result, ok, Exec}
use beecon.Base.Effects.Keeps.{Keeps, Leads}
use beecon.Delivery.Types.{Endpoint, Event}
use beecon.Delivery.Memory
use beecon.Base.Keyed
use beecon.Delivery.Memory.{EventRecord, ListFilter, Repository, endpoint_key}
use beecon.Delivery.Ports.{
  Facade, World, Post, LogEntry, read, ask, call, save_endpoint, find_endpoint, find_endpoint_by_id,
  list_endpoints, delete_endpoint, save_event, find_event, list_events_page, on_repo,
  purge_terminal_older_than, claim_due, send, nudge, record_log,
}

-- A property of the stored endpoints, and one of the stored events, as properties of the world.
pub record OnEndpoints (E : List Endpoint → Type 0) (w : World) : Type 0 where
  pub holds : E w.repo.endpoints

pub record OnEvents (E : List EventRecord → Type 0) (w : World) : Type 0 where
  pub holds : E w.repo.events

pub call-Keeps :
    {A : Type 0} (P : World → Type 0) (f : Facade) (m : World → A × World)
    → ((w : World) → P w → P (record w { tick = suc w.tick }))
    → ((w : World) → P w → P (m w).1)
    → Keeps P (call f m)
unfolding call
call-Keeps P f m t k = record {
  at = λ w h. elim (Option-cases (f.fault w.tick)) [
    | inl e ↦ rw (e, call) (k _ (t w h))
    | inr (x, e) ↦ rw (e, call) (t w h)
  ];
}

pub call-Leads :
    {A : Type 0} (P Q : World → Type 0) (f : Facade) (m : World → A × World)
    → ((w : World) → P w → Q (record w { tick = suc w.tick }))
    → ((w : World) → P w → Q (m (record w { tick = suc w.tick })).1)
    → Leads P Q (call f m)
unfolding call
call-Leads P Q f m t k = record {
  at = λ w h. elim (Option-cases (f.fault w.tick)) [
    | inl e ↦ rw (e, call) (k w h)
    | inr (x, e) ↦ rw (e, call) (t w h)
  ];
}

delete_cases :
    (E : List Endpoint → Type 0) (org id : ℕ) (r : Repository)
    → E r.endpoints
    → E (Keyed.remove endpoint_key id r.endpoints)
    → E (Memory.delete_endpoint org id r).endpoints
unfolding Memory.delete_endpoint
delete_cases E org id r h k = elim (Option-cases (Keyed.find endpoint_key id r.endpoints)) [
  | inl e ↦ rw (e, Memory.delete_endpoint) h
  | inr (x, e) ↦ elim (Bool-cases (x.org_id == org)) [
    | inl t ↦ rw (e, t, Memory.delete_endpoint) k
    | inr t ↦ rw (e, t, Memory.delete_endpoint) h
  ]
]

module _ {E : List Endpoint → Type 0} where
  pub read-Endpoints : {A : Type 0} (g : ℕ → A) → Keeps (OnEndpoints E) (read g)
  unfolding read
  read-Endpoints g = record { at = λ w h. record { holds = h.holds } }

  pub ask-Endpoints : {A : Type 0} (g : ℕ → Result A) → Keeps (OnEndpoints E) (ask g)
  unfolding ask
  ask-Endpoints g = record { at = λ w h. record { holds = h.holds } }

  call-Endpoints :
      {A : Type 0} (f : Facade) (m : World → A × World)
      → ((w : World) → (m w).1.repo.endpoints ≡ w.repo.endpoints)
      → Keeps (OnEndpoints E) (call f m)
  call-Endpoints f m e =
      call-Keeps (OnEndpoints E) f m (λ w h. record { holds = h.holds })
        λ w h. record { holds = rw (e w) h.holds }

  pub find_endpoint-Endpoints : (f : Facade) (org : ℕ) → Keeps (OnEndpoints E) (find_endpoint f org)
  unfolding find_endpoint
  find_endpoint-Endpoints f org = call-Endpoints f _ (λ w. refl)

  pub find_endpoint_by_id-Endpoints :
      (f : Facade) (org id : ℕ) → Keeps (OnEndpoints E) (find_endpoint_by_id f org id)
  unfolding find_endpoint_by_id
  find_endpoint_by_id-Endpoints f org id = call-Endpoints f _ (λ w. refl)

  pub list_endpoints-Endpoints :
      (f : Facade) (org : ℕ) → Keeps (OnEndpoints E) (list_endpoints f org)
  unfolding list_endpoints
  list_endpoints-Endpoints f org = call-Endpoints f _ (λ w. refl)

  pub save_event-Endpoints : (f : Facade) (e : Event) → Keeps (OnEndpoints E) (save_event f e)
  unfolding save_event Memory.save_event
  save_event-Endpoints f e = call-Endpoints f _ (λ w. refl)

  pub find_event-Endpoints : (f : Facade) (org id : ℕ) → Keeps (OnEndpoints E) (find_event f org id)
  unfolding find_event
  find_event-Endpoints f org id = call-Endpoints f _ (λ w. refl)

  pub list_events_page-Endpoints :
      (f : Facade) (org : ℕ) (l : ListFilter) → Keeps (OnEndpoints E) (list_events_page f org l)
  unfolding list_events_page
  list_events_page-Endpoints f org l = call-Endpoints f _ (λ w. refl)

  pub purge-Endpoints :
      (f : Facade) (org cutoff : ℕ) → Keeps (OnEndpoints E) (purge_terminal_older_than f org cutoff)
  unfolding purge_terminal_older_than Memory.purge_terminal_older_than
  purge-Endpoints f org cutoff = call-Endpoints f _ (λ w. refl)

  pub claim_due-Endpoints :
      (f : Facade) (now ttl limit : ℕ) → Keeps (OnEndpoints E) (claim_due f now ttl limit)
  unfolding claim_due Memory.claim_due
  claim_due-Endpoints f now ttl limit = call-Endpoints f _ (λ w. refl)

  pub send-Endpoints : (f : Facade) (p : Post) → Keeps (OnEndpoints E) (send f p)
  unfolding send
  send-Endpoints f p = record { at = λ w h. record { holds = h.holds } }

  pub nudge-Endpoints : Keeps (OnEndpoints E) nudge
  unfolding nudge
  nudge-Endpoints = record { at = λ w h. record { holds = h.holds } }

  pub record_log-Endpoints : (f : Facade) (e : LogEntry) → Keeps (OnEndpoints E) (record_log f e)
  unfolding record_log
  record_log-Endpoints f e = call-Endpoints f _ (λ w. refl)

module _ {E : List Endpoint → Type 0} where
  pub save_endpoint-Endpoints :
      (f : Facade) (e : Endpoint)
      → ((es : List Endpoint) → E es → E (Keyed.put endpoint_key e es))
      → Keeps (OnEndpoints E) (save_endpoint f e)
  unfolding save_endpoint Memory.save_endpoint
  save_endpoint-Endpoints f e k =
      call-Keeps (OnEndpoints E) f _ (λ w h. record { holds = h.holds })
        λ w h. record { holds = k _ h.holds }

  pub delete_endpoint-Endpoints :
      (f : Facade) (org id : ℕ)
      → ((es : List Endpoint) → E es → E (Keyed.remove endpoint_key id es))
      → Keeps (OnEndpoints E) (delete_endpoint f org id)
  unfolding delete_endpoint
  delete_endpoint-Endpoints f org id k =
      call-Keeps (OnEndpoints E) f _ (λ w h. record { holds = h.holds })
        λ w h. record { holds = delete_cases E org id w.repo h.holds (k _ h.holds) }

pub save_endpoint-Leads :
    {E F : List Endpoint → Type 0} (f : Facade) (e : Endpoint)
    → ((es : List Endpoint) → E es → F es)
    → ((es : List Endpoint) → E es → F (Keyed.put endpoint_key e es))
    → Leads (OnEndpoints E) (OnEndpoints F) (save_endpoint f e)
unfolding save_endpoint Memory.save_endpoint
save_endpoint-Leads f e same put =
    call-Leads _ _ f _ (λ w h. record { holds = same _ h.holds })
      λ w h. record { holds = put _ h.holds }

-- Every port call but save_endpoint and delete_endpoint leaves the endpoints alone.
pub ruleset endpoint_frames = (
  read-Endpoints, ask-Endpoints, find_endpoint-Endpoints, find_endpoint_by_id-Endpoints,
  list_endpoints-Endpoints, save_event-Endpoints, find_event-Endpoints, list_events_page-Endpoints,
  purge-Endpoints, claim_due-Endpoints, send-Endpoints, nudge-Endpoints, record_log-Endpoints,
)

-- A lookup that succeeds returns what the repository holds, and leaves the repository alone.
pub record Looks (A : Type 0) (m : Exec World A) (g : Repository → A) : Type 0 where
  pub finds : (w : World) (a : A) → (m w).0 ≡ ok a → g w.repo ≡ a
  pub same_repo : (w : World) → (m w).1.repo ≡ w.repo

call-Looks :
    (A : Type 0) (f : Facade) (g : Repository → A) → Looks A (call f (on_repo (λ r. (g r, r)))) g
unfolding call
call-Looks A f g = record {
  finds = λ w a h. ground arith;
  same_repo = λ w. elim (Option-cases (f.fault w.tick)) [
    | inl e ↦ rw (e, call)
    | inr (x, e) ↦ rw (e, call)
  ];
}

pub find_endpoint-Looks :
    (f : Facade) (org : ℕ)
    → Looks (Option Endpoint) (find_endpoint f org) (Memory.find_endpoint org)
unfolding find_endpoint
find_endpoint-Looks f org = call-Looks (Option Endpoint) f (Memory.find_endpoint org)

pub find_endpoint_by_id-Looks :
    (f : Facade) (org id : ℕ)
    → Looks (Option Endpoint) (find_endpoint_by_id f org id) (Memory.find_endpoint_by_id org id)
unfolding find_endpoint_by_id
find_endpoint_by_id-Looks f org id =
    call-Looks (Option Endpoint) f (Memory.find_endpoint_by_id org id)

pub list_endpoints-Looks :
    (f : Facade) (org : ℕ)
    → Looks (List Endpoint) (list_endpoints f org) (Memory.list_endpoints org)
unfolding list_endpoints
list_endpoints-Looks f org = call-Looks (List Endpoint) f (Memory.list_endpoints org)

pub find_event-Looks :
    (f : Facade) (org id : ℕ)
    → Looks (Option Event) (find_event f org id) (Memory.find_event org id)
unfolding find_event
find_event-Looks f org id = call-Looks (Option Event) f (Memory.find_event org id)
