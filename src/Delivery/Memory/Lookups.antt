-- ===== src/Delivery/Memory/Lookups.antt =====
-- What the endpoint lookups of server/internal/delivery/driven/memory/repository.go find.
use beecon.Base.{
  ℕ, ◌≡◌, refl, ◌∙◌, ap, Bool, true, none, some, List, [], ◌∷◌, arith, ◌==◌, length, length-filter,
  head?, filter, count, All, All-imp₂, All-filter, All-head, filter-All, Option-cases, inl, inr,
}
use beecon.Base.Keyed
use beecon.Base.Sort.{sort, sort-All, length-sort}
use beecon.Delivery.Types.{Endpoint, Event}
use beecon.Delivery.Memory.{
  EventRecord, Repository, endpoint_key, event_key, find_event, find_endpoint, find_endpoint_by_id,
  list_endpoints, oldest_endpoint_first,
}

-- The map holds this endpoint, and it belongs to this organization.
abbrev pub Holds : ℕ → List Endpoint → Endpoint → Type 0
Holds org endpoints e = (Keyed.find endpoint_key e.id endpoints ≡ some e) × (e.org_id ≡ org)

abbrev pub of_org : ℕ → Endpoint → Bool
of_org org e = e.org_id == org

for_org-Holds :
    (org : ℕ) (r : Repository)
    → Keyed.Distinct endpoint_key r.endpoints
    → All (Holds org r.endpoints) (filter (of_org org) r.endpoints)
for_org-Holds org r v =
    All-imp₂ _ (λ e. of_org org e ≡ true) _ (λ e p q. (p, ground arith)) _
      (All-filter _ (of_org org) r.endpoints (Keyed.find_self endpoint_key r.endpoints v))
      (filter-All (of_org org) r.endpoints)

pub find_endpoint-Holds :
    (org : ℕ) (r : Repository) (e : Endpoint)
    → Keyed.Distinct endpoint_key r.endpoints
    → find_endpoint org r ≡ some e
    → Holds org r.endpoints e
unfolding find_endpoint
find_endpoint-Holds org r e v f =
    All-head _ _ e (sort-All oldest_endpoint_first _ _ (for_org-Holds org r v)) f

pub find_endpoint_by_id-Holds :
    (org id : ℕ) (r : Repository) (e : Endpoint)
    → find_endpoint_by_id org id r ≡ some e
    → Holds org r.endpoints e
unfolding find_endpoint_by_id
find_endpoint_by_id-Holds org id r e f =
    elim (Option-cases (Keyed.find endpoint_key id r.endpoints)) [
      | inl missing ↦ ground arith
      | inr (x, found) ↦ ground (
        arith,
        Keyed.find-key endpoint_key id r.endpoints x found,
        λ (same : e.id ≡ id). ap (λ (k : ℕ). Keyed.find endpoint_key k r.endpoints) same,
      )
    ]

pub list_endpoints-Holds :
    (org : ℕ) (r : Repository)
    → Keyed.Distinct endpoint_key r.endpoints
    → All (Holds org r.endpoints) (list_endpoints org r)
unfolding list_endpoints
list_endpoints-Holds org r v = sort-All oldest_endpoint_first _ _ (for_org-Holds org r v)

pub length-list_endpoints :
    (org : ℕ) (r : Repository) → length (list_endpoints org r) ≡ count (of_org org) r.endpoints
unfolding list_endpoints
length-list_endpoints org r =
    length-sort oldest_endpoint_first (filter (of_org org) r.endpoints)
    ∙ length-filter (of_org org) r.endpoints

head-none : {A : Type 0} (xs : List A) → head? xs ≡ none → length xs ≡ 0
head-none [] h = refl
head-none (x ∷ xs) h = ground arith

pub find_endpoint-none :
    (org : ℕ) (r : Repository) → find_endpoint org r ≡ none → count (of_org org) r.endpoints ≡ 0
unfolding find_endpoint
find_endpoint-none org r h = omega (
  arith,
  head-none (sort oldest_endpoint_first (filter (of_org org) r.endpoints)) h,
  length-sort oldest_endpoint_first (filter (of_org org) r.endpoints),
  length-filter (of_org org) r.endpoints,
)

-- An event that is found is the one of its record, and belongs to the organization that asked.
pub find_event-inv :
    (org id : ℕ) (r : Repository) (e : Event)
    → find_event org id r ≡ some e
    → (x : EventRecord) × (Keyed.find event_key id r.events ≡ some x)
      × (x.event ≡ e)
      × (e.id ≡ id)
      × (e.org_id ≡ org)
unfolding find_event
find_event-inv org id r e h = elim (Option-cases (Keyed.find event_key id r.events)) [
  | inl missing ↦ absurd (ground arith)
  | inr (x, found) ↦
      let key = Keyed.find-key event_key id r.events x found in
      (x, found, ground arith, ground (arith, key), ground arith)
]
