-- ===== src/Delivery/Operations/Events.antt =====
-- A property of events that every new event has, and that an attempt and a redelivery keep, holds of
-- all stored events after any history of operations of server/internal/delivery.
use beecon.Base.{
  ℕ, ◌+◌, ◌*◌, ◌≡◌, refl, ◌⊎◌, inl, inr, String, Option, none, some, List, [], ◌∷◌, map, arith, All,
  All-filter, All-take, All-map, subst,
}
use beecon.Base.Keyed
use beecon.Base.Sort.{sort-All}
use beecon.Base.Effects.{ok, or_fail, ◌>>=◌}
use beecon.Base.Effects.Keeps.{
  Keeps, Keeps-pure, Keeps-bind, Keeps-bind_ok, Keeps-collect, Keeps-if, Keeps-for_each-All,
  keeps_rules,
}
use beecon.Delivery.Types.{Endpoint, Event, pending, no_endpoint, err_not_found}
use beecon.Delivery.Memory
use beecon.Delivery.Memory.{
  EventRecord, Repository, event_key, lease_all, due_batch, is_due_for_claim, older,
}
use beecon.Delivery.Memory.Lookups.{find_event-inv}
use beecon.Delivery.Ports.{
  Facade, World, Reply, RetentionReader, call, save_event, find_event, claim_due,
}
use beecon.Delivery.Ports.Frames.{OnEvents, find_event-Looks}
use beecon.Delivery.Ports.EventFrames.{
  event_frames, find_event-Events, read_then-Events, save_event-Events, claim_due-Events,
  purge-Events,
}
use beecon.Delivery.Dispatch.Events.{
  bookkeeping-Events, sign_and_post-Events, record_attempt-Events, resolve-Events,
}
use beecon.Delivery.Outbox.{
  enqueue_to_endpoint, enqueue_unrouted, fan_out, enqueue, send_test, redeliver, requeue,
}
use beecon.Delivery.Dispatch.{
  apply_attempt_outcome, attempt_delivery, dispatch_to, dispatch_one, claim_batch_limit,
  lease_margin, dispatch_once, purge_org, purge_with, purge_once,
}

-- How an event stands when Enqueue or SendTest has just made it.
pub record IsNew (e : Event) : Type 0 where
  pub untried : e.attempts ≡ 0
  pub no_attempt : e.last_attempt_at ≡ none
  pub status : (e.status ≡ pending) ⊎ ((e.status ≡ no_endpoint) × (e.endpoint_id ≡ 0))

abbrev pub AllEvents : (Event → Type 0) → List EventRecord → Type 0
AllEvents Q = All (λ x. Q x.event)

lease_all-AllEvents :
    (Q : Event → Type 0) (until : ℕ) (batch events : List EventRecord)
    → AllEvents Q batch
    → AllEvents Q events
    → AllEvents Q (lease_all until batch events)
unfolding lease_all
lease_all-AllEvents Q until [] events b h = h
lease_all-AllEvents Q until (x ∷ xs) events b h =
    lease_all-AllEvents Q until xs _ b.1 (
      Keyed.put-All event_key (λ y. Q y.event) (record x { lease_until = some until }) events b.0 h)

due_batch-AllEvents :
    (Q : Event → Type 0) (now limit : ℕ) (r : Repository)
    → AllEvents Q r.events
    → AllEvents Q (due_batch now limit r)
unfolding due_batch
due_batch-AllEvents Q now limit r h =
    All-take _ limit _
      (sort-All older _ _ (All-filter (λ x. Q x.event) (is_due_for_claim now) r.events h))

claim_due-AllEvents :
    (Q : Event → Type 0) (now ttl limit : ℕ) (r : Repository)
    → AllEvents Q r.events
    → AllEvents Q (Memory.claim_due now ttl limit r).1.events
unfolding Memory.claim_due
claim_due-AllEvents Q now ttl limit r h =
    lease_all-AllEvents Q (now + ttl) _ r.events (due_batch-AllEvents Q now limit r h) h

claimed-All :
    (Q : Event → Type 0) (f : Facade) (now ttl limit : ℕ) (w : World) (es : List Event)
    → AllEvents Q w.repo.events
    → (claim_due f now ttl limit w).0 ≡ ok es
    → All Q es
unfolding claim_due call Memory.claim_due
claimed-All Q f now ttl limit w es h e =
    let same : map (λ x. x.event) (due_batch now limit w.repo) ≡ es = ground arith in
    rw (← same) (All-map Q (λ x. x.event) _ (due_batch-AllEvents Q now limit w.repo h))

purge-AllEvents :
    (Q : Event → Type 0) (org cutoff : ℕ) (r : Repository)
    → AllEvents Q r.events
    → AllEvents Q (Memory.purge_terminal_older_than org cutoff r).1.events
unfolding Memory.purge_terminal_older_than
purge-AllEvents Q org cutoff r h = All-filter (λ x. Q x.event) _ r.events h

module _ (Q : Event → Type 0) (f : Facade)
    (new_ok : (n : ℕ) (e : Event) → e.id ≡ f.new_event_id n → IsNew e → Q e)
    (attempt_ok : (e : Event) (reply : Reply) (now jitter : ℕ)
      → Q e
      → Q (apply_attempt_outcome e reply now (e.attempts + 1) jitter))
    (redeliver_ok : (e : Event) (now : ℕ)
      → Q e
      → Q (record e { status = pending; next_attempt_at = now })) where
  abbrev pub Good : World → Type 0
  Good = OnEvents (AllEvents Q)

  saved : (e : Event) → Q e → Keeps Good (save_event f e)
  saved e q = save_event-Events f e (λ es h. Keyed.put-All event_key (λ x. Q x.event) _ es q h)

  enqueue_to_endpoint-Good :
      (e : Endpoint) (t : String) (c : Option String) → Keeps Good (enqueue_to_endpoint f e t c)
  unfolding enqueue_to_endpoint
  enqueue_to_endpoint-Good e t c = Keeps-bind _ _ (search event_frames) λ now.
      read_then-Events f.new_event_id _ λ n. Keeps-bind _ _ (search keeps_rules) λ body.
        Keeps-bind _ _
          (saved _
            (new_ok n _ refl (record { untried = refl; no_attempt = refl; status = inl refl })))
          λ _. search (keeps_rules, event_frames)

  enqueue_unrouted-Good :
      (org : ℕ) (t : String) (c : Option String) → Keeps Good (enqueue_unrouted f org t c)
  unfolding enqueue_unrouted
  enqueue_unrouted-Good org t c = Keeps-bind _ _ (search event_frames) λ now.
      read_then-Events f.new_event_id _ λ n. Keeps-bind _ _ (search keeps_rules) λ body.
        Keeps-bind _ _
          (saved _ (
            new_ok n _ refl
              (record { untried = refl; no_attempt = refl; status = inr (refl, refl) })))
          λ _. search (keeps_rules, event_frames)

  fan_out-Good :
      (org : ℕ) (t : String) (c : Option String) (es : List Endpoint)
      → Keeps Good (fan_out f org t c es)
  unfolding fan_out
  fan_out-Good org t c [] = search (keeps_rules, enqueue_unrouted-Good)
  fan_out-Good org t c (e ∷ es) = Keeps-collect _ (e ∷ es) (λ x. enqueue_to_endpoint-Good x t c)

  pub enqueue-Good : (org : ℕ) (t : String) (c : Option String) → Keeps Good (enqueue f org t c)
  unfolding enqueue
  enqueue-Good org t c = search (keeps_rules, event_frames, fan_out-Good)

  pub send_test-Good : (org : ℕ) → Keeps Good (send_test f org)
  unfolding send_test
  send_test-Good org = search (keeps_rules, event_frames, enqueue_to_endpoint-Good)

  found_event-Good :
      (org id : ℕ) (r : Repository) (e : Event)
      → AllEvents Q r.events
      → Memory.find_event org id r ≡ some e
      → Q e
  found_event-Good org id r e h p =
      let (x, found, same, _, _) = find_event-inv org id r e p in
      subst Q same (Keyed.find-All event_key (λ x. Q x.event) id r.events x h found)

  requeued : (e : Event) → Q e → Keeps Good (requeue f e)
  unfolding requeue
  requeued e q =
      Keeps-bind _ _ (search event_frames) λ now.
        Keeps-bind _ _ (saved _ (redeliver_ok e now q)) λ _. search (keeps_rules, event_frames)

  pub redeliver-Good : (org id : ℕ) → Keeps Good (redeliver f org id)
  unfolding redeliver ◌>>=◌
  redeliver-Good org id =
      Keeps-bind_ok (find_event f org id) _ (find_event-Events f org id) λ found w h e.
        let looks = find_event-Looks f org id in
        cases found (find_event f org id w).1 (record { holds = rw (looks.same_repo w) h.holds })
          (rw (looks.same_repo w) (looks.finds w found e))
    where
      cases :
          (o : Option Event) (w : World)
          → Good w
          → Memory.find_event org id w.repo ≡ o
          → Good ((or_fail err_not_found o >>= requeue f) w).1
      cases none w h e = h
      cases (some x) w h e = (requeued x (found_event-Good org id w.repo x h.holds e)).at w h

  attempted : (e : Event) (endpoint : Endpoint) → Q e → Keeps Good (attempt_delivery f e endpoint)
  unfolding attempt_delivery
  attempted e endpoint q = Keeps-bind _ _ (search event_frames) λ secrets.
      Keeps-bind _ _ (search event_frames) λ started.
        Keeps-bind _ _ (sign_and_post-Events f endpoint.url e started secrets) λ reply.
          Keeps-bind _ _ (search event_frames) λ finished.
            Keeps-bind _ _ (search event_frames) λ now.
              Keeps-bind _ _ (search event_frames) λ jitter.
                Keeps-bind _ _ (saved _ (attempt_ok e reply now jitter q)) λ _.
                  search (keeps_rules, event_frames, bookkeeping-Events f, record_attempt-Events f)

  dispatch_one-Good : (e : Event) → Q e → Keeps Good (dispatch_one f e)
  unfolding dispatch_one
  dispatch_one-Good e q = Keeps-bind _ _ (resolve-Events f e) delivered
    where
      delivered : (o : Option Endpoint) → Keeps Good (dispatch_to f e o)
      delivered none = Keeps-pure tt
      delivered (some endpoint) = attempted e endpoint q

  pub dispatch_once-Good : Keeps Good (dispatch_once f)
  unfolding dispatch_once
  dispatch_once-Good = Keeps-bind _ _ (search event_frames) λ now.
      Keeps-bind_ok _ _ (claimed now) λ es w h e.
        (Keeps-for_each-All Q (dispatch_one f) es dispatch_one-Good
            (claimed-All Q f now _ claim_batch_limit w es h.holds e)).at
          _ ((claimed now).at w h)
    where
      claimed :
          (now : ℕ)
          → Keeps Good (claim_due f now (2 * f.delivery_timeout + lease_margin) claim_batch_limit)
      claimed now =
          claim_due-Events f now _ claim_batch_limit
            (λ r h. claim_due-AllEvents Q now _ claim_batch_limit r h)

  purge_org-Good : (r : RetentionReader) (now org : ℕ) → Keeps Good (purge_org f r now org)
  unfolding purge_org
  purge_org-Good r now org = Keeps-bind _ _ (search event_frames) λ days.
      Keeps-if _ _ _ (Keeps-pure tt) (
        Keeps-bind _ _ (purge-Events f org _ (λ r h. purge-AllEvents Q org _ r h))
          (λ _. Keeps-pure tt))

  pub purge_once-Good : Keeps Good (purge_once f)
  unfolding purge_once
  purge_once-Good = purged f.retention
    where
      purged : (o : Option RetentionReader) → Keeps Good (purge_with f o)
      purged none = Keeps-pure tt
      purged (some r) = search (keeps_rules, event_frames, purge_org-Good)
