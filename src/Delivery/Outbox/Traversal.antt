-- ===== src/Delivery/Outbox/Traversal.antt =====
-- A consumer that follows the cursors of ListEvents of server/internal/delivery/facade.go to the end.
use mathlib.Core.List.{append-nil, append_assoc}
use beecon.Base.{
  ℕ, zero, suc, ◌+◌, ◌≤◌, ◌<◌, ◌≡◌, ◌≢◌, refl, sym, ap, subst, ◌∙◌, String, Bool, true, false, not,
  ◌&&◌, ◌||◌, Option, none, some, List, [], ◌∷◌, ◌++◌, map, arith, All, All-imp, All-map, length,
  length-filter, length-map, count-le-length, take, get_last?, filter, str_eq, ltb, ◌==◌,
  if◌then◌else◌, Bool-cases, inl, inr,
}
use beecon.Base.Keyed
use beecon.Base.Sort.{sort, length-sort, filter-sort}
use beecon.Base.Effects.{Result, ok, err, ◌>>=◌}
use beecon.Delivery.Types.{Event, status_eq}
use beecon.Delivery.Memory
use beecon.Delivery.Memory.{
  EventRecord, ListCursor, ListFilter, Repository, event_key, matches_event_filter, is_after_cursor,
  newest_event_first, page, passes,
}
use beecon.Delivery.Ports.{Facade, World, call, list_events_page}
use beecon.Delivery.Outbox.{
  ListEventsParams, ListEventsResult, list_events, normalize_list_limit, paginate_events, cursor_of,
}
use beecon.Delivery.Outbox.Strict.{
  IsStrict, event_id, sort-IsStrict, map-Distinct, filter-behind, Cut, Cut-at,
}
use beecon.Delivery.Outbox.Pages.{
  asked_for, newest_asym, newest_trans, normalize_list_limit_lem, paginate_lem,
}

filter_twice :
    {A : Type 0} (p q r : A → Bool) (xs : List A)
    → ((x : A) → p x ≡ (q x && r x))
    → filter p xs ≡ filter r (filter q xs)
unfolding beecon.Base.Lists.filter
filter_twice p q r [] h = refl
filter_twice p q r (x ∷ xs) h = ground (arith, h x, filter_twice p q r xs h)

-- The request for the page behind this cursor, and the one for the first page.
abbrev pub behind : ListEventsParams → Option ListCursor → ListEventsParams
behind p c = record p { cursor = c }

and_last : (a b c d : Bool) → (a && b && c && d) ≡ ((a && b && c && true) && d)
and_last true true true d = refl
and_last true true false d = refl
and_last true false c d = refl
and_last false b c d = refl

after_cursor :
    (x e : Event)
    → is_after_cursor e (record { created_at = x.created_at; id = x.id }) ≡ newest_event_first x e
unfolding is_after_cursor newest_event_first
after_cursor x e = ground arith

abbrev filter_of : ListEventsParams → Option ListCursor → ListFilter
filter_of p c = record {
  event_type = p.event_type;
  delivery_status = p.delivery_status;
  cursor = c;
  limit = normalize_list_limit p.limit + 1;
}

cursor_last :
    (org : ℕ) (p : ListEventsParams) (x e : Event)
    → matches_event_filter org (filter_of p (cursor_of (some x))) e
      ≡ (matches_event_filter org (filter_of p none) e && newest_event_first x e)
unfolding matches_event_filter
cursor_last org p x e =
    and_last (e.org_id == org) (str_eq p.event_type "" || str_eq e.event_type p.event_type)
      (passes (status_eq e.status) p.delivery_status)
      (is_after_cursor e (record { created_at = x.created_at; id = x.id }))
    ∙ ap
        (λ (b : Bool).
          (e.org_id == org)
          && (str_eq p.event_type "" || str_eq e.event_type p.event_type)
          && passes (status_eq e.status) p.delivery_status
          && true
          && b)
        (after_cursor x e)

-- The events behind a cursor are those of the first request that come after it.
asked_for-behind :
    (org : ℕ) (p : ListEventsParams) (x : Event) (r : Repository)
    → asked_for org (behind p (cursor_of (some x))) r
      ≡ filter (newest_event_first x) (asked_for org (behind p none) r)
asked_for-behind org p x r =
    ap (sort newest_event_first)
      (filter_twice _ _ (newest_event_first x) (map (λ y. y.event) r.events) (cursor_last org p x))
    ∙ sym (filter-sort newest_event_first newest_asym newest_trans (newest_event_first x) _)

-- A request after the other, each with the cursor of the one before, until a page has none; the
-- events of all pages, in order.
abbrev follow :
    (ListEventsParams → World → List Event)
    → ListEventsParams
    → Result ListEventsResult × World
    → List Event
follow go p (err e, w) = []
follow go p (ok events, w) =
    events.items ++ elim events.next_cursor [ none ↦ [] | some c ↦ go (behind p (some c)) w ]

unfoldable pub walk : ℕ → Facade → ℕ → ListEventsParams → World → List Event
walk zero f org p w = []
walk (suc n) f org p w = follow (walk n f org) p (list_events f org p w)

abbrev later : World → World
later w = record w { tick = suc w.tick }

module _ (f : Facade) (no_fault : (n : ℕ) → f.fault n ≡ none) (org : ℕ) (p : ListEventsParams) where
  listed :
      (c : Option ListCursor) (w : World)
      → list_events f org (behind p c) w ≡ (
        ok (
            paginate_events
              (page (normalize_list_limit p.limit + 1) (asked_for org (behind p c) w.repo))
              (normalize_list_limit p.limit)),
        later w,
      )
  unfolding list_events ◌>>=◌ list_events_page call Memory.list_events_page
  listed c w = rw (no_fault w.tick) refl

  abbrev size : ℕ
  size = normalize_list_limit p.limit

  last_page :
      (n : ℕ) (c : Option ListCursor) (w : World) (rest : List Event)
      → asked_for org (behind p c) w.repo ≡ rest
      → ltb size (length rest) ≡ false
      → walk (suc n) f org (behind p c) w ≡ rest ++ []
  unfolding walk
  last_page n c w rest asked no_more =
      ap (follow (walk n f org) (behind p c)) (listed c w)
      ∙ ap (λ (es : ListEventsResult). follow (walk n f org) (behind p c) (ok es, later w))
          (ap (λ (es : List Event). paginate_events (page (size + 1) es) size) asked
            ∙ paginate_lem size rest
            ∙ ap
                (λ (b : Bool).
                  if b
                  then record {
                    items = take size rest;
                    next_cursor = cursor_of (get_last? (take size rest));
                  }
                  else record { items = rest; next_cursor = none })
                no_more)

  page_and_on :
      (n : ℕ) (c : Option ListCursor) (w : World) (rest : List Event) (x : Event)
      → asked_for org (behind p c) w.repo ≡ rest
      → ltb size (length rest) ≡ true
      → get_last? (take size rest) ≡ some x
      → walk (suc n) f org (behind p c) w
        ≡ take size rest ++ walk n f org (behind p (cursor_of (some x))) (later w)
  unfolding walk
  page_and_on n c w rest x asked more at_end =
      ap (follow (walk n f org) (behind p c)) (listed c w)
      ∙ ap (λ (es : ListEventsResult). follow (walk n f org) (behind p c) (ok es, later w))
          (ap (λ (es : List Event). paginate_events (page (size + 1) es) size) asked
            ∙ paginate_lem size rest
            ∙ ap
                (λ (b : Bool).
                  if b
                  then record {
                    items = take size rest;
                    next_cursor = cursor_of (get_last? (take size rest));
                  }
                  else record { items = rest; next_cursor = none })
                more
            ∙ ap
                (λ (o : Option Event). record { items = take size rest; next_cursor = cursor_of o })
                at_end)

  -- That n requests visit a part of the events that is behind a cursor.
  abbrev Visits : ℕ → Type 0
  Visits n =
      (c : Option ListCursor) (w : World) (pre rest : List Event)
      → asked_for org (behind p c) w.repo ≡ rest
      → asked_for org (behind p none) w.repo ≡ pre ++ rest
      → IsStrict (asked_for org (behind p none) w.repo)
      → length rest < n
      → walk n f org (behind p c) w ≡ rest

  whole-Cut :
      (r : Repository) (pre rest : List Event) (cut : Cut size rest)
      → asked_for org (behind p none) r ≡ pre ++ rest
      → asked_for org (behind p none) r ≡ (pre ++ cut.init) ++ cut.last ∷ cut.rest
  whole-Cut r pre rest cut whole =
      whole
      ∙ ap (λ (t : List Event). pre ++ t) cut.parts
      ∙ sym (append_assoc pre cut.init (cut.last ∷ cut.rest))

  asked-Cut :
      (r : Repository) (pre rest : List Event) (cut : Cut size rest)
      → asked_for org (behind p none) r ≡ pre ++ rest
      → IsStrict (asked_for org (behind p none) r)
      → asked_for org (behind p (cursor_of (some cut.last))) r ≡ cut.rest
  asked-Cut r pre rest cut whole strict =
      let whole' = whole-Cut r pre rest cut whole in
      asked_for-behind org p cut.last r
      ∙ ap (filter (newest_event_first cut.last)) whole'
      ∙ filter-behind (pre ++ cut.init) cut.last cut.rest (subst IsStrict whole' strict)

  visit-Cut :
      (n : ℕ) (c : Option ListCursor) (w : World) (pre rest : List Event) (cut : Cut size rest)
      → Visits n
      → asked_for org (behind p c) w.repo ≡ rest
      → asked_for org (behind p none) w.repo ≡ pre ++ rest
      → IsStrict (asked_for org (behind p none) w.repo)
      → length rest < suc n
      → ltb size (length rest) ≡ true
      → walk (suc n) f org (behind p c) w ≡ rest
  visit-Cut n c w pre rest cut visits asked whole strict enough more =
      let whole' =
        whole
        ∙ ap (λ (t : List Event). pre ++ t)
            (cut.parts ∙ sym (append_assoc cut.init (cut.last ∷ []) cut.rest))
        ∙ sym (append_assoc pre (cut.init ++ cut.last ∷ []) cut.rest) in
      page_and_on n c w rest cut.last asked more cut.at_end
      ∙ ap (λ (t : List Event). take size rest ++ t)
          (visits (cursor_of (some cut.last)) (later w) (pre ++ (cut.init ++ cut.last ∷ []))
            cut.rest (asked-Cut w.repo pre rest cut whole strict) whole' strict
            (omega (arith, cut.shorter, enough, normalize_list_limit_lem p.limit)))
      ∙ ap (λ (t : List Event). t ++ cut.rest) cut.taken
      ∙ append_assoc cut.init (cut.last ∷ []) cut.rest
      ∙ sym cut.parts

  walk_from : (n : ℕ) → Visits n
  walk_from zero c w pre rest asked whole strict enough = absurd (omega arith)
  walk_from (suc n) c w pre rest asked whole strict enough =
      elim (Bool-cases (ltb size (length rest))) [
        | inl more ↦
            visit-Cut n c w pre rest
              (Cut-at size rest (normalize_list_limit_lem p.limit).0 (ground arith)) (walk_from n)
              asked whole strict enough more
        | inr no_more ↦ last_page n c w rest asked no_more ∙ append-nil rest
      ]

-- While no port call fails and no two stored events share an id, following the cursors from the page
-- that a request without a cursor returns visits exactly the stored events that the request asks for, each one once and the newest
-- first, whatever the page size; one request more than there are stored events is enough to reach the
-- last page.
pub walk_lem :
    (f : Facade) (org : ℕ) (p : ListEventsParams) (w : World)
    → ((n : ℕ) → f.fault n ≡ none)
    → Keyed.Distinct event_key w.repo.events
    → walk (suc (length w.repo.events)) f org (behind p none) w
      ≡ asked_for org (behind p none) w.repo
walk_lem f org p w no_fault distinct =
    let events = map (λ r. r.event) w.repo.events in
    let matching = matches_event_filter org (filter_of p none) in
    walk_from f no_fault org p (suc (length w.repo.events)) none w []
      (asked_for org (behind p none) w.repo) refl refl
      (sort-IsStrict (filter matching events)
        (Keyed.filter-Distinct event_id matching events (map-Distinct w.repo.events distinct)))
      (omega (
        arith,
        length-sort newest_event_first (filter matching events),
        length-filter matching events,
        count-le-length matching events,
        length-map (λ (r : EventRecord). r.event) w.repo.events,
      ))
