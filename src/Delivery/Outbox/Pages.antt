-- ===== src/Delivery/Outbox/Pages.antt =====
-- What a page of ListEvents of server/internal/delivery/facade.go holds.
use beecon.Base.{
  ℕ, zero, suc, ◌+◌, ◌≤◌, ◌<◌, ◌≡◌, refl, ap, true, false, none, List, [], ◌∷◌, map, arith, length,
  length-take, take, get_last?, filter, ltb, if◌then◌else◌,
}
use beecon.Base.Sort.{sort}
use beecon.Delivery.Types.{Event}
use beecon.Delivery.Memory.{Repository, matches_event_filter, newest_event_first, page}
use beecon.Delivery.Outbox.{
  ListEventsParams, normalize_list_limit, paginate_events, cursor_of, max_list_limit,
}

pub newest_asym : (a b : Event) → newest_event_first a b ≡ true → newest_event_first b a ≡ false
unfolding newest_event_first
newest_asym a b h = ground arith

pub newest_trans :
    (a b c : Event)
    → newest_event_first b a ≡ false
    → newest_event_first c b ≡ false
    → newest_event_first c a ≡ false
unfolding newest_event_first
newest_trans a b c h k = ground arith

pub normalize_list_limit_lem :
    (n : ℕ) → (0 < normalize_list_limit n) × (normalize_list_limit n ≤ max_list_limit)
unfolding normalize_list_limit
normalize_list_limit_lem n = ground arith

-- The stored events that a request asks for, the newest first.
abbrev pub asked_for : ℕ → ListEventsParams → Repository → List Event
asked_for org p r = sort newest_event_first (
    filter
      (matches_event_filter org (record {
        event_type = p.event_type;
        delivery_status = p.delivery_status;
        cursor = p.cursor;
        limit = normalize_list_limit p.limit + 1;
      }))
      (map (λ x. x.event) r.events))

take-take : {A : Type 0} (n : ℕ) (xs : List A) → take n (take (suc n) xs) ≡ take n xs
take-take zero xs = refl
take-take (suc n) [] = refl
take-take (suc n) (x ∷ xs) = ap (λ t. x ∷ t) (take-take n xs)

-- One element more than a page holds is asked for, and shows whether there is another page.
pub paginate_lem :
    (k : ℕ) (xs : List Event)
    → paginate_events (page (k + 1) xs) k ≡ (
        if ltb k (length xs)
        then record { items = take k xs; next_cursor = cursor_of (get_last? (take k xs)) }
        else record { items = xs; next_cursor = none })
unfolding paginate_events
paginate_lem k xs = ground (arith, length-take (k + 1) xs, take-take k xs)
