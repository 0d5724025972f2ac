-- ===== src/Delivery/Outbox/Strict.antt =====
-- Events in the order of ListEventsPage, newest first, of server/internal/delivery: lists in which each
-- event stands once, and how a page cuts them.
use beecon.Base.{
  ℕ, zero, suc, ◌+◌, ◌≤◌, ◌<◌, ◌≡◌, ◌≢◌, refl, sym, ap, subst, ◌∙◌, String, Bool, true, false, not,
  ◌&&◌, ◌||◌, Option, none, some, List, [], ◌∷◌, ◌++◌, map, arith, All, All-imp, All-map, length,
  length-filter, length-map, count-le-length, take, get_last?, filter, str_eq, ltb, ◌==◌,
  if◌then◌else◌, Bool-cases, inl, inr,
}
use beecon.Base.Keyed
use beecon.Base.Sort.{sort, insert_sorted, insert_sorted-All, sort-All}
use beecon.Delivery.Types.{Event}
use beecon.Delivery.Memory.{EventRecord, event_key, newest_event_first}
use beecon.Delivery.Outbox.Pages.{newest_asym}

-- Each event comes before all that follow it.
abbrev pub IsStrict : List Event → Type 0
IsStrict [] = Unit
IsStrict (x ∷ xs) = All (λ y. newest_event_first x y ≡ true) xs × IsStrict xs

abbrev pub event_id : Event → ℕ
event_id e = e.id

newest_total :
    (a b : Event) → newest_event_first b a ≡ false → a.id ≢ b.id → newest_event_first a b ≡ true
unfolding newest_event_first
newest_total a b h n = ground arith

newest_before :
    (a b c : Event)
    → newest_event_first a b ≡ true
    → newest_event_first b c ≡ true
    → newest_event_first a c ≡ true
unfolding newest_event_first
newest_before a b c h k = ground arith

insert_sorted-IsStrict :
    (a : Event) (xs : List Event)
    → All (λ y. y.id ≢ a.id) xs
    → IsStrict xs
    → IsStrict (insert_sorted newest_event_first a xs)
unfolding insert_sorted
insert_sorted-IsStrict a [] n h = (tt, tt)
insert_sorted-IsStrict a (x ∷ xs) n h = elim (Bool-cases (newest_event_first x a)) [
  | inl e ↦ rw e (
    insert_sorted-All newest_event_first (λ y. newest_event_first x y ≡ true) a xs e h.0,
    insert_sorted-IsStrict a xs n.1 h.1,
  )
  | inr e ↦
      let first : newest_event_first a x ≡ true = newest_total a x e (λ q. n.0 (sym q)) in
      rw e ((first, All-imp _ _ (λ y q. newest_before a x y first q) xs h.0), h)
]

pub sort-IsStrict :
    (xs : List Event) → Keyed.Distinct event_id xs → IsStrict (sort newest_event_first xs)
unfolding sort
sort-IsStrict [] h = tt
sort-IsStrict (x ∷ xs) h =
    insert_sorted-IsStrict x (sort newest_event_first xs)
      (sort-All newest_event_first (λ y. y.id ≢ x.id) xs h.0) (sort-IsStrict xs h.1)

pub map-Distinct :
    (rs : List EventRecord)
    → Keyed.Distinct event_key rs
    → Keyed.Distinct event_id (map (λ r. r.event) rs)
map-Distinct [] h = tt
map-Distinct (r ∷ rs) h =
    (All-map (λ y. y.id ≢ r.event.id) (λ s. s.event) rs h.0, map-Distinct rs h.1)

-- What lies behind an event of a strict list is what the cursor of that event lets through.
after-All :
    (x : Event) (zs : List Event)
    → All (λ y. newest_event_first x y ≡ true) zs
    → filter (newest_event_first x) zs ≡ zs
unfolding beecon.Base.Lists.filter
after-All x [] h = refl
after-All x (z ∷ zs) h = ground (arith, h.0, after-All x zs h.1)

newest_irrefl : (x : Event) → newest_event_first x x ≡ false
unfolding newest_event_first
newest_irrefl x = ground arith

split-All :
    (P : Event → Type 0) (pre : List Event) (x : Event) (zs : List Event)
    → All P (pre ++ x ∷ zs)
    → P x
split-All P [] x zs h = h.0
split-All P (y ∷ ys) x zs h = split-All P ys x zs h.1

pub filter-behind :
    (pre : List Event) (x : Event) (zs : List Event)
    → IsStrict (pre ++ x ∷ zs)
    → filter (newest_event_first x) (pre ++ x ∷ zs) ≡ zs
unfolding beecon.Base.Lists.filter
filter-behind [] x zs h = ground (arith, newest_irrefl x, after-All x zs h.0)
filter-behind (y ∷ ys) x zs h =
    let earlier : newest_event_first y x ≡ true =
      split-All (λ z. newest_event_first y z ≡ true) ys x zs h.0 in
    ground (arith, newest_asym y x earlier, filter-behind ys x zs h.1)

-- A page that is not the last: its last event, and what comes behind it.
pub record Cut (k : ℕ) (xs : List Event) : Type 0 where
  pub init : List Event
  pub last : Event
  pub rest : List Event
  pub taken : take k xs ≡ init ++ last ∷ []
  pub at_end : get_last? (take k xs) ≡ some last
  pub parts : xs ≡ init ++ last ∷ rest
  pub shorter : length rest + k ≡ length xs

pub Cut-at : (k : ℕ) (xs : List Event) → 0 < k → k < length xs → Cut k xs
Cut-at zero xs h l = absurd (omega arith)
Cut-at (suc zero) [] h l = absurd (omega arith)
Cut-at (suc zero) (x ∷ xs) h l = record {
  init = [];
  last = x;
  rest = xs;
  taken = refl;
  at_end = refl;
  parts = refl;
  shorter = omega arith;
}
Cut-at (suc (suc k)) [] h l = absurd (omega arith)
Cut-at (suc (suc k)) (x ∷ []) h l = absurd (omega arith)
Cut-at (suc (suc k)) (x ∷ y ∷ ys) h l =
    let c = Cut-at (suc k) (y ∷ ys) (omega arith) (omega (arith, l)) in
    record {
      init = x ∷ c.init;
      last = c.last;
      rest = c.rest;
      taken = ap (λ t. x ∷ t) c.taken;
      at_end = c.at_end;
      parts = ap (λ t. x ∷ t) c.parts;
      shorter = omega (arith, c.shorter);
    }
