-- ===== src/Triggers/Watermark/Once.antt =====
-- No record of server/internal/triggers/watermark.go fires in two polls.
use beecon.Base.{
  ℕ, ◌≡◌, ◌≤◌, ◌≢◌, refl, ap, Bool, true, false, not, ◌&&◌, ◌||◌, Option, none, some, List, [], ◌∷◌,
  All, All-imp, arith, ltb, ◌==◌, Bool-cases, Option-cases, inl, inr, if◌then◌else◌,
}
use beecon.Base.Lists.{filter, All-keep, All-intro, All-imp₂}
use beecon.Base.Sort.{sort, insert_sorted}
use beecon.Triggers.Types.{TriggerInstance, PollRecord}
use beecon.Triggers.Watermark.{
  PollOutcome, latest_from, latest_timestamp, has_id, add_id, to_id_set, from_id_set, fires,
  moved_to, add_seen, advance_poll, apply_watermark, baseline_poll, sorted_by_timestamp,
}

has_id-to_id_set : (i : ℕ) (xs : List ℕ) → has_id i (to_id_set xs) ≡ has_id i xs
unfolding has_id to_id_set
has_id-to_id_set i [] = refl
has_id-to_id_set i (x ∷ xs) = elim (Bool-cases (x == i)) [
  | inl e ↦
      let same : x ≡ i = ground arith in
      ground (arith, same, has_id-to_id_set i xs, has_id-to_id_set x xs)
  | inr e ↦ ground (arith, e, has_id-to_id_set i xs)
]

has_id-insert_sorted :
    (i x : ℕ) (xs : List ℕ) → has_id i (insert_sorted ltb x xs) ≡ ((x == i) || has_id i xs)
unfolding has_id insert_sorted
has_id-insert_sorted i x [] = refl
has_id-insert_sorted i x (y ∷ ys) = ground (arith, has_id-insert_sorted i x ys)

has_id-sort : (i : ℕ) (xs : List ℕ) → has_id i (sort ltb xs) ≡ has_id i xs
unfolding has_id sort
has_id-sort i [] = refl
has_id-sort i (x ∷ xs) = ground (arith, has_id-insert_sorted i x (sort ltb xs), has_id-sort i xs)

has_id-add_id : (i x : ℕ) (xs : List ℕ) → has_id i (add_id x xs) ≡ ((x == i) || has_id i xs)
unfolding has_id
has_id-add_id i x xs = elim (Bool-cases (x == i)) [
  | inl e ↦ let same : x ≡ i = ground arith in ground (arith, same)
  | inr e ↦ ground (arith, e)
]

-- What is in the set stays in it.
add_seen-keeps :
    (w i : ℕ) (rs : List PollRecord) (seen : List ℕ)
    → has_id i seen ≡ true
    → has_id i (add_seen w rs seen) ≡ true
unfolding add_seen
add_seen-keeps w i [] seen h = h
add_seen-keeps w i (r ∷ rs) seen h = elim (Bool-cases (r.timestamp == w)) [
  | inl e ↦
      rw e (add_seen-keeps w i rs (add_id r.id seen) (ground (arith, h, has_id-add_id i r.id seen)))
  | inr e ↦ rw e (add_seen-keeps w i rs seen h)
]

add_seen-adds :
    (w : ℕ) (rs : List PollRecord) (seen : List ℕ)
    → All (λ r. (r.timestamp == w) ≡ true → has_id r.id (add_seen w rs seen) ≡ true) rs
unfolding add_seen
add_seen-adds w [] seen = tt
add_seen-adds w (r ∷ rs) seen = (
  (λ e.
      rw e (
        add_seen-keeps w r.id rs (add_id r.id seen)
          (ground (arith, has_id-add_id r.id r.id seen)))),
  All-imp _ _ (λ x h k. h k) rs
      (add_seen-adds w rs (if r.timestamp == w then add_id r.id seen else seen)),
)

latest_from-ge : (l : ℕ) (rs : List PollRecord) → l ≤ latest_from l rs
unfolding latest_from
latest_from-ge l [] = ground arith
latest_from-ge l (r ∷ rs) =
    ground (arith, latest_from-ge (if ltb l r.timestamp then r.timestamp else l) rs)

latest_from-All : (l : ℕ) (rs : List PollRecord) → All (λ r. r.timestamp ≤ latest_from l rs) rs
unfolding latest_from
latest_from-All l [] = tt
latest_from-All l (r ∷ rs) = (
  ground (arith, latest_from-ge (if ltb l r.timestamp then r.timestamp else l) rs),
  latest_from-All (if ltb l r.timestamp then r.timestamp else l) rs,
)

moved_to-All :
    (w : ℕ) (rs : List PollRecord) → All (λ r. r.timestamp ≤ moved_to w (latest_timestamp rs)) rs
unfolding latest_timestamp
moved_to-All w [] = tt
moved_to-All w (r ∷ rs) = (
  ground (arith, latest_from-ge r.timestamp rs),
  All-imp _ _ (λ x h. ground (arith, h)) rs (latest_from-All r.timestamp rs),
)

moved_to-ge : (w : ℕ) (o : Option ℕ) → w ≤ moved_to w o
moved_to-ge w none = ground arith
moved_to-ge w (some l) = ground arith

-- A record that a poll accounts for: it is older than the watermark, or at it with an id in the set.
unfoldable pub is_seen : TriggerInstance → PollRecord → Bool
is_seen t r = elim t.watermark_at [
  | none ↦ false
  | some w ↦ ltb r.timestamp w || ((r.timestamp == w) && has_id r.id t.seen_ids)
]

-- What is accounted for does not fire.
advance_poll-unseen :
    (t : TriggerInstance) (w : ℕ) (sorted : List PollRecord)
    → t.watermark_at ≡ some w
    → All (λ r. is_seen t r ≡ false) (advance_poll t w sorted).to_fire
unfolding advance_poll is_seen fires
advance_poll-unseen t w sorted e =
    All-keep _ _ sorted
      (All-intro _ (λ r pass. ground (arith, pass, e, has_id-to_id_set r.id t.seen_ids)) sorted)

-- What fires is accounted for from then on.
advance_poll-fired :
    (t : TriggerInstance) (w : ℕ) (sorted : List PollRecord)
    → All
        (λ r. is_seen (advance_poll t w sorted).instance_after r ≡ true)
        (advance_poll t w sorted).to_fire
unfolding advance_poll is_seen from_id_set
advance_poll-fired t w sorted =
    let seen : List ℕ = to_id_set t.seen_ids in
    let fired : List PollRecord = filter (fires w seen) sorted in
    let new_w : ℕ = moved_to w (latest_timestamp fired) in
    let ids : List ℕ = if not (new_w == w) then [] else seen in
    All-imp₂ _ _ _ (λ r le at. ground (arith, le, at, has_id-sort r.id (add_seen new_w fired ids)))
      fired (moved_to-All w fired) (add_seen-adds new_w fired ids)

-- What is accounted for stays so.
advance_poll-keeps :
    (t : TriggerInstance) (w : ℕ) (sorted : List PollRecord) (r : PollRecord)
    → t.watermark_at ≡ some w
    → is_seen t r ≡ true
    → is_seen (advance_poll t w sorted).instance_after r ≡ true
unfolding advance_poll is_seen from_id_set
advance_poll-keeps t w sorted r e h =
    let seen : List ℕ = to_id_set t.seen_ids in
    let fired : List PollRecord = filter (fires w seen) sorted in
    let new_w : ℕ = moved_to w (latest_timestamp fired) in
    let ids : List ℕ = if not (new_w == w) then [] else seen in
    let more : w ≤ new_w = moved_to-ge w (latest_timestamp fired) in
    elim (Bool-cases (has_id r.id ids)) [
      | inl known ↦ ground (
        arith,
        e,
        h,
        more,
        has_id-sort r.id (add_seen new_w fired ids),
        add_seen-keeps new_w r.id fired ids known,
      )
      | inr new ↦ ground (arith, e, h, more, new, has_id-to_id_set r.id t.seen_ids)
    ]

never_seen : (t : TriggerInstance) (r : PollRecord) → t.watermark_at ≡ none → is_seen t r ≢ true
unfolding is_seen
never_seen t r e h = ground (arith, e, h)

baseline_poll-silent :
    (t : TriggerInstance) (sorted : List PollRecord) (now : ℕ)
    → (baseline_poll t sorted now).to_fire ≡ []
unfolding baseline_poll
baseline_poll-silent t sorted now = elim (Option-cases (latest_timestamp sorted)) [
  | inl e ↦ ground (arith, e)
  | inr (l, e) ↦ ground (arith, e)
]

apply_baseline :
    (t : TriggerInstance) (records : List PollRecord) (now : ℕ)
    → t.watermark_at ≡ none
    → apply_watermark t records now ≡ baseline_poll t (sorted_by_timestamp records) now
unfolding apply_watermark
apply_baseline t records now e =
    ap
      (λ o. elim o as (λ _. PollOutcome) [
        | none ↦ baseline_poll t (sorted_by_timestamp records) now
        | some w ↦ advance_poll t w (sorted_by_timestamp records)
      ])
      e

apply_advance :
    (t : TriggerInstance) (records : List PollRecord) (now w : ℕ)
    → t.watermark_at ≡ some w
    → apply_watermark t records now ≡ advance_poll t w (sorted_by_timestamp records)
unfolding apply_watermark
apply_advance t records now w e =
    ap
      (λ o. elim o as (λ _. PollOutcome) [
        | none ↦ baseline_poll t (sorted_by_timestamp records) now
        | some w ↦ advance_poll t w (sorted_by_timestamp records)
      ])
      e

apply_watermark-unseen :
    (t : TriggerInstance) (records : List PollRecord) (now : ℕ)
    → All (λ r. is_seen t r ≡ false) (apply_watermark t records now).to_fire
apply_watermark-unseen t records now = elim (Option-cases t.watermark_at) [
  | inl e ↦
      rw (apply_baseline t records now e, baseline_poll-silent t (sorted_by_timestamp records) now)
        tt
  | inr (w, e) ↦
      rw (apply_advance t records now w e) (advance_poll-unseen t w (sorted_by_timestamp records) e)
]

apply_watermark-fired :
    (t : TriggerInstance) (records : List PollRecord) (now : ℕ)
    → All
        (λ r. is_seen (apply_watermark t records now).instance_after r ≡ true)
        (apply_watermark t records now).to_fire
apply_watermark-fired t records now = elim (Option-cases t.watermark_at) [
  | inl e ↦
      rw (apply_baseline t records now e, baseline_poll-silent t (sorted_by_timestamp records) now)
        tt
  | inr (w, e) ↦
      rw (apply_advance t records now w e) (advance_poll-fired t w (sorted_by_timestamp records))
]

apply_watermark-keeps :
    (t : TriggerInstance) (records : List PollRecord) (now : ℕ) (r : PollRecord)
    → is_seen t r ≡ true
    → is_seen (apply_watermark t records now).instance_after r ≡ true
apply_watermark-keeps t records now r h = elim (Option-cases t.watermark_at) [
  | inl e ↦ absurd (never_seen t r e h)
  | inr (w, e) ↦
      rw (apply_advance t records now w e)
        (advance_poll-keeps t w (sorted_by_timestamp records) r e h)
]

pub record Poll : Type 0 where
  pub records : List PollRecord
  pub now : ℕ

-- What each poll of a history fires.
unfoldable pub fired_in : List Poll → TriggerInstance → List (List PollRecord)
unfolding apply_watermark
fired_in [] t = []
fired_in (p ∷ ps) t =
    let outcome : PollOutcome = apply_watermark t p.records p.now in
    outcome.to_fire ∷ fired_in ps outcome.instance_after

unfoldable pub same_record : PollRecord → PollRecord → Bool
same_record q r = (q.id == r.id) && (q.timestamp == r.timestamp)

is_seen-same :
    (t : TriggerInstance) (q r : PollRecord)
    → is_seen t r ≡ true
    → is_seen t q ≡ false
    → same_record q r ≡ false
unfolding is_seen same_record
is_seen-same t q r h k = elim (Bool-cases ((q.id == r.id) && (q.timestamp == r.timestamp))) [
  | inl e ↦
      let a : q.id ≡ r.id = ground arith in
      let b : q.timestamp ≡ r.timestamp = ground arith in absurd (ground (arith, a, b, h, k))
  | inr e ↦ e
]

later_polls :
    (ps : List Poll) (t : TriggerInstance) (r : PollRecord)
    → is_seen t r ≡ true
    → All (All (λ q. same_record q r ≡ false)) (fired_in ps t)
unfolding fired_in
later_polls [] t r h = tt
later_polls (p ∷ ps) t r h = (
  All-imp _ _ (λ q k. is_seen-same t q r h k) (apply_watermark t p.records p.now).to_fire
      (apply_watermark-unseen t p.records p.now),
  later_polls ps (apply_watermark t p.records p.now).instance_after r
      (apply_watermark-keeps t p.records p.now r h),
)

-- A record that a poll fires, known by its id and its timestamp, fires in none of the polls that follow,
-- whatever each of them fetches and however many they are.
pub apply_watermark-once :
    (t : TriggerInstance) (records : List PollRecord) (now : ℕ) (later : List Poll)
    → All
        (λ r.
          All
            (All (λ q. same_record q r ≡ false))
            (fired_in later (apply_watermark t records now).instance_after))
        (apply_watermark t records now).to_fire
apply_watermark-once t records now later =
    All-imp _ _ (λ r h. later_polls later (apply_watermark t records now).instance_after r h)
      (apply_watermark t records now).to_fire (apply_watermark-fired t records now)
