-- ===== src/Triggers/Watermark.antt =====
-- server/internal/triggers/watermark.go, and reschedule of poll.go. A set of ids is a list of distinct
-- ones.
pub mod Once
use beecon.Base.{
  ℕ, Bool, true, false, not, ◌&&◌, ◌||◌, Option, none, some, List, [], ◌∷◌, map, ltb, ◌==◌,
  if◌then◌else◌,
}
use beecon.Base.Clock.{add_duration}
use beecon.Base.Lists.{filter}
use beecon.Base.Sort.{sort}
use beecon.Triggers.Types.{TriggerInstance, PollRecord}

pub record PollOutcome : Type 0 where
  pub to_fire : List PollRecord
  pub instance_after : TriggerInstance

abbrev pub record_older : PollRecord → PollRecord → Bool
record_older a b =
    if not (a.timestamp == b.timestamp) then ltb a.timestamp b.timestamp else ltb a.id b.id

unfoldable pub sorted_by_timestamp : List PollRecord → List PollRecord
sorted_by_timestamp records = sort record_older records

-- The loop over the records after the first.
unfoldable pub latest_from : ℕ → List PollRecord → ℕ
latest_from latest [] = latest
latest_from latest (r ∷ rs) =
    latest_from (if ltb latest r.timestamp then r.timestamp else latest) rs

unfoldable pub latest_timestamp : List PollRecord → Option ℕ
unfolding latest_from
latest_timestamp [] = none
latest_timestamp (r ∷ rs) = some (latest_from r.timestamp rs)

unfoldable pub ids_at_timestamp : ℕ → List PollRecord → List ℕ
ids_at_timestamp ts [] = []
ids_at_timestamp ts (r ∷ rs) =
    let rest = ids_at_timestamp ts rs in if r.timestamp == ts then r.id ∷ rest else rest

unfoldable pub has_id : ℕ → List ℕ → Bool
has_id id [] = false
has_id id (x ∷ xs) = (x == id) || has_id id xs

abbrev pub add_id : ℕ → List ℕ → List ℕ
add_id id ids = if has_id id ids then ids else id ∷ ids

unfoldable pub to_id_set : List ℕ → List ℕ
unfolding has_id
to_id_set [] = []
to_id_set (id ∷ ids) = add_id id (to_id_set ids)

unfoldable pub from_id_set : List ℕ → List ℕ
from_id_set ids = sort ltb ids

unfoldable pub baseline_poll : TriggerInstance → List PollRecord → ℕ → PollOutcome
unfolding ids_at_timestamp
baseline_poll instance_before sorted now = elim (latest_timestamp sorted) [
  | none ↦ record {
    to_fire = [];
    instance_after = record instance_before { watermark_at = some now; seen_ids = [] };
  }
  | some latest ↦ record {
    to_fire = [];
    instance_after = record instance_before {
      watermark_at = some latest;
      seen_ids = ids_at_timestamp latest sorted;
    };
  }
]

-- The test of the first loop of advancePoll.
unfoldable pub fires : ℕ → List ℕ → PollRecord → Bool
fires watermark seen r =
    ltb watermark r.timestamp || ((r.timestamp == watermark) && not (has_id r.id seen))

abbrev pub moved_to : ℕ → Option ℕ → ℕ
moved_to watermark none = watermark
moved_to watermark (some latest) = if ltb watermark latest then latest else watermark

-- The second loop: the fired records at the new watermark join the set.
unfoldable pub add_seen : ℕ → List PollRecord → List ℕ → List ℕ
unfolding has_id
add_seen watermark [] seen = seen
add_seen watermark (r ∷ rs) seen =
    add_seen watermark rs (if r.timestamp == watermark then add_id r.id seen else seen)

unfoldable pub advance_poll : TriggerInstance → ℕ → List PollRecord → PollOutcome
unfolding fires add_seen
advance_poll instance_before watermark sorted =
    let seen : List ℕ = to_id_set instance_before.seen_ids in
    let to_fire : List PollRecord = filter (fires watermark seen) sorted in
    let new_watermark : ℕ = moved_to watermark (latest_timestamp to_fire) in
    record {
      to_fire = to_fire;
      instance_after = record instance_before {
        watermark_at = some new_watermark;
        seen_ids = from_id_set (
            add_seen new_watermark to_fire (if not (new_watermark == watermark) then [] else seen));
      };
    }

unfoldable pub apply_watermark : TriggerInstance → List PollRecord → ℕ → PollOutcome
unfolding baseline_poll advance_poll
apply_watermark instance_before records now =
    let sorted : List PollRecord = sorted_by_timestamp records in
    elim instance_before.watermark_at [
      | none ↦ baseline_poll instance_before sorted now
      | some watermark ↦ advance_poll instance_before watermark sorted
    ]

unfoldable pub pause : TriggerInstance → ℕ → TriggerInstance
pause t now = record t { paused_at = some now }

unfoldable pub resume : TriggerInstance → ℕ → TriggerInstance
resume t now = record t { paused_at = none; watermark_at = some now; seen_ids = [] }

unfoldable pub reschedule : TriggerInstance → ℕ → ℕ → TriggerInstance
reschedule t now interval = record t { next_poll_at = some (add_duration now interval) }
