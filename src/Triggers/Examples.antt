-- ===== src/Triggers/Examples.antt =====
-- The decision of a poll of server/internal/triggers on concrete inputs.
use beecon.Base.{ℕ, ◌≡◌, refl, Bool, true, false, Option, none, some, List, [], ◌∷◌, All, map}
use beecon.Triggers.Types.{TriggerInstance, PollRecord, active}
use beecon.Triggers.Watermark.{apply_watermark}
use beecon.Triggers.Watermark.Once.{fired_in, same_record, apply_watermark-once}

abbrev an_instance : TriggerInstance
an_instance = record {
  id = 1;
  org_id = 1;
  user_id = 2;
  connection_id = 3;
  trigger_slug = "mail";
  config = [];
  status = active;
  watermark_at = some 10;
  seen_ids = 4 ∷ [];
  paused_at = none;
  next_poll_at = none;
  created_at = 0;
}

abbrev a_record : ℕ → ℕ → PollRecord
a_record id timestamp = record { id = id; timestamp = timestamp; payload = [] }

fire_test :
    map
      (λ (r : PollRecord). r.id)
      (apply_watermark an_instance
        (a_record 7 12 ∷ a_record 4 10 ∷ a_record 5 10 ∷ a_record 6 9 ∷ [])
        20).to_fire
    ≡ 5 ∷ 7 ∷ []
unfolding apply_watermark beecon.Base.Lists.filter beecon.Triggers.Watermark.sorted_by_timestamp
    beecon.Base.Sort.sort beecon.Triggers.Watermark.to_id_set
fire_test = refl

-- A record that one response holds twice fires twice.
twice_test :
    map
      (λ (r : PollRecord). r.id)
      (apply_watermark an_instance (a_record 7 12 ∷ a_record 7 12 ∷ []) 20).to_fire
    ≡ 7 ∷ 7 ∷ []
unfolding apply_watermark beecon.Base.Lists.filter beecon.Triggers.Watermark.sorted_by_timestamp
    beecon.Base.Sort.sort
twice_test = refl

apply_watermark-once_example :
    All
      (λ r. All (All (λ q. same_record q r ≡ false)) (
        fired_in
          (record { records = a_record 7 12 ∷ a_record 8 12 ∷ []; now = 30 } ∷ [])
          (apply_watermark an_instance (a_record 7 12 ∷ []) 20).instance_after))
      (apply_watermark an_instance (a_record 7 12 ∷ []) 20).to_fire
apply_watermark-once_example =
    apply_watermark-once an_instance (a_record 7 12 ∷ []) 20
      (record { records = a_record 7 12 ∷ a_record 8 12 ∷ []; now = 30 } ∷ [])
