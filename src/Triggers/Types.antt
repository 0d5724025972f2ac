-- ===== src/Triggers/Types.antt =====
-- server/internal/triggers/types.go, and PollRecord of port.go. A JSON object is its members, each value
-- its text.
use beecon.Base.{ℕ, String, Option, none, some, List, []}

pub data Status : Type 0 where
  active disabled paused_trigger_removed : Status

pub record TriggerInstance : Type 0 where
  pub id : ℕ
  pub org_id : ℕ
  pub user_id : ℕ
  pub connection_id : ℕ
  pub trigger_slug : String
  pub config : List (String × String)
  pub status : Status
  pub watermark_at : Option ℕ
  pub seen_ids : List ℕ
  pub paused_at : Option ℕ
  pub next_poll_at : Option ℕ
  pub created_at : ℕ

pub record PollRecord : Type 0 where
  pub id : ℕ
  pub timestamp : ℕ
  pub payload : List (String × String)

unfoldable pub new_trigger_instance :
    ℕ → ℕ → ℕ → ℕ → String → List (String × String) → ℕ → TriggerInstance
new_trigger_instance id org user connection slug config now = record {
  id = id;
  org_id = org;
  user_id = user;
  connection_id = connection;
  trigger_slug = slug;
  config = config;
  status = active;
  watermark_at = none;
  seen_ids = [];
  paused_at = none;
  next_poll_at = some now;
  created_at = now;
}

unfoldable pub disable : TriggerInstance → TriggerInstance
disable t = record t { status = disabled }

unfoldable pub enable : ℕ → TriggerInstance → TriggerInstance
enable now t = record t { status = active; watermark_at = some now; seen_ids = [] }

unfoldable pub pause_for_removed_trigger : TriggerInstance → TriggerInstance
pause_for_removed_trigger t = record t { status = paused_trigger_removed }
