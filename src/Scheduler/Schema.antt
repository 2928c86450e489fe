-- ===== src/Scheduler/Schema.antt =====
-- scheduler/schema.py, and the dates that it keeps. The text of a `datetime` says a wall clock's
-- time and an offset from UTC; the times of the model are microseconds, counted from a day before
-- the first that Python knows, so that no offset reaches below 0.
use next_me.Common.{
  ℕ, ◌+◌, ◌-◌, String, Bool, true, false, ◌≡◌, ◌↔◌, Option, arith, ◌&&◌, ◌||◌, ◌==◌, nat_comparable,
  ltb, Comparable,
}

-- How far a clock is in front of UTC, or behind it by more than nothing.
pub data Offset : Type 0 where
  east west : ℕ → Offset

pub record DateTime : Type 0 where
  pub wall : ℕ
  pub offset : Offset

abbrev pub utc : ℕ → DateTime
utc t = record { wall = t; offset = east 0 }

-- The moment that is meant, on the clock of UTC.
abbrev pub instant_at : ℕ → Offset → ℕ
instant_at wall (east e) = wall - e
instant_at wall (west w) = wall + w

abbrev pub instant : DateTime → ℕ
instant d = instant_at d.wall d.offset

-- The text of the offset is not behind "+00:00": a minus sign is behind a plus sign.
abbrev pub is_utc : Offset → Bool
is_utc (east e) = e == 0
is_utc (west w) = false

-- `d.isoformat() <= now.isoformat()` for a `now` of UTC, as SQLite compares the two texts: first the
-- wall clocks (fields of a fixed width, and no fraction is before every fraction), then the offsets.
unfoldable pub text_le : DateTime → ℕ → Bool
text_le d now = ltb d.wall now || (d.wall == now && is_utc d.offset)

pub data ScheduleType : Type 0 where
  once interval cron : ScheduleType

pub data ScheduleStatus : Type 0 where
  active paused done : ScheduleStatus

abbrev pub same_status : ScheduleStatus → ScheduleStatus → Bool
same_status active active = true
same_status paused paused = true
same_status done done = true
same_status _ _ = false

pub same_status_iff : (a b : ScheduleStatus) → (same_status a b ≡ true) ↔ (a ≡ b)
same_status_iff a b = ground arith

instance abbrev pub schedule_status_comparable : Comparable ScheduleStatus
schedule_status_comparable = record { equals = same_status; equals_iff = same_status_iff }

pub record ScheduledTask : Type 0 where
  pub id : String
  pub chat_id : String
  pub creator_open_id : String
  pub prompt : String
  pub schedule_type : ScheduleType
  pub schedule_value : String
  pub next_run_at : DateTime
  pub last_run_at : Option DateTime
  pub status : ScheduleStatus
  pub run_count : ℕ
  pub max_runs : Option ℕ
  -- on the clock of UTC
  pub created_at : ℕ
  pub project_name : Option String
  pub notify_chat : Bool
