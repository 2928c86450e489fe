-- ===== src/Scheduler/Db.antt =====
-- scheduler/db.py: an open `SchedulerDb`, its two tables as lists of rows in the order of insertion.
-- Times that a method reads from the clock are arguments. SQLite does not look at the foreign key of
-- task_run_logs, since the code does not switch that on.
pub mod Due
use next_me.Common.{
  ℕ, suc, String, Bool, true, false, not, ◌&&◌, Option, none, some, List, [], ◌∷◌, ◌++◌, map, ◌==◌,
  string_comparable, nat_comparable, if◌then◌else◌, find, keep, any, leb, sort_by, Error,
  integrity_error, Action, return, raise,
}
use mathlib.Core.Option
use next_me.Scheduler.Schema.{
  DateTime, utc, text_le, ScheduleType, ScheduleStatus, active, schedule_status_comparable,
  ScheduledTask,
}

-- A row of scheduled_tasks; its next_run_at is NULL where no run is to come.
pub record TaskRow : Type 0 where
  pub task : ScheduledTask
  pub next_run_at : Option DateTime

-- The error itself stands for its text.
pub record TaskRunLog : Type 0 where
  pub id : ℕ
  pub task_id : String
  pub run_at : ℕ
  pub success : Bool
  pub error : Option Error
  pub duration : ℕ

pub record SchedulerDb : Type 0 where
  pub tasks : List TaskRow
  pub logs : List TaskRunLog
  -- the largest id that AUTOINCREMENT has given
  pub sequence : ℕ

-- `_parse_dt(row["next_run_at"]) or datetime.now(timezone.utc)`
abbrev pub or_now : ℕ → Option DateTime → DateTime
or_now now none = utc now
or_now now (some d) = d

unfoldable pub row_to_task : ℕ → TaskRow → ScheduledTask
row_to_task now row = record row.task { next_run_at = or_now now row.next_run_at }

abbrev pub has_id : String → TaskRow → Bool
has_id task_id row = row.task.id == task_id

-- The id is the primary key. A new row has no last run.
unfoldable pub create : ScheduledTask → Action SchedulerDb (Unit {0})
create task db =
    if any (has_id task.id) db.tasks
    then raise integrity_error db
    else return tt (record db {
      tasks =
          db.tasks
          ++ record {
            task = record task { last_run_at = none };
            next_run_at = some task.next_run_at;
          }
            ∷ [];
    })

unfoldable pub get : ℕ → String → Action SchedulerDb (Option ScheduledTask)
unfolding row_to_task
get now task_id db = return (Option.map (row_to_task now) (find (has_id task_id) db.tasks)) db

-- WHERE status = 'active' AND next_run_at <= ?
unfoldable pub at_most : ℕ → Option DateTime → Bool
unfolding text_le
at_most now none = false
at_most now (some d) = text_le d now

abbrev pub is_due : ℕ → TaskRow → Bool
is_due now row = row.task.status == active && at_most now row.next_run_at

unfoldable pub list_due : ℕ → Action SchedulerDb (List ScheduledTask)
unfolding row_to_task
list_due now db = return (map (row_to_task now) (keep (is_due now) db.tasks)) db

-- ORDER BY created_at DESC
unfoldable pub list_by_chat : ℕ → String → Action SchedulerDb (List ScheduledTask)
unfolding row_to_task
list_by_chat now chat_id db =
    return
      (map (row_to_task now) (
        sort_by (λ a b. leb b.task.created_at a.task.created_at)
          (keep (λ row. row.task.chat_id == chat_id) db.tasks)))
      db

-- What an UPDATE makes of the rows with the id.
abbrev pub update : (TaskRow → TaskRow) → String → Action SchedulerDb (Unit {0})
update f task_id db =
    return tt
      (record db { tasks = map (λ row. if has_id task_id row then f row else row) db.tasks })

abbrev pub row_after_run : ℕ → Option DateTime → ScheduleStatus → TaskRow → TaskRow
row_after_run now next_run_at new_status row = record {
  task = record row.task {
    last_run_at = some (utc now);
    status = new_status;
    run_count = suc row.task.run_count;
  };
  next_run_at = next_run_at;
}

unfoldable pub update_after_run :
    ℕ → String → Option DateTime → ScheduleStatus → Action SchedulerDb (Unit {0})
update_after_run now task_id next_run_at new_status =
    update (row_after_run now next_run_at new_status) task_id

unfoldable pub update_status : String → ScheduleStatus → Action SchedulerDb (Unit {0})
update_status task_id status =
    update (λ row. record row { task = record row.task { status = status } }) task_id

unfoldable pub delete : String → Action SchedulerDb (Unit {0})
delete task_id db =
    return tt (record db { tasks = keep (λ row. not (has_id task_id row)) db.tasks })

unfoldable pub add_run_log : String → ℕ → Bool → Option Error → ℕ → Action SchedulerDb (Unit {0})
add_run_log task_id run_at success error duration db = return tt (record db {
  logs =
      db.logs
      ++ record {
        id = suc db.sequence;
        task_id = task_id;
        run_at = run_at;
        success = success;
        error = error;
        duration = duration;
      }
        ∷ [];
  sequence = suc db.sequence;
})
