-- ===== src/Scheduler/Engine/Overdue.antt =====
-- Due tasks of scheduler/engine.py that are late.
use next_me.Common.{◌≤◌, ◌<◌, ◌*◌, ℕ, ◌≡◌, true, none, some, map, arith, ok}
use next_me.Scheduler.Schema.{east, once}
use next_me.Scheduler.Db.{SchedulerDb, TaskRow, row_to_task, is_due}
use next_me.Scheduler.Db.Due.{due-east}
use next_me.Scheduler.Engine.{SchedulerEngine, Reading, compute_next_run, exceeds_grace, run_due}
use next_me.Scheduler.Engine.Fire.{reschedule_lem, rescheduled}

-- A task that runs once, at a time given with an offset in front of UTC by more than the grace
-- period, is never dispatched: when it is listed as due, the tick only marks it as done.
once_east_is_skipped :
    (e : SchedulerEngine) (r : Reading) (now wall ahead grace : ℕ) (row : TaskRow)
    (db : SchedulerDb)
    → row.task.schedule_type ≡ once
    → row.next_run_at ≡ some (record { wall = wall; offset = east ahead })
    → ahead ≤ wall
    → e.overdue_grace_minutes ≡ some grace
    → grace * 60000000 < ahead
    → is_due now row ≡ true
    → run_due e r now (row_to_task now row) db
      ≡ (ok tt, record db { tasks = map (rescheduled r (row_to_task now row) none) db.tasks })
once_east_is_skipped e r now wall ahead grace row db kind next in_range setting late due =
    unfold run_due exceeds_grace in
    ground (
      arith,
      due-east now wall ahead row next in_range due,
      reschedule_lem e r (row_to_task now row) none db
          (unfold compute_next_run row_to_task in ground arith),
    )
