-- ===== src/Scheduler/Engine.antt =====
-- scheduler/engine.py: `compute_next_run` and `SchedulerEngine`. The dispatcher and all that runs
-- while it is awaited, croniter, and `timedelta(seconds=float(text))` are fields of the engine.
-- The times that the code reads from its clock are a `Reading` for each task.
pub mod Fire
pub mod Overdue
pub mod Bound
use Prim.Native.String.{◌++◌ as append}
use next_me.Common.{
  ℕ, suc, ◌+◌, ◌-◌, ◌*◌, ◌/◌, String, Bool, true, false, Option, none, some, List, [], ◌∷◌, ◌==◌,
  nat_comparable, if◌then◌else◌, ltb, leb, Error, value_error, Result, ok, raised, Action, return,
  raise, ◌>>=◌, ◌>>◌,
}
use next_me.Core.Types.{Task}
use next_me.Scheduler.Schema.{
  DateTime, utc, instant, ScheduleType, once, interval, cron, ScheduleStatus, active, done,
  ScheduledTask,
}
use next_me.Scheduler.Db.{SchedulerDb, list_due, update_after_run, add_run_log}

pub record SchedulerEngine : Type 0 where
  -- minutes; `none` where the setting is below 0
  pub overdue_grace_minutes : Option ℕ
  -- microseconds; `none` where it raises
  pub timedelta_of : String → Option ℕ
  -- `croniter(expression, now).get_next(datetime)`, and `none` where one of the two raises
  pub croniter : String → ℕ → Option DateTime
  -- the minutes of the overdue notice, the scheduled task that the replies are for, and the task
  pub dispatch : Option ℕ → ScheduledTask → Task → Action SchedulerDb (Unit {0})

-- What the clock and `uuid4` give while one task is handled.
pub record Reading : Type 0 where
  pub uuid : String
  pub computed : ℕ
  pub written : ℕ
  pub duration : ℕ

unfoldable pub compute_next_run : SchedulerEngine → ℕ → ScheduledTask → Result (Option DateTime)
compute_next_run e now task = elim task.schedule_type [
  | once ↦ ok none
  | interval ↦ elim (e.timedelta_of task.schedule_value) [
    | none ↦ raised value_error
    | some delta ↦ ok (some (utc (now + delta)))
  ]
  | cron ↦ ok (e.croniter task.schedule_value now)
]

abbrev pub lift : Result (Option DateTime) → Action SchedulerDb (Option DateTime)
lift r db = (r, db)

-- The last of the allowed runs.
abbrev pub is_last : ScheduledTask → Bool
is_last task = elim task.max_runs [ none ↦ false | some n ↦ leb n (suc task.run_count) ]

-- The next run and the status that go with it: "done" where none is to come.
abbrev pub status_for : Option DateTime → ScheduleStatus
status_for none = done
status_for (some d) = active

-- `compute_next_run`, the limit of `max_runs`, and `update_after_run`
unfoldable pub reschedule :
    SchedulerEngine → Reading → ScheduledTask → Action SchedulerDb (Unit {0})
unfolding compute_next_run update_after_run
reschedule e r task = do
  next_run ← lift (compute_next_run e r.computed task)
  if is_last task
      then update_after_run r.written task.id none done
      else update_after_run r.written task.id next_run (status_for next_run)

abbrev pub fired_content : String → String
fired_content prompt = append "[定时任务触发] 请直接执行以下操作，不要重新设置或确认计划：\n" prompt

abbrev pub dispatched_task : Reading → ScheduledTask → Task
dispatched_task r task = record {
  id = r.uuid;
  content = fired_content task.prompt;
  session_id = append task.chat_id (append ":" task.creator_open_id);
  message_id = "";
  chat_type = if task.notify_chat then "group" else "p2p";
  timeout = 28800;
  canceled = false;
  was_queued = false;
  mentions = [];
  user_id = task.creator_open_id;
  thread_root_id = "";
}

abbrev pub one_if_zero : ℕ → ℕ
one_if_zero n = if n == 0 then 1 else n

-- The minutes of the overdue notice.
abbrev pub overdue_notice : ℕ → Option ℕ
overdue_notice overdue = if overdue == 0 then none else some (one_if_zero (overdue / 60000000))

-- The `finally` part: it runs whether `dispatch` has returned or raised.
unfoldable pub finish :
    SchedulerEngine
    → Reading
    → ℕ
    → ScheduledTask
    → Result (Unit {0})
    → Action SchedulerDb (Unit {0})
unfolding reschedule add_run_log
finish e r fired_at task (ok _) = do
  reschedule e r task
  add_run_log task.id fired_at true none r.duration
finish e r fired_at task (raised error) = do
  reschedule e r task
  add_run_log task.id fired_at false (some error) r.duration

unfoldable pub fire :
    SchedulerEngine → Reading → ℕ → ℕ → ScheduledTask → Action SchedulerDb (Unit {0})
unfolding finish
fire e r fired_at overdue task db =
    let (outcome, db') = e.dispatch (overdue_notice overdue) task (dispatched_task r task) db in
    finish e r fired_at task outcome db'

-- `max(0.0, (now - next_run_at).total_seconds())`
abbrev pub overdue_at : ℕ → ScheduledTask → ℕ
overdue_at now task = now - instant task.next_run_at

unfoldable pub exceeds_grace : SchedulerEngine → ℕ → Bool
exceeds_grace e overdue = elim e.overdue_grace_minutes [
  | none ↦ false
  | some minutes ↦ ltb (minutes * 60000000) overdue
]

-- The body of the loop of `_tick`.
unfoldable pub run_due :
    SchedulerEngine → Reading → ℕ → ScheduledTask → Action SchedulerDb (Unit {0})
unfolding fire reschedule exceeds_grace
run_due e r now task =
    if exceeds_grace e (overdue_at now task)
    then reschedule e r task
    else fire e r now (overdue_at now task) task

-- An exception ends the tick: the tasks behind it have to wait for the next.
unfoldable pub run_all :
    SchedulerEngine → (String → Reading) → ℕ → List ScheduledTask → Action SchedulerDb (Unit {0})
unfolding run_due
run_all e readings now [] = return tt
run_all e readings now (task ∷ rest) = do
  run_due e (readings task.id) now task
  run_all e readings now rest

unfoldable pub tick : SchedulerEngine → (String → Reading) → ℕ → Action SchedulerDb (Unit {0})
unfolding run_all list_due
tick e readings now = do due_tasks ← list_due now; run_all e readings now due_tasks

-- The loop of `run`, which goes on after a tick that raises, for the rounds that are given.
unfoldable pub run : SchedulerEngine → List ((String → Reading) × ℕ) → SchedulerDb → SchedulerDb
unfolding tick
run e [] db = db
run e ((readings, now) ∷ rounds) db = run e rounds (tick e readings now db).1
