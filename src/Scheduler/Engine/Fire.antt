-- ===== src/Scheduler/Engine/Fire.antt =====
-- What scheduler/engine.py writes to the tables about a task that it has fired.
use next_me.Common.{
  ℕ, suc, ◌+◌, ◌≡◌, true, false, Option, none, some, [], ◌∷◌, ◌++◌, map, arith, if◌then◌else◌,
  Error, ltb, ◌==◌, Result, ok, raised, ◌>>=◌, Bool-cases, Result-cases, inl, inr,
  string_comparable,
}
use next_me.Scheduler.Schema.{DateTime, ScheduledTask, utc, active, done}
use next_me.Scheduler.Db.{SchedulerDb, TaskRow, TaskRunLog, update_after_run, add_run_log}
use next_me.Scheduler.Engine.{
  SchedulerEngine, Reading, compute_next_run, reschedule, is_last, dispatched_task, overdue_notice,
  finish, fire,
}

-- The next run, of which the limit may leave nothing.
abbrev pub next_within : Option ℕ → ℕ → Option DateTime → Option DateTime
next_within none count next_run = next_run
next_within (some limit) count next_run = if ltb (count + 1) limit then next_run else none

abbrev pub next_of : ScheduledTask → Option DateTime → Option DateTime
next_of task next_run = next_within task.max_runs task.run_count next_run

-- A row with one run more, at the time it is written.
abbrev pub counted : ℕ → Option DateTime → TaskRow → TaskRow
counted written none row = record {
  task = record row.task {
    last_run_at = some (utc written);
    status = done;
    run_count = row.task.run_count + 1;
  };
  next_run_at = none;
}
counted written (some next) row = record {
  task = record row.task {
    last_run_at = some (utc written);
    status = active;
    run_count = row.task.run_count + 1;
  };
  next_run_at = some next;
}

-- The rows of the task's id after a run, and the others, which stay.
abbrev pub rescheduled : Reading → ScheduledTask → Option DateTime → TaskRow → TaskRow
rescheduled r task next_run row =
    if row.task.id == task.id then counted r.written (next_of task next_run) row else row

-- The log of the run.
abbrev pub logged : Reading → ℕ → ScheduledTask → Result (Unit {0}) → ℕ → TaskRunLog
logged r fired_at task (ok _) n = record {
  id = suc n;
  task_id = task.id;
  run_at = fired_at;
  success = true;
  error = none;
  duration = r.duration;
}
logged r fired_at task (raised error) n = record {
  id = suc n;
  task_id = task.id;
  run_at = fired_at;
  success = false;
  error = some error;
  duration = r.duration;
}

pub reschedule_lem :
    (e : SchedulerEngine) (r : Reading) (task : ScheduledTask) (next_run : Option DateTime)
    (db : SchedulerDb)
    → compute_next_run e r.computed task ≡ ok next_run
    → reschedule e r task db
      ≡ (ok tt, record db { tasks = map (rescheduled r task next_run) db.tasks })
unfolding reschedule update_after_run ◌>>=◌
reschedule_lem e r task next_run db h = elim (Bool-cases (is_last task)) [
  | inl last ↦ ground arith
  | inr more ↦ ground arith
]

pub reschedule_raises :
    (e : SchedulerEngine) (r : Reading) (task : ScheduledTask) (error : Error) (db : SchedulerDb)
    → compute_next_run e r.computed task ≡ raised error
    → reschedule e r task db ≡ (raised error, db)
unfolding reschedule ◌>>=◌
reschedule_raises e r task error db h = ground arith

finish_lem :
    (e : SchedulerEngine) (r : Reading) (fired_at : ℕ) (task : ScheduledTask)
    (outcome : Result (Unit {0})) (db : SchedulerDb)
    → finish e r fired_at task outcome db ≡ (elim (compute_next_run e r.computed task) [
      | ok next_run ↦ (
        ok tt,
        record {
          tasks = map (rescheduled r task next_run) db.tasks;
          logs = db.logs ++ logged r fired_at task outcome db.sequence ∷ [];
          sequence = suc db.sequence;
        },
      )
      | raised error ↦ (raised error, db)
    ])
unfolding finish add_run_log ◌>>=◌
finish_lem e r fired_at task (ok u) db = elim (Result-cases (compute_next_run e r.computed task)) [
  | inl (next_run, h) ↦ ground (arith, reschedule_lem e r task next_run db h)
  | inr (error, h) ↦ ground (arith, reschedule_raises e r task error db h)
]
finish_lem e r fired_at task (raised failure) db =
    elim (Result-cases (compute_next_run e r.computed task)) [
      | inl (next_run, h) ↦ ground (arith, reschedule_lem e r task next_run db h)
      | inr (error, h) ↦ ground (arith, reschedule_raises e r task error db h)
    ]

-- Whether the dispatch of a due task returns or raises, the rows of its id get a run more and the time of writing as
-- their last run. They are active with the computed next run where the task that was read has no limit, or fewer runs
-- than the limit with this one, and a next run is to come; else they are "done" without a next run, whatever status the
-- dispatch has left them in. Their other columns and all other rows stay, and one log says how it went. Only where no
-- next run can be computed, nothing is written and the exception goes on.
pub fire-reschedules :
    (e : SchedulerEngine) (r : Reading) (fired_at overdue : ℕ) (task : ScheduledTask)
    (db : SchedulerDb)
    → let (outcome, db') = e.dispatch (overdue_notice overdue) task (dispatched_task r task) db in
      fire e r fired_at overdue task db ≡ (elim (compute_next_run e r.computed task) [
        | ok next_run ↦ (
          ok tt,
          record {
            tasks = map (rescheduled r task next_run) db'.tasks;
            logs = db'.logs ++ logged r fired_at task outcome db'.sequence ∷ [];
            sequence = suc db'.sequence;
          },
        )
        | raised error ↦ (raised error, db')
      ])
unfolding fire
fire-reschedules e r fired_at overdue task db =
    let dispatched = e.dispatch (overdue_notice overdue) task (dispatched_task r task) db in
    finish_lem e r fired_at task dispatched.0 dispatched.1
