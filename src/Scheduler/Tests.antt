-- ===== src/Scheduler/Tests.antt =====
-- Runs of the scheduler, and its theorems at concrete inputs.
use next_me.Common.{
  ℕ, String, ◌≡◌, refl, true, false, none, some, List, [], ◌∷◌, arith, ok, ◌>>=◌, In, inl, inr,
  string_comparable, sort_by, insert_by, return, if◌then◌else◌, ◌==◌,
}
use next_me.Scheduler.Schema.{text_le, east, utc, once, interval, active, done, ScheduledTask}
use next_me.Scheduler.Db.{
  SchedulerDb, TaskRow, is_due, at_most, row_to_task, list_due, list_by_chat, update_status,
  update_after_run, add_run_log,
}
use next_me.Scheduler.Engine.{
  SchedulerEngine, Reading, compute_next_run, fire, finish, reschedule, exceeds_grace, run_due,
  run_all, tick, run,
}
use next_me.Scheduler.Engine.Fire.{fire-reschedules}
use next_me.Scheduler.Engine.Bound.{IsKeyed, IsModest, Bounded, InBound}
use next_me.Scheduler.Engine.Bound.Ticks.{run_limit}
use next_me.Scheduler.Commands.{
  Caller, ParsedSchedule, interval_str, resume_task, delete_task, handle_schedule, handle_change,
  handle_target, find_task_by_prefix,
}
use next_me.Scheduler.Commands.Chats.{
  interval_str-seconds, seconds_of, others_of, handle_schedule-others, find_in_chat,
}
use next_me.Scheduler.Replies.{Reply}

-- Every ten ticks, twice.
abbrev drink : ScheduledTask
drink = record {
  id = "t1";
  chat_id = "oc_1";
  creator_open_id = "ou_1";
  prompt = "drink";
  schedule_type = interval;
  schedule_value = "10";
  next_run_at = utc 100;
  last_run_at = none;
  status = active;
  run_count = 0;
  max_runs = some 2;
  created_at = 90;
  project_name = none;
  notify_chat = true;
}

abbrev row : TaskRow
row = record { task = drink; next_run_at = some (utc 100) }

abbrev db : SchedulerDb
db = record { tasks = row ∷ []; logs = []; sequence = 0 }

-- A dispatcher that leaves the tables alone.
abbrev engine : SchedulerEngine
engine = record {
  overdue_grace_minutes = some 5;
  timedelta_of = λ text. if text == "10" then some 10 else none;
  croniter = λ expression now. none;
  dispatch = λ notice task message db. return tt db;
}

abbrev reading : Reading
reading = record { uuid = "u"; computed = 105; written = 106; duration = 1 }

abbrev times : String → Reading
times id = reading

fire-reschedules_example : fire engine reading 105 5 drink db ≡ (
  ok tt,
  record {
    tasks =
        record {
          task = record drink { last_run_at = some (utc 106); run_count = 1 };
          next_run_at = some (utc 115);
        }
        ∷ [];
    logs =
        record { id = 1; task_id = "t1"; run_at = 105; success = true; error = none; duration = 1 }
        ∷ [];
    sequence = 1;
  },
)
unfolding compute_next_run
fire-reschedules_example = fire-reschedules engine reading 105 5 drink db

-- Asked for on a clock that is eight hours in front.
abbrev report : TaskRow
report = record {
  task = record drink { schedule_type = once; max_runs = none };
  next_run_at = some (record { wall = 100000000000; offset = east 28800000000 });
}

engine-IsModest : IsModest engine
engine-IsModest = record {
  keeps = λ notice task r db row m.
      (row, m, record { same_id = refl; same_count = refl; same_limit = refl; same_next = refl });
  keyed = λ notice task r db h. h;
}

db-IsKeyed : IsKeyed db.tasks
db-IsKeyed = (tt, tt)

db-Bounded : Bounded db
db-Bounded = record { rows = λ r m. elim m [ inl e ↦ allowed r e | inr nowhere ↦ absurd nowhere ] }
  where
    allowed : (r : TaskRow) → r ≡ row → InBound r
    allowed r e = record { below = λ n next limit. ground arith }

abbrev rounds : List ((String → Reading) × ℕ)
rounds = (times, 105) ∷ (times, 120) ∷ (times, 130) ∷ []

-- The task after its two runs.
abbrev finished : TaskRow
finished = record {
  task = record drink { status = done; run_count = 2; last_run_at = some (utc 106) };
  next_run_at = none;
}

finished_is_there : In finished (run engine rounds db).tasks
unfolding run tick run_all run_due fire finish reschedule exceeds_grace compute_next_run list_due
    row_to_task update_after_run add_run_log at_most text_le ◌>>=◌
finished_is_there = inl refl

run_limit_example : is_due 500 finished ≡ false
run_limit_example =
    run_limit engine rounds db finished 2 500 engine-IsModest db-IsKeyed db-Bounded
      finished_is_there refl (omega arith)

abbrev caller : Caller
caller = record {
  chat_id = "oc_2";
  creator_open_id = "ou_2";
  project_name = none;
  chat_type = "group";
}

abbrev deletes : ParsedSchedule
deletes = record {
  action = delete_task;
  prompt = none;
  schedule_type = none;
  schedule_value = none;
  next_run_at = none;
  target_id = some "t";
}

-- Somebody in another chat tries to delete the task.
handle_schedule-others_example :
    others_of "oc_2"
      (handle_schedule (λ text. none) (λ prompt. false) 100 "t2" caller (some deletes) db).1
    ≡ row ∷ []
handle_schedule-others_example =
    handle_schedule-others (λ text. none) (λ prompt. false) 100 "t2" caller (some deletes) db
      db-IsKeyed

abbrev finished_db : SchedulerDb
finished_db = record { tasks = finished ∷ []; logs = []; sequence = 2 }

abbrev owner : Caller
owner = record {
  chat_id = "oc_1";
  creator_open_id = "ou_1";
  project_name = none;
  chat_type = "group";
}

abbrev resumes : ParsedSchedule
resumes = record deletes { action = resume_task }

abbrev resumed : TaskRow
resumed = record finished { task = record finished.task { status = active } }

resumed_is_there : In resumed (handle_change 500 owner resumes finished_db).1.tasks
unfolding handle_change handle_target update_status list_by_chat find_task_by_prefix sort_by
    insert_by row_to_task ◌>>=◌
resumed_is_there = inl refl

found : find_in_chat 500 "oc_1" "t" finished_db ≡ some (row_to_task 500 finished)
unfolding find_task_by_prefix sort_by insert_by row_to_task
found = refl

interval_str-seconds_example : seconds_of (interval_str 172800) ≡ 172800
interval_str-seconds_example = interval_str-seconds 172800

abbrev replies : List Reply
replies =
    record { is_card = false; content = "HEARTBEAT_OK" }
    ∷ record { is_card = true; content = "{}" }
    ∷ record { is_card = false; content = "done" }
    ∷ []
