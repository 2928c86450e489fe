-- ===== src/Scheduler/Commands/Resume.antt =====
-- What `/schedule resume` of scheduler/commands.py does to a task that has no run to come.
use mathlib.Core.Path.{subst}
use next_me.Common.{
  ℕ, String, ◌≡◌, ap, true, false, none, some, arith, string_comparable, if◌then◌else◌, ok, ◌>>=◌,
  Bool-cases, inl, inr, In, In-of_In-map,
}
use next_me.Scheduler.Schema.{active, ScheduledTask}
use next_me.Scheduler.Db.{SchedulerDb, TaskRow, has_id, is_due, list_by_chat, update_status}
use next_me.Scheduler.Engine.Bound.Ticks.{unscheduled}
use next_me.Scheduler.Commands.{
  Caller, ParsedSchedule, resume_task, handle_target, handle_change, resumed_answer,
}
use next_me.Scheduler.Commands.Chats.{find_in_chat}

updated-never_due :
    (now : ℕ) (id : String) (row updated : TaskRow)
    → has_id id updated ≡ true
    → (has_id id row ≡ true → row.next_run_at ≡ none)
    → updated
      ≡ (if has_id id row then record row { task = record row.task { status = active } } else row)
    → is_due now updated ≡ false
updated-never_due now id row updated same gone is_new = elim (Bool-cases (has_id id row)) [
  | inl hit ↦ unscheduled now updated (ground arith)
  | inr miss ↦ absurd (ground arith)
]

updated_row :
    (id : String) (updated : TaskRow) (db : SchedulerDb)
    → In updated (update_status id active db).1.tasks
    → (row : TaskRow) × In row db.tasks
      × (updated ≡ (
          if has_id id row then record row { task = record row.task { status = active } } else row))
unfolding update_status
updated_row id updated db m = In-of_In-map _ updated db.tasks m

-- A task that is resumed and has no next run (as a "done" task) is reported as resumed, and is then
-- due at no time.
resume_without_next :
    (now later : ℕ) (c : Caller) (parsed : ParsedSchedule) (target : String) (task : ScheduledTask)
    (db : SchedulerDb) (updated : TaskRow)
    → parsed.action ≡ resume_task
    → parsed.target_id ≡ some target
    → (find_in_chat now c.chat_id target db ≡ some task)
    → ((row : TaskRow) → In row db.tasks → has_id task.id row ≡ true → row.next_run_at ≡ none)
    → In updated (handle_change now c parsed db).1.tasks
    → has_id task.id updated ≡ true
    → ((handle_change now c parsed db).0 ≡ ok (resumed_answer task))
      × (is_due later updated ≡ false)
resume_without_next now later c parsed target task db updated action given found gone m same =
    let run : handle_change now c parsed db
        ≡ (ok (resumed_answer task), (update_status task.id active db).1) =
      unfold handle_change handle_target update_status list_by_chat ◌>>=◌ in ground arith in
    let (row, there, is_new) =
      updated_row task.id updated db (subst (λ out. In updated out.1.tasks) run m) in
    (
      ap (λ out. out.0) run,
      updated-never_due later task.id row updated same (gone row there) is_new,
    )
