-- ===== src/Scheduler/Engine/Bound/Keys.antt =====
-- The primary key of scheduled_tasks, through the ticks of scheduler/engine.py.
use next_me.Common.{
  ℕ, String, ◌≡◌, false, Option, List, [], ◌∷◌, map, arith, ◌>>=◌, Result-cases, inl, inr, ◌==◌,
  string_comparable, All, In,
}
use mathlib.Core.Path.{subst}
use next_me.Common.{if_both, All-In, Action}
use next_me.Scheduler.Schema.{DateTime, ScheduledTask}
use next_me.Scheduler.Db.{SchedulerDb, TaskRow}
use next_me.Scheduler.Engine.{
  SchedulerEngine, Reading, compute_next_run, reschedule, dispatched_task, overdue_notice,
  overdue_at, exceeds_grace, fire, run_due, run_all,
}
use next_me.Scheduler.Engine.Fire.{rescheduled, reschedule_lem, reschedule_raises, fire-reschedules}
use next_me.Scheduler.Engine.Bound.{IsKeyed, IsModest}

-- The keys stay different.
IsKeyed-rescheduled :
    (r : Reading) (task : ScheduledTask) (next_run : Option DateTime) (rows : List TaskRow)
    → IsKeyed rows
    → IsKeyed (map (rescheduled r task next_run) rows)
IsKeyed-rescheduled r task next_run [] h = tt
IsKeyed-rescheduled r task next_run (row ∷ rest) h =
    (others rest h.0, IsKeyed-rescheduled r task next_run rest h.1)
  where
    others :
        (rest : List TaskRow)
        → All (λ other. (row.task.id == other.task.id) ≡ false) rest
        → All
            (λ other. ((rescheduled r task next_run row).task.id == other.task.id) ≡ false)
            (map (rescheduled r task next_run) rest)
    others [] h = tt
    others (other ∷ rest) h = (ground (arith, h.0), others rest h.1)

IsKeyed-reschedule :
    (e : SchedulerEngine) (r : Reading) (task : ScheduledTask) (db : SchedulerDb)
    → IsKeyed db.tasks
    → IsKeyed (reschedule e r task db).1.tasks
IsKeyed-reschedule e r task db h = elim (Result-cases (compute_next_run e r.computed task)) [
  | inl (next_run, c) ↦
      let same : map (rescheduled r task next_run) db.tasks ≡ (reschedule e r task db).1.tasks =
        ground (arith, reschedule_lem e r task next_run db c) in
      subst IsKeyed same (IsKeyed-rescheduled r task next_run db.tasks h)
  | inr (error, c) ↦
      let same : db.tasks ≡ (reschedule e r task db).1.tasks =
        ground (arith, reschedule_raises e r task error db c) in
      subst IsKeyed same h
]

IsKeyed-fire :
    (e : SchedulerEngine) (r : Reading) (fired_at overdue : ℕ) (task : ScheduledTask)
    (db : SchedulerDb)
    → IsModest e
    → IsKeyed db.tasks
    → IsKeyed (fire e r fired_at overdue task db).1.tasks
IsKeyed-fire e r fired_at overdue task db modest h =
    let after : List TaskRow =
      (e.dispatch (overdue_notice overdue) task (dispatched_task r task) db).1.tasks in
    let h' : IsKeyed after = modest.keyed (overdue_notice overdue) task r db h in
    elim (Result-cases (compute_next_run e r.computed task)) [
      | inl (next_run, c) ↦
          let same : map (rescheduled r task next_run) after
              ≡ (fire e r fired_at overdue task db).1.tasks =
            ground (arith, fire-reschedules e r fired_at overdue task db) in
          subst IsKeyed same (IsKeyed-rescheduled r task next_run after h')
      | inr (error, c) ↦
          let same : after ≡ (fire e r fired_at overdue task db).1.tasks =
            ground (arith, fire-reschedules e r fired_at overdue task db) in
          subst IsKeyed same h'
    ]

pub IsKeyed-run_all :
    (e : SchedulerEngine) (readings : String → Reading) (now : ℕ) (tasks : List ScheduledTask)
    (db : SchedulerDb)
    → IsModest e
    → IsKeyed db.tasks
    → IsKeyed (run_all e readings now tasks db).1.tasks
unfolding run_all run_due ◌>>=◌
IsKeyed-run_all e readings now [] db modest h = h
IsKeyed-run_all e readings now (task ∷ rest) db modest h =
    let r = readings task.id in
    let h' : IsKeyed (run_due e r now task db).1.tasks =
      if_both (λ (m : Action SchedulerDb (Unit {0})). IsKeyed (m db).1.tasks)
        (exceeds_grace e (overdue_at now task)) (reschedule e r task)
        (fire e r now (overdue_at now task) task) (IsKeyed-reschedule e r task db h)
        (IsKeyed-fire e r now (overdue_at now task) task db modest h) in
    elim (Result-cases (run_due e r now task db).0) [
      | inl (u, returned) ↦
          subst IsKeyed (ground arith)
            (IsKeyed-run_all e readings now rest (run_due e r now task db).1 modest h')
      | inr (error, stopped) ↦ subst IsKeyed (ground arith) h'
    ]

-- Two rows of one key are one row.
pub row_of_key :
    (a b : TaskRow) (rows : List TaskRow)
    → IsKeyed rows
    → In a rows
    → In b rows
    → a.task.id ≡ b.task.id
    → a ≡ b
row_of_key a b [] h e f same = elim e [ ]
row_of_key a b (row ∷ rest) h (inl e) (inl f) same = cc
row_of_key a b (row ∷ rest) h (inl e) (inr f) same = absurd (
    ground (
      arith,
      string_comparable.equals_iff row.task.id b.task.id,
      All-In (λ other. (row.task.id == other.task.id) ≡ false) b rest h.0 f,
    ))
row_of_key a b (row ∷ rest) h (inr e) (inl f) same = absurd (
    ground (
      arith,
      string_comparable.equals_iff row.task.id a.task.id,
      All-In (λ other. (row.task.id == other.task.id) ≡ false) a rest h.0 e,
    ))
row_of_key a b (row ∷ rest) h (inr e) (inr f) same = row_of_key a b rest h.1 e f same
