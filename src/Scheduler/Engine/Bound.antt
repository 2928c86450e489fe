-- ===== src/Scheduler/Engine/Bound.antt =====
-- Where the rows of the table come from while scheduler/engine.py handles one task.
pub mod Keys
pub mod Ticks
use next_me.Common.{
  ◌≤◌, ◌<◌, ◌+◌, ℕ, suc, String, ◌≡◌, ◌≢◌, ◌↔◌, refl, sym, Bool, true, false, ◌&&◌, Option, none,
  some, List, [], ◌∷◌, map, arith, if◌then◌else◌, is_some, ok, raised, ◌>>=◌, Bool-cases,
  Result-cases, inl, inr, ◌==◌, string_comparable, All, In, In-map, In-of_In-map, In-keep,
  In-append, keep, equals_refl,
}
use mathlib.Core.Path.{subst}
use mathlib.Core.Logic.{◌⊎◌}
use next_me.Scheduler.Schema.{DateTime, ScheduledTask, ScheduleStatus}
use next_me.Scheduler.Db.{SchedulerDb, TaskRow, has_id, is_due, row_to_task, list_due}
use next_me.Scheduler.Engine.{
  SchedulerEngine, Reading, compute_next_run, is_last, reschedule, dispatched_task, overdue_notice,
  overdue_at, exceeds_grace, fire, run_due, run_all, tick, run,
}
use next_me.Scheduler.Engine.Fire.{
  rescheduled, reschedule_lem, reschedule_raises, fire-reschedules, next_of,
}

-- A run that is to come is one of those that are allowed.
pub record InBound (row : TaskRow) : Type 0 where
  pub below :
      (n : ℕ) → is_some row.next_run_at ≡ true → row.task.max_runs ≡ some n → row.task.run_count < n

pub record Bounded (db : SchedulerDb) : Type 0 where
  pub rows : (row : TaskRow) → In row db.tasks → InBound row

-- The row has an id, and a count and a limit that agree with the task's.
pub record Agrees (task : ScheduledTask) (row : TaskRow) : Type 0 where
  pub same_count : row.task.id ≡ task.id → row.task.run_count ≡ task.run_count
  pub same_limit : row.task.id ≡ task.id → row.task.max_runs ≡ task.max_runs

pub record UpToDate (task : ScheduledTask) (db : SchedulerDb) : Type 0 where
  pub agrees : (row : TaskRow) → In row db.tasks → Agrees task row

-- A row that was there, but for its status and the time of its last run.
pub record Keeps (row old : TaskRow) : Type 0 where
  pub same_id : row.task.id ≡ old.task.id
  pub same_count : row.task.run_count ≡ old.task.run_count
  pub same_limit : row.task.max_runs ≡ old.task.max_runs
  pub same_next : row.next_run_at ≡ old.next_run_at

-- The primary key.
abbrev pub IsKeyed : List TaskRow → Type 0
IsKeyed [] = Unit
IsKeyed (row ∷ rest) = All (λ other. (row.task.id == other.task.id) ≡ false) rest × IsKeyed rest

-- While a dispatch runs, tasks may be paused, resumed and deleted, and the dispatch may raise.
pub record IsModest (e : SchedulerEngine) : Type 0 where
  pub keeps :
      (notice : Option ℕ) (task : ScheduledTask) (r : Reading) (db : SchedulerDb) (row : TaskRow)
      → In row (e.dispatch notice task (dispatched_task r task) db).1.tasks
      → (old : TaskRow) × In old db.tasks × Keeps row old
  pub keyed :
      (notice : Option ℕ) (task : ScheduledTask) (r : Reading) (db : SchedulerDb)
      → IsKeyed db.tasks
      → IsKeyed (e.dispatch notice task (dispatched_task r task) db).1.tasks

-- What holds of a row that is kept holds of the new one.
pub InBound-Keeps : (row old : TaskRow) → Keeps row old → InBound old → InBound row
InBound-Keeps row old k b = record {
  below = λ n some_next limit.
      ground (arith, k.same_id, k.same_count, k.same_limit, k.same_next, b.below n);
}

pub Agrees-Keeps :
    (task : ScheduledTask) (row old : TaskRow) → Keeps row old → Agrees task old → Agrees task row
Agrees-Keeps task row old k a = record {
  same_count = λ h. ground (arith, k.same_id, k.same_count, a.same_count);
  same_limit = λ h. ground (arith, k.same_id, k.same_limit, a.same_limit);
}

pub InBound-rescheduled :
    (r : Reading) (task : ScheduledTask) (next_run : Option DateTime) (row : TaskRow)
    → Agrees task row
    → InBound row
    → InBound (rescheduled r task next_run row)
InBound-rescheduled r task next_run row a b = elim (Bool-cases (has_id task.id row)) [
  | inl hit ↦ record {
    below = λ n some_next limit.
        ground
          (arith, string_comparable.equals_iff row.task.id task.id, a.same_count, a.same_limit);
  }
  | inr miss ↦ record { below = λ n some_next limit. ground (arith, b.below n) }
]

pub Agrees-rescheduled :
    (r : Reading) (task other : ScheduledTask) (next_run : Option DateTime) (row : TaskRow)
    → (task.id == other.id) ≡ false
    → Agrees other row
    → Agrees other (rescheduled r task next_run row)
Agrees-rescheduled r task other next_run row apart a = record {
  same_count = λ h. ground (
    arith,
    string_comparable.equals_iff row.task.id task.id,
    string_comparable.equals_iff task.id other.id,
    a.same_count,
  );
  same_limit = λ h. ground (
    arith,
    string_comparable.equals_iff row.task.id task.id,
    string_comparable.equals_iff task.id other.id,
    a.same_limit,
  );
}

Keeps-refl : (row : TaskRow) → Keeps row row
Keeps-refl row = record { same_id = refl; same_count = refl; same_limit = refl; same_next = refl }

-- Where a row comes from while a task is handled: from an old one, and perhaps the task's update.
pub record Origin (r : Reading) (task : ScheduledTask) (db : SchedulerDb) (row : TaskRow)
    : Type 0 where
  pub old : TaskRow
  pub was : In old db.tasks
  pub mid : TaskRow
  pub kept : Keeps mid old
  pub now_is :
      (row ≡ mid) ⊎ ((next_run : Option DateTime) × (row ≡ rescheduled r task next_run mid))

Origin-map :
    (r : Reading) (task : ScheduledTask) (next_run : Option DateTime) (db : SchedulerDb)
    (rows : List TaskRow) (row : TaskRow)
    → ((mid : TaskRow) → In mid rows → (old : TaskRow) × In old db.tasks × Keeps mid old)
    → In row (map (rescheduled r task next_run) rows)
    → Origin r task db row
Origin-map r task next_run db rows row back m =
    let (mid, there, e) = In-of_In-map (rescheduled r task next_run) row rows m in
    let (old, was, kept) = back mid there in
    record { old = old; was = was; mid = mid; kept = kept; now_is = inr (next_run, e) }

Origin-reschedule :
    (e : SchedulerEngine) (r : Reading) (task : ScheduledTask) (db : SchedulerDb) (row : TaskRow)
    → In row (reschedule e r task db).1.tasks
    → Origin r task db row
Origin-reschedule e r task db row m = elim (Result-cases (compute_next_run e r.computed task)) [
  | inl (next_run, h) ↦
      Origin-map r task next_run db db.tasks row (λ mid there. (mid, there, Keeps-refl mid))
        (subst (λ out. In row out.1.tasks) (reschedule_lem e r task next_run db h) m)
  | inr (error, h) ↦ record {
    old = row;
    was = subst (λ out. In row out.1.tasks) (reschedule_raises e r task error db h) m;
    mid = row;
    kept = Keeps-refl row;
    now_is = inl refl;
  }
]

Origin-fire :
    (e : SchedulerEngine) (r : Reading) (fired_at overdue : ℕ) (task : ScheduledTask)
    (db : SchedulerDb) (row : TaskRow)
    → IsModest e
    → In row (fire e r fired_at overdue task db).1.tasks
    → Origin r task db row
Origin-fire e r fired_at overdue task db row modest m =
    let after : List TaskRow =
      (e.dispatch (overdue_notice overdue) task (dispatched_task r task) db).1.tasks in
    elim (Result-cases (compute_next_run e r.computed task)) [
      | inl (next_run, h) ↦
          let same : (fire e r fired_at overdue task db).1.tasks
              ≡ map (rescheduled r task next_run) after =
            ground (arith, fire-reschedules e r fired_at overdue task db) in
          Origin-map r task next_run db after row (modest.keeps (overdue_notice overdue) task r db)
            (subst (In row) same m)
      | inr (error, h) ↦
          let same : (fire e r fired_at overdue task db).1.tasks ≡ after =
            ground (arith, fire-reschedules e r fired_at overdue task db) in
          let (old, was, kept) =
            modest.keeps (overdue_notice overdue) task r db row (subst (In row) same m) in
          record { old = old; was = was; mid = row; kept = kept; now_is = inl refl }
    ]

pub Origin-run_due :
    (e : SchedulerEngine) (r : Reading) (now : ℕ) (task : ScheduledTask) (db : SchedulerDb)
    (row : TaskRow)
    → IsModest e
    → In row (run_due e r now task db).1.tasks
    → Origin r task db row
Origin-run_due e r now task db row modest m =
    elim (Bool-cases (exceeds_grace e (overdue_at now task))) [
      | inl late ↦
          let same : run_due e r now task db ≡ reschedule e r task db =
            unfold run_due in ground arith in
          Origin-reschedule e r task db row (subst (λ out. In row out.1.tasks) same m)
      | inr punctual ↦
          let same : run_due e r now task db ≡ fire e r now (overdue_at now task) task db =
            unfold run_due in ground arith in
          Origin-fire e r now (overdue_at now task) task db row modest
            (subst (λ out. In row out.1.tasks) same m)
    ]
