-- ===== src/Scheduler/Engine/Bound/Ticks.antt =====
-- The limit of `max_runs`, through any number of ticks of scheduler/engine.py.
use next_me.Common.{
  ◌≤◌, ℕ, String, ◌≡◌, refl, sym, false, Option, none, some, List, [], ◌∷◌, map, arith, ◌>>=◌,
  Bool-cases, Result-cases, inl, inr, ◌==◌, string_comparable, All, In, In-keep, keep,
}
use mathlib.Core.Path.{subst}
use next_me.Scheduler.Schema.{DateTime, ScheduledTask}
use next_me.Scheduler.Db.{SchedulerDb, TaskRow, at_most, is_due, row_to_task, list_due}
use next_me.Scheduler.Engine.{SchedulerEngine, Reading, run_due, run_all, tick, run}
use next_me.Scheduler.Engine.Bound.{
  InBound, Bounded, Agrees, UpToDate, IsKeyed, IsModest, InBound-Keeps, Agrees-Keeps,
  InBound-rescheduled, Agrees-rescheduled, Origin, Origin-run_due,
}
use next_me.Scheduler.Engine.Bound.Keys.{IsKeyed-run_all, row_of_key}
use next_me.Common.{Option-cases}
use mathlib.Core.Path.{ap}

-- Handling a task keeps the bound, and what other tasks know of their rows.
InBound-Origin :
    (r : Reading) (task : ScheduledTask) (db : SchedulerDb) (row : TaskRow)
    → Origin r task db row
    → Bounded db
    → UpToDate task db
    → InBound row
InBound-Origin r task db row o b u =
    let a : Agrees task o.mid = Agrees-Keeps task o.mid o.old o.kept (u.agrees o.old o.was) in
    let h : InBound o.mid = InBound-Keeps o.mid o.old o.kept (b.rows o.old o.was) in
    elim o.now_is [
      | inl e ↦ subst InBound (sym e) h
      | inr (next_run, e) ↦ subst InBound (sym e) (InBound-rescheduled r task next_run o.mid a h)
    ]

Agrees-Origin :
    (r : Reading) (task other : ScheduledTask) (db : SchedulerDb) (row : TaskRow)
    → Origin r task db row
    → (task.id == other.id) ≡ false
    → UpToDate other db
    → Agrees other row
Agrees-Origin r task other db row o apart u =
    let a : Agrees other o.mid = Agrees-Keeps other o.mid o.old o.kept (u.agrees o.old o.was) in
    elim o.now_is [
      | inl e ↦ subst (Agrees other) (sym e) a
      | inr (next_run, e) ↦
          subst (Agrees other) (sym e) (Agrees-rescheduled r task other next_run o.mid apart a)
    ]

-- The tasks of a tick have different ids, and the rows that they were read from are up to date.
abbrev Apart : List ScheduledTask → Type 0
Apart [] = Unit
Apart (task ∷ rest) = All (λ other. (task.id == other.id) ≡ false) rest × Apart rest

others_UpToDate :
    (e : SchedulerEngine) (r : Reading) (now : ℕ) (task : ScheduledTask) (db : SchedulerDb)
    (rest : List ScheduledTask)
    → IsModest e
    → All (λ other. (task.id == other.id) ≡ false) rest
    → All (λ other. UpToDate other db) rest
    → All (λ other. UpToDate other (run_due e r now task db).1) rest
others_UpToDate e r now task db [] modest apart us = tt
others_UpToDate e r now task db (other ∷ rest) modest apart us = (
  record {
    agrees = λ row m.
        Agrees-Origin r task other db row (Origin-run_due e r now task db row modest m) apart.0
          us.0;
  },
  others_UpToDate e r now task db rest modest apart.1 us.1,
)

run_all-Bounded :
    (e : SchedulerEngine) (readings : String → Reading) (now : ℕ) (tasks : List ScheduledTask)
    (db : SchedulerDb)
    → IsModest e
    → Apart tasks
    → All (λ task. UpToDate task db) tasks
    → Bounded db
    → Bounded (run_all e readings now tasks db).1
unfolding run_all ◌>>=◌
run_all-Bounded e readings now [] db modest apart us b = b
run_all-Bounded e readings now (task ∷ rest) db modest apart us b =
    let r = readings task.id in
    let b' : Bounded (run_due e r now task db).1 = record {
      rows = λ row m.
          InBound-Origin r task db row (Origin-run_due e r now task db row modest m) b us.0;
    } in
    elim (Result-cases (run_due e r now task db).0) [
      | inl (u, returned) ↦ subst Bounded (ground arith) (
          run_all-Bounded e readings now rest (run_due e r now task db).1 modest apart.1
            (others_UpToDate e r now task db rest modest apart.0 us.1) b')
      | inr (error, stopped) ↦ subst Bounded (ground arith) b'
    ]

-- What the tasks of a tick know of their rows.
due_UpToDate :
    (now : ℕ) (db : SchedulerDb) (row : TaskRow)
    → IsKeyed db.tasks
    → In row db.tasks
    → UpToDate (row_to_task now row) db
unfolding row_to_task
due_UpToDate now db row keyed m = record {
  agrees = λ other there. record {
    same_count =
        λ same. ap (λ r. r.task.run_count) (row_of_key other row db.tasks keyed there m same);
    same_limit =
        λ same. ap (λ r. r.task.max_runs) (row_of_key other row db.tasks keyed there m same);
  };
}

All-UpToDate :
    (now : ℕ) (db : SchedulerDb) (rows : List TaskRow)
    → IsKeyed db.tasks
    → ((row : TaskRow) → In row rows → In row db.tasks)
    → All (λ task. UpToDate task db) (map (row_to_task now) rows)
All-UpToDate now db [] keyed within = tt
All-UpToDate now db (row ∷ rest) keyed within = (
  due_UpToDate now db row keyed (within row (inl refl)),
  All-UpToDate now db rest keyed (λ other m. within other (inr m)),
)

others_apart :
    (now : ℕ) (row : TaskRow) (rest : List TaskRow)
    → All (λ other. (row.task.id == other.task.id) ≡ false) rest
    → All
        (λ task. ((row_to_task now row).id == task.id) ≡ false)
        (map (row_to_task now) (keep (is_due now) rest))
unfolding row_to_task
others_apart now row [] h = tt
others_apart now row (other ∷ rest) h = elim (Bool-cases (is_due now other)) [
  | inl due ↦ ground (arith, others_apart now row rest h.1)
  | inr waits ↦ ground (arith, others_apart now row rest h.1)
]

due-Apart :
    (now : ℕ) (rows : List TaskRow)
    → IsKeyed rows
    → Apart (map (row_to_task now) (keep (is_due now) rows))
due-Apart now [] h = tt
due-Apart now (row ∷ rest) h = elim (Bool-cases (is_due now row)) [
  | inl due ↦
      let same : keep (is_due now) (row ∷ rest) ≡ row ∷ keep (is_due now) rest = ground arith in
      subst (λ rows. Apart (map (row_to_task now) rows)) (sym same)
        (others_apart now row rest h.0, due-Apart now rest h.1)
  | inr waits ↦
      let same : keep (is_due now) (row ∷ rest) ≡ keep (is_due now) rest = ground arith in
      subst (λ rows. Apart (map (row_to_task now) rows)) (sym same) (due-Apart now rest h.1)
]

tick-Bounded :
    (e : SchedulerEngine) (readings : String → Reading) (now : ℕ) (db : SchedulerDb)
    → IsModest e
    → IsKeyed db.tasks
    → Bounded db
    → Bounded (tick e readings now db).1 × IsKeyed (tick e readings now db).1.tasks
unfolding tick list_due ◌>>=◌
tick-Bounded e readings now db modest keyed b =
    let tasks : List ScheduledTask = map (row_to_task now) (keep (is_due now) db.tasks) in
    (
      run_all-Bounded e readings now tasks db modest (due-Apart now db.tasks keyed)
          (All-UpToDate now db (keep (is_due now) db.tasks) keyed
            (λ row m. ((In-keep row (is_due now) db.tasks).0 m).0))
          b,
      IsKeyed-run_all e readings now tasks db modest keyed,
    )

run-Bounded :
    (e : SchedulerEngine) (rounds : List ((String → Reading) × ℕ)) (db : SchedulerDb)
    → IsModest e
    → IsKeyed db.tasks
    → Bounded db
    → Bounded (run e rounds db)
unfolding run
run-Bounded e [] db modest keyed b = b
run-Bounded e ((readings, now) ∷ rounds) db modest keyed b =
    let (b', keyed') = tick-Bounded e readings now db modest keyed b in
    run-Bounded e rounds (tick e readings now db).1 modest keyed' b'

never_at_none : (now : ℕ) (o : Option DateTime) → o ≡ none → at_most now o ≡ false
unfolding at_most
never_at_none now none e = refl
never_at_none now (some d) e = cc

pub unscheduled : (now : ℕ) (row : TaskRow) → row.next_run_at ≡ none → is_due now row ≡ false
unscheduled now row gone = ground (arith, never_at_none now row.next_run_at gone)

-- From a table with a primary key in which no run beyond a limit is to come, after any number of
-- ticks a task that has had as many runs as its limit allows is never due again, if dispatches do
-- no more to the table than to pause, resume and delete tasks.
pub run_limit :
    (e : SchedulerEngine) (rounds : List ((String → Reading) × ℕ)) (db : SchedulerDb)
    (row : TaskRow) (limit now : ℕ)
    → IsModest e
    → IsKeyed db.tasks
    → Bounded db
    → In row (run e rounds db).tasks
    → row.task.max_runs ≡ some limit
    → limit ≤ row.task.run_count
    → is_due now row ≡ false
run_limit e rounds db row limit now modest keyed b m max reached =
    let h : InBound row = (run-Bounded e rounds db modest keyed b).rows row m in
    elim (Option-cases row.next_run_at) [
      | inl gone ↦ unscheduled now row gone
      | inr (d, next) ↦ absurd (ground (arith, h.below limit))
    ]
