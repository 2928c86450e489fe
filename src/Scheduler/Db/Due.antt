-- ===== src/Scheduler/Db/Due.antt =====
-- Which rows scheduler/db.py lists as due, and when.
use next_me.Common.{
  ◌≤◌, ◌-◌, ℕ, ◌≡◌, refl, Bool, true, false, ◌&&◌, Option, none, some, List, [], ◌∷◌, map, arith,
  ◌==◌, leb, keep, ok, All,
}
use next_me.Scheduler.Schema.{DateTime, east, instant, text_le, active, schedule_status_comparable}
use next_me.Scheduler.Db.{SchedulerDb, TaskRow, row_to_task, at_most, is_due, list_due}

-- A next run, if there is one, is kept on the clock of UTC.
abbrev pub InUtc : TaskRow → Type 0
InUtc row = (d : DateTime) → row.next_run_at ≡ some d → d.offset ≡ east 0

-- The next run is not after the time.
abbrev pub has_come : ℕ → Option DateTime → Bool
has_come now none = false
has_come now (some d) = leb (instant d) now

at_most-utc :
    (now : ℕ) (o : Option DateTime)
    → ((d : DateTime) → o ≡ some d → d.offset ≡ east 0)
    → at_most now o ≡ has_come now o
unfolding at_most text_le
at_most-utc now none h = refl
at_most-utc now (some d) h = ground (arith, h d refl)

keep-due :
    (now : ℕ) (rows : List TaskRow)
    → All InUtc rows
    → keep (is_due now) rows
      ≡ keep (λ row. row.task.status == active && has_come now row.next_run_at) rows
keep-due now [] h = refl
keep-due now (row ∷ rows) h =
    ground (arith, keep-due now rows h.1, at_most-utc now row.next_run_at h.0)

-- Where the next runs are kept on the clock of UTC, the comparison of texts lists exactly the active
-- tasks whose next run has come, in the order of the table.
list_due-instant :
    (now : ℕ) (db : SchedulerDb)
    → All InUtc db.tasks
    → list_due now db ≡ (
      ok (
          map
            (row_to_task now)
            (keep (λ row. row.task.status == active && has_come now row.next_run_at) db.tasks)),
      db,
    )
unfolding list_due
list_due-instant now db h = ground (arith, keep-due now db.tasks h)

-- A row whose next run is kept on a clock before that of UTC is listed when it is late already, by
-- the whole offset.
pub due-east :
    (now wall e : ℕ) (row : TaskRow)
    → row.next_run_at ≡ some (record { wall = wall; offset = east e })
    → e ≤ wall
    → is_due now row ≡ true
    → e ≤ now - instant (row_to_task now row).next_run_at
unfolding at_most text_le row_to_task
due-east now wall e row next in_range due = ground arith
