-- ===== src/Scheduler/Commands/Chats.antt =====
-- Whose tasks the `/schedule` command of scheduler/commands.py reaches.
use next_me.Common.{
  ◌*◌, ℕ, String, ◌≡◌, refl, ap, Bool, true, false, not, Option, none, some, List, [], ◌∷◌, ◌++◌,
  map, arith, ◌==◌, string_comparable, if◌then◌else◌, ◌>>=◌, Bool-cases, Option-cases, Result-cases,
  inl, inr, any, keep, In, In-keep, In-of_In-map, In-of_find, In-sort_by, sort_by, leb,
}
use next_me.Scheduler.Schema.{ScheduledTask}
use next_me.Scheduler.Db.{
  SchedulerDb, TaskRow, has_id, row_to_task, create, list_by_chat, update_status, delete, create,
}
use next_me.Scheduler.Engine.Bound.{IsKeyed}
use next_me.Scheduler.Engine.Bound.Keys.{row_of_key}
use next_me.Scheduler.Commands.{
  Caller, ParsedSchedule, ScheduleAction, pause_task, resume_task, delete_task, create_task,
  list_tasks, Every, days, hours, minutes, seconds, interval_str, find_task_by_prefix, type_details,
  handle_target, handle_change, handle_create, handle_list, handle_schedule, shown, new_task,
}

abbrev pub seconds_of : Every → ℕ
seconds_of (days n) = n * 86400
seconds_of (hours n) = n * 3600
seconds_of (minutes n) = n * 60
seconds_of (seconds n) = n

-- The interval that a list shows is exactly the stored number of seconds.
pub interval_str-seconds : (secs : ℕ) → seconds_of (interval_str secs) ≡ secs
unfolding interval_str
interval_str-seconds secs = ground arith

abbrev pub of_other_chat : String → TaskRow → Bool
of_other_chat chat_id row = not (row.task.chat_id == chat_id)

-- The rows of other chats.
abbrev pub others_of : String → SchedulerDb → List TaskRow
others_of chat_id db = keep (of_other_chat chat_id) db.tasks

-- The task that a prefix names in a chat.
abbrev pub find_in_chat : ℕ → String → String → SchedulerDb → Option ScheduledTask
find_in_chat now chat_id prefix db =
    find_task_by_prefix
      (map (row_to_task now) (
        sort_by (λ a b. leb b.task.created_at a.task.created_at)
          (keep (λ row. row.task.chat_id == chat_id) db.tasks)))
      prefix

-- A task that the list of a chat names has its rows in the chat.
rows_of_found :
    (now : ℕ) (chat_id prefix : String) (task : ScheduledTask) (db : SchedulerDb)
    → IsKeyed db.tasks
    → find_task_by_prefix
        (map (row_to_task now) (
          sort_by
            (λ a b. leb b.task.created_at a.task.created_at)
            (keep (λ row. row.task.chat_id == chat_id) db.tasks)))
        prefix
      ≡ some task
    → (row : TaskRow) → In row db.tasks
    → has_id task.id row ≡ true
    → of_other_chat chat_id row ≡ false
unfolding find_task_by_prefix row_to_task
rows_of_found now chat_id prefix task db keyed found row m same =
    let before = λ (a b : TaskRow). leb b.task.created_at a.task.created_at in
    let ours = keep (λ (r : TaskRow). r.task.chat_id == chat_id) db.tasks in
    let (source, listed, is_task) =
      In-of_In-map (row_to_task now) task (sort_by before ours) (In-of_find _ _ task found) in
    let (there, chat) =
      (In-keep source (λ r. r.task.chat_id == chat_id) db.tasks).0
        ((In-sort_by before source ours).0 listed) in
    let one : row ≡ source =
      row_of_key row source db.tasks keyed m there (
        ground (arith, string_comparable.equals_iff row.task.id task.id, ap (λ t. t.id) is_task)) in
    ground (arith, ap (λ r. r.task.chat_id) one)

keep-update :
    (p : TaskRow → Bool) (f : TaskRow → TaskRow) (id : String) (rows : List TaskRow)
    → ((row : TaskRow) → p (f row) ≡ p row)
    → ((row : TaskRow) → In row rows → has_id id row ≡ true → p row ≡ false)
    → keep p (map (λ row. if has_id id row then f row else row) rows) ≡ keep p rows
keep-update p f id [] same only = refl
keep-update p f id (row ∷ rows) same only =
    ground
      (arith, same row, only row (inl refl), keep-update p f id rows same (λ r m. only r (inr m)))

keep-delete :
    (p : TaskRow → Bool) (id : String) (rows : List TaskRow)
    → ((row : TaskRow) → In row rows → has_id id row ≡ true → p row ≡ false)
    → keep p (keep (λ row. not (has_id id row)) rows) ≡ keep p rows
keep-delete p id [] only = refl
keep-delete p id (row ∷ rows) only =
    ground (arith, only row (inl refl), keep-delete p id rows (λ r m. only r (inr m)))

type_details_reads :
    (int_of : String → Option ℕ) (tasks : List ScheduledTask) (db : SchedulerDb)
    → (type_details int_of tasks db).1 ≡ db
unfolding type_details ◌>>=◌
type_details_reads int_of [] db = refl
type_details_reads int_of (t ∷ rest) db = elim (Result-cases (type_details int_of rest db).0) [
  | inl (lines, e) ↦ ground (arith, type_details_reads int_of rest db)
  | inr (error, e) ↦ ground (arith, type_details_reads int_of rest db)
]

handle_list_reads :
    (int_of : String → Option ℕ) (now : ℕ) (c : Caller) (db : SchedulerDb)
    → (handle_list int_of now c db).1 ≡ db
unfolding handle_list list_by_chat ◌>>=◌
handle_list_reads int_of now c db = listed (
    map (row_to_task now) (
      sort_by (λ a b. leb b.task.created_at a.task.created_at)
        (keep (λ row. row.task.chat_id == c.chat_id) db.tasks)))
  where
    listed : (tasks : List ScheduledTask) → (shown int_of tasks db).1 ≡ db
    listed [] = refl
    listed (t ∷ rest) = elim (Result-cases (type_details int_of (t ∷ rest) db).0) [
      | inl (lines, e) ↦ ground (arith, type_details_reads int_of (t ∷ rest) db)
      | inr (error, e) ↦ ground (arith, type_details_reads int_of (t ∷ rest) db)
    ]

keep-append_last :
    (p : TaskRow → Bool) (xs : List TaskRow) (y : TaskRow)
    → p y ≡ false
    → keep p (xs ++ y ∷ []) ≡ keep p xs
keep-append_last p [] y fails = ground arith
keep-append_last p (x ∷ xs) y fails = ground (arith, keep-append_last p xs y fails)

create-others :
    (task : ScheduledTask) (db : SchedulerDb)
    → others_of task.chat_id (create task db).1 ≡ others_of task.chat_id db
unfolding create
create-others task db =
    let row : TaskRow = record {
      task = record task { last_run_at = none };
      next_run_at = some task.next_run_at;
    } in
    let ours : of_other_chat task.chat_id row ≡ false =
      ground (arith, string_comparable.equals_iff task.chat_id task.chat_id) in
    elim (Bool-cases (any (has_id task.id) db.tasks)) [
      | inl taken ↦ ground arith
      | inr fresh ↦ ground (arith, keep-append_last (of_other_chat task.chat_id) db.tasks row ours)
    ]

handle_target-others :
    (action : ScheduleAction) (chat_id : String) (task : ScheduledTask) (db : SchedulerDb)
    → ((row : TaskRow)
        → In row db.tasks
        → has_id task.id row ≡ true
        → of_other_chat chat_id row ≡ false)
    → others_of chat_id (handle_target action task db).1 ≡ others_of chat_id db
unfolding handle_target update_status delete ◌>>=◌
handle_target-others pause_task chat_id task db only =
    keep-update (of_other_chat chat_id) _ task.id db.tasks (λ row. refl) only
handle_target-others resume_task chat_id task db only =
    keep-update (of_other_chat chat_id) _ task.id db.tasks (λ row. refl) only
handle_target-others delete_task chat_id task db only =
    keep-delete (of_other_chat chat_id) task.id db.tasks only
handle_target-others create_task chat_id task db only = refl
handle_target-others list_tasks chat_id task db only = refl

handle_change-others :
    (now : ℕ) (c : Caller) (parsed : ParsedSchedule) (db : SchedulerDb)
    → IsKeyed db.tasks
    → others_of c.chat_id (handle_change now c parsed db).1 ≡ others_of c.chat_id db
unfolding handle_change list_by_chat ◌>>=◌
handle_change-others now c parsed db keyed = elim (Option-cases parsed.target_id) [
  | inl missing ↦ ground arith
  | inr (target, given) ↦
      let tasks : List ScheduledTask = map (row_to_task now) (
        sort_by (λ a b. leb b.task.created_at a.task.created_at)
          (keep (λ row. row.task.chat_id == c.chat_id) db.tasks)) in
      elim (Option-cases (find_task_by_prefix tasks target)) [
        | inl unknown ↦ ground arith
        | inr (task, found) ↦ ground (
          arith,
          handle_target-others parsed.action c.chat_id task db
              (rows_of_found now c.chat_id target task db keyed found),
        )
      ]
]

handle_create-others :
    (asks_for_group : String → Bool) (now : ℕ) (task_id : String) (c : Caller)
    (parsed : ParsedSchedule) (db : SchedulerDb)
    → others_of c.chat_id (handle_create asks_for_group now task_id c parsed db).1
      ≡ others_of c.chat_id db
unfolding handle_create new_task ◌>>=◌
handle_create-others asks_for_group now task_id c parsed db = elim (Option-cases parsed.prompt) [
  | inl missing ↦ ground arith
  | inr (prompt, e1) ↦ elim (Option-cases parsed.schedule_type) [
    | inl missing ↦ ground arith
    | inr (kind, e2) ↦ elim (Option-cases parsed.schedule_value) [
      | inl missing ↦ ground arith
      | inr (value, e3) ↦ elim (Option-cases parsed.next_run_at) [
        | inl missing ↦ ground arith
        | inr (next, e4) ↦
            let task : ScheduledTask =
              new_task asks_for_group now task_id c prompt kind value next in
            elim (Result-cases (create task db).0) [
              | inl (u, e) ↦ ground (arith, create-others task db)
              | inr (error, e) ↦ ground (arith, create-others task db)
            ]
      ]
    ]
  ]
]

-- Where the ids of the tasks differ, a `/schedule` command leaves the tasks of all other chats as
-- they are, whatever it says.
pub handle_schedule-others :
    (int_of : String → Option ℕ) (asks_for_group : String → Bool) (now : ℕ) (task_id : String)
    (c : Caller) (parsed : Option ParsedSchedule) (db : SchedulerDb)
    → IsKeyed db.tasks
    → others_of c.chat_id (handle_schedule int_of asks_for_group now task_id c parsed db).1
      ≡ others_of c.chat_id db
unfolding handle_schedule
handle_schedule-others int_of asks_for_group now task_id c none db keyed = refl
handle_schedule-others int_of asks_for_group now task_id c (some parsed) db keyed =
    by_action parsed.action refl
  where
    by_action :
        (action : ScheduleAction)
        → parsed.action ≡ action
        → others_of c.chat_id
            (handle_schedule int_of asks_for_group now task_id c (some parsed) db).1
          ≡ others_of c.chat_id db
    by_action list_tasks e = ground (arith, handle_list_reads int_of now c db)
    by_action create_task e =
        ground (arith, handle_create-others asks_for_group now task_id c parsed db)
    by_action pause_task e = ground (arith, handle_change-others now c parsed db keyed)
    by_action resume_task e = ground (arith, handle_change-others now c parsed db keyed)
    by_action delete_task e = ground (arith, handle_change-others now c parsed db keyed)
