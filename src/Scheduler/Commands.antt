-- ===== src/Scheduler/Commands.antt =====
-- scheduler/commands.py: `handle_schedule`, from the point where the text has been read by its
-- regular expressions. A handler's message is a value of `Answer`; whether it can be sent is
-- not modelled. `asks_for_group` says whether the group keywords are found in a prompt.
pub mod Chats
pub mod Resume
use next_me.Common.{
  ℕ, ◌*◌, ◌/◌, ◌%◌, String, Bool, true, false, ◌&&◌, Option, none, some, List, [], ◌∷◌, find, ◌==◌,
  string_comparable, nat_comparable, if◌then◌else◌, Error, value_error, assertion_error, Action,
  return, raise, ◌>>=◌, ◌>>◌,
}
use text.Mathlib.Text.{starts_with}
use next_me.Scheduler.Schema.{
  DateTime, ScheduleType, once, interval, cron, active, paused, ScheduledTask,
}
use next_me.Scheduler.Db.{SchedulerDb, create, list_by_chat, update_status, delete}

-- `ParsedSchedule.action`
pub data ScheduleAction : Type 0 where
  create_task list_tasks pause_task resume_task delete_task : ScheduleAction

pub record ParsedSchedule : Type 0 where
  pub action : ScheduleAction
  pub prompt : Option String
  pub schedule_type : Option ScheduleType
  pub schedule_value : Option String
  pub next_run_at : Option DateTime
  pub target_id : Option String

-- How a list shows the interval.
pub data Every : Type 0 where
  days hours minutes seconds : ℕ → Every

unfoldable pub interval_str : ℕ → Every
interval_str secs =
    if secs % 86400 == 0
    then days (secs / 86400)
    else if secs % 3600 == 0
    then hours (secs / 3600)
    else if secs % 60 == 0
    then minutes (secs / 60)
    else seconds secs

pub data TypeDetail : Type 0 where
  at_interval : Every → TypeDetail
  by_cron : String → TypeDetail
  at_once : TypeDetail

pub data Answer : Type 0 where
  usage no_tasks : Answer
  listing : List (ScheduledTask × TypeDetail) → Answer
  created : String → String → ScheduleType → Answer
  not_found : String → Answer
  paused_answer resumed_answer deleted_answer : ScheduledTask → Answer

-- `int_of` is `int(text)`, which may raise.
unfoldable pub type_details :
    (String → Option ℕ)
    → List ScheduledTask
    → Action SchedulerDb (List (ScheduledTask × TypeDetail))
unfolding interval_str
type_details int_of [] = return []
type_details int_of (t ∷ rest) = elim t.schedule_type [
  | interval ↦ elim (int_of t.schedule_value) [
    | none ↦ raise value_error
    | some secs ↦ do
      lines ← type_details int_of rest
      return ((t, at_interval (interval_str secs)) ∷ lines)
  ]
  | cron ↦ do lines ← type_details int_of rest; return ((t, by_cron t.schedule_value) ∷ lines)
  | once ↦ do lines ← type_details int_of rest; return ((t, at_once) ∷ lines)
]

unfoldable pub find_task_by_prefix : List ScheduledTask → String → Option ScheduledTask
find_task_by_prefix tasks prefix = find (λ task. starts_with task.id prefix) tasks

unfoldable pub is_group_notify : (String → Bool) → String → String → Bool
is_group_notify asks_for_group prompt chat_type = chat_type == "group" && asks_for_group prompt

-- `assert value is not None`
abbrev pub asserted : {A : Type 0} → Option A → Action SchedulerDb A
asserted none = raise assertion_error
asserted (some a) = return a

-- The command's caller and chat.
pub record Caller : Type 0 where
  pub chat_id : String
  pub creator_open_id : String
  pub project_name : Option String
  pub chat_type : String

abbrev pub shown : (String → Option ℕ) → List ScheduledTask → Action SchedulerDb Answer
shown int_of [] = return no_tasks
shown int_of (t ∷ rest) = do lines ← type_details int_of (t ∷ rest); return (listing lines)

unfoldable pub handle_list : (String → Option ℕ) → ℕ → Caller → Action SchedulerDb Answer
unfolding type_details
handle_list int_of now c = do tasks ← list_by_chat now c.chat_id; shown int_of tasks

unfoldable pub new_task :
    (String → Bool)
    → ℕ
    → String
    → Caller
    → String
    → ScheduleType
    → String
    → DateTime
    → ScheduledTask
unfolding is_group_notify
new_task asks_for_group now task_id c prompt schedule_type schedule_value next_run_at = record {
  id = task_id;
  chat_id = c.chat_id;
  creator_open_id = c.creator_open_id;
  prompt = prompt;
  schedule_type = schedule_type;
  schedule_value = schedule_value;
  next_run_at = next_run_at;
  last_run_at = none;
  status = active;
  run_count = 0;
  max_runs = none;
  created_at = now;
  project_name = c.project_name;
  notify_chat = is_group_notify asks_for_group prompt c.chat_type;
}

unfoldable pub handle_create :
    (String → Bool) → ℕ → String → Caller → ParsedSchedule → Action SchedulerDb Answer
unfolding new_task
handle_create asks_for_group now task_id c parsed = do
  prompt ← asserted parsed.prompt
  schedule_type ← asserted parsed.schedule_type
  schedule_value ← asserted parsed.schedule_value
  next_run_at ← asserted parsed.next_run_at
  create (new_task asks_for_group now task_id c prompt schedule_type schedule_value next_run_at)
  return (created task_id prompt schedule_type)

-- What `pause`, `resume` and `delete` do to the task that is found.
unfoldable pub handle_target : ScheduleAction → ScheduledTask → Action SchedulerDb Answer
handle_target pause_task task = do update_status task.id paused; return (paused_answer task)
handle_target resume_task task = do update_status task.id active; return (resumed_answer task)
handle_target delete_task task = do delete task.id; return (deleted_answer task)
handle_target _ task = return (not_found task.id)

unfoldable pub handle_change : ℕ → Caller → ParsedSchedule → Action SchedulerDb Answer
unfolding handle_target find_task_by_prefix
handle_change now c parsed = do
  target_id ← asserted parsed.target_id
  tasks ← list_by_chat now c.chat_id
  elim (find_task_by_prefix tasks target_id) [
    | none ↦ return (not_found target_id)
    | some task ↦ handle_target parsed.action task
  ]

-- `now` is read where a task is made or its row is without a next run; `task_id` is what `uuid4` gives.
unfoldable pub handle_schedule :
    (String → Option ℕ)
    → (String → Bool)
    → ℕ
    → String
    → Caller
    → Option ParsedSchedule
    → Action SchedulerDb Answer
unfolding handle_list handle_create handle_change
handle_schedule int_of asks_for_group now task_id c none = return usage
handle_schedule int_of asks_for_group now task_id c (some parsed) = elim parsed.action [
  | list_tasks ↦ handle_list int_of now c
  | create_task ↦ handle_create asks_for_group now task_id c parsed
  | pause_task ↦ handle_change now c parsed
  | resume_task ↦ handle_change now c parsed
  | delete_task ↦ handle_change now c parsed
]
