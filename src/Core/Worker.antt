-- ===== src/Core/Worker.antt =====
-- core/worker.py: one `SessionWorker` with the session, the state store, the memory and the registry of
-- runtimes that it writes to. What it cannot decide itself is a `Run`: the lock, the runtime of
-- acp/, and what others do while it is awaited. `sent` has the cards that are shown where no sending
-- fails, also those that are written over an earlier card of the same task.
--
-- `dataclasses.replace` gives `_execute_task` a task of its own, so that the flag that others set on
-- the session's active task is then not the one that it reads: such a copy is passed along.
pub mod Execute
pub mod Loop
pub mod Frames
pub mod Answers
pub mod Copies
pub mod Resume
pub mod Forgets
pub mod Streaming
pub mod Permission
pub mod Tests
use Prim.Native.String.{◌++◌ as append}
use next_me.Common.{
  ℕ, String, Bool, true, false, not, Option, none, some, List, [], ◌∷◌, ◌++◌, ◌==◌,
  string_comparable, if◌then◌else◌,
}
use next_me.Config.StateStore.{StateStore}
use next_me.Memory.Schema.{Fact}
use next_me.Memory.Manager.{MemoryManager}
use next_me.Acp.{Runtime, RuntimeRegistry}
use next_me.Core.Types.{Task, TaskStatus}
use next_me.Core.Session.{Session}

pub data Card : Type 0 where
  waiting_card thinking_card timeout_card cancelled_card : Card
  result_card error_card : String → Card

pub record SessionWorker : Type 0 where
  pub session : Session
  pub state_store : Option StateStore
  pub memory_manager : Option MemoryManager
  pub acp_registry : RuntimeRegistry
  -- each card with the id of its task
  pub sent : List (String × Card)

-- `_MemoryOp`
pub data MemoryOp : Type 0 where
  add : String → MemoryOp
  replace : ℕ → String → MemoryOp
  forget : ℕ → MemoryOp

-- How `runtime.execute` ends.
pub data Outcome : Type 0 where
  returned : String → Outcome
  cancelled timed_out : Outcome
  raised_error : String → Outcome

pub record Run : Type 0 where
  -- the path's lock is held by another session
  pub lock_contended : Bool
  -- what `ensure_ready` raises
  pub ready_error : Option String
  -- `runtime.actual_id`, empty for none, before and after `execute`
  pub id_before : String
  pub id_after : String
  pub outcome : Outcome
  -- somebody has marked the session's active task as cancelled meanwhile
  pub marked : Bool
  -- `datetime.now()`
  pub now : ℕ

-- What the code calls that is not modelled: the reading of memory tags out of an answer, the template
-- of the memory, the last part of a context's id, difflib, md5, and the stopping of a runtime.
pub record Outside : Type 0 where
  pub extract_and_strip_memory : String → List MemoryOp × String
  pub render : List Fact → String
  pub last_part : String → String
  pub similar : String → String → Bool
  pub dir_for : String → String
  pub stops : Runtime → Bool

abbrev pub set_status : TaskStatus → SessionWorker → SessionWorker
set_status status w = record w { session = record w.session { status = status } }

-- A task whose path is locked shows first that it waits.
abbrev pub start_cards : String → Bool → List (String × Card)
start_cards id true = (id, waiting_card) ∷ (id, thinking_card) ∷ []
start_cards id false = (id, thinking_card) ∷ []

abbrev pub send : Task → Card → SessionWorker → SessionWorker
send task card w = record w { sent = w.sent ++ (task.id, card) ∷ [] }

-- Nothing is sent while the bot shuts down.
unfoldable pub send_cancelled : Task → SessionWorker → SessionWorker
send_cancelled task w = if w.session.suppress_cancel then w else send task cancelled_card w

abbrev pub canceled_task : Option Task → Option Task
canceled_task none = none
canceled_task (some task) = some (record task { canceled = true })

-- `session.active_task.canceled = True`
abbrev pub mark_active : SessionWorker → SessionWorker
mark_active w = record w {
  session = record w.session { active_task = canceled_task w.session.active_task };
}

-- The task that `_execute_task` has at hand: its own one, or else the session's.
abbrev pub is_canceled : Option Task → Bool
is_canceled none = false
is_canceled (some task) = task.canceled

abbrev pub local_canceled : Option Task → SessionWorker → Bool
local_canceled none w = is_canceled w.session.active_task
local_canceled (some task) w = task.canceled

-- `task.canceled = True` in `_execute_task`
abbrev pub cancel_local : Option Task → SessionWorker → SessionWorker
cancel_local none w = mark_active w
cancel_local (some task) w = w

-- f"{context_id}:{project_name}"
abbrev pub runtime_key : Session → String
runtime_key s = append s.context_id (append ":" s.project_name)

abbrev pub user_of : Outside → Task → Session → String
user_of o task s = if task.user_id == "" then o.last_part s.context_id else task.user_id
