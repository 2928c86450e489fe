-- ===== src/Core/Dispatcher.antt =====
-- core/dispatcher.py: what `dispatch` does with a task that is neither a command nor an answer, and
-- `_on_thread_closed`, for a dispatcher with a state store. The callbacks into the chat handler and
-- the messages to the user are left out; a task that is to be dispatched again is given back.
pub mod Limit
pub mod Parked
use next_me.Common.{
  ℕ, suc, ◌+◌, ◌-◌, String, Bool, true, false, not, ◌&&◌, Option, none, some, List, [], ◌∷◌, ◌++◌,
  ◌==◌, nat_comparable, string_comparable, if◌then◌else◌, ltb, leb, length, is_some, Dict, lookup,
  insert, Result, Action, return, ◌>>=◌, ◌>>◌,
}
use next_me.Config.Schema.{AppConfig, Project, get_project}
use next_me.Config.StateStore.{
  StateStore, get_active_thread_count, register_thread, unregister_thread,
}
use next_me.Core.Types.{Task}
use next_me.Core.Session.{Session}

pub record Dispatcher : Type 0 where
  pub store : StateStore
  -- `settings.max_active_threads_per_chat`
  pub limit : ℕ
  -- `_pending_thread_queue`
  pub parked : Dict String (List Task)

abbrev pub on_store : {A : Type 0} → Action StateStore A → Action Dispatcher A
on_store m d = let (r, store) = m d.store in (r, record d { store = store })

-- A message of a group that is the root of its own thread.
unfoldable pub is_new_thread : Task → Bool
is_new_thread task =
    task.chat_type == "group"
    && not (task.thread_root_id == "")
    && task.thread_root_id == task.message_id

abbrev pub queue_of : String → Dispatcher → List Task
queue_of chat_id d = elim (lookup chat_id d.parked) [ none ↦ [] | some queue ↦ queue ]

-- The place in the queue is counted from 1.
unfoldable pub park : String → Task → Action Dispatcher (Option ℕ)
park chat_id task d =
    return (some (suc (length (queue_of chat_id d))))
      (record d { parked = insert chat_id (queue_of chat_id d ++ task ∷ []) d.parked })

-- `none` where the task may go on
unfoldable pub admit : ℕ → String → String → Task → Action Dispatcher (Option ℕ)
unfolding is_new_thread park
admit now chat_id project_name task d =
    if is_new_thread task
    then (on_store (get_active_thread_count chat_id) >>= λ active_count.
          if leb d.limit active_count
          then park chat_id task
          else (on_store (register_thread now chat_id task.thread_root_id project_name) >>= λ _.
              return none))
        d
    else return none d

-- The timeout of the session's project, where it has one.
unfoldable pub with_timeout : AppConfig → Session → Task → Task
with_timeout config session task = elim (get_project config session.project_name) [
  | none ↦ task
  | some project ↦
      if ltb 0 project.task_timeout_seconds
      then record task { timeout = project.task_timeout_seconds }
      else task
]

-- `asyncio.Queue.full`: a queue with capacity 0 has no limit
abbrev pub is_full : Session → Bool
is_full session =
    ltb 0 session.queue_capacity && leb session.queue_capacity (length session.task_queue)

abbrev pub one_if : Bool → ℕ
one_if true = 1
one_if false = 0

-- The tasks that are ahead, before the put: those in the queue and the active one.
abbrev pub tasks_ahead : Session → ℕ
tasks_ahead session = length session.task_queue + one_if (is_some session.active_task)

-- `none` where the queue is full and the task is dropped. The object in both lists is the same, so
-- what is written to it later is seen in both.
unfoldable pub enqueue : AppConfig → Session → Task → Option ℕ × Session
unfolding with_timeout
enqueue config session task =
    let queued = record (with_timeout config session task) {
      was_queued = ltb 0 (tasks_ahead session);
    } in
    if is_full session then (none, session) else (
      some (tasks_ahead session),
      record session {
        task_queue = session.task_queue ++ queued ∷ [];
        pending_tasks = session.pending_tasks ++ queued ∷ [];
      },
    )

pub data Outcome : Type 0 where
  parked_at queued_behind : ℕ → Outcome
  dropped : Outcome

abbrev pub outcome_of : Option ℕ × Session → Outcome × Session
outcome_of (none, session) = (dropped, session)
outcome_of (some ahead, session) = (queued_behind ahead, session)

-- Steps 3 and 4 of `dispatch`.
unfoldable pub accept :
    AppConfig → ℕ → String → Session → Task → Action Dispatcher (Outcome × Session)
unfolding admit enqueue
accept config now chat_id session task = do
  place ← admit now chat_id session.project_name task
  elim place [
    | some n ↦ return (parked_at n, session)
    | none ↦ return (outcome_of (enqueue config session task))
  ]

-- `queue.popleft()`, where the chat has a queue that is not empty.
unfoldable pub pop_parked : String → Action Dispatcher (Option Task)
pop_parked chat_id d = elim (queue_of chat_id d) [
  | [] ↦ return none d
  | task ∷ rest ↦ return (some task) (record d { parked = insert chat_id rest d.parked })
]

-- The task that is dispatched again.
unfoldable pub on_thread_closed : String → String → Action Dispatcher (Option Task)
unfolding pop_parked
on_thread_closed chat_id thread_root_id = do
  on_store (unregister_thread chat_id thread_root_id)
  pop_parked chat_id
