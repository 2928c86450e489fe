-- ===== src/Core/Commands/Handlers.antt =====
-- core/commands.py: the handlers `handle_*`, and the choice of one in `_handle_meta_command`.
use Prim.Native.String.{◌++◌ as append}
use next_me.Common.{
  String, Bool, false, not, ◌&&◌, Option, none, some, [], ◌∷◌, ◌++◌, map, length, insert, erase, ok,
  raised, Action, return, ◌>>=◌, ◌>>◌, ◌==◌, string_comparable, if◌then◌else◌,
}
use next_me.Config.Schema.{Project, get_project}
use next_me.Config.StateStore.{save_project_actual_id, set_binding, remove_binding}
use next_me.Memory.Schema.{Fact}
use next_me.Memory.Manager
use next_me.Memory.Manager.{MemoryManager, add_fact}
use next_me.Acp
use next_me.Acp.{RuntimeRegistry, remove}
use next_me.Core.Types.{Task}
use next_me.Core.Session.{Session, get_active_session, get_or_create_session, cancel_permission}
use next_me.Core.Dispatcher.{on_store, on_thread_closed}
use next_me.Core.Routing.{resolve_bound_project}
use next_me.Core.Commands.{
  Desk, Words, Setting, Report, Answer, help, no_session, new_chat, stopping, thread_only,
  thread_closed, unbound, usage_bind, usage_remember, no_memory, status_of, projects, switched,
  bound_to, unknown_project, remembered, other, names, on_dispatcher, put_session, canceled_active,
}

abbrev pub change : (Desk → Desk) → Action Desk (Unit {0})
change f desk = return tt (f desk)

-- f"{context_id}:{session.project_name}"
abbrev pub key_of : String → Session → String
key_of context_id s = append context_id (append ":" s.project_name)

-- `reset_session` of the runtime, if there is one
abbrev pub reset : String → Desk → Desk
reset key desk = elim (Acp.get key desk.runtimes) [
  | none ↦ desk
  | some runtime ↦ record desk { agent_ids = insert key "" desk.agent_ids }
]

-- `/new` resets the session, the runtime, and then the id that is kept for a restart.
unfoldable pub handle_new : String → Session → Action Desk Answer
handle_new context_id s = do
  change (λ desk. reset (key_of context_id s) (put_session (record s { actual_id = "" }) desk))
  on_dispatcher (on_store (save_project_actual_id context_id s.project_name ""))
  return new_chat

-- `runtime.cancel()`, if there is a runtime
abbrev pub cancel : String → Desk → Desk
cancel key desk = elim (Acp.get key desk.runtimes) [
  | none ↦ desk
  | some runtime ↦ record desk { cancels = desk.cancels ++ key ∷ [] }
]

-- The active task is marked, and the permission that the session waits for is cancelled.
abbrev pub cancel_task : Session → Desk → Session × Desk
cancel_task s desk =
    let (futures, s') =
      cancel_permission desk.futures (record s { active_task = canceled_active s.active_task }) in
    (s', record desk { futures = futures })

unfoldable pub handle_stop : String → Session → Action Desk Answer
handle_stop context_id s = do
  change (λ desk.
      let (s', desk') = cancel_task s desk in cancel (key_of context_id s) (put_session s' desk'))
  return stopping

-- The runtime is out of the registry even if its `stop` raises.
abbrev pub remove_runtime : Setting → String → Desk → Desk
remove_runtime setting key desk = record desk {
  runtimes = (remove setting.stops key desk.runtimes).1;
}

-- `try: ... except Exception:`
abbrev pub caught : Action Desk (Option Task) → Action Desk (Option Task)
caught m desk =
    let (r, desk') = m desk in (elim r [ ok next ↦ ok next | raised e ↦ ok none ], desk')

-- The task that waits for the place of the thread is dispatched again later, and comes back beside the
-- answer.
unfoldable pub handle_done :
    Setting → String → String → Session → Action Desk (Option Task × Answer)
handle_done setting context_id thread_root_id s = do
  change (λ desk.
      let (s', desk') = cancel_task s desk in
      remove_runtime setting (key_of context_id s) (
        cancel (key_of context_id s)
          (put_session (record s' { task_queue = []; pending_tasks = [] }) desk')))
  next ← caught (on_dispatcher (on_thread_closed setting.chat_id thread_root_id))
  return (next, thread_closed)

abbrev pub report : String → String × Session → Report
report active (name, s) = record {
  project_name = s.project_name;
  is_active = name == active;
  status = s.status;
  actual_id = s.actual_id;
  active_task = s.active_task;
  waiting = length s.task_queue;
}

-- What the sections of the card show; the branch that git tells of is left out.
unfoldable pub handle_status : Desk → Answer
handle_status desk = elim desk.context.sessions [
  | [] ↦ no_session
  | e ∷ rest ↦ status_of (map (report desk.context.active_project) (e ∷ rest))
]

-- The binding is kept in the memory of the dispatcher and in the store.
unfoldable pub handle_bind : Setting → String → Action Desk Answer
handle_bind setting name = elim (get_project setting.config name) [
  | none ↦ return (unknown_project name (names setting.config.projects))
  | some project ↦ do
    change (λ desk. record desk { bindings = insert setting.chat_id name desk.bindings })
    on_dispatcher (on_store (set_binding setting.chat_id name))
    return (bound_to project)
]

unfoldable pub handle_unbind : Setting → Action Desk Answer
handle_unbind setting = do
  change (λ desk. record desk { bindings = erase setting.chat_id desk.bindings })
  on_dispatcher (on_store (remove_binding setting.chat_id))
  return unbound

unfoldable pub handle_project : Setting → String → Action Desk Answer
handle_project setting name = elim (get_project setting.config name) [
  | none ↦ return (unknown_project name (names setting.config.projects))
  | some project ↦ do
    change (λ desk. record desk {
      context = (get_or_create_session setting.salt setting.capacity project desk.context).1;
    })
    return (switched project)
]

unfoldable pub handle_remember : Setting → String → MemoryManager → Action Desk Answer
handle_remember setting text m = do
  change (λ desk.
      let fact : Fact = record {
        text = text;
        confidence = 90;
        created_at = setting.now;
        updated_at = none;
        source = "user_command";
      } in
      let m' = (Manager.load setting.dir_for setting.now setting.user_id m).1 in
      record desk {
        memory_manager = some (add_fact setting.similar setting.now setting.user_id fact m');
      })
  return (remembered text)

-- `p.name == bound` compares a text with a project.
abbrev pub is_name : String → Option Project → Bool
is_name name bound = false

-- The two markers that a project can have: that it is active, and that it is bound.
abbrev pub marked : String → Option Project → Project → Project × Bool × Bool
marked active bound p = (p, p.name == active, is_name p.name bound)

-- `/project` and what follows it
unfoldable pub project_command : Setting → Words → Action Desk Answer
unfolding handle_bind handle_unbind handle_project
project_command setting words desk =
    if words.arg == ""
    then return
        (projects (
          map
            (marked desk.context.active_project
              (resolve_bound_project setting.config desk.bindings setting.chat_id))
            setting.config.projects))
        desk
    else if words.sub_cmd == "bind"
    then (if words.sub_arg == ""
        then return usage_bind desk
        else handle_bind setting words.sub_arg desk)
    else if words.sub_cmd == "unbind"
    then handle_unbind setting desk
    else handle_project setting words.arg desk

unfoldable pub remember_command : Setting → Words → Action Desk Answer
unfolding handle_remember
remember_command setting words desk =
    if words.arg == "" then return usage_remember desk else elim desk.memory_manager [
      | none ↦ return no_memory desk
      | some m ↦ handle_remember setting words.arg m desk
    ]

abbrev pub with_session :
    (Session → Action Desk (Option Task × Answer)) → Action Desk (Option Task × Answer)
with_session f desk = elim (get_active_session desk.context) [
  | none ↦ return (none, no_session) desk
  | some s ↦ f s desk
]

abbrev pub alone : Action Desk Answer → Action Desk (Option Task × Answer)
alone m = m >>= λ answer. return (none, answer)

-- The commands on threads, tasks, skills, roles and schedules are not here: their answer is `other`, and those on
-- threads, skills, roles and schedules stand in modules of their own.
unfoldable pub handle_meta_command : Setting → Words → Task → Action Desk (Option Task × Answer)
unfolding handle_new handle_stop handle_done handle_status project_command remember_command
handle_meta_command setting words task desk =
    if words.command == "/help"
    then return (none, help) desk
    else if words.command == "/new"
    then with_session (λ s. alone (handle_new task.session_id s)) desk
    else if words.command == "/stop"
    then with_session (λ s. alone (handle_stop task.session_id s)) desk
    else if words.command == "/done"
    then (if task.chat_type == "group" && not (task.thread_root_id == "")
        then with_session (handle_done setting task.session_id task.thread_root_id) desk
        else return (none, thread_only) desk)
    else if words.command == "/status"
    then return (none, handle_status desk) desk
    else if words.command == "/project"
    then alone (project_command setting words) desk
    else if words.command == "/remember"
    then alone (remember_command setting words) desk
    else return (none, other words.command) desk
