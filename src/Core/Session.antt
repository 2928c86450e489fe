-- ===== src/Core/Session.antt =====
-- core/session.py: `Session` with its permission futures, `UserContext` and `SessionRegistry`. The
-- futures that the event loop has made stand in a list, and a future is its place in the list.
pub mod Permissions
use next_me.Common.{
  ℕ, String, Bool, true, false, ◌≡◌, Option, none, some, List, [], ◌∷◌, ◌++◌, map, ◌==◌,
  string_comparable, arith, if◌then◌else◌, length, get_elem?, set, Dict, lookup, insert, has_key,
}
use next_me.Config.Schema.{Project}
use next_me.Core.Types.{TaskStatus, idle, waiting_permission, PermOption, PermissionChoice, Task}

pub data Future : Type 0 where
  waiting cancelled : Future
  resolved : PermissionChoice → Future

abbrev pub Futures : Type 0
Futures = List Future

pub record Session : Type 0 where
  pub context_id : String
  pub project_name : String
  pub project_path : String
  pub executor : String
  pub executor_args : List String
  pub salt : String
  pub actual_id : String
  pub status : TaskStatus
  pub queue_capacity : ℕ
  pub task_queue : List Task
  pub pending_tasks : List Task
  pub active_task : Option Task
  pub perm_future : Option ℕ
  pub perm_options : List PermOption
  pub suppress_cancel : Bool

-- `salt` is what `secrets.token_hex` gives, and `capacity` is `settings.task_queue_capacity`.
unfoldable pub new_session : String → ℕ → String → Project → Session
new_session salt capacity context_id project = record {
  context_id = context_id;
  project_name = project.name;
  project_path = project.path;
  executor = project.executor;
  executor_args = project.executor_args;
  salt = salt;
  actual_id = "";
  status = idle;
  queue_capacity = capacity;
  task_queue = [];
  pending_tasks = [];
  active_task = none;
  perm_future = none;
  perm_options = [];
  suppress_cancel = false;
}

abbrev pub is_waiting : Option Future → Bool
is_waiting (some waiting) = true
is_waiting _ = false

-- `perm_future is not None and not perm_future.done()`
abbrev pub is_pending : Futures → Session → Bool
is_pending fs s = elim s.perm_future [ none ↦ false | some h ↦ is_waiting (get_elem? fs h) ]

-- `future.set_result(...)`, `future.cancel()`
abbrev pub settle : Futures → Option ℕ → Future → Futures
settle fs none f = fs
settle fs (some h) f = set fs h f

unfoldable pub cancel_permission : Futures → Session → Futures × Session
cancel_permission fs s = (
  if is_pending fs s then settle fs s.perm_future cancelled else fs,
  record s { perm_future = none; perm_options = [] },
)

-- The new future comes back as a place in the list.
unfoldable pub set_permission_pending : List PermOption → Futures → Session → ℕ × Futures × Session
unfolding cancel_permission
set_permission_pending options fs s =
    let (fs', s') = cancel_permission fs s in
    (
      length fs',
      fs' ++ waiting ∷ [],
      record s' {
        perm_future = some (length fs');
        perm_options = options;
        status = waiting_permission;
      },
    )

unfoldable pub resolve_permission : PermissionChoice → Futures → Session → Futures × Session
resolve_permission choice fs s =
    if is_pending fs s
    then (
      settle fs s.perm_future (resolved choice),
      record s { perm_future = none; perm_options = [] },
    )
    else (fs, s)

pub record UserContext : Type 0 where
  pub context_id : String
  pub active_project : String
  pub sessions : Dict String Session

unfoldable pub new_context : String → UserContext
new_context context_id = record { context_id = context_id; active_project = ""; sessions = [] }

unfoldable pub get_active_session : UserContext → Option Session
get_active_session ctx =
    if ctx.active_project == "" then none else lookup ctx.active_project ctx.sessions

-- The session of the project, and the context with the project active.
unfoldable pub get_or_create_session : String → ℕ → Project → UserContext → Session × UserContext
unfolding new_session
get_or_create_session salt capacity project ctx = elim (lookup project.name ctx.sessions) [
  | some s ↦ (s, record ctx { active_project = project.name })
  | none ↦
      let s : Session = new_session salt capacity ctx.context_id project in
      (
        s,
        record ctx { sessions = insert project.name s ctx.sessions; active_project = project.name },
      )
]

abbrev pub Registry : Type 0
Registry = Dict String UserContext

unfoldable pub get_or_create : String → Registry → UserContext × Registry
unfolding new_context
get_or_create context_id contexts = elim (lookup context_id contexts) [
  | some ctx ↦ (ctx, contexts)
  | none ↦ (new_context context_id, insert context_id (new_context context_id) contexts)
]

-- `SessionRegistry.get`
abbrev pub get_context : String → Registry → Option UserContext
get_context context_id contexts = lookup context_id contexts

unfoldable pub all_sessions : Registry → List Session
all_sessions [] = []
all_sessions ((_, ctx) ∷ rest) = map (λ e. e.1) ctx.sessions ++ all_sessions rest
