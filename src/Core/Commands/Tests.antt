-- ===== src/Core/Commands/Tests.antt =====
-- Runs of the commands, and their theorems at concrete inputs.
use mathlib.Core.Option
use next_me.Common.{
  ◌≡◌, refl, true, false, none, some, [], ◌∷◌, ok, ◌>>=◌, arith, lookup, insert, inr,
  string_comparable, ◌==◌, ◌⊎◌, sort_by,
}
use next_me.Config.Schema.{AppConfig, Project, GlobalState, blank, get_project}
use next_me.Config.StateStore.{
  load, debounce_round, get_all_bindings, read_from_disk, set_binding, thread_key, flush,
  get_threads_for_chat, unregister_thread,
}
use next_me.Config.StateStore.Restart.{saved}
use next_me.Acp
use next_me.Core.Types.{idle}
use next_me.Core.Session.{get_or_create, Session, get_active_session}
use next_me.Core.Dispatcher.{on_thread_closed}
use next_me.Core.Worker.{SessionWorker, Run, timed_out}
use next_me.Core.Worker.Execute.{sync_id}
use next_me.Core.Routing.{resolve_bound_project}
use next_me.Core.Commands.{Desk, Words, Setting, new_chat, thread_closed}
use next_me.Core.Commands.Handlers.{key_of, handle_new, handle_bind, handle_done, project_command}
use next_me.Core.Commands.Fresh.{handle_new-starts_fresh}
use next_me.Core.Commands.Bindings.{IsKept, run, run-resolve}
use next_me.Acl.Schema.{owner}
use next_me.Core.Types.{Task}
use next_me.Config.Schema.{ThreadRecord}
use next_me.Core.Commands.Threads.{
  Office, close_match, close_thread, closed_without_session, thread_command,
}
use next_me.Core.Commands.Threads.Closing.{Closed, thread_command-Closed}
use next_me.Core.Commands.Done.{handle_done-frees}

abbrev project : Project
project = record {
  name = "bot";
  path = "/srv/bot";
  executor = "claude";
  executor_args = [];
  task_timeout_seconds = 60;
}

abbrev config : AppConfig
config = record { projects = project ∷ []; bindings = [] }

abbrev session : Session
session = record {
  context_id = "oc_1:ou_1";
  project_name = "bot";
  project_path = "/srv/bot";
  executor = "claude";
  executor_args = [];
  salt = "a1b2";
  actual_id = "sid-7";
  status = idle;
  queue_capacity = 10;
  task_queue = [];
  pending_tasks = [];
  active_task = none;
  perm_future = none;
  perm_options = [];
  suppress_cancel = false;
}

abbrev desk : GlobalState → Desk
desk g = record {
  dispatcher = record {
    store = record { disk = none; state = some g; dirty = true };
    limit = 3;
    parked = [];
  };
  context = record {
    context_id = "oc_1:ou_1";
    active_project = "bot";
    sessions = ("bot", session) ∷ [];
  };
  futures = [];
  bindings = [];
  runtimes = record { runtimes = []; stopped = [] };
  agent_ids = [];
  cancels = [];
  memory_manager = none;
}

abbrev setting : Setting
setting = record {
  config = config;
  salt = "c3d4";
  capacity = 10;
  similar = λ a b. a == b;
  dir_for = λ id. id;
  stops = λ runtime. true;
  chat_id = "oc_1";
  user_id = "ou_1";
  now = 5;
}

abbrev known : GlobalState
known = saved "oc_1:ou_1" "bot" "sid-7" blank

abbrev next_run : Run
next_run = record {
  lock_contended = false;
  ready_error = none;
  id_before = "";
  id_after = "";
  outcome = timed_out;
  marked = false;
  now = 9;
}

abbrev after_new : Desk
after_new = (handle_new "oc_1:ou_1" session (desk known)).1

abbrev worker : SessionWorker
worker = record {
  session = record session { actual_id = "" };
  state_store = some after_new.dispatcher.store;
  memory_manager = none;
  acp_registry = record { runtimes = []; stopped = [] };
  sent = [];
}

handle_new-starts_fresh_example :
    ((handle_new "oc_1:ou_1" session (desk known)).0 ≡ ok new_chat)
    × (sync_id next_run worker ≡ (ok "", worker))
handle_new-starts_fresh_example =
    handle_new-starts_fresh "oc_1:ou_1" session (desk known) known next_run worker refl refl refl
      refl (inr refl)

abbrev bind_bot : Words
bind_bot = record { command = "/project"; arg = "bind bot"; sub_cmd = "bind"; sub_arg = "bot" }

start-IsKept : IsKept (desk blank)
start-IsKept = record {
  g = blank;
  loaded = refl;
  same = λ c. refl;
  faithful = record { clean = λ g e d. absurd (ground arith) };
}

run-resolve_example :
    resolve_bound_project config (("oc_1", "bot") ∷ []) "oc_1"
    ≡ resolve_bound_project config (run ((setting, bind_bot) ∷ []) (desk blank)).bindings "oc_1"
unfolding project_command handle_bind set_binding load debounce_round flush get_all_bindings
    read_from_disk insert get_project ◌>>=◌
run-resolve_example =
    run-resolve ((setting, bind_bot) ∷ []) (desk blank) config "oc_1" (("oc_1", "bot") ∷ [])
      start-IsKept refl

handle_done-frees_example :
    let (answer, after) = handle_done setting "oc_1:om_1" "om_1" session (desk blank) in
    (answer ≡ ok (none, thread_closed))
    × (Option.map (λ t. t.task_queue) (get_active_session after.context) ≡ some [])
    × (Option.map (λ t. t.pending_tasks) (get_active_session after.context) ≡ some [])
    × (Acp.get (key_of "oc_1:om_1" session) after.runtimes ≡ none)
    × (Option.map
          (λ g'. lookup (thread_key "oc_1" "om_1") g'.thread_records)
          after.dispatcher.store.state
        ≡ some none)
unfolding lookup get_active_session
handle_done-frees_example =
    handle_done-frees setting "oc_1:om_1" "om_1" session (desk blank) blank refl refl

abbrev thread : ThreadRecord
thread = record {
  chat_id = "oc_1";
  thread_root_id = "om_1";
  project_name = "bot";
  created_at = 1;
  last_active_at = 1;
}

abbrev one_thread : GlobalState
one_thread = record blank { thread_records = ("oc_1:om_1", thread) ∷ [] }

abbrev office : Office
office = record { desk = desk one_thread; registry = [] }

abbrev close : Words
close = record { command = "/thread"; arg = "close om_1"; sub_cmd = "close"; sub_arg = "om_1" }

abbrev in_group : Task
in_group = record {
  id = "t-1";
  content = "/thread close om_1";
  session_id = "oc_1:om_2";
  message_id = "om_3";
  chat_type = "group";
  timeout = 60;
  canceled = false;
  was_queued = false;
  mentions = [];
  user_id = "ou_1";
  thread_root_id = "om_2";
}

-- The thread has no session any more.
close_runs :
    (thread_command (λ p t. p == t) setting (some owner) close in_group office).0
    ≡ ok (none, closed_without_session "om_1")
unfolding thread_command ◌>>=◌ get_threads_for_chat close_match sort_by close_thread
    get_active_session get_or_create lookup on_thread_closed unregister_thread thread_key
close_runs = refl

thread_command-Closed_example :
    let out = thread_command (λ p t. p == t) setting (some owner) close in_group office in
    (out.1 ≡ office)
    ⊎ Closed
        (λ p t. p == t)
        setting
        (some owner)
        close
        one_thread
        office.desk.dispatcher.store
        out.1.desk.dispatcher.store
thread_command-Closed_example =
    thread_command-Closed (λ p t. p == t) setting (some owner) close in_group office one_thread refl
