-- ===== src/Core/Tests.antt =====
-- Runs of a session's permissions, and its theorems at concrete inputs.
use next_me.Common.{◌≡◌, refl, some, List, [], ◌∷◌, arith, get_elem?}
use next_me.Config.Schema.{Project}
use next_me.Common.{String, ◌≤◌, ◌++◌, none, false, lookup, string_comparable}
use next_me.Config.Schema.{AppConfig, blank}
use next_me.Config.StateStore.Threads.{active_in}
use next_me.Core.Dispatcher.{Dispatcher, admit, queue_of}
use next_me.Core.Dispatcher.Limit.{admit-limit}
use next_me.Core.Dispatcher.Parked
use next_me.Core.Dispatcher.Parked.{Event, parks, pops, parked_by, run-parked}
use next_me.Common.{◌==◌, nat_comparable}
use next_me.Config.Schema.{default_project}
use next_me.Core.Session.{UserContext}
use next_me.Core.Routing
use next_me.Core.Routing.{session_for, target}
use next_me.Core.Types.{PermOption, PermissionChoice, Task}
use next_me.Core.Session.{Session, Futures, Registry, waiting, resolved, new_session}
use next_me.Core.Session.Permissions.{Call, requests, answered, cancels, IsValid, run, run_futures}

abbrev project : Project
project = record {
  name = "bot";
  path = "/srv/bot";
  executor = "claude";
  executor_args = [];
  task_timeout_seconds = 28800;
}

abbrev session : Session
unfolding new_session
session = new_session "a1b2" 1024 "oc_1:ou_1" project

abbrev allow : PermOption
allow = record { index = 1; label = "Allow"; description = "" }

abbrev choice : PermissionChoice
choice = record { request_id = "r1"; option_index = 1; option_label = "Allow" }

abbrev settled : Futures
settled = resolved choice ∷ []

session-IsValid : IsValid (settled, session)
unfolding new_session
session-IsValid = record { only = λ h e. ground arith; none_left = λ e. refl }

abbrev calls : List Call
calls = requests (allow ∷ []) ∷ requests (allow ∷ []) ∷ answered choice ∷ cancels ∷ []

run_futures_example :
    IsValid (run (settled, session) calls)
    × (get_elem? (run (settled, session) calls).0 0 ≡ some (resolved choice))
run_futures_example =
    run_futures (settled, session) calls 0 (resolved choice) session-IsValid refl
      (λ e. ground arith)

-- The first message of a thread in a group.
abbrev root_message : Task
root_message = record {
  id = "u1";
  content = "hello";
  session_id = "oc_1:ou_1";
  message_id = "om_1";
  chat_type = "group";
  timeout = 28800;
  canceled = false;
  was_queued = false;
  mentions = [];
  user_id = "ou_1";
  thread_root_id = "om_1";
}

abbrev dispatcher : Dispatcher
dispatcher = record {
  store = record { disk = none; state = some blank; dirty = false };
  limit = 1;
  parked = [];
}

none_active : (c : String) → active_in c dispatcher.store ≤ dispatcher.limit
none_active c = omega arith

admit-limit_example : active_in "oc_1" (admit 5 "oc_1" "bot" root_message dispatcher).1.store ≤ 1
admit-limit_example =
    admit-limit 5 "oc_1" "bot" "oc_1" root_message dispatcher blank refl none_active

-- Room for one task, which is there.
abbrev busy_session : Session
busy_session = record session { queue_capacity = 1; task_queue = root_message ∷ [] }

abbrev config : AppConfig
config = record { projects = project ∷ []; bindings = [] }

abbrev events : List Event
events = parks root_message ∷ parks (record root_message { id = "u2" }) ∷ pops ∷ []

run-parked_example :
    (Parked.run "oc_1" dispatcher events).0
      ++ queue_of "oc_1" (Parked.run "oc_1" dispatcher events).1
    ≡ queue_of "oc_1" dispatcher ++ parked_by events
run-parked_example = run-parked "oc_1" dispatcher events

abbrev two_projects : AppConfig
two_projects = record {
  projects = project ∷ record project { name = "web" } ∷ [];
  bindings = ("oc_9", "web") ∷ [];
}

abbrev context : UserContext
context = record { context_id = "oc_1:ou_1"; active_project = ""; sessions = [] }

context-IsValid : Routing.IsValid context
unfolding lookup
context-IsValid = record { own = λ name s e. cc }

same_named : (q p : Project) → some q ≡ some p → (q.name == "") ≡ false → (p.name == "") ≡ false
same_named q p e named = ground arith

bot_named : (p : Project) → default_project two_projects ≡ some p → (p.name == "") ≡ false
unfolding default_project
bot_named p e = same_named project p e refl

-- The session with a request that waits for one option.
abbrev asking : Session
asking = record session { perm_future = some 1; perm_options = allow ∷ [] }

abbrev chat_contexts : Registry
chat_contexts =
    (
      "oc_1:ou_1",
      record { context_id = "oc_1:ou_1"; active_project = "bot"; sessions = ("bot", asking) ∷ [] },
    )
    ∷ []

abbrev chat_futures : Futures
chat_futures = resolved choice ∷ waiting ∷ []
