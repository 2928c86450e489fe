-- ===== src/Core/Worker/Tests.antt =====
-- Runs of a worker, and its theorems at concrete inputs.
use next_me.Common.{
  String, ◌≡◌, refl, ℕ, Bool, true, false, none, some, List, [], ◌∷◌, ok, arith, lookup, ◌==◌,
  string_comparable, nat_comparable,
}
use next_me.Config.Schema.{GlobalState, blank}
use next_me.Config.StateStore.{StateStore, load, debounce_round}
use next_me.Config.StateStore.Restart.{restart, saved}
use next_me.Memory.Manager.{MemoryManager}
use next_me.Core.Types.{Task, idle, waiting_permission, PermOption}
use next_me.Core.Session.{Session, UserContext, set_permission_pending, cancel_permission}
use next_me.Core.Worker.Permission.{PermissionRequest, Scene, request_permission}
use next_me.Core.Worker.Permission.Clicks.{IsAnswered, IsLost, click-answers, early_click-IsLost}
use next_me.Core.Worker.{
  thinking_card, result_card, SessionWorker, add, Outcome, returned, timed_out, raised_error, Run,
  Outside,
}
use next_me.Core.Worker.Execute.{execute_task, sync_id}
use next_me.Core.Worker.Loop.{run}
use next_me.Core.Worker.Answers.Drain.{answered, run-answers}
use next_me.Core.Worker.Copies.{ignores_mark}
use next_me.Core.Worker.Resume.{resumes, execute_task-saves}
use next_me.Progress.{new_card}
use next_me.Core.Worker.Streaming
use next_me.Core.Worker.Streaming.{Texts, Shown, on_progress, stream}
use next_me.Core.Worker.Streaming.Updates.{IsOrdered}

abbrev task : String → Bool → Task
task id canceled = record {
  id = id;
  content = "hello";
  session_id = "oc_1:ou_1";
  message_id = "om_1";
  chat_type = "p2p";
  timeout = 60;
  canceled = canceled;
  was_queued = false;
  mentions = [];
  user_id = "ou_1";
  thread_root_id = "";
}

abbrev session : List Task → Session
session queue = record {
  context_id = "oc_1:ou_1";
  project_name = "bot";
  project_path = "/srv/bot";
  executor = "claude";
  executor_args = [];
  salt = "a1b2";
  actual_id = "";
  status = idle;
  queue_capacity = 10;
  task_queue = queue;
  pending_tasks = queue;
  active_task = none;
  perm_future = none;
  perm_options = [];
  suppress_cancel = false;
}

abbrev store : GlobalState → StateStore
store g = record { disk = none; state = some g; dirty = false }

abbrev memory : MemoryManager
memory = record { max_facts = 5; cache = []; dirty = []; disk = [] }

abbrev worker : List Task → GlobalState → SessionWorker
worker queue g = record {
  session = session queue;
  state_store = some (store g);
  memory_manager = some memory;
  acp_registry = record { runtimes = []; stopped = [] };
  sent = [];
}

abbrev outside : Outside
outside = record {
  extract_and_strip_memory = λ content. (add "likes tea" ∷ [], content);
  render = λ facts. "";
  last_part = λ id. "ou_1";
  similar = λ a b. false;
  dir_for = λ id. id;
  stops = λ runtime. true;
}

abbrev ends : Outcome → Bool → Run
ends outcome marked = record {
  lock_contended = false;
  ready_error = none;
  id_before = "";
  id_after = "sid-7";
  outcome = outcome;
  marked = marked;
  now = 100;
}

abbrev three : List Task
three = task "t1" false ∷ task "t2" true ∷ task "t3" false ∷ []

run-answers_example :
    ((run outside
        (ends (returned "hi") false ∷ ends timed_out false ∷ ends (raised_error "no") false ∷ [])
        (worker three blank)).0
      ≡ ok tt)
    × ((run outside
          (ends (returned "hi") false ∷ ends timed_out false ∷ ends (raised_error "no") false ∷ [])
          (worker three blank)).1.session.task_queue
        ≡ [])
    × (answered
          (run outside
            (ends (returned "hi") false
              ∷ ends timed_out false
              ∷ ends (raised_error "no") false
              ∷ [])
            (worker three blank)).1.sent
        ≡ "t1" ∷ "t3" ∷ [])
run-answers_example =
    run-answers outside
      (ends (returned "hi") false ∷ ends timed_out false ∷ ends (raised_error "no") false ∷ [])
      (worker three blank) (ground arith)
      (λ e. ground arith, (λ e. ground arith, (λ e. ground arith, tt))) refl refl

ignores_mark_example :
    (execute_task outside (ends (returned "hi") true) (task "t1" false) (worker [] blank)).1.sent
    ≡ ("t1", thinking_card) ∷ ("t1", result_card "hi") ∷ []
ignores_mark_example =
    ignores_mark outside (ends (returned "hi") true) (task "t1" false) "hi" (worker [] blank) refl
      refl refl refl refl refl

abbrev known : GlobalState
known = saved "oc_1:ou_1" "bot" "sid-7" blank

abbrev written : StateStore
written = record { disk = none; state = some known; dirty = true }

abbrev again : SessionWorker
again = record (worker [] blank) {
  state_store = some (load (restart (debounce_round true written).1)).1;
}

resumes_example :
    ((sync_id (ends timed_out false) again).0 ≡ ok "sid-7")
    × ((sync_id (ends timed_out false) again).1.session.actual_id ≡ "sid-7")
resumes_example =
    resumes outside (ends (returned "hi") false) (ends timed_out false) (task "t1" false) "hi"
      (worker [] blank) again (store blank) written blank refl refl refl refl refl
      (execute_task-saves outside (ends (returned "hi") false) (task "t1" false) "hi"
        (worker [] blank) (store blank) blank refl refl refl refl refl)
      refl refl refl refl

abbrev texts : Texts
texts = record { base_of = λ name. name; tail_of = λ so_far. so_far }

abbrev progress : List (ℕ × String × String)
progress = (1000, "I look", "") ∷ (1100, " around", "") ∷ (1150, "", "Bash") ∷ (1400, ".", "") ∷ []

abbrev blank_card : Shown
blank_card = record {
  streaming = true;
  streaming_enabled = true;
  debounce = 500;
  run_card = new_card 8;
  buffer = "";
  sequence = 0;
  task_start = 0;
  last_streaming_update = 0;
  last_progress_update = 0;
  updates = [];
  patches = [];
}

updates_sent : (Streaming.Updates.run texts progress blank_card).sequence ≡ 3
unfolding Streaming.on_progress Streaming.stream
updates_sent = refl

abbrev allow : PermOption
allow = record { index = 1; label = "allow"; description = "" }

abbrev deny : PermOption
deny = record { index = 2; label = "deny"; description = "" }

abbrev request : PermissionRequest
request = record { request_id = "r1"; description = "run make"; options = allow ∷ deny ∷ [] }

abbrev busy : Session
busy = record (session []) { active_task = some (task "t-1" false) }

abbrev asked : Session
asked = record busy {
  perm_future = some 0;
  perm_options = allow ∷ deny ∷ [];
  status = waiting_permission;
}

abbrev chat : Session → UserContext
chat s = record { context_id = "oc_1:ou_1"; active_project = "bot"; sessions = ("bot", s) ∷ [] }

abbrev is_deny : String → Bool
is_deny label = label == "deny"

click-answers_example :
    IsAnswered is_deny request [] busy "oc_1:ou_1"
      (("oc_1:ou_1", chat asked) ∷ [])
      (chat asked)
      1
      deny
unfolding lookup set_permission_pending cancel_permission
click-answers_example =
    click-answers is_deny request [] busy "oc_1:ou_1" (("oc_1:ou_1", chat asked) ∷ []) (chat asked)
      1 deny refl refl refl refl refl

abbrev scene : Scene
scene = record { futures = []; contexts = ("oc_1:ou_1", chat busy) ∷ []; cards = [] }

-- Both buttons are clicked while the card is sent.
early_click-IsLost_example :
    IsLost request "oc_1:ou_1" "bot" scene
      (request_permission request "oc_1:ou_1" "bot" (1 ∷ 2 ∷ []) scene)
unfolding lookup
early_click-IsLost_example =
    early_click-IsLost request "oc_1:ou_1" (chat busy) busy (1 ∷ 2 ∷ []) scene refl refl refl refl
      refl
