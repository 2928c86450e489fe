-- ===== src/Acp/Tests.antt =====
-- Runs of the registry of runtimes, and its theorems at concrete inputs.
use next_me.Common.{string_comparable, true, List, [], ◌∷◌}
use next_me.Config.Schema.{Settings}
use next_me.Acp.{Runtime, RuntimeRegistry, direct}
use next_me.Acp.Entries.{Call, gets_or_creates, stops_all, reaps}

abbrev settings : Settings
settings = record {
  task_queue_capacity = 1024;
  max_active_threads_per_chat = 100;
  acp_idle_timeout_seconds = 7200;
}

-- In the middle of a task that takes three hours.
abbrev busy : Runtime
busy = record {
  kind = direct;
  session_id = "oc_1:ou_1";
  cwd = "/srv/bot";
  executor = "claude";
  executor_args = [];
  is_running = true;
  last_access = 1000;
}

abbrev registry : RuntimeRegistry
registry = record { runtimes = ("oc_1:ou_1", busy) ∷ []; stopped = [] }

abbrev calls : List Call
calls =
    stops_all
    ∷ gets_or_creates 5 "oc_1:ou_1" "/srv/bot" "coco" ("acp" ∷ "serve" ∷ [])
    ∷ reaps settings (λ runtime. true) 6
    ∷ gets_or_creates 7 "oc_1:ou_1" "/srv/bot" "claude" []
    ∷ []
