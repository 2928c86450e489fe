-- ===== src/Acp.antt =====
-- acp/janitor.py: `ACPRuntimeRegistry` and `ACPJanitor`, over what they see of a runtime of
-- acp/runtime.py or acp/direct_runtime.py. `stops` says whether the `stop` of a runtime returns or
-- raises. A time is a number of seconds of `datetime.now()`.
pub mod Idle
pub mod Protocol
pub mod Process
pub mod Execution
pub mod Direct
pub mod Entries
pub mod Tests
use next_me.Common.{
  ℕ, ◌-◌, String, Bool, true, false, not, ◌&&◌, ◌||◌, Option, none, some, List, [], ◌∷◌, ◌++◌, map,
  ◌==◌, string_comparable, if◌then◌else◌, leb, elem, Dict, lookup, insert, erase, runtime_error,
  Action, return, raise, ◌>>=◌, ◌>>◌,
}
use next_me.Config.Schema.{Settings}

-- Whether the runtime is an `ACPRuntime` or a `DirectClaudeRuntime`.
pub data Kind : Type 0 where
  acp direct : Kind

pub record Runtime : Type 0 where
  pub kind : Kind
  pub session_id : String
  pub cwd : String
  pub executor : String
  pub executor_args : List String
  pub is_running : Bool
  pub last_access : ℕ

pub record RuntimeRegistry : Type 0 where
  pub runtimes : Dict String Runtime
  -- the runtimes whose `stop` has been called
  pub stopped : List Runtime

abbrev pub acp_executor_names : List String
acp_executor_names = "claude-code-acp" ∷ "cc-acp" ∷ "coco" ∷ []

-- The `__init__` of the class that the executor's name chooses.
unfoldable pub new_runtime : ℕ → String → String → String → List String → Runtime
new_runtime now session_id cwd executor args =
    if elem executor acp_executor_names
    then record {
      kind = acp;
      session_id = session_id;
      cwd = cwd;
      executor = executor;
      executor_args = args;
      is_running = false;
      last_access = now;
    }
    else record {
      kind = direct;
      session_id = session_id;
      cwd = cwd;
      executor = executor;
      executor_args = [];
      is_running = false;
      last_access = now;
    }

unfoldable pub get_or_create :
    ℕ → String → String → String → List String → RuntimeRegistry → Runtime × RuntimeRegistry
unfolding new_runtime
get_or_create now session_id cwd executor args r = elim (lookup session_id r.runtimes) [
  | some runtime ↦ (runtime, r)
  | none ↦ (
    new_runtime now session_id cwd executor args,
    record r {
      runtimes = insert session_id (new_runtime now session_id cwd executor args) r.runtimes;
    },
  )
]

unfoldable pub get : String → RuntimeRegistry → Option Runtime
get session_id r = lookup session_id r.runtimes

-- The runtime is out of the registry before it is stopped.
unfoldable pub remove : (Runtime → Bool) → String → Action RuntimeRegistry (Unit {0})
remove stops session_id r = elim (lookup session_id r.runtimes) [
  | none ↦ return tt r
  | some runtime ↦
      let r' = record r {
        runtimes = erase session_id r.runtimes;
        stopped = r.stopped ++ runtime ∷ [];
      } in
      if stops runtime then return tt r' else raise runtime_error r'
]

-- Failures of the single runtimes are only logged.
unfoldable pub stop_all : RuntimeRegistry → RuntimeRegistry
stop_all r = record { runtimes = []; stopped = r.stopped ++ map (λ e. e.1) r.runtimes }

abbrev pub is_acp : Kind → Bool
is_acp acp = true
is_acp direct = false

-- A process of ACP that has died, or a runtime whose last `execute` began too long ago.
unfoldable pub is_idle : ℕ → ℕ → Runtime → Bool
is_idle now timeout runtime =
    (not runtime.is_running && is_acp runtime.kind) || leb timeout (now - runtime.last_access)

unfoldable pub idle_session_ids : ℕ → ℕ → Dict String Runtime → List String
idle_session_ids now timeout [] = []
idle_session_ids now timeout ((session_id, runtime) ∷ rest) =
    if is_idle now timeout runtime
    then session_id ∷ idle_session_ids now timeout rest
    else idle_session_ids now timeout rest

-- A stop that raises ends the loop.
unfoldable pub remove_all : (Runtime → Bool) → List String → Action RuntimeRegistry (Unit {0})
unfolding remove
remove_all stops [] = return tt
remove_all stops (session_id ∷ rest) = do remove stops session_id; remove_all stops rest

unfoldable pub reap_idle : Settings → (Runtime → Bool) → ℕ → Action RuntimeRegistry (Unit {0})
unfolding idle_session_ids remove_all
reap_idle settings stops now r =
    remove_all stops (idle_session_ids now settings.acp_idle_timeout_seconds r.runtimes) r
