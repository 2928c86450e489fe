-- ===== src/Core/Commands.antt =====
-- core/commands.py and `_handle_meta_command` of core/dispatcher.py: the commands on sessions, threads,
-- projects and the memory, for a dispatcher with a state store, from the point where the text is split
-- into words. A command answers with one message, a value of `Answer`; that sending it may fail is not
-- modelled. `chat_id` and `user_id` are what `_get_chat_id` and `_get_user_id` take from the context's id.
pub mod Handlers
pub mod Fresh
pub mod Bindings
pub mod Done
pub mod Threads
pub mod Tests
use next_me.Common.{
  ℕ, String, Bool, true, Option, none, some, List, Dict, insert, Action, map, string_comparable,
}
use next_me.Config.Schema.{AppConfig, Project}
use next_me.Memory.Manager.{MemoryManager}
use next_me.Acp.{Runtime, RuntimeRegistry}
use next_me.Core.Types.{Task, TaskStatus}
use next_me.Core.Session.{Session, UserContext, Futures}
use next_me.Core.Dispatcher.{Dispatcher}

-- The dispatcher with the user's context and all that a command writes to.
pub record Desk : Type 0 where
  pub dispatcher : Dispatcher
  pub context : UserContext
  pub futures : Futures
  -- `_dynamic_bindings`
  pub bindings : Dict String String
  pub runtimes : RuntimeRegistry
  -- `actual_id` of each runtime, empty for none
  pub agent_ids : Dict String String
  -- the runtimes whose `cancel` has been called
  pub cancels : List String
  pub memory_manager : Option MemoryManager

-- The words of a command: the text up to the first space in lower case, the rest, and the rest split
-- in the same way.
pub record Words : Type 0 where
  pub command : String
  pub arg : String
  pub sub_cmd : String
  pub sub_arg : String

-- What the commands read and do not change.
pub record Setting : Type 0 where
  pub config : AppConfig
  -- for a session that is made
  pub salt : String
  pub capacity : ℕ
  pub similar : String → String → Bool
  pub dir_for : String → String
  pub stops : Runtime → Bool
  pub chat_id : String
  pub user_id : String
  pub now : ℕ

pub record Report : Type 0 where
  pub project_name : String
  pub is_active : Bool
  pub status : TaskStatus
  pub actual_id : String
  pub active_task : Option Task
  pub waiting : ℕ

pub data Answer : Type 0 where
  help no_session new_chat stopping thread_only thread_closed unbound usage_bind usage_remember
        no_memory :
      Answer
  status_of : List Report → Answer
  projects : List (Project × Bool × Bool) → Answer
  switched bound_to : Project → Answer
  unknown_project : String → List String → Answer
  remembered : String → Answer
  other : String → Answer

abbrev pub names : List Project → List String
names = map (λ p. p.name)

abbrev pub put_dispatcher : Dispatcher → Desk → Desk
put_dispatcher d desk = record desk { dispatcher = d }

abbrev pub on_dispatcher : {A : Type 0} → Action Dispatcher A → Action Desk A
on_dispatcher m desk = let (r, d) = m desk.dispatcher in (r, put_dispatcher d desk)

-- A session is written back under the name that it stands under.
abbrev pub put_session : Session → Desk → Desk
put_session s desk = record desk {
  context = record desk.context {
    sessions = insert desk.context.active_project s desk.context.sessions;
  };
}

abbrev pub canceled_active : Option Task → Option Task
canceled_active none = none
canceled_active (some task) = some (record task { canceled = true })
