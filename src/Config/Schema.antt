-- ===== src/Config/Schema.antt =====
-- config/schema.py: the projects, the settings and the persistent state, with the fields that the
-- modelled code reads. A time is a number of seconds.
use next_me.Common.{
  ℕ, String, Option, none, some, List, [], ◌∷◌, ◌==◌, string_comparable, find, Dict, lookup,
}

pub record Project : Type 0 where
  pub name : String
  pub path : String
  pub executor : String
  pub executor_args : List String
  pub task_timeout_seconds : ℕ

pub record AppConfig : Type 0 where
  pub projects : List Project
  pub bindings : Dict String String

unfoldable pub get_project : AppConfig → String → Option Project
get_project config name = find (λ p. p.name == name) config.projects

unfoldable pub get_binding : AppConfig → String → Option String
get_binding config chat_id = lookup chat_id config.bindings

unfoldable pub default_project : AppConfig → Option Project
default_project config = elim config.projects [ [] ↦ none | p ∷ rest ↦ some p ]

pub record Settings : Type 0 where
  pub task_queue_capacity : ℕ
  pub max_active_threads_per_chat : ℕ
  -- seconds
  pub acp_idle_timeout_seconds : ℕ

pub record ThreadRecord : Type 0 where
  pub chat_id : String
  pub thread_root_id : String
  pub project_name : String
  pub created_at : ℕ
  pub last_active_at : ℕ

pub record ProjectState : Type 0 where
  pub salt : String
  pub actual_id : String
  pub executor : String

abbrev pub blank_project : ProjectState
blank_project = record { salt = ""; actual_id = ""; executor = "claude" }

pub record UserState : Type 0 where
  pub last_active_project : String
  pub projects : Dict String ProjectState

abbrev pub blank_user : UserState
blank_user = record { last_active_project = ""; projects = [] }

pub record GlobalState : Type 0 where
  pub contexts : Dict String UserState
  pub bindings : Dict String String
  pub thread_records : Dict String ThreadRecord

abbrev pub blank : GlobalState
blank = record { contexts = []; bindings = []; thread_records = [] }
