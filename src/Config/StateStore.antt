-- ===== src/Config/StateStore.antt =====
-- config/state_store.py: `StateStore`, with the file that it writes. `disk` is what a reader of the
-- file gets, `none` where it is absent or not readable. The JSON text itself is not modelled.
pub mod Restart
pub mod Threads
use Prim.Native.String.{◌++◌ as append}
use next_me.Common.{
  ℕ, String, Bool, true, false, Option, none, some, List, [], ◌∷◌, ◌==◌, string_comparable,
  if◌then◌else◌, leb, keep, map, length, sort_by, Dict, lookup, insert, erase, has_key, Action,
  return, raise, ◌>>=◌, ◌>>◌, runtime_error, os_error,
}
use next_me.Config.Schema.{
  ThreadRecord, ProjectState, blank_project, UserState, blank_user, GlobalState, blank,
}

pub record StateStore : Type 0 where
  pub disk : Option GlobalState
  -- `_state`, `none` until `load`
  pub state : Option GlobalState
  pub dirty : Bool

abbrev pub or_blank : Option GlobalState → GlobalState
or_blank none = blank
or_blank (some g) = g

unfoldable pub read_from_disk : StateStore → GlobalState
read_from_disk s = or_blank s.disk

unfoldable pub load : Action StateStore GlobalState
unfolding read_from_disk
load s = elim s.state [
  | some g ↦ return g s
  | none ↦ return (read_from_disk s) (record s { state = some (read_from_disk s); dirty = false })
]

abbrev pub require_loaded : Action StateStore GlobalState
require_loaded s = elim s.state [ none ↦ raise runtime_error s | some g ↦ return g s ]

-- A change of the loaded state, which marks it dirty.
abbrev pub change : GlobalState → Action StateStore (Unit {0})
change g s = return tt (record s { state = some g; dirty = true })

unfoldable pub get_user_state : String → Action StateStore UserState
get_user_state context_id = do
  g ← require_loaded
  elim (lookup context_id g.contexts) [
    | some u ↦ return u
    | none ↦ do
      change (record g { contexts = insert context_id blank_user g.contexts })
      return blank_user
  ]

unfoldable pub set_user_state : String → UserState → Action StateStore (Unit {0})
set_user_state context_id u = do
  g ← require_loaded
  change (record g { contexts = insert context_id u g.contexts })

unfoldable pub set_binding : String → String → Action StateStore (Unit {0})
set_binding chat_id project_name = do
  g ← require_loaded
  change (record g { bindings = insert chat_id project_name g.bindings })

unfoldable pub remove_binding : String → Action StateStore (Unit {0})
remove_binding chat_id = do
  g ← require_loaded
  if has_key chat_id g.bindings
      then change (record g { bindings = erase chat_id g.bindings })
      else return tt

unfoldable pub get_all_bindings : Action StateStore (Dict String String)
get_all_bindings = do g ← require_loaded; return g.bindings

abbrev pub or_blank_project : Option ProjectState → ProjectState
or_blank_project none = blank_project
or_blank_project (some p) = p

-- The user's state is written back where `get_user_state` found or made it.
unfoldable pub save_project_actual_id : String → String → String → Action StateStore (Unit {0})
unfolding get_user_state
save_project_actual_id context_id project_name actual_id = do
  u ← get_user_state context_id
  g ← require_loaded
  let p = or_blank_project (lookup project_name u.projects)
  change (record g {
    contexts =
        insert context_id
          (record u {
            projects = insert project_name (record p { actual_id = actual_id }) u.projects;
          })
          g.contexts;
  })

unfoldable pub get_project_actual_id : String → String → Action StateStore String
get_project_actual_id context_id project_name = do
  g ← require_loaded
  elim (lookup context_id g.contexts) [
    | none ↦ return ""
    | some u ↦ elim (lookup project_name u.projects) [
      | none ↦ return ""
      | some p ↦ return p.actual_id
    ]
  ]

-- f"{chat_id}:{thread_root_id}"
unfoldable pub thread_key : String → String → String
thread_key chat_id thread_root_id = append chat_id (append ":" thread_root_id)

unfoldable pub register_thread : ℕ → String → String → String → Action StateStore (Unit {0})
register_thread now chat_id thread_root_id project_name = do
  g ← require_loaded
  if has_key (thread_key chat_id thread_root_id) g.thread_records
      then return tt
      else change (record g {
        thread_records =
            insert (thread_key chat_id thread_root_id)
              (record {
                chat_id = chat_id;
                thread_root_id = thread_root_id;
                project_name = project_name;
                created_at = now;
                last_active_at = now;
              })
              g.thread_records;
      })

unfoldable pub unregister_thread : String → String → Action StateStore (Unit {0})
unregister_thread chat_id thread_root_id = do
  g ← require_loaded
  if has_key (thread_key chat_id thread_root_id) g.thread_records
      then change
          (record g { thread_records = erase (thread_key chat_id thread_root_id) g.thread_records })
      else return tt

-- The records of one chat, in the order of the dictionary.
abbrev pub records_of : String → Dict String ThreadRecord → List ThreadRecord
records_of chat_id records = keep (λ r. r.chat_id == chat_id) (map (λ e. e.1) records)

unfoldable pub get_active_thread_count : String → Action StateStore ℕ
get_active_thread_count chat_id = do
  g ← require_loaded
  return (length (records_of chat_id g.thread_records))

unfoldable pub get_threads_for_chat : String → Action StateStore (List ThreadRecord)
get_threads_for_chat chat_id = do
  g ← require_loaded
  return (sort_by (λ a b. leb a.created_at b.created_at) (records_of chat_id g.thread_records))

unfoldable pub get_thread_project : String → String → Action StateStore String
get_thread_project chat_id thread_root_id = do
  g ← require_loaded
  elim (lookup (thread_key chat_id thread_root_id) g.thread_records) [
    | none ↦ return ""
    | some r ↦ return r.project_name
  ]

unfoldable pub touch_thread : ℕ → String → String → Action StateStore (Unit {0})
touch_thread now chat_id thread_root_id = do
  g ← require_loaded
  elim (lookup (thread_key chat_id thread_root_id) g.thread_records) [
    | none ↦ return tt
    | some r ↦ change (record g {
      thread_records =
          insert (thread_key chat_id thread_root_id) (record r { last_active_at = now })
            g.thread_records;
    })
  ]

-- `written` says whether the atomic write to the file succeeds; where it raises, the old file stays.
unfoldable pub flush : Bool → Action StateStore (Unit {0})
flush written s = elim s.state [
  | none ↦ return tt s
  | some g ↦
      if written then return tt (record s { disk = some g; dirty = false }) else raise os_error s
]

-- `stop` flushes whether the state is dirty or not; the background task is not modelled.
unfoldable pub stop : Bool → Action StateStore (Unit {0})
unfolding flush
stop written = flush written

-- One round of `_debounce_loop`
unfoldable pub debounce_round : Bool → Action StateStore (Unit {0})
unfolding flush
debounce_round written s = if s.dirty then flush written s else return tt s
