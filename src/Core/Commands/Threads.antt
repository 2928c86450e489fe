-- ===== src/Core/Commands/Threads.antt =====
-- core/dispatcher.py: `/thread`, which lists the threads of a group and closes one of them, for a dispatcher with a
-- state store.
pub mod Closing
use Prim.Native.String.{◌++◌ as append}
use next_me.Common.{
  String, Bool, true, false, not, Option, none, some, List, [], ◌∷◌, ◌==◌, string_comparable,
  if◌then◌else◌, keep, insert, Action, return, ◌>>=◌,
}
use next_me.Acl.Schema.{Role, admin, owner, collaborator}
use next_me.Config.Schema.{ThreadRecord}
use next_me.Config.StateStore.{get_threads_for_chat}
use next_me.Core.Types.{Task}
use next_me.Core.Session.{Registry, get_or_create, get_active_session}
use next_me.Core.Dispatcher.{on_store, on_thread_closed}
use next_me.Core.Commands.{Desk, Words, Setting, Answer, on_dispatcher}
use next_me.Core.Commands.Handlers.{handle_done}

-- The contexts of all chats; `desk.context` is the one that is worked on.
pub record Office : Type 0 where
  pub desk : Desk
  pub registry : Registry

pub data ThreadAnswer : Type 0 where
  groups_only unknown_sub_command usage_close forbidden : ThreadAnswer
  listing : List ThreadRecord → ThreadAnswer
  unknown_thread several_threads closed_without_session : String → ThreadAnswer
  -- what `handle_done` answers
  closed : Answer → ThreadAnswer

abbrev pub on_desk : {A : Type 0} → Action Desk A → Action Office A
on_desk m office = let (r, desk) = m office.desk in (r, record office { desk = desk })

abbrev pub on_context : {A : Type 0} → String → Action Desk A → Action Office A
on_context id m office =
    let (ctx, registry) = get_or_create id office.registry in
    let (r, desk) = m (record office.desk { context = ctx }) in
    (r, record { desk = desk; registry = insert id desk.context registry })

-- f"{chat_id}:{target_thread.thread_root_id}"
abbrev pub target_id : String → String → String
target_id chat_id root = append chat_id (append ":" root)

-- The task that has waited for the place is dispatched again, and comes back beside the answer.
unfoldable pub close_thread : Setting → String → String → Action Desk (Option Task × ThreadAnswer)
close_thread setting short_id root desk = elim (get_active_session desk.context) [
  | none ↦
      (do
        next ← on_dispatcher (on_thread_closed setting.chat_id root)
        return (next, closed_without_session short_id))
        desk
  | some s ↦
      (do
        done ← handle_done setting (target_id setting.chat_id root) root s
        return (done.0, closed done.1))
        desk
]

-- `caller_role in (_Role.ADMIN, _Role.OWNER)`
abbrev pub may_close : Option Role → Bool
may_close none = false
may_close (some admin) = true
may_close (some owner) = true
may_close (some collaborator) = false

unfoldable pub close_match :
    Setting → String → List ThreadRecord → Action Office (Option Task × ThreadAnswer)
close_match setting short_id [] = return (none, unknown_thread short_id)
close_match setting short_id (thread ∷ []) =
    on_context (target_id setting.chat_id thread.thread_root_id)
      (close_thread setting short_id thread.thread_root_id)
close_match setting short_id (_ ∷ _ ∷ _) = return (none, several_threads short_id)

-- `starts_with` is `startswith` of `str`, its argument first.
unfoldable pub thread_command :
    (String → String → Bool)
    → Setting
    → Option Role
    → Words
    → Task
    → Action Office (Option Task × ThreadAnswer)
thread_command starts_with setting role words task office =
    if not (task.chat_type == "group")
    then return (none, groups_only) office
    else if words.arg == ""
    then (do
      threads ← on_desk (on_dispatcher (on_store (get_threads_for_chat setting.chat_id)))
      return (none, listing threads))
        office
    else if not (words.sub_cmd == "close")
    then return (none, unknown_sub_command) office
    else if words.sub_arg == ""
    then return (none, usage_close) office
    else if not (may_close role)
    then return (none, forbidden) office
    else (do
      threads ← on_desk (on_dispatcher (on_store (get_threads_for_chat setting.chat_id)))
      close_match setting words.sub_arg
          (keep (λ t. starts_with words.sub_arg t.thread_root_id) threads))
        office
