-- ===== src/Core/Commands/Done.antt =====
-- core/commands.py: what is left of a thread after `/done`.
use mathlib.Core.Option
use next_me.Common.{
  String, ◌≡◌, Bool, Option, none, some, List, [], ◌∷◌, arith, lookup, lookup-insert, lookup-erase,
  string_comparable, ok, ◌>>=◌, Option-cases, List-cases, inl, inr,
}
use next_me.Config.Schema.{GlobalState}
use next_me.Config.StateStore.{thread_key, unregister_thread}
use next_me.Acp
use next_me.Acp.{Runtime, RuntimeRegistry, remove}
use next_me.Core.Types.{Task}
use next_me.Core.Session.{Session, get_active_session}
use next_me.Core.Dispatcher.{Dispatcher, queue_of, pop_parked, on_thread_closed}
use next_me.Core.Commands.{Desk, Setting, thread_closed, put_session}
use next_me.Core.Commands.Handlers.{key_of, cancel_task, cancel, handle_done}

abbrev first : List Task → Option Task
first [] = none
first (task ∷ rest) = some task

-- Closing a thread gives back the task that waits longest for a place, and the thread has no record.
closed_lem :
    (chat_id root : String) (d : Dispatcher) (g : GlobalState)
    → d.store.state ≡ some g
    → ((on_thread_closed chat_id root d).0 ≡ ok (first (queue_of chat_id d)))
      × (Option.map
            (λ g'. lookup (thread_key chat_id root) g'.thread_records)
            (on_thread_closed chat_id root d).1.store.state
          ≡ some none)
unfolding on_thread_closed pop_parked unregister_thread ◌>>=◌
closed_lem chat_id root d g e =
    let key = thread_key chat_id root in
    let gone = lookup-erase key key g.thread_records in
    elim (List-cases (queue_of chat_id d)) [
      | inl empty ↦ ground (arith, gone, string_comparable.equals_iff key key)
      | inr (task, rest, parked) ↦ ground (arith, gone, string_comparable.equals_iff key key)
    ]

removed_lem :
    (stops : Runtime → Bool) (key : String) (r : RuntimeRegistry)
    → Acp.get key (remove stops key r).1 ≡ none
unfolding remove Acp.get
removed_lem stops key r =
    ground (arith, lookup-erase key key r.runtimes, string_comparable.equals_iff key key)

pub cancel_lem :
    (key : String) (desk : Desk)
    → ((cancel key desk).dispatcher ≡ desk.dispatcher)
      × ((cancel key desk).runtimes ≡ desk.runtimes)
      × ((cancel key desk).context ≡ desk.context)
cancel_lem key desk = elim (Option-cases (Acp.get key desk.runtimes)) [
  | inl without ↦ ground arith
  | inr (runtime, there) ↦ ground arith
]

put_session-active :
    (s t : Session) (desk : Desk)
    → get_active_session desk.context ≡ some s
    → get_active_session (put_session t desk).context ≡ some t
unfolding get_active_session
put_session-active s t desk active =
    let name = desk.context.active_project in
    ground (
      arith,
      lookup-insert name name t desk.context.sessions,
      string_comparable.equals_iff name name,
    )

-- After `/done` in a thread whose session is the active one of its context, the session has no task
-- waiting, its runtime is out of the registry, also where it cannot be stopped, and the thread has no
-- record in the store; what comes back is the task of the chat that has waited longest for a place.
pub handle_done-frees :
    (setting : Setting) (context_id root : String) (s : Session) (desk : Desk) (g : GlobalState)
    → get_active_session desk.context ≡ some s
    → desk.dispatcher.store.state ≡ some g
    → let (answer, after) = handle_done setting context_id root s desk in
      (answer ≡ ok (first (queue_of setting.chat_id desk.dispatcher), thread_closed))
      × (Option.map (λ t. t.task_queue) (get_active_session after.context) ≡ some [])
      × (Option.map (λ t. t.pending_tasks) (get_active_session after.context) ≡ some [])
      × (Acp.get (key_of context_id s) after.runtimes ≡ none)
      × (Option.map
            (λ g'. lookup (thread_key setting.chat_id root) g'.thread_records)
            after.dispatcher.store.state
          ≡ some none)
unfolding handle_done ◌>>=◌
handle_done-frees setting context_id root s desk g active e =
    let key = key_of context_id s in
    let s' : Session = record (cancel_task s desk).0 { task_queue = []; pending_tasks = [] } in
    let put : Desk = put_session s' (cancel_task s desk).1 in
    let closed = closed_lem setting.chat_id root desk.dispatcher g e in
    let (dispatcher, runtimes, context) = cancel_lem key put in
    let shows : get_active_session put.context ≡ some s' =
      put_session-active s s' (cancel_task s desk).1 active in
    (
      ground (arith, closed.0, dispatcher),
      ground (arith, context, shows),
      ground (arith, context, shows),
      ground (arith, removed_lem setting.stops key (cancel key put).runtimes),
      ground (arith, closed.1, dispatcher),
    )
