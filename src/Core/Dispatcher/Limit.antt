-- ===== src/Core/Dispatcher/Limit.antt =====
-- The limit on the active threads of a chat, in core/dispatcher.py.
use next_me.Common.{
  ℕ, suc, ◌≤◌, ◌<◌, String, ◌≡◌, true, none, some, arith, nat_comparable, string_comparable,
  if◌then◌else◌, leb, lookup, ok, ◌>>=◌,
}
use next_me.Config.Schema.{AppConfig, GlobalState}
use next_me.Config.StateStore.{thread_key, register_thread}
use next_me.Config.StateStore.Threads.{active_in, counts-active, register_thread-active}
use next_me.Core.Types.{Task}
use next_me.Core.Session.{Session}
use next_me.Core.Dispatcher.{
  Dispatcher, is_new_thread, park, admit, enqueue, is_full, accept, dropped,
}

-- What `admit` does to a dispatcher whose state is loaded.
admit_lem :
    (now : ℕ) (chat project : String) (task : Task) (d : Dispatcher) (g : GlobalState)
    → d.store.state ≡ some g
    → admit now chat project task d ≡ (
        if is_new_thread task
        then (if leb d.limit (active_in chat d.store) then park chat task d else (
          ok none,
          record d { store = (register_thread now chat task.thread_root_id project d.store).1 },
        ))
        else (ok none, d))
unfolding admit ◌>>=◌
admit_lem now chat project task d g e = ground (
  arith,
  counts-active chat d.store g e,
  register_thread-active now chat task.thread_root_id project chat d.store g e,
)

-- If no chat has more active threads than the limit, then no chat has more after a message is let
-- in or parked.
pub admit-limit :
    (now : ℕ) (chat project other : String) (task : Task) (d : Dispatcher) (g : GlobalState)
    → d.store.state ≡ some g
    → ((c : String) → active_in c d.store ≤ d.limit)
    → active_in other (admit now chat project task d).1.store ≤ d.limit
admit-limit now chat project other task d g e within =
    unfold park in
    ground (
      arith,
      admit_lem now chat project task d g e,
      register_thread-active now chat task.thread_root_id project other d.store g e,
      within other,
      string_comparable.equals_iff chat other,
    )

-- A new thread whose session has a full queue is registered although its task is dropped: the chat
-- then has an active thread more.
dropped_takes_place :
    (config : AppConfig) (now : ℕ) (chat : String) (session : Session) (task : Task)
    (d : Dispatcher) (g : GlobalState)
    → d.store.state ≡ some g
    → is_new_thread task ≡ true
    → active_in chat d.store < d.limit
    → lookup (thread_key chat task.thread_root_id) g.thread_records ≡ none
    → is_full session ≡ true
    → ((accept config now chat session task d).0 ≡ ok (dropped, session))
      × (active_in chat (accept config now chat session task d).1.store
          ≡ suc (active_in chat d.store))
unfolding accept enqueue ◌>>=◌
dropped_takes_place config now chat session task d g e new room unknown full = (
  ground (arith, admit_lem now chat session.project_name task d g e),
  ground (
    arith,
    admit_lem now chat session.project_name task d g e,
    register_thread-active now chat task.thread_root_id session.project_name chat d.store g e,
    string_comparable.equals_iff chat chat,
  ),
)
