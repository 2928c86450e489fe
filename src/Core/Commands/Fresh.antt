-- ===== src/Core/Commands/Fresh.antt =====
-- core/commands.py and core/worker.py: what `/new` does to the next task.
use next_me.Common.{
  String, ◌≡◌, true, none, some, arith, lookup, lookup-insert, ◌==◌, string_comparable, ok, ◌>>=◌,
  Option-cases, inl, inr, ◌⊎◌,
}
use next_me.Config.Schema.{GlobalState}
use next_me.Config.StateStore.Restart.{saved, save_lem, save_returns, id_in-saved}
use next_me.Acp
use next_me.Core.Session.{Session}
use next_me.Core.Worker.{SessionWorker, Run}
use next_me.Core.Worker.Execute.{persisted_id, sync_id}
use next_me.Core.Worker.Resume.{persisted_id_lem, same_key}
use next_me.Core.Commands.{Desk, new_chat, put_session}
use next_me.Core.Commands.Handlers.{key_of, reset, handle_new}

-- The id that the runtime of a session has; a runtime that is made anew has none.
abbrev pub id_of : String → Desk → String
id_of key desk = elim (Acp.get key desk.runtimes) [
  | none ↦ ""
  | some runtime ↦ elim (lookup key desk.agent_ids) [ none ↦ "" | some id ↦ id ]
]

id_of-reset : (key : String) (desk : Desk) → id_of key (reset key desk) ≡ ""
id_of-reset key desk = elim (Option-cases (Acp.get key desk.runtimes)) [
  | inl without ↦ ground arith
  | inr (runtime, there) ↦
      ground (arith, lookup-insert key key "" desk.agent_ids, string_comparable.equals_iff key key)
]

-- The id in the store is the empty one, and so is the runtime's.
record Cleared (context_id : String) (s : Session) (g : GlobalState) (desk : Desk) : Type 0 where
  kept : desk.dispatcher.store.state ≡ some (saved context_id s.project_name "" g)
  runtime : id_of (key_of context_id s) desk ≡ ""

reset-dispatcher : (key : String) (desk : Desk) → (reset key desk).dispatcher ≡ desk.dispatcher
reset-dispatcher key desk = elim (Option-cases (Acp.get key desk.runtimes)) [
  | inl without ↦ ground arith
  | inr (runtime, there) ↦ ground arith
]

handle_new-Cleared :
    (context_id : String) (s : Session) (desk : Desk) (g : GlobalState)
    → desk.dispatcher.store.state ≡ some g
    → ((handle_new context_id s desk).0 ≡ ok new_chat)
      × Cleared context_id s g (handle_new context_id s desk).1
unfolding handle_new ◌>>=◌
handle_new-Cleared context_id s desk g e =
    let key = key_of context_id s in
    let put : Desk = put_session (record s { actual_id = "" }) desk in
    let saves = save_lem context_id s.project_name "" desk.dispatcher.store g e in
    let returns = save_returns context_id s.project_name "" desk.dispatcher.store g e in
    let same = reset-dispatcher key put in
    (
      ground (arith, same, returns),
      record {
        kept = ground (arith, same, returns, saves);
        runtime = ground (arith, same, returns, id_of-reset key put);
      },
    )

-- After `/new` a worker of the same context and project whose runtime has the id that the command has
-- left, and which reads the same store, goes on with no id: the next task begins a conversation of its
-- own, before and after the runtime is made anew.
pub handle_new-starts_fresh :
    (context_id : String) (s : Session) (desk : Desk) (g : GlobalState) (r : Run)
    (w : SessionWorker)
    → desk.dispatcher.store.state ≡ some g
    → let after = (handle_new context_id s desk).1 in
      w.session.context_id ≡ context_id
      → w.session.project_name ≡ s.project_name
      → w.state_store ≡ some after.dispatcher.store
      → (r.id_before ≡ id_of (key_of context_id s) after) ⊎ (r.id_before ≡ "")
      → ((handle_new context_id s desk).0 ≡ ok new_chat) × (sync_id r w ≡ (ok "", w))
unfolding sync_id ◌>>=◌
handle_new-starts_fresh context_id s desk g r w e context project reads id =
    let (answers, cleared) = handle_new-Cleared context_id s desk g e in
    let g' : GlobalState = saved context_id s.project_name "" g in
    let read : persisted_id w ≡ (ok "", w) = ground (
      arith,
      persisted_id_lem w (handle_new context_id s desk).1.dispatcher.store g' reads cleared.kept,
      id_in-saved context_id s.project_name "" context_id s.project_name g,
      same_key context_id,
      same_key s.project_name,
    ) in
    let new : (r.id_before == "") ≡ true = ground (arith, cleared.runtime, same_key r.id_before) in
    (answers, ground (arith, read))
