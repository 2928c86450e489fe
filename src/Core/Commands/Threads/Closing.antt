-- ===== src/Core/Commands/Threads/Closing.antt =====
-- core/dispatcher.py: what `/thread` can change.
use next_me.Common.{
  Action, String, Bool, ◌≡◌, refl, true, not, Option, none, some, List, [], ◌∷◌, ◌==◌,
  string_comparable, if◌then◌else◌, keep, sort_by, Dict, lookup, lookup-erase, erase, List-cases,
  arith, ok, ◌>>=◌, Option-cases, ◌⊎◌, inl, inr, Result, Result-cases, if_both, leb, Bool-cases,
}
use next_me.Acl.Schema.{Role, admin, owner, collaborator}
use next_me.Config.Schema.{ThreadRecord, GlobalState}
use next_me.Config.StateStore.{
  StateStore, thread_key, unregister_thread, get_threads_for_chat, records_of,
}
use next_me.Core.Types.{Task}
use next_me.Core.Session.{Session, get_active_session}
use next_me.Core.Dispatcher.{Dispatcher, on_thread_closed, pop_parked, queue_of, on_store}
use next_me.Core.Commands.{Desk, Words, Setting, put_session, on_dispatcher}
use next_me.Core.Commands.Done.{cancel_lem}
use next_me.Core.Commands.Handlers.{key_of, cancel_task, handle_done}
use next_me.Core.Commands.Threads.{
  Office, ThreadAnswer, on_desk, target_id, close_thread, may_close, close_match, thread_command,
}

-- The store has lost the record of the thread, and no other.
pub record HasLost (chat_id root : String) (g : GlobalState) (store : StateStore) : Type 0 where
  pub g' : GlobalState
  pub loaded : store.state ≡ some g'
  pub records :
      (key : String)
      → lookup key g'.thread_records
        ≡ (if thread_key chat_id root == key then none else lookup key g.thread_records)
  pub contexts : g'.contexts ≡ g.contexts
  pub bindings : g'.bindings ≡ g.bindings

absent_lem :
    (key k : String) (records : Dict String ThreadRecord)
    → lookup key records ≡ none
    → lookup k records ≡ (if key == k then none else lookup k records)
absent_lem key k records h = ground (arith, string_comparable.equals_iff key k)

unregister_thread-HasLost :
    (chat_id root : String) (s : StateStore) (g : GlobalState)
    → s.state ≡ some g
    → HasLost chat_id root g (unregister_thread chat_id root s).1
unfolding unregister_thread ◌>>=◌
unregister_thread-HasLost chat_id root s g e =
    let key = thread_key chat_id root in
    elim (Option-cases (lookup key g.thread_records)) [
      | inl absent ↦ record {
        g' = g;
        loaded = ground arith;
        records = λ k. absent_lem key k g.thread_records absent;
        contexts = refl;
        bindings = refl;
      }
      | inr (r, there) ↦ record {
        g' = record g { thread_records = erase key g.thread_records };
        loaded = ground arith;
        records = λ k. lookup-erase key k g.thread_records;
        contexts = refl;
        bindings = refl;
      }
    ]

on_thread_closed-store :
    (chat_id root : String) (d : Dispatcher) (g : GlobalState)
    → d.store.state ≡ some g
    → (on_thread_closed chat_id root d).1.store ≡ (unregister_thread chat_id root d.store).1
unfolding on_thread_closed pop_parked unregister_thread ◌>>=◌
on_thread_closed-store chat_id root d g e = elim (List-cases (queue_of chat_id d)) [
  | inl empty ↦ ground arith
  | inr (task, rest, parked) ↦ ground arith
]

handle_done-store :
    (setting : Setting) (context_id root : String) (s : Session) (desk : Desk)
    → (handle_done setting context_id root s desk).1.dispatcher
      ≡ (on_thread_closed setting.chat_id root desk.dispatcher).1
unfolding handle_done ◌>>=◌
handle_done-store setting context_id root s desk =
    let s' : Session = record (cancel_task s desk).0 { task_queue = []; pending_tasks = [] } in
    ground (arith, (cancel_lem (key_of context_id s) (put_session s' (cancel_task s desk).1)).0)

close_thread-HasLost :
    (setting : Setting) (short_id root : String) (desk : Desk) (g : GlobalState)
    → desk.dispatcher.store.state ≡ some g
    → HasLost setting.chat_id root g (close_thread setting short_id root desk).1.dispatcher.store
unfolding close_thread ◌>>=◌
close_thread-HasLost setting short_id root desk g e =
    let lost : HasLost setting.chat_id root g
        (on_thread_closed setting.chat_id root desk.dispatcher).1.store =
      rw (on_thread_closed-store setting.chat_id root desk.dispatcher g e)
        (unregister_thread-HasLost setting.chat_id root desk.dispatcher.store g e) in
    elim (Option-cases (get_active_session desk.context)) [
      | inl without ↦
          rw (without, close_thread)
            (elim (Result-cases (on_thread_closed setting.chat_id root desk.dispatcher).0) [
              | inl (next, e) ↦ rw (e, ◌>>=◌) lost
              | inr (x, e) ↦ rw (e, ◌>>=◌) lost
            ])
      | inr (s, active) ↦
          rw (active, close_thread)
            (let lost' : HasLost setting.chat_id root g
                  (handle_done setting (target_id setting.chat_id root) root s
                    desk).1.dispatcher.store =
                rw (handle_done-store setting (target_id setting.chat_id root) root s desk) lost in
              elim (Result-cases
                (handle_done setting (target_id setting.chat_id root) root s desk).0) [
                  | inl (done, e) ↦ rw (e, ◌>>=◌) lost'
                  | inr (x, e) ↦ rw (e, ◌>>=◌) lost'
                ])
    ]

-- Exactly one thread of the chat begins with the given id, and the caller may close it: its record is lost.
pub record Closed (starts_with : String → String → Bool) (setting : Setting) (role : Option Role)
    (words : Words) (g : GlobalState) (before after : StateStore) : Type 0 where
  pub threads : List ThreadRecord
  pub thread : ThreadRecord
  pub listed : (get_threads_for_chat setting.chat_id before).0 ≡ ok threads
  pub only : keep (λ t. starts_with words.sub_arg t.thread_root_id) threads ≡ thread ∷ []
  pub allowed : (role ≡ some admin) ⊎ (role ≡ some owner)
  pub lost : HasLost setting.chat_id thread.thread_root_id g after

-- The threads of the chat are at hand, and listing them changes nothing.
record Listed (chat_id : String) (s : StateStore) : Type 0 where
  threads : List ThreadRecord
  listed : get_threads_for_chat chat_id s ≡ (ok threads, s)

loaded-Listed :
    (chat_id : String) (s : StateStore) (g : GlobalState) → s.state ≡ some g → Listed chat_id s
unfolding get_threads_for_chat ◌>>=◌
loaded-Listed chat_id s g e = record {
  threads = sort_by (λ a b. leb a.created_at b.created_at) (records_of chat_id g.thread_records);
  listed = ground arith;
}

then_lists :
    (chat_id : String) (office : Office) (l : Listed chat_id office.desk.dispatcher.store)
    (f : List ThreadRecord → Action Office (Option Task × ThreadAnswer))
    → (on_desk (on_dispatcher (on_store (get_threads_for_chat chat_id))) >>= f) office
      ≡ f l.threads office
unfolding ◌>>=◌
then_lists chat_id office l f = rw (l.listed, ◌>>=◌) refl

-- The roles that may close.
may_close-role :
    (role : Option Role) → may_close role ≡ true → (role ≡ some admin) ⊎ (role ≡ some owner)
may_close-role none h = ground arith
may_close-role (some admin) h = inl refl
may_close-role (some owner) h = inr refl
may_close-role (some collaborator) h = ground arith

module _ (starts_with : String → String → Bool) (setting : Setting) (role : Option Role)
    (words : Words) (office : Office) (g : GlobalState)
    (e : office.desk.dispatcher.store.state ≡ some g) where
  abbrev Outcome : Result (Option Task × ThreadAnswer) × Office → Type 0
  Outcome out =
      (out.1 ≡ office)
      ⊎ Closed starts_with setting role words g office.desk.dispatcher.store
          out.1.desk.dispatcher.store

  close_match-Outcome :
      (threads matches : List ThreadRecord)
      → (get_threads_for_chat setting.chat_id office.desk.dispatcher.store).0 ≡ ok threads
      → keep (λ t. starts_with words.sub_arg t.thread_root_id) threads ≡ matches
      → may_close role ≡ true
      → Outcome (close_match setting words.sub_arg matches office)
  unfolding close_match
  close_match-Outcome threads [] l o a = inl refl
  close_match-Outcome threads (thread ∷ []) l o a = inr (record {
    threads = threads;
    thread = thread;
    listed = l;
    only = o;
    allowed = may_close-role role a;
    lost = close_thread-HasLost setting words.sub_arg thread.thread_root_id _ g e;
  })
  close_match-Outcome threads (t ∷ u ∷ rest) l o a = inl refl

-- Where the state is loaded, `/thread` changes nothing, or the caller is an administrator or an owner, exactly one
-- thread of the chat begins with the id that is given, and the store loses the record of that thread and nothing else.
pub thread_command-Closed :
    (starts_with : String → String → Bool) (setting : Setting) (role : Option Role) (words : Words)
    (task : Task) (office : Office) (g : GlobalState)
    → office.desk.dispatcher.store.state ≡ some g
    → let out = thread_command starts_with setting role words task office in
      (out.1 ≡ office)
      ⊎ Closed starts_with setting role words g office.desk.dispatcher.store
          out.1.desk.dispatcher.store
unfolding thread_command
thread_command-Closed starts_with setting role words task office g e =
    let P = Outcome starts_with setting role words office g e in
    let l = loaded-Listed setting.chat_id office.desk.dispatcher.store g e in
    if_both P (not (task.chat_type == "group")) _ _ (inl refl) (
      if_both P (words.arg == "") _ _ (rw (then_lists setting.chat_id office l) (inl refl)) (
        if_both P (not (words.sub_cmd == "close")) _ _ (inl refl) (
          if_both P (words.sub_arg == "") _ _ (inl refl) (elim (Bool-cases (may_close role)) [
            | inr denied ↦ rw denied (inl refl)
            | inl allowed ↦
                rw (allowed, then_lists setting.chat_id office l)
                  (close_match-Outcome starts_with setting role words office g e l.threads _
                    (rw l.listed refl) refl allowed)
          ]))))
