-- ===== src/Config/StateStore/Threads.antt =====
-- The thread records of config/state_store.py, and how many of them a chat has.
use next_me.Common.{
  ℕ, suc, ◌+◌, String, ◌≡◌, true, false, Option, none, some, [], ◌∷◌, ◌++◌, arith, ◌==◌,
  string_comparable, if◌then◌else◌, ok, ◌>>=◌, length, Dict, lookup, insert_absent, lookup-append,
  Bool, has_key, Option-cases, inl, inr,
}
use next_me.Config.Schema.{ThreadRecord, GlobalState}
use next_me.Config.StateStore.{
  StateStore, thread_key, register_thread, get_active_thread_count, records_of,
}

records_of-append :
    (chat key : String) (r : ThreadRecord) (records : Dict String ThreadRecord)
    → length (records_of chat (records ++ (key, r) ∷ [])) ≡ (
        if r.chat_id == chat
        then suc (length (records_of chat records))
        else length (records_of chat records))
records_of-append chat key r [] = ground arith
records_of-append chat key r (e ∷ rest) = ground (arith, records_of-append chat key r rest)

abbrev pub one_if : Bool → ℕ
one_if true = 1
one_if false = 0

abbrev new_record : ℕ → String → String → String → ThreadRecord
new_record now chat root project = record {
  chat_id = chat;
  thread_root_id = root;
  project_name = project;
  created_at = now;
  last_active_at = now;
}

register_thread-known :
    (now : ℕ) (chat root project : String) (s : StateStore) (g : GlobalState) (r : ThreadRecord)
    → s.state ≡ some g
    → lookup (thread_key chat root) g.thread_records ≡ some r
    → (register_thread now chat root project s).1 ≡ s
unfolding register_thread ◌>>=◌
register_thread-known now chat root project s g r e known = ground arith

register_thread-new :
    (now : ℕ) (chat root project : String) (s : StateStore) (g : GlobalState)
    → s.state ≡ some g
    → lookup (thread_key chat root) g.thread_records ≡ none
    → (register_thread now chat root project s).1 ≡ record s {
      state = some (record g {
        thread_records =
            g.thread_records ++ (thread_key chat root, new_record now chat root project) ∷ [];
      });
      dirty = true;
    }
unfolding register_thread ◌>>=◌
register_thread-new now chat root project s g e new = ground (
  arith,
  insert_absent (thread_key chat root) (new_record now chat root project) g.thread_records new,
)

abbrev record_of : String → String → StateStore → Option ThreadRecord
record_of chat root s = elim s.state [
  | none ↦ none
  | some g ↦ lookup (thread_key chat root) g.thread_records
]

-- A thread that is registered again keeps its record, the time of its last activity included, and
-- counts no more; a new one has the new record, and counts once in its own chat.
register_thread-counts :
    (now : ℕ) (chat root project other : String) (s : StateStore) (g : GlobalState)
    → s.state ≡ some g
    → let s' = (register_thread now chat root project s).1 in
      (record_of chat root s' ≡ (elim (record_of chat root s) [
        | some r ↦ some r
        | none ↦ some (new_record now chat root project)
      ]))
      × ((get_active_thread_count other s').0
          ≡ ok (
              length (records_of other g.thread_records)
              + (if has_key (thread_key chat root) g.thread_records
                  then 0
                  else one_if (chat == other))))
unfolding get_active_thread_count ◌>>=◌
register_thread-counts now chat root project other s g e =
    elim (Option-cases (lookup (thread_key chat root) g.thread_records)) [
      | inr (r, known) ↦ (
        ground (arith, register_thread-known now chat root project s g r e known),
        ground (arith, register_thread-known now chat root project s g r e known),
      )
      | inl new ↦ (
        unfold lookup in
            ground (
              arith,
              register_thread-new now chat root project s g e new,
              lookup-append (thread_key chat root) g.thread_records
                  ((thread_key chat root, new_record now chat root project) ∷ []),
              string_comparable.equals_iff (thread_key chat root) (thread_key chat root),
            ),
        ground (
          arith,
          register_thread-new now chat root project s g e new,
          records_of-append other (thread_key chat root) (new_record now chat root project)
              g.thread_records,
        ),
      )
    ]

-- The active threads of a chat; 0 before the state is loaded.
abbrev pub active_in : String → StateStore → ℕ
active_in chat s = elim s.state [ none ↦ 0 | some g ↦ length (records_of chat g.thread_records) ]

pub counts-active :
    (chat : String) (s : StateStore) (g : GlobalState)
    → s.state ≡ some g
    → get_active_thread_count chat s ≡ (ok (active_in chat s), s)
unfolding get_active_thread_count ◌>>=◌
counts-active chat s g e = ground arith

pub register_thread-active :
    (now : ℕ) (chat root project other : String) (s : StateStore) (g : GlobalState)
    → s.state ≡ some g
    → ((register_thread now chat root project s).0 ≡ ok tt)
      × (active_in other (register_thread now chat root project s).1
          ≡ active_in other s
            + (if has_key (thread_key chat root) g.thread_records
                then 0
                else one_if (chat == other)))
register_thread-active now chat root project other s g e =
    elim (Option-cases (lookup (thread_key chat root) g.thread_records)) [
      | inr (r, known) ↦ (
        unfold register_thread ◌>>=◌ in ground arith,
        ground (arith, register_thread-known now chat root project s g r e known),
      )
      | inl new ↦ (
        unfold register_thread ◌>>=◌ in ground arith,
        ground (
          arith,
          register_thread-new now chat root project s g e new,
          records_of-append other (thread_key chat root) (new_record now chat root project)
              g.thread_records,
        ),
      )
    ]
