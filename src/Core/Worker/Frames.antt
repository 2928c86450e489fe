-- ===== src/Core/Worker/Frames.antt =====
-- What each phase of `_execute_task` of core/worker.py leaves as it was.
use mathlib.Core.Path.{subst}
use next_me.Common.{
  ℕ, String, ◌≡◌, refl, ◌∙◌, Bool, true, Option, none, some, is_some, List, [], ◌++◌, arith, ◌==◌,
  string_comparable, ok, ◌>>=◌, Bool-cases, Option-cases, inl, inr,
}
use mathlib.Core.List.{append_assoc, append-nil}
use next_me.Config.StateStore.Restart.{id_in, save_lem, save_returns, get_project_actual_id_lem}
use next_me.Core.Types.{Task}
use next_me.Core.Worker.{Card, start_cards, SessionWorker, Run, Outside, MemoryOp}
use next_me.Core.Worker.Execute.{
  all_lines, with_lines, begin, persisted_id, sync_id, inject_memory, prepare, keep_id,
  write_memory,
}

-- The store, if there is one, has been loaded.
abbrev pub is_loaded : SessionWorker → Bool
is_loaded w = elim w.state_store [ none ↦ true | some s ↦ is_some s.state ]

-- From one state to another: the queue and the setting stay, the store stays loaded, and these cards
-- have been sent.
pub record Frame (w w' : SessionWorker) (added : List (String × Card)) : Type 0 where
  pub queue : w'.session.task_queue ≡ w.session.task_queue
  pub loud : w'.session.suppress_cancel ≡ w.session.suppress_cancel
  pub loaded : is_loaded w ≡ true → is_loaded w' ≡ true
  pub cards : w'.sent ≡ w.sent ++ added

pub begin-Frame :
    (r : Run) (task : Task) (w : SessionWorker)
    → Frame w (begin r task w) (start_cards task.id r.lock_contended)
unfolding begin
begin-Frame r task w = record { queue = refl; loud = refl; loaded = λ h. h; cards = refl }

pub Frame-trans :
    {a b c : SessionWorker} {xs ys : List (String × Card)}
    → Frame a b xs
    → Frame b c ys
    → Frame a c (xs ++ ys)
Frame-trans {a} {b} {c} {xs} {ys} f g = record {
  queue = g.queue ∙ f.queue;
  loud = g.loud ∙ f.loud;
  loaded = λ h. g.loaded (f.loaded h);
  cards = ground (arith, f.cards, g.cards, append_assoc a.sent xs ys);
}

pub persisted_id-ok :
    (w : SessionWorker) → is_loaded w ≡ true → (id : String) × (persisted_id w ≡ (ok id, w))
unfolding persisted_id
persisted_id-ok w h = elim (Option-cases w.state_store) [
  | inl without ↦ ("", ground arith)
  | inr (store, there) ↦ elim (Option-cases store.state) [
    | inl missing ↦ absurd (ground arith)
    | inr (g, e) ↦ (
      id_in w.session.context_id w.session.project_name g,
      ground
          (arith, get_project_actual_id_lem w.session.context_id w.session.project_name store g e),
    )
  ]
]

pub sync_id-Frame :
    (r : Run) (w : SessionWorker)
    → is_loaded w ≡ true
    → ((id : String) × ((sync_id r w).0 ≡ ok id)) × Frame w (sync_id r w).1 []
unfolding sync_id ◌>>=◌
sync_id-Frame r w h =
    let (id, read) = persisted_id-ok w h in
    elim (Bool-cases (r.id_before == "")) [
      | inr given ↦ (
        (r.id_before, ground arith),
        record {
          queue = ground arith;
          loud = ground arith;
          loaded = λ l. ground arith;
          cards = ground (arith, append-nil w.sent);
        },
      )
      | inl new ↦ elim (Bool-cases (id == "")) [
        | inl nothing ↦ (
          ("", ground arith),
          record {
            queue = ground arith;
            loud = ground arith;
            loaded = λ l. ground arith;
            cards = ground (arith, append-nil w.sent);
          },
        )
        | inr kept ↦ (
          (id, ground arith),
          record {
            queue = ground arith;
            loud = ground arith;
            loaded = λ l. ground arith;
            cards = ground (arith, append-nil w.sent);
          },
        )
      ]
    ]

inject_memory-Frame :
    (o : Outside) (r : Run) (id : String) (task : Task) (w : SessionWorker)
    → Frame w (inject_memory o r id task w).1 []
unfolding inject_memory
inject_memory-Frame o r id task w = record {
  queue = ground arith;
  loud = ground arith;
  loaded = λ l. ground arith;
  cards = ground (arith, append-nil w.sent);
}

pub prepare-Frame :
    (o : Outside) (r : Run) (task : Task) (w : SessionWorker)
    → is_loaded w ≡ true
    → ((copy : Option Task) × ((prepare o r task w).0 ≡ ok copy))
      × Frame w (prepare o r task w).1 []
unfolding prepare ◌>>=◌
prepare-Frame o r task w h =
    let ((id, found), f) = sync_id-Frame r w h in
    let w1 : SessionWorker = (sync_id r w).1 in
    let same : (inject_memory o r id task w1).1 ≡ (prepare o r task w).1 = ground arith in
    (
      (with_lines (all_lines task) (inject_memory o r id task w1).0 task, ground arith),
      subst (λ w'. Frame w w' []) same (Frame-trans f (inject_memory-Frame o r id task w1)),
    )

pub keep_id-Frame :
    (r : Run) (w : SessionWorker)
    → is_loaded w ≡ true
    → ((keep_id r w).0 ≡ ok tt) × Frame w (keep_id r w).1 []
unfolding keep_id
keep_id-Frame r w h = elim (Bool-cases (r.id_after == "")) [
  | inl nothing ↦ (
    ground arith,
    record {
      queue = ground arith;
      loud = ground arith;
      loaded = λ l. ground arith;
      cards = ground (arith, append-nil w.sent);
    },
  )
  | inr id ↦ elim (Option-cases w.state_store) [
    | inl without ↦ (
      ground arith,
      record {
        queue = ground arith;
        loud = ground arith;
        loaded = λ l. ground arith;
        cards = ground (arith, append-nil w.sent);
      },
    )
    | inr (store, there) ↦ elim (Option-cases store.state) [
      | inl missing ↦ absurd (ground arith)
      | inr (g, e) ↦
          let returns =
            save_returns w.session.context_id w.session.project_name r.id_after store g e in
          let saves = save_lem w.session.context_id w.session.project_name r.id_after store g e in
          (
            ground (arith, returns),
            record {
              queue = ground (arith, returns);
              loud = ground (arith, returns);
              loaded = λ l. ground (arith, returns, saves);
              cards = ground (arith, returns, append-nil w.sent);
            },
          )
    ]
  ]
]

pub write_memory-Frame :
    (o : Outside) (now : ℕ) (task : Task) (ops : List MemoryOp) (w : SessionWorker)
    → Frame w (write_memory o now task ops w) []
unfolding write_memory
write_memory-Frame o now task ops w = record {
  queue = ground arith;
  loud = ground arith;
  loaded = λ l. ground arith;
  cards = ground (arith, append-nil w.sent);
}
