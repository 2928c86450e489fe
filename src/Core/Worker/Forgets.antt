-- ===== src/Core/Worker/Forgets.antt =====
-- core/worker.py: what an agent writes to the memory of a user in a session that has been resumed.
use next_me.Common.{
  ℕ, String, ◌≡◌, refl, ◌∙◌, true, false, Option, none, some, List, [], ◌∷◌, arith, ◌==◌,
  string_comparable, if◌then◌else◌, lookup, ok, ◌>>=◌, Bool-cases, Option-cases, inl, inr,
}
use next_me.Config.Schema.{GlobalState}
use next_me.Config.StateStore.{StateStore}
use next_me.Config.StateStore.Restart.{id_in}
use next_me.Memory.Manager.{MemoryManager, add_fact, replace_fact, forget_fact}
use next_me.Core.Types.{Task}
use next_me.Core.Worker.{
  SessionWorker, MemoryOp, add, replace, forget, returned, Run, Outside, send_cancelled,
  mark_active, user_of,
}
use next_me.Core.Worker.Execute.{
  begin, persisted_id, inject_memory, prepare, keep_id, apply_op, apply_ops, write_memory, finish,
  conclude, execute_task,
}
use next_me.Core.Worker.Frames.{is_loaded, prepare-Frame, keep_id-Frame}
use next_me.Core.Worker.Resume.{persisted_id_lem, sync_id-restores}

-- Nothing can be written to the memory of a user that has not been loaded.
apply_ops-unloaded :
    (o : Outside) (now : ℕ) (user : String) (ops : List MemoryOp) (m : MemoryManager)
    → lookup user m.cache ≡ none
    → apply_ops o now user ops m ≡ m
unfolding apply_ops
apply_ops-unloaded o now user [] m h = refl
apply_ops-unloaded o now user (op ∷ rest) m h =
    ground (arith, apply_op-unloaded op, apply_ops-unloaded o now user rest m h)
  where
    apply_op-unloaded : (op : MemoryOp) → apply_op o now user op m ≡ m
    apply_op-unloaded (add text) = unfold apply_op add_fact in ground arith
    apply_op-unloaded (replace idx text) = unfold apply_op replace_fact in ground arith
    apply_op-unloaded (forget idx) = unfold apply_op forget_fact in ground arith

-- The memory and what decides whose it is stay.
record Same (w w' : SessionWorker) : Type 0 where
  context : w'.session.context_id ≡ w.session.context_id
  memory : w'.memory_manager ≡ w.memory_manager

Same-trans : {a b c : SessionWorker} → Same a b → Same b c → Same a c
Same-trans f g = record { context = g.context ∙ f.context; memory = g.memory ∙ f.memory }

begin-Same : (r : Run) (task : Task) (w : SessionWorker) → Same w (begin r task w)
unfolding begin
begin-Same r task w = record { context = refl; memory = refl }

prepare-Same :
    (o : Outside) (r : Run) (task : Task) (w : SessionWorker) (id : String)
    → persisted_id w ≡ (ok id, w)
    → (r.id_before == "") ≡ true
    → (id == "") ≡ false
    → Same w (prepare o r task w).1
unfolding prepare inject_memory ◌>>=◌
prepare-Same o r task w id read new there =
    let found = sync_id-restores r w id read new there in
    record { context = ground (arith, found); memory = ground (arith, found) }

keep_id-Same : (r : Run) (w : SessionWorker) → is_loaded w ≡ true → Same w (keep_id r w).1
unfolding keep_id
keep_id-Same r w h = elim (Bool-cases (r.id_after == "")) [
  | inl nothing ↦ record { context = ground arith; memory = ground arith }
  | inr id ↦ elim (Option-cases w.state_store) [
    | inl without ↦ record { context = ground arith; memory = ground arith }
    | inr (store, there) ↦ record { context = ground arith; memory = ground arith }
  ]
]

conclude-writes :
    (o : Outside) (r : Run) (task : Task) (copy : Option Task) (content : String)
    (w : SessionWorker)
    → r.outcome ≡ returned content
    → (keep_id r w).0 ≡ ok tt
    → (conclude o r task copy w).1.memory_manager
      ≡ (write_memory o r.now task
          (o.extract_and_strip_memory content).0
          (keep_id r w).1).memory_manager
unfolding conclude finish send_cancelled ◌>>=◌
conclude-writes o r task copy content w returns kept = ground arith

-- After a restart a session's id is in the store, its runtime is new, and the memory of the user is not
-- in the cache: whatever facts the answer adds, replaces or forgets, the memory stays as it was.
resumed_forgets :
    (o : Outside) (r : Run) (task : Task) (content : String) (w : SessionWorker)
    (store : StateStore) (g : GlobalState) (m : MemoryManager)
    → w.state_store ≡ some store
    → store.state ≡ some g
    → (id_in w.session.context_id w.session.project_name g == "") ≡ false
    → (r.id_before == "") ≡ true
    → w.memory_manager ≡ some m
    → lookup (user_of o task w.session) m.cache ≡ none
    → r.ready_error ≡ none
    → r.outcome ≡ returned content
    → (execute_task o r task w).1.memory_manager ≡ some m
unfolding execute_task write_memory ◌>>=◌
resumed_forgets o r task content w store g m there e id new memory unloaded ready returns =
    let w1 : SessionWorker = begin r task w in
    let b = begin-Same r task w in
    let read : persisted_id w1 ≡ (ok (id_in w.session.context_id w.session.project_name g), w1) =
      unfold begin in persisted_id_lem w1 store g there e in
    let ((copy, prepared), f) = prepare-Frame o r task w1 (unfold begin in ground arith) in
    let p =
      prepare-Same o r task w1 (id_in w.session.context_id w.session.project_name g) read new id in
    let w2 : SessionWorker =
      if r.marked then mark_active (prepare o r task w1).1 else (prepare o r task w1).1 in
    let marks : Same (prepare o r task w1).1 w2 = record {
      context = ground arith;
      memory = ground arith;
    } in
    let loaded : is_loaded w2 ≡ true = ground (arith, f.loaded) in
    let kept = (keep_id-Frame r w2 loaded).0 in
    let same = Same-trans b (Same-trans p (Same-trans marks (keep_id-Same r w2 loaded))) in
    let goes_on : execute_task o r task w ≡ conclude o r task copy w2 = ground arith in
    let user : user_of o task (keep_id r w2).1.session ≡ user_of o task w.session =
      ground (arith, same.context) in
    let ops : List MemoryOp = (o.extract_and_strip_memory content).0 in
    ground (
      arith,
      goes_on,
      conclude-writes o r task copy content w2 returns kept,
      same.memory,
      user,
      apply_ops-unloaded o r.now (user_of o task w.session) ops m unloaded,
    )
