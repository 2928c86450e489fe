-- ===== src/Core/Worker/Resume.antt =====
-- core/worker.py: what a session has of its agent and of its memory after a restart of the program.
use next_me.Common.{
  String, ◌≡◌, refl, ◌∙◌, true, false, Option, none, some, arith, ◌==◌, string_comparable,
  if◌then◌else◌, ok, ◌>>=◌, Bool-cases, inl, inr,
}
use next_me.Config.Schema.{GlobalState}
use next_me.Config.StateStore.{StateStore, load, read_from_disk, debounce_round}
use next_me.Config.StateStore.Restart.{
  restart, id_in, saved, save_lem, save_returns, id_in-saved, get_project_actual_id_lem,
}
use next_me.Core.Types.{Task}
use next_me.Core.Worker.{SessionWorker, returned, Run, Outside, send_cancelled, mark_active}
use next_me.Core.Worker.Execute.{
  begin, persisted_id, set_actual_id, sync_id, inject_memory, prepare, keep_id, write_memory,
  finish, conclude, execute_task,
}
use next_me.Core.Worker.Frames.{prepare-Frame, keep_id-Frame}

-- The session's names and the store stay.
record Steady (w w' : SessionWorker) : Type 0 where
  context : w'.session.context_id ≡ w.session.context_id
  project : w'.session.project_name ≡ w.session.project_name
  store : w'.state_store ≡ w.state_store

pub persisted_id_lem :
    (w : SessionWorker) (store : StateStore) (g : GlobalState)
    → w.state_store ≡ some store
    → store.state ≡ some g
    → persisted_id w ≡ (ok (id_in w.session.context_id w.session.project_name g), w)
unfolding persisted_id
persisted_id_lem w store g there e =
    ground (arith, get_project_actual_id_lem w.session.context_id w.session.project_name store g e)

prepare-Steady :
    (o : Outside) (r : Run) (task : Task) (w : SessionWorker) (store : StateStore) (g : GlobalState)
    → w.state_store ≡ some store
    → store.state ≡ some g
    → Steady w (prepare o r task w).1
unfolding prepare sync_id inject_memory ◌>>=◌
prepare-Steady o r task w store g there e =
    let read = persisted_id_lem w store g there e in
    elim (Bool-cases (r.id_before == "")) [
      | inr given ↦ record { context = ground arith; project = ground arith; store = ground arith }
      | inl new ↦ elim (Bool-cases (id_in w.session.context_id w.session.project_name g == "")) [
        | inl nothing ↦ record {
          context = ground (arith, read);
          project = ground (arith, read);
          store = ground (arith, read);
        }
        | inr kept ↦ record {
          context = ground (arith, read);
          project = ground (arith, read);
          store = ground (arith, read);
        }
      ]
    ]

keep_id_lem :
    (r : Run) (w : SessionWorker) (store : StateStore) (g : GlobalState)
    → w.state_store ≡ some store
    → store.state ≡ some g
    → (r.id_after == "") ≡ false
    → (keep_id r w).1.state_store
      ≡ some (record store {
        state = some (saved w.session.context_id w.session.project_name r.id_after g);
        dirty = true;
      })
unfolding keep_id
keep_id_lem r w store g there e id = ground (
  arith,
  save_lem w.session.context_id w.session.project_name r.id_after store g e,
  save_returns w.session.context_id w.session.project_name r.id_after store g e,
)

-- Nothing that follows `keep_id` writes to the store.
conclude-keeps :
    (o : Outside) (r : Run) (task : Task) (copy : Option Task) (content : String)
    (w : SessionWorker)
    → r.outcome ≡ returned content
    → (keep_id r w).0 ≡ ok tt
    → (conclude o r task copy w).1.state_store ≡ (keep_id r w).1.state_store
unfolding conclude finish send_cancelled write_memory ◌>>=◌
conclude-keeps o r task copy content w returns kept = ground arith

begin-Steady : (r : Run) (task : Task) (w : SessionWorker) → Steady w (begin r task w)
unfolding begin
begin-Steady r task w = record { context = refl; project = refl; store = refl }

Steady-trans : {a b c : SessionWorker} → Steady a b → Steady b c → Steady a c
Steady-trans f g = record {
  context = g.context ∙ f.context;
  project = g.project ∙ f.project;
  store = g.store ∙ f.store;
}

-- The state before `runtime.execute` ends, from which `conclude` goes on.
record Executed (o : Outside) (r : Run) (task : Task) (w : SessionWorker) : Type 0 where
  at : SessionWorker
  copy : Option Task
  steady : Steady w at
  goes_on : execute_task o r task w ≡ conclude o r task copy at

executed :
    (o : Outside) (r : Run) (task : Task) (w : SessionWorker) (store : StateStore) (g : GlobalState)
    → w.state_store ≡ some store
    → store.state ≡ some g
    → r.ready_error ≡ none
    → Executed o r task w
unfolding execute_task ◌>>=◌
executed o r task w store g there e ready =
    let w1 : SessionWorker = begin r task w in
    let b = begin-Steady r task w in
    let s = prepare-Steady o r task w1 store g (b.store ∙ there) e in
    let ((copy, prepared), f) = prepare-Frame o r task w1 (ground (arith, b.store)) in
    let w2 : SessionWorker = (prepare o r task w1).1 in
    let w3 : SessionWorker = if r.marked then mark_active w2 else w2 in
    let m : Steady w2 w3 = record {
      context = ground arith;
      project = ground arith;
      store = ground arith;
    } in
    record {
      at = w3;
      copy = copy;
      steady = Steady-trans b (Steady-trans s m);
      goes_on = ground arith;
    }

-- What the store is after a run that returns an answer.
pub execute_task-saves :
    (o : Outside) (r : Run) (task : Task) (content : String) (w : SessionWorker)
    (store : StateStore) (g : GlobalState)
    → w.state_store ≡ some store
    → store.state ≡ some g
    → r.ready_error ≡ none
    → r.outcome ≡ returned content
    → (r.id_after == "") ≡ false
    → (execute_task o r task w).1.state_store
      ≡ some (record store {
        state = some (saved w.session.context_id w.session.project_name r.id_after g);
        dirty = true;
      })
execute_task-saves o r task content w store g there e ready returns id =
    let x = executed o r task w store g there e ready in
    let at_store = x.steady.store ∙ there in
    let kept = (keep_id-Frame r x.at (ground arith)).0 in
    ground (
      arith,
      x.goes_on,
      x.steady.context,
      x.steady.project,
      conclude-keeps o r task x.copy content x.at returns kept,
      keep_id_lem r x.at store g at_store e id,
    )

pub sync_id-restores :
    (r : Run) (w : SessionWorker) (id : String)
    → persisted_id w ≡ (ok id, w)
    → (r.id_before == "") ≡ true
    → (id == "") ≡ false
    → sync_id r w ≡ (ok id, set_actual_id id w)
unfolding sync_id ◌>>=◌
sync_id-restores r w id read new there = ground arith

pub same_key : (a : String) → (a == a) ≡ true
same_key a = ground (arith, string_comparable.equals_iff a a)

-- A task's run returns an answer with the agent's id, the store is written, and the program is started
-- again: a worker of the same context and project whose runtime is new resumes that id.
pub resumes :
    (o : Outside) (r next : Run) (task : Task) (content : String) (w w' : SessionWorker)
    (store s : StateStore) (g : GlobalState)
    → w.state_store ≡ some store
    → store.state ≡ some g
    → r.ready_error ≡ none
    → r.outcome ≡ returned content
    → (r.id_after == "") ≡ false
    → (execute_task o r task w).1.state_store ≡ some s
    → w'.session.context_id ≡ w.session.context_id
    → w'.session.project_name ≡ w.session.project_name
    → w'.state_store ≡ some (load (restart (debounce_round true s).1)).1
    → (next.id_before == "") ≡ true
    → ((sync_id next w').0 ≡ ok r.id_after) × ((sync_id next w').1.session.actual_id ≡ r.id_after)
unfolding load read_from_disk debounce_round
resumes o r next task content w w' store s g there e ready returns id after context project again
      new =
    let g' : GlobalState = saved w.session.context_id w.session.project_name r.id_after g in
    let is_saved = execute_task-saves o r task content w store g there e ready returns id in
    let s' : StateStore = (load (restart (debounce_round true s).1)).1 in
    let reads : s'.state ≡ some g' = ground arith in
    let read : persisted_id w' ≡ (ok r.id_after, w') = ground (
      arith,
      persisted_id_lem w' s' g' again reads,
      id_in-saved w.session.context_id w.session.project_name r.id_after w.session.context_id
          w.session.project_name g,
      same_key w.session.context_id,
      same_key w.session.project_name,
    ) in
    ground (arith, sync_id-restores next w' r.id_after read new id)
