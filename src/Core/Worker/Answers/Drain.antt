-- ===== src/Core/Worker/Answers/Drain.antt =====
-- What all the tasks of a queue get from the worker of core/worker.py.
use mathlib.Core.List.{append_assoc, append-nil}
use next_me.Common.{
  Bool, ◌≤◌, String, ◌≡◌, ◌≢◌, refl, true, false, some, List, [], ◌∷◌, ◌++◌, arith, if◌then◌else◌,
  length, ok, All, Bool-cases, List-cases, inl, inr,
}
use next_me.Core.Types.{Task}
use next_me.Core.Worker.{start_cards, Card, SessionWorker, cancelled, Run, Outside}
use next_me.Core.Worker.Loop.{take_task, after_task, set_active, round, run}
use next_me.Core.Worker.Frames.{is_loaded}
use next_me.Core.Worker.Answers.{is_final, execute_task-Served}

-- The ids of the tasks that have had their final card, in the order of the cards.
abbrev pub answered : List (String × Card) → List String
answered [] = []
answered ((id, card) ∷ rest) = if is_final card then id ∷ answered rest else answered rest

answered-append : (xs ys : List (String × Card)) → answered (xs ++ ys) ≡ answered xs ++ answered ys
answered-append [] ys = refl
answered-append ((id, card) ∷ rest) ys = ground (arith, answered-append rest ys)

-- The tasks that are not cancelled while they wait.
abbrev pub live_ids : List Task → List String
live_ids [] = []
live_ids (task ∷ rest) = if task.canceled then live_ids rest else task.id ∷ live_ids rest

answered_start : (id : String) (contended : Bool) → answered (start_cards id contended) ≡ []
answered_start id true = refl
answered_start id false = refl

record Round (w w' : SessionWorker) (task : Task) (rest : List Task) : Type 0 where
  queue : w'.session.task_queue ≡ rest
  loud : w'.session.suppress_cancel ≡ false
  loaded : is_loaded w' ≡ true
  cards : answered w'.sent ≡ answered w.sent ++ live_ids (task ∷ [])

round_lem :
    (o : Outside) (r : Run) (w : SessionWorker) (task : Task) (rest : List Task)
    → w.session.task_queue ≡ task ∷ rest
    → is_loaded w ≡ true
    → w.session.suppress_cancel ≡ false
    → r.outcome ≢ cancelled
    → ((round o r w).0 ≡ ok tt) × Round w (round o r w).1 task rest
unfolding round take_task after_task
round_lem o r w task rest q h loud going = elim (Bool-cases task.canceled) [
  | inl skipped ↦ (
    ground arith,
    record {
      queue = ground arith;
      loud = ground arith;
      loaded = ground arith;
      cards = ground (arith, append-nil (answered w.sent));
    },
  )
  | inr live ↦
      let w1 : SessionWorker = set_active (some task) (take_task task rest w) in
      let (returns, s) = execute_task-Served o r task w1 h loud going in
      (
        ground (arith, returns),
        record {
          queue = ground (arith, returns, s.frame.queue);
          loud = ground (arith, returns, s.frame.loud);
          loaded = ground (arith, returns, s.frame.loaded h);
          cards = ground (
            arith,
            returns,
            s.frame.cards,
            s.ends,
            answered-append w.sent (start_cards task.id s.contended ++ (task.id, s.last) ∷ []),
            answered-append (start_cards task.id s.contended) ((task.id, s.last) ∷ []),
            answered_start task.id s.contended,
          );
        },
      )
]

-- A worker that is not cancelled itself, with at least as many rounds as tasks wait, empties its queue,
-- and every task that was not cancelled while it waited gets exactly one final card, in the order of
-- the queue, however the runtime ends it. The store has to be loaded, and the bot not shutting down.
pub run-answers :
    (o : Outside) (runs : List Run) (w : SessionWorker)
    → length w.session.task_queue ≤ length runs
    → All (λ r. r.outcome ≢ cancelled) runs
    → is_loaded w ≡ true
    → w.session.suppress_cancel ≡ false
    → ((run o runs w).0 ≡ ok tt)
      × ((run o runs w).1.session.task_queue ≡ [])
      × (answered (run o runs w).1.sent ≡ answered w.sent ++ live_ids w.session.task_queue)
unfolding run
run-answers o [] w enough going h loud = elim (List-cases w.session.task_queue) [
  | inl e ↦ (refl, e, ground (arith, append-nil (answered w.sent)))
  | inr (task, rest, e) ↦ absurd (ground arith)
]
run-answers o (r ∷ runs) w enough going h loud = elim (List-cases w.session.task_queue) [
  | inl e ↦
      let same : round o r w ≡ (ok tt, w) = unfold round in ground arith in
      ground (arith, run-answers o runs w (ground arith) going.1 h loud)
  | inr (task, rest, e) ↦
      let (returns, d) = round_lem o r w task rest e h loud going.0 in
      ground (
        arith,
        returns,
        d.queue,
        d.cards,
        run-answers o runs (round o r w).1 (ground (arith, d.queue)) going.1 d.loaded d.loud,
        append_assoc (answered w.sent) (live_ids (task ∷ [])) (live_ids rest),
      )
]
