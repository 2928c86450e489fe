-- ===== src/Core/Worker/Answers.antt =====
-- The cards that core/worker.py sends for one task.
pub mod Drain
use mathlib.Core.Path.{subst}
use next_me.Common.{
  ◌++◌, String, ◌≡◌, ◌≢◌, refl, ◌∙◌, Bool, true, false, not, Option, [], ◌∷◌, arith, if◌then◌else◌,
  ok, ◌>>=◌, Bool-cases, Option-cases, inl, inr,
}
use mathlib.Core.List.{append-nil}
use next_me.Core.Types.{Task}
use next_me.Core.Worker.{
  Card, waiting_card, thinking_card, start_cards, timeout_card, cancelled_card, result_card,
  error_card, SessionWorker, Outcome, returned, cancelled, timed_out, raised_error, Run, Outside,
  send_cancelled, mark_active, local_canceled,
}
use next_me.Core.Worker.Execute.{
  or_no_output, begin, prepare, keep_id, write_memory, finish, conclude, execute_task,
}
use next_me.Core.Worker.Frames.{
  is_loaded, Frame, begin-Frame, Frame-trans, prepare-Frame, keep_id-Frame, write_memory-Frame,
}

-- The cards that end a task.
abbrev pub is_final : Card → Bool
is_final waiting_card = false
is_final thinking_card = false
is_final _ = true

-- One final card for the task has been sent.
record Answered (w w' : SessionWorker) (task : Task) : Type 0 where
  card : Card
  final : is_final card ≡ true
  frame : Frame w w' ((task.id, card) ∷ [])

finish-Answered :
    (copy : Option Task) (task : Task) (content : String) (w : SessionWorker)
    → w.session.suppress_cancel ≡ false
    → Answered w (finish copy task content w) task
unfolding finish send_cancelled
finish-Answered copy task content w loud = elim (Bool-cases (local_canceled copy w)) [
  | inl stopped ↦ record {
    card = cancelled_card;
    final = refl;
    frame = record {
      queue = ground arith;
      loud = ground arith;
      loaded = λ l. ground arith;
      cards = ground arith;
    };
  }
  | inr goes ↦ record {
    card = result_card (or_no_output content);
    final = refl;
    frame = record {
      queue = ground arith;
      loud = ground arith;
      loaded = λ l. ground arith;
      cards = ground arith;
    };
  }
]

conclude-Answered :
    (o : Outside) (r : Run) (task : Task) (copy : Option Task) (w : SessionWorker)
    → is_loaded w ≡ true
    → w.session.suppress_cancel ≡ false
    → r.outcome ≢ cancelled
    → ((conclude o r task copy w).0 ≡ ok tt) × Answered w (conclude o r task copy w).1 task
unfolding conclude ◌>>=◌
conclude-Answered o r task copy w h loud going = by_outcome r.outcome refl
  where
    by_outcome :
        (out : Outcome)
        → r.outcome ≡ out
        → ((conclude o r task copy w).0 ≡ ok tt) × Answered w (conclude o r task copy w).1 task
    by_outcome cancelled e = absurd (going e)
    by_outcome timed_out e = (
      ground arith,
      record {
        card = timeout_card;
        final = refl;
        frame = record {
          queue = ground arith;
          loud = ground arith;
          loaded = λ l. ground arith;
          cards = ground arith;
        };
      },
    )
    by_outcome (raised_error error) e = (
      ground arith,
      record {
        card = error_card error;
        final = refl;
        frame = record {
          queue = ground arith;
          loud = ground arith;
          loaded = λ l. ground arith;
          cards = ground arith;
        };
      },
    )
    by_outcome (returned content) e =
        let (kept, f) = keep_id-Frame r w h in
        let w1 : SessionWorker = (keep_id r w).1 in
        let w2 : SessionWorker =
          write_memory o r.now task (o.extract_and_strip_memory content).0 w1 in
        let shown : String = (o.extract_and_strip_memory content).1 in
        let g =
          Frame-trans f
            (write_memory-Frame o r.now task (o.extract_and_strip_memory content).0 w1) in
        let a = finish-Answered copy task shown w2 (g.loud ∙ loud) in
        let same : finish copy task shown w2 ≡ (conclude o r task copy w).1 = ground arith in
        (
          ground arith,
          subst (λ w'. Answered w w' task) same
              (record { card = a.card; final = a.final; frame = Frame-trans g a.frame }),
        )

-- A task that is executed, and not cancelled together with the worker, gets the cards of the start and
-- one final card.
pub record Served (w w' : SessionWorker) (task : Task) : Type 0 where
  pub contended : Bool
  pub last : Card
  pub ends : is_final last ≡ true
  pub frame : Frame w w' (start_cards task.id contended ++ (task.id, last) ∷ [])

pub execute_task-Served :
    (o : Outside) (r : Run) (task : Task) (w : SessionWorker)
    → is_loaded w ≡ true
    → w.session.suppress_cancel ≡ false
    → r.outcome ≢ cancelled
    → ((execute_task o r task w).0 ≡ ok tt) × Served w (execute_task o r task w).1 task
unfolding execute_task ◌>>=◌
execute_task-Served o r task w h loud going =
    let w1 : SessionWorker = begin r task w in
    let f = begin-Frame r task w in
    elim (Option-cases r.ready_error) [
      | inr (error, failed) ↦ (
        ground arith,
        record {
          contended = r.lock_contended;
          last = error_card error;
          ends = refl;
          frame = Frame-trans f (record {
            queue = ground arith;
            loud = ground arith;
            loaded = λ l. ground arith;
            cards = ground arith;
          });
        },
      )
      | inl ready ↦
          let ((copy, prepared), g) = prepare-Frame o r task w1 (f.loaded h) in
          let w2 : SessionWorker = (prepare o r task w1).1 in
          let w3 : SessionWorker = if r.marked then mark_active w2 else w2 in
          let m : Frame w2 w3 [] = record {
            queue = ground arith;
            loud = ground arith;
            loaded = λ l. ground arith;
            cards = ground (arith, append-nil w2.sent);
          } in
          let start = start_cards task.id r.lock_contended in
          let k : Frame w w3 start =
            subst (Frame w w3) (append-nil start) (Frame-trans f (Frame-trans g m)) in
          let (done, a) = conclude-Answered o r task copy w3 (k.loaded h) (k.loud ∙ loud) going in
          let same : (conclude o r task copy w3).1 ≡ (execute_task o r task w).1 = ground arith in
          (
            ground arith,
            subst (λ w'. Served w w' task) same
                (record {
                  contended = r.lock_contended;
                  last = a.card;
                  ends = a.final;
                  frame = Frame-trans k a.frame;
                }),
          )
    ]
