-- ===== src/Core/Worker/Copies.antt =====
-- What follows from the copy of the task that `_execute_task` of core/worker.py makes.
use mathlib.Core.List.{append_assoc, append-nil}
use next_me.Common.{
  ◌≡◌, ◌≢◌, refl, ◌∙◌, String, true, false, Option, none, some, is_some, List, [], ◌∷◌, ◌++◌, arith,
  ◌==◌, string_comparable, ok, raised, cancelled_error, ◌>>=◌, Bool-cases, Option-cases, List-cases,
  inl, inr,
}
use next_me.Core.Types.{Task}
use next_me.Core.Worker.{
  Card, start_cards, cancelled_card, result_card, SessionWorker, returned, cancelled, Run, Outside,
  send_cancelled, mark_active,
}
use next_me.Core.Worker.Execute.{
  begin, sync_id, inject_memory, mention_lines, all_lines, with_lines, prepare, keep_id, finish,
  or_no_output, conclude, execute_task,
}
use next_me.Core.Worker.Loop.{take_task, after_task, tell_cancelled, set_active, round}
use next_me.Core.Worker.Frames.{
  is_loaded, persisted_id-ok, sync_id-Frame, prepare-Frame, keep_id-Frame, write_memory-Frame,
}

-- A task with a sender is always copied: there is a line for the sender at least.
has_lines : (task : Task) → (task.user_id == "") ≡ false → all_lines task ≢ []
unfolding all_lines
has_lines task sender e = elim (List-cases (mention_lines [] task.mentions)) [
  | inl alone ↦ absurd (ground arith)
  | inr (l, rest, there) ↦ absurd (ground arith)
]

copied :
    (lines : List (String × String)) (copy : Option Task) (task : Task)
    → lines ≢ []
    → is_some (with_lines lines copy task) ≡ true
copied [] copy task some_line = absurd (some_line refl)
copied (l ∷ lines) none task some_line = refl
copied (l ∷ lines) (some c) task some_line = refl

-- The copy has the flag that the task had.
same_flag :
    (lines : List (String × String)) (copy : Option Task) (task c : Task)
    → ((d : Task) → copy ≡ some d → d.canceled ≡ task.canceled)
    → with_lines lines copy task ≡ some c
    → c.canceled ≡ task.canceled
same_flag [] copy task c h e = h c e
same_flag (l ∷ lines) none task c h e = ground arith
same_flag (l ∷ lines) (some d) task c h e = ground (arith, h d)

-- Up to `runtime.execute` only the id of the session changes.
sync_id-session :
    (r : Run) (w : SessionWorker)
    → is_loaded w ≡ true
    → (sync_id r w).1.session.active_task ≡ w.session.active_task
unfolding sync_id ◌>>=◌
sync_id-session r w h =
    let (id, read) = persisted_id-ok w h in
    elim (Bool-cases (r.id_before == "")) [ inr given ↦ ground arith | inl new ↦ ground arith ]

record Prepared (o : Outside) (r : Run) (task : Task) (w : SessionWorker) : Type 0 where
  c : Task
  copy_is : (prepare o r task w).0 ≡ ok (some c)
  flag : c.canceled ≡ task.canceled
  active : (prepare o r task w).1.session.active_task ≡ w.session.active_task

prepared :
    (o : Outside) (r : Run) (task : Task) (w : SessionWorker)
    → is_loaded w ≡ true
    → (task.user_id == "") ≡ false
    → Prepared o r task w
unfolding prepare ◌>>=◌
prepared o r task w h sender =
    let ((id, found), f) = sync_id-Frame r w h in
    let w1 : SessionWorker = (sync_id r w).1 in
    let copy : Option Task = (inject_memory o r id task w1).0 in
    elim (Option-cases (with_lines (all_lines task) copy task)) [
      | inl without ↦
          absurd (ground (arith, copied (all_lines task) copy task (has_lines task sender)))
      | inr (c, e) ↦ record {
        c = c;
        copy_is = ground arith;
        flag =
            same_flag (all_lines task) copy task c (λ d e. unfold inject_memory in ground arith) e;
        active = unfold inject_memory in ground (arith, sync_id-session r w h);
      }
    ]

-- `execute_task` when the worker is cancelled in it: one cancel card, and the flag of the session's task
-- as it was.
cut_short :
    (o : Outside) (r : Run) (task : Task) (w : SessionWorker)
    → (task.user_id == "") ≡ false
    → is_loaded w ≡ true
    → w.session.suppress_cancel ≡ false
    → r.ready_error ≡ none
    → r.outcome ≡ cancelled
    → r.marked ≡ false
    → ((execute_task o r task w).0 ≡ raised cancelled_error)
      × ((execute_task o r task w).1.session.active_task ≡ w.session.active_task)
      × ((execute_task o r task w).1.session.suppress_cancel ≡ false)
      × ((execute_task o r task w).1.sent
          ≡ w.sent ++ start_cards task.id r.lock_contended ++ (task.id, cancelled_card) ∷ [])
unfolding execute_task conclude send_cancelled ◌>>=◌
cut_short o r task w sender h loud ready stopped unmarked =
    let w1 : SessionWorker = begin r task w in
    let p = prepared o r task w1 h sender in
    let (found, f) = prepare-Frame o r task w1 h in
    let w2 : SessionWorker = (prepare o r task w1).1 in
    let start = start_cards task.id r.lock_contended in
    let same : execute_task o r task w ≡ conclude o r task (some p.c) w2 =
      ground (arith, p.copy_is) in
    unfold begin in
    ground (
      arith,
      same,
      p.active,
      f.loud,
      f.cards,
      append-nil w1.sent,
      append_assoc w.sent start ((task.id, cancelled_card) ∷ []),
    )

-- The worker is cancelled while it executes a task with a known sender, and the bot is not shutting
-- down: the user gets two cancel cards, since the flag that the first one sets is the flag of the copy.
cancelled_twice :
    (o : Outside) (r : Run) (task : Task) (rest : List Task) (w : SessionWorker)
    → w.session.task_queue ≡ task ∷ rest
    → task.canceled ≡ false
    → (task.user_id == "") ≡ false
    → is_loaded w ≡ true
    → w.session.suppress_cancel ≡ false
    → r.ready_error ≡ none
    → r.outcome ≡ cancelled
    → r.marked ≡ false
    → ((round o r w).0 ≡ raised cancelled_error)
      × ((round o r w).1.sent
          ≡ w.sent
            ++ start_cards task.id r.lock_contended
            ++ (task.id, cancelled_card) ∷ (task.id, cancelled_card) ∷ [])
unfolding round take_task after_task tell_cancelled send_cancelled
cancelled_twice o r task rest w q live sender h loud ready stopped unmarked =
    let w1 : SessionWorker = set_active (some task) (take_task task rest w) in
    let start = start_cards task.id r.lock_contended in
    let (raises, active, silent, cards) =
      cut_short o r task w1 sender h loud ready stopped unmarked in
    ground (
      arith,
      raises,
      active,
      silent,
      cards,
      append_assoc (w.sent ++ start) ((task.id, cancelled_card) ∷ [])
          ((task.id, cancelled_card) ∷ []),
    )

shows_result :
    (o : Outside) (r : Run) (task c : Task) (content : String) (w : SessionWorker)
    → is_loaded w ≡ true
    → r.outcome ≡ returned content
    → c.canceled ≡ false
    → (conclude o r task (some c) w).1.sent
      ≡ w.sent ++ (task.id, result_card (or_no_output (o.extract_and_strip_memory content).1)) ∷ []
unfolding conclude finish ◌>>=◌
shows_result o r task c content w h returns live =
    let (kept, g) = keep_id-Frame r w h in
    let k =
      write_memory-Frame o r.now task (o.extract_and_strip_memory content).0 (keep_id r w).1 in
    ground (arith, kept, g.cards, k.cards, append-nil w.sent)

-- Somebody denies a permission while a task with a known sender runs, which marks the session's
-- active task as cancelled; the worker that is to suppress the result sends it as if nothing had been.
pub ignores_mark :
    (o : Outside) (r : Run) (task : Task) (content : String) (w : SessionWorker)
    → task.canceled ≡ false
    → (task.user_id == "") ≡ false
    → is_loaded w ≡ true
    → r.ready_error ≡ none
    → r.outcome ≡ returned content
    → r.marked ≡ true
    → (execute_task o r task w).1.sent
      ≡ w.sent
        ++ start_cards task.id r.lock_contended
        ++ (task.id, result_card (or_no_output (o.extract_and_strip_memory content).1)) ∷ []
unfolding execute_task ◌>>=◌
ignores_mark o r task content w live sender h ready returns marked =
    let w1 : SessionWorker = begin r task w in
    let p = prepared o r task w1 h sender in
    let (found, f) = prepare-Frame o r task w1 h in
    let w2 : SessionWorker = mark_active (prepare o r task w1).1 in
    let same : (execute_task o r task w).1 ≡ (conclude o r task (some p.c) w2).1 =
      ground (arith, p.copy_is) in
    let shown = shows_result o r task p.c content w2 (f.loaded h) returns (p.flag ∙ live) in
    let start = start_cards task.id r.lock_contended in
    let last : Card = result_card (or_no_output (o.extract_and_strip_memory content).1) in
    unfold begin in
    ground (
      arith,
      same,
      shown,
      f.cards,
      append-nil w1.sent,
      append_assoc w.sent start ((task.id, last) ∷ []),
    )
