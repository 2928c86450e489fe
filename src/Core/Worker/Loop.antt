-- ===== src/Core/Worker/Loop.antt =====
-- core/worker.py: the loop of `run`. A round takes the first task of the queue; a worker whose queue is
-- empty waits, which is a round that changes nothing.
use next_me.Common.{
  Option, none, some, List, [], ◌∷◌, ◌==◌, string_comparable, if◌then◌else◌, Result, ok, raised,
  cancelled_error, Action, return,
}
use next_me.Core.Types.{Task, idle, canceled}
use next_me.Core.Worker.{
  SessionWorker, Run, Outside, set_status, send_cancelled, mark_active, is_canceled,
}
use next_me.Core.Worker.Execute.{execute_task}

-- `pending_tasks.remove(task)`; the ids of tasks are unique
unfoldable pub remove_task : Task → List Task → List Task
remove_task task [] = []
remove_task task (t ∷ rest) = if t.id == task.id then rest else t ∷ remove_task task rest

-- The task is out of the queue and of the pending ones.
unfoldable pub take_task : Task → List Task → SessionWorker → SessionWorker
unfolding remove_task
take_task task rest w = record w {
  session = record w.session {
    task_queue = rest;
    pending_tasks = remove_task task w.session.pending_tasks;
  };
}

abbrev pub set_active : Option Task → SessionWorker → SessionWorker
set_active task w = record w { session = record w.session { active_task = task } }

-- `except asyncio.CancelledError`: the session's task is asked whether the user has been told.
unfoldable pub tell_cancelled : Task → SessionWorker → SessionWorker
unfolding send_cancelled
tell_cancelled task w =
    if is_canceled w.session.active_task
    then w
    else send_cancelled task (set_status canceled (mark_active w))

-- `except` and `finally`
unfoldable pub after_task : Task → Result (Unit {0}) → SessionWorker → SessionWorker
unfolding tell_cancelled
after_task task (ok u) w = set_active none (set_status idle w)
after_task task (raised cancelled_error) w =
    set_active none (set_status idle (tell_cancelled task w))
after_task task (raised e) w = set_active none (set_status idle w)

unfoldable pub round : Outside → Run → Action SessionWorker (Unit {0})
unfolding take_task after_task
round o r w = elim w.session.task_queue [
  | [] ↦ return tt w
  | task ∷ rest ↦
      let w1 = take_task task rest w in
      if task.canceled
      then return tt w1
      else let (result, w2) = execute_task o r task (set_active (some task) w1) in
        (result, after_task task result w2)
]

-- An exception ends the worker.
unfoldable pub run : Outside → List Run → Action SessionWorker (Unit {0})
unfolding round
run o [] w = return tt w
run o (r ∷ rest) w =
    let (result, w') = round o r w in
    elim result [ ok u ↦ run o rest w' | raised e ↦ (raised e, w') ]
