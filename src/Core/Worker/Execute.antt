-- ===== src/Core/Worker/Execute.antt =====
-- core/worker.py: `_execute_task`, with the memory and the mentions that it puts into the prompt.
use Prim.Native.String.{◌++◌ as append}
use next_me.Common.{
  ℕ, String, not, Option, none, some, List, [], ◌∷◌, ◌++◌, map, ◌==◌, nat_comparable,
  string_comparable, if◌then◌else◌, elem, Result, ok, raised, cancelled_error, Action, return,
  raise, ◌>>=◌, ◌>>◌,
}
use next_me.Config.StateStore.{StateStore, get_project_actual_id, save_project_actual_id}
use next_me.Memory.Schema.{Fact}
use next_me.Memory.Manager
use next_me.Memory.Manager.{MemoryManager, get_top_facts, add_fact, replace_fact, forget_fact}
use next_me.Acp
use next_me.Acp.{RuntimeRegistry, remove}
use next_me.Core.Types.{Task, executing, done, canceled}
use next_me.Core.Worker.{
  start_cards, timeout_card, result_card, error_card, SessionWorker, MemoryOp, add, replace, forget,
  returned, cancelled, timed_out, raised_error, Run, Outside, set_status, send, send_cancelled,
  mark_active, local_canceled, cancel_local, runtime_key, user_of,
}

abbrev pub modify : (SessionWorker → SessionWorker) → Action SessionWorker (Unit {0})
modify f w = return tt (f w)

-- Steps 1 to 3: the first cards, the lock, and the runtime from the registry.
unfoldable pub begin : Run → Task → SessionWorker → SessionWorker
begin r task w =
    let w' = record w { sent = w.sent ++ start_cards task.id r.lock_contended } in
    let s = w'.session in
    record w' {
      session = record s { status = executing };
      acp_registry =
          (Acp.get_or_create r.now (runtime_key s) s.project_path s.executor s.executor_args
            w'.acp_registry).1;
    }

abbrev pub set_actual_id : String → SessionWorker → SessionWorker
set_actual_id id w = record w { session = record w.session { actual_id = id } }

abbrev pub id_of_result : Result String → Action SessionWorker String
id_of_result (ok id) = return id
id_of_result (raised e) = raise e

-- The id that the store has for the session, empty without a store.
unfoldable pub persisted_id : Action SessionWorker String
persisted_id w = elim w.state_store [
  | none ↦ return "" w
  | some store ↦
      id_of_result (get_project_actual_id w.session.context_id w.session.project_name store).0 w
]

-- The runtime's id after both ways of the session id have been gone.
unfoldable pub sync_id : Run → Action SessionWorker String
unfolding persisted_id
sync_id r w =
    if not (r.id_before == "")
    then return r.id_before (if w.session.actual_id == "" then set_actual_id r.id_before w else w)
    else (persisted_id >>= λ id.
          if id == "" then return "" else (modify (set_actual_id id) >> return id))
        w

-- f"{rendered}\n\n[用户消息]\n{task.content}"
abbrev pub with_memory : String → Task → Task
with_memory rendered task = record task {
  content = append rendered (append "\n\n[用户消息]\n" task.content);
}

-- The facts go in front of the prompt of a new session, where there are any.
abbrev pub with_facts : Outside → List Fact → Task → Option Task
with_facts o [] task = none
with_facts o (f ∷ facts) task = some (with_memory (o.render (f ∷ facts)) task)

unfoldable pub inject_memory :
    Outside → Run → String → Task → SessionWorker → Option Task × SessionWorker
inject_memory o r runtime_id task w =
    if not (runtime_id == "") then (none, w) else elim w.memory_manager [
      | none ↦ (none, w)
      | some m ↦
          let user = user_of o task w.session in
          let m' = (Manager.load o.dir_for r.now user m).1 in
          (with_facts o (get_top_facts user 10 m') task, record w { memory_manager = some m' })
    ]

-- One line for each id that is not empty and has not been seen.
unfoldable pub mention_lines : List String → List (String × String) → List (String × String)
mention_lines seen [] = []
mention_lines seen ((open_id, name) ∷ rest) =
    let after = mention_lines (open_id ∷ seen) rest in
    let same = mention_lines seen rest in
    if open_id == "" then same else if elem open_id seen then same else (open_id, name) ∷ after

-- The mentions, and the sender if no mention has the sender's id.
unfoldable pub all_lines : Task → List (String × String)
unfolding mention_lines
all_lines task =
    let lines = mention_lines [] task.mentions in
    if task.user_id == ""
    then lines
    else if elem task.user_id (map (λ l. l.0) lines)
    then lines
    else lines ++ (task.user_id, "[预定人]") ∷ []

abbrev pub block : List (String × String) → String
block [] = ""
block ((open_id, name) ∷ rest) =
    append "\n- " (append name (append " (open_id: " (append open_id (append ")" (block rest)))))

abbrev pub with_lines : List (String × String) → Option Task → Task → Option Task
with_lines [] copy task = copy
with_lines (l ∷ lines) none task =
    some
      (record task { content = append task.content (append "\n\n[消息中的@提及用户]" (block (l ∷ lines))) })
with_lines (l ∷ lines) (some c) task =
    some (record c { content = append c.content (append "\n\n[消息中的@提及用户]" (block (l ∷ lines))) })

-- The copy that `_execute_task` goes on with, if it has made one.
unfoldable pub prepare : Outside → Run → Task → Action SessionWorker (Option Task)
unfolding sync_id inject_memory all_lines
prepare o r task = do
  runtime_id ← sync_id r
  copy ← λ w. let (copy, w') = inject_memory o r runtime_id task w in return copy w'
  return (with_lines (all_lines task) copy task)

abbrev pub store_after : Result (Unit {0}) × StateStore → Action SessionWorker (Unit {0})
store_after (ok u, store) w = return tt (record w { state_store = some store })
store_after (raised e, store) w = raise e (record w { state_store = some store })

-- The id goes to the session, and to the store for a restart.
unfoldable pub keep_id : Run → Action SessionWorker (Unit {0})
keep_id r w =
    if r.id_after == ""
    then return tt w
    else let w' = set_actual_id r.id_after w in
      elim w'.state_store [
        | none ↦ return tt w'
        | some store ↦
            store_after
              (save_project_actual_id w'.session.context_id w'.session.project_name r.id_after
                store)
              w'
      ]

-- A confidence of 0.9, in hundredths.
abbrev pub agent_fact : ℕ → String → Fact
agent_fact now text = record {
  text = text;
  confidence = 90;
  created_at = now;
  updated_at = none;
  source = "agent_output";
}

unfoldable pub apply_op : Outside → ℕ → String → MemoryOp → MemoryManager → MemoryManager
apply_op o now user (add text) m = add_fact o.similar now user (agent_fact now text) m
apply_op o now user (replace idx text) m = (replace_fact now user idx text m).1
apply_op o now user (forget idx) m = (forget_fact user idx m).1

unfoldable pub apply_ops : Outside → ℕ → String → List MemoryOp → MemoryManager → MemoryManager
unfolding apply_op
apply_ops o now user [] m = m
apply_ops o now user (op ∷ rest) m = apply_ops o now user rest (apply_op o now user op m)

unfoldable pub write_memory : Outside → ℕ → Task → List MemoryOp → SessionWorker → SessionWorker
unfolding apply_ops
write_memory o now task ops w = elim w.memory_manager [
  | none ↦ w
  | some m ↦ record w { memory_manager = some (apply_ops o now (user_of o task w.session) ops m) }
]

abbrev pub or_no_output : String → String
or_no_output content = if content == "" then "(无输出)" else content

-- Step 5
unfoldable pub finish : Option Task → Task → String → SessionWorker → SessionWorker
finish copy task content w =
    let w' = set_status done w in
    if local_canceled copy w'
    then send_cancelled task w'
    else send task (result_card (or_no_output content)) w'

-- What follows `runtime.execute`.
unfoldable pub conclude : Outside → Run → Task → Option Task → Action SessionWorker (Unit {0})
unfolding keep_id write_memory finish send_cancelled
conclude o r task copy = elim r.outcome [
  | cancelled ↦ do
    modify (λ w. send_cancelled task (set_status canceled (cancel_local copy w)))
    raise cancelled_error
  | timed_out ↦ modify (λ w. send task timeout_card (record (set_status done w) {
    acp_registry = (remove o.stops (runtime_key w.session) w.acp_registry).1;
  }))
  | raised_error error ↦ modify (λ w. send task (error_card error) (set_status done w))
  | returned content ↦ do
    keep_id r
    let (ops, shown) = o.extract_and_strip_memory content in
        modify (λ w. finish copy task shown (write_memory o r.now task ops w))
]

unfoldable pub execute_task : Outside → Run → Task → Action SessionWorker (Unit {0})
unfolding begin prepare conclude
execute_task o r task = do
  modify (begin r task)
  elim r.ready_error [
    | some error ↦ modify (λ w. set_status done (send task (error_card error) w))
    | none ↦ do
      copy ← prepare o r task
      modify (λ w. if r.marked then mark_active w else w)
      conclude o r task copy
  ]
