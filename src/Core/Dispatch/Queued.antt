-- ===== src/Core/Dispatch/Queued.antt =====
-- What core/dispatcher.py has done when it has put a task into a queue.
use next_me.Common.{
  ℕ, ◌+◌, String, ◌≡◌, refl, true, Option, none, some, List, [], ◌∷◌, ◌++◌, string_comparable,
  length, inl, inr, lookup, lookup-insert, erase, equals_refl, is_some, ltb, Result, ok, raised,
  Result-cases, if_both, ◌>>=◌, arith,
}
use next_me.Config.Schema.{AppConfig}
use next_me.Core.Types.{Task}
use next_me.Core.Session.{Session}
use next_me.Core.Dispatcher.{
  Dispatcher, Outcome, parked_at, queued_behind, dropped, with_timeout, one_if, is_full,
  tasks_ahead, enqueue, outcome_of, admit, accept,
}
use next_me.Acl.Manager.{get_role}
use next_me.Core.Routing.{session_for}
use next_me.Core.Commands.Handlers.{handle_meta_command}
use next_me.Core.Replies.{is_permission_reply}
use next_me.Core.Commands.{Desk, Setting, put_session}
use next_me.Core.Dispatch.{
  Reading, Bot, Verdict, answer, user_of, is_open, denied, no_project, replied, answered, accepted,
  worker_key, ensure_worker, enqueue_task, handle, command, settle, proceed, dispatch,
}

-- The task is the last one of the session's queue, behind the others and the active one.
pub record IsLast (task : Task) (n : ℕ) (s : Session) : Type 0 where
  pub front : List Task
  pub queued : Task
  pub split : s.task_queue ≡ front ++ queued ∷ []
  pub same_id : queued.id ≡ task.id
  pub same_content : queued.content ≡ task.content
  pub ahead : n ≡ length front + one_if (is_some s.active_task)

with_timeout-same :
    (config : AppConfig) (session : Session) (task : Task)
    → ((with_timeout config session task).id ≡ task.id)
      × ((with_timeout config session task).content ≡ task.content)
unfolding with_timeout
with_timeout-same config session task = ground arith

abbrev Enqueued : Task → Option ℕ × Session → Type 0
Enqueued task (none, s) = Unit
Enqueued task (some n, s) = IsLast task n s

enqueue-Enqueued :
    (config : AppConfig) (session : Session) (task : Task)
    → Enqueued task (enqueue config session task)
unfolding enqueue
enqueue-Enqueued config session task = if_both (Enqueued task) (is_full session) _ _ tt (record {
  front = session.task_queue;
  queued = record (with_timeout config session task) { was_queued = ltb 0 (tasks_ahead session) };
  split = refl;
  same_id = (with_timeout-same config session task).0;
  same_content = (with_timeout-same config session task).1;
  ahead = refl;
})

abbrev Accepted : Task → Result (Outcome × Session) → Type 0
Accepted task (raised e) = Unit
Accepted task (ok (parked_at n, s)) = Unit
Accepted task (ok (dropped, s)) = Unit
Accepted task (ok (queued_behind n, s)) = IsLast task n s

outcome-Accepted :
    (task : Task) (o : Option ℕ × Session) → Enqueued task o → Accepted task (ok (outcome_of o))
outcome-Accepted task (none, s) h = tt
outcome-Accepted task (some n, s) h = h

accept-Accepted :
    (config : AppConfig) (now : ℕ) (chat_id : String) (session : Session) (task : Task)
    (d : Dispatcher)
    → Accepted task (accept config now chat_id session task d).0
unfolding accept ◌>>=◌
accept-Accepted config now chat_id session task d =
    elim (Result-cases (admit now chat_id session.project_name task d).0) [
      | inr (x, e) ↦ rw (e, accept, ◌>>=◌) tt
      | inl (some n, e) ↦ rw (e, accept, ◌>>=◌) tt
      | inl (none, e) ↦
          rw (e, accept, ◌>>=◌) (outcome-Accepted task _ (enqueue-Enqueued config session task))
    ]

-- The session at hand has the task, and its worker runs.
pub record Settled (task : Task) (n : ℕ) (bot : Bot) : Type 0 where
  pub session : Session
  pub at_hand : lookup bot.desk.context.active_project bot.desk.context.sessions ≡ some session
  pub last : IsLast task n session
  pub working : lookup (worker_key session) bot.workers ≡ some true

abbrev Done : Task → Result Verdict × Bot → Type 0
Done task (raised e, bot) = Unit
Done task (ok denied, bot) = Unit
Done task (ok no_project, bot) = Unit
Done task (ok replied, bot) = Unit
Done task (ok (answered a), bot) = Unit
Done task (ok (accepted (parked_at n)), bot) = Unit
Done task (ok (accepted dropped), bot) = Unit
Done task (ok (accepted (queued_behind n)), bot) = Settled task n bot

pub ensure_worker-works :
    (session : Session) (bot : Bot)
    → lookup (worker_key session) (ensure_worker session bot).workers ≡ some true
unfolding ensure_worker
ensure_worker-works session bot = ground (
  arith,
  lookup-insert (worker_key session) (worker_key session) true
      (erase (worker_key session) bot.workers),
  equals_refl (worker_key session),
)

pub ensure_worker-desk :
    (session : Session) (bot : Bot) → (ensure_worker session bot).desk ≡ bot.desk
unfolding ensure_worker
ensure_worker-desk session bot = ground arith

settled :
    (task : Task) (outcome : Outcome) (session : Session) (bot : Bot)
    → lookup bot.desk.context.active_project bot.desk.context.sessions ≡ some session
    → Accepted task (ok (outcome, session))
    → Done task (ok (accepted outcome), settle outcome session bot)
settled task (parked_at n) session bot e h = tt
settled task dropped session bot e h = tt
settled task (queued_behind n) session bot e h = record {
  session = session;
  at_hand = rw (ensure_worker-desk session bot) e;
  last = h;
  working = ensure_worker-works session bot;
}

answer-Done :
    (setting : Setting) (reading : Reading) (task : Task) (bot : Bot)
    → Done task (answer setting reading task bot)
answer-Done setting reading task bot =
    elim (Result-cases (handle_meta_command setting reading.words task bot.desk).0) [
      | inl (a, e) ↦ rw e tt
      | inr (x, e) ↦ rw e tt
    ]

command-Done :
    (setting : Setting) (reading : Reading) (task : Task) (bot : Bot)
    → Done task (command setting reading task bot)
unfolding command
command-Done setting reading task bot =
    elim bot.acl_manager
      as (λ a. Done task (command setting reading task (record bot { acl_manager = a }))) [
        | none ↦ answer-Done setting reading task (record bot { acl_manager = none })
        | some m ↦ elim (Result-cases (get_role (user_of setting task) m).0) [
          | inl (role, e) ↦
              rw (e, command)
                (answer-Done setting reading task
                  (record bot { acl_manager = some (get_role (user_of setting task) m).1 }))
          | inr (x, e) ↦ rw (e, command) tt
        ]
      ]

pub put_session-lookup :
    (session : Session) (desk : Desk)
    → lookup desk.context.active_project (put_session session desk).context.sessions ≡ some session
put_session-lookup session desk = ground (
  arith,
  lookup-insert desk.context.active_project desk.context.active_project session
      desk.context.sessions,
  equals_refl desk.context.active_project,
)

enqueue_task-Done :
    (setting : Setting) (session : Session) (task : Task) (bot : Bot)
    → Done task (enqueue_task setting session task bot)
unfolding enqueue_task
enqueue_task-Done setting session task bot =
    let h =
      accept-Accepted setting.config setting.now setting.chat_id session task bot.desk.dispatcher in
    elim (Result-cases
      (accept setting.config setting.now setting.chat_id session task bot.desk.dispatcher).0) [
        | inr (x, e) ↦ rw (e, enqueue_task) tt
        | inl ((outcome, s), e) ↦
            rw (e, enqueue_task)
              (settled task outcome s _ (put_session-lookup s bot.desk) (rw e at h))
      ]

handle-Done :
    (setting : Setting) (reading : Reading) (task : Task) (session : Session) (bot : Bot)
    → Done task (handle setting reading task session bot)
unfolding handle
handle-Done setting reading task session bot =
    if_both (Done task) reading.is_command _ _ (command-Done setting reading task bot) (
      if_both (Done task) (is_permission_reply bot.desk.futures session reading.index) _ _ tt
        (enqueue_task-Done setting session task bot))

proceed-Done :
    (setting : Setting) (reading : Reading) (task : Task) (bot : Bot)
    → Done task (proceed setting reading task bot)
unfolding proceed
proceed-Done setting reading task bot =
    elim (Result-cases
      (session_for setting.config bot.desk.bindings setting.salt setting.capacity setting.chat_id
        bot.desk.context).0) [
          | inr (x, e) ↦ rw (e, proceed) tt
          | inl (none, e) ↦ rw (e, proceed) tt
          | inl (some session, e) ↦ rw (e, proceed) (handle-Done setting reading task session _)
        ]

dispatch-Done :
    (setting : Setting) (reading : Reading) (task : Task) (bot : Bot)
    → Done task (dispatch setting reading task bot)
unfolding dispatch
dispatch-Done setting reading task bot =
    elim bot.acl_manager
      as (λ a. Done task (dispatch setting reading task (record bot { acl_manager = a }))) [
        | none ↦ proceed-Done setting reading task (record bot { acl_manager = none })
        | some m ↦
            if_both (Done task) (is_open reading.lowered) _ _
              (command-Done setting reading task (record bot { acl_manager = some m }))
              (elim (Result-cases (get_role (user_of setting task) m).0) [
                | inr (x, e) ↦ rw e tt
                | inl (none, e) ↦ rw e tt
                | inl (some role, e) ↦ rw e (
                    proceed-Done setting reading task
                      (record bot { acl_manager = some (get_role (user_of setting task) m).1 }))
              ])
      ]

-- Where dispatch says that a task waits behind n others, the session at hand has it as the last one of its queue, n
-- is the number of tasks before it with the active one, and the worker of that session runs.
pub dispatch_queued :
    (setting : Setting) (reading : Reading) (task : Task) (bot : Bot) (n : ℕ)
    → (dispatch setting reading task bot).0 ≡ ok (accepted (queued_behind n))
    → Settled task n (dispatch setting reading task bot).1
dispatch_queued setting reading task bot n e =
    queued_Settled (dispatch setting reading task bot).0 (dispatch setting reading task bot).1 e
      (dispatch-Done setting reading task bot)
  where
    queued_Settled :
        (r : Result Verdict) (bot' : Bot)
        → r ≡ ok (accepted (queued_behind n))
        → Done task (r, bot')
        → Settled task n bot'
    queued_Settled r bot' e h = rw e at h
