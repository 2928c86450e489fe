-- ===== src/Core/Dispatch.antt =====
-- core/dispatcher.py: `dispatch` from its first line to its last, over the parts of it that other modules model, and
-- `_ensure_worker`. The text of the task is read already: a `Reading`. That sending a message may fail is not
-- modelled, since each such failure is caught, and what is sent is the `Verdict`. A
-- command is one of Core.Commands.Handlers; `/skill` is in Core.Dispatch.Skills, and `/thread` in Core.Commands.Threads.
pub mod Gate
pub mod Queued
pub mod Skills
pub mod Hooks
pub mod Tests
use Prim.Native.String
use Prim.Native.String.{◌++◌ as append}
use Prim.Native.Char.{code}
use next_me.Common.{
  ℕ, String, Bool, true, false, not, ◌&&◌, ◌||◌, Option, none, some, List, [], ◌∷◌, ◌==◌,
  nat_comparable, string_comparable, if◌then◌else◌, Dict, lookup, insert, erase, Result, ok, raised,
  Action, return, raise, ◌>>=◌, ◌>>◌,
}
use next_me.Acl.Schema.{Role}
use next_me.Acl.Manager.{AclManager, get_role}
use next_me.Core.Types.{Task}
use next_me.Core.Session.{Session, UserContext}
use next_me.Core.Dispatcher.{Dispatcher, Outcome, parked_at, queued_behind, dropped, accept}
use next_me.Core.Routing.{session_for}
use next_me.Core.Replies.{is_permission_reply, apply_permission_reply}
use next_me.Core.Commands.{Desk, Words, Setting, Answer, put_session, on_dispatcher}
use next_me.Core.Commands.Handlers.{handle_meta_command}

-- The stripped text in lower case, its words, whether it starts with "/", and the number that it is.
pub record Reading : Type 0 where
  pub lowered : String
  pub words : Words
  pub is_command : Bool
  pub index : Option ℕ

pub record Bot : Type 0 where
  pub desk : Desk
  pub acl_manager : Option AclManager
  -- `_worker_tasks`: whether the worker is still running
  pub workers : Dict String Bool

pub data Verdict : Type 0 where
  denied no_project replied : Verdict
  -- with the task that is dispatched again
  answered : Option Task × Answer → Verdict
  accepted : Outcome → Verdict

-- `text.startswith(prefix)`
abbrev pub starts_with : String → String → Bool
starts_with String.[] text = true
starts_with (String.◌∷◌ c prefix) String.[] = false
starts_with (String.◌∷◌ c prefix) (String.◌∷◌ d text) = code d == code c && starts_with prefix text

unfoldable pub is_open : String → Bool
is_open text = starts_with "/whoami" text || starts_with "/help" text

abbrev pub user_of : Setting → Task → String
user_of setting task = if task.user_id == "" then setting.user_id else task.user_id

abbrev pub put_desk : Desk → Bot → Bot
put_desk desk bot = record bot { desk = desk }

abbrev pub answer : Setting → Reading → Task → Action Bot Verdict
answer setting reading task bot =
    let (r, desk) = handle_meta_command setting reading.words task bot.desk in
    (elim r [ ok a ↦ ok (answered a) | raised e ↦ raised e ], put_desk desk bot)

-- The role of the caller is asked for first.
unfoldable pub command : Setting → Reading → Task → Action Bot Verdict
command setting reading task bot = elim bot.acl_manager [
  | none ↦ answer setting reading task bot
  | some m ↦
      let (role, m') = get_role (user_of setting task) m in
      let bot' : Bot = record bot { acl_manager = some m' } in
      elim role [ ok _ ↦ answer setting reading task bot' | raised e ↦ raise e bot' ]
]

-- f"{context_id}:{session.project_name}"
abbrev pub worker_key : Session → String
worker_key session = append session.context_id (append ":" session.project_name)

abbrev pub is_true : Option Bool → Bool
is_true none = false
is_true (some b) = b

unfoldable pub ensure_worker : Session → Bot → Bot
ensure_worker session bot =
    if is_true (lookup (worker_key session) bot.workers) then bot else record bot {
      workers = insert (worker_key session) true (erase (worker_key session) bot.workers);
    }

abbrev pub reply : ℕ → Session → Bot → Bot
reply index session bot =
    let (futures, session') = apply_permission_reply index bot.desk.futures session in
    put_desk (put_session session' (record bot.desk { futures = futures })) bot

abbrev pub number : Option ℕ → ℕ
number none = 0
number (some n) = n

-- A worker is started where the task is in the queue.
abbrev pub settle : Outcome → Session → Bot → Bot
settle (queued_behind n) session bot = ensure_worker session bot
settle (parked_at n) session bot = bot
settle dropped session bot = bot

unfoldable pub enqueue_task : Setting → Session → Task → Action Bot Verdict
enqueue_task setting session task bot =
    let (r, d) =
      accept setting.config setting.now setting.chat_id session task bot.desk.dispatcher in
    let desk : Desk = record bot.desk { dispatcher = d } in
    elim r [
      | raised e ↦ raise e (put_desk desk bot)
      | ok (outcome, session') ↦ (
        ok (accepted outcome),
        settle outcome session' (put_desk (put_session session' desk) bot),
      )
    ]

-- With the session at hand.
unfoldable pub handle : Setting → Reading → Task → Session → Action Bot Verdict
handle setting reading task session bot =
    if reading.is_command
    then command setting reading task bot
    else if is_permission_reply bot.desk.futures session reading.index
    then (ok replied, reply (number reading.index) session bot)
    else enqueue_task setting session task bot

unfoldable pub proceed : Setting → Reading → Task → Action Bot Verdict
proceed setting reading task bot =
    let (r, ctx) =
      session_for setting.config bot.desk.bindings setting.salt setting.capacity setting.chat_id
        bot.desk.context in
    let bot' : Bot = put_desk (record bot.desk { context = ctx }) bot in
    elim r [
      | raised e ↦ raise e bot'
      | ok none ↦ return no_project bot'
      | ok (some session) ↦ handle setting reading task session bot'
    ]

unfoldable pub dispatch : Setting → Reading → Task → Action Bot Verdict
dispatch setting reading task bot = elim bot.acl_manager [
  | none ↦ proceed setting reading task bot
  | some m ↦
      if is_open reading.lowered
      then command setting reading task bot
      else (let (role, m') = get_role (user_of setting task) m in
          let bot' : Bot = record bot { acl_manager = some m' } in
          elim role [
            | raised e ↦ raise e bot'
            | ok none ↦ return denied bot'
            | ok (some _) ↦ proceed setting reading task bot'
          ])
]
