-- ===== src/Core/Dispatch/Gate.antt =====
-- What core/dispatcher.py does for a user without a role.
use next_me.Common.{
  String, ◌≡◌, refl, true, false, Option, none, some, ◌==◌, string_comparable, nat_comparable,
  Bool-cases, inl, inr, Result, ok, Result-cases, ap, if_both, arith,
}
use next_me.Acl.Manager.{AclManager, get_role}
use next_me.Core.Types.{Task}
use next_me.Core.Commands.{Desk, Words, Setting, Answer}
use next_me.Core.Commands.Handlers.{handle_meta_command}
use next_me.Core.Dispatch.{Reading, Bot, is_open, user_of, answer, command, dispatch}

-- No command that is open is this one.
closed_word :
    (word command : String)
    → is_open word ≡ true
    → is_open command ≡ false
    → (word == command) ≡ false
closed_word word command o c = elim (Bool-cases (word == command)) [
  | inr n ↦ n
  | inl e ↦ ground (arith, ap is_open ((string_comparable.equals_iff word command).0 e))
]

module _ (word : String) (o : is_open word ≡ true) where
  not_new : (word == "/new") ≡ false
  unfolding is_open
  not_new = closed_word word "/new" o refl

  not_stop : (word == "/stop") ≡ false
  unfolding is_open
  not_stop = closed_word word "/stop" o refl

  not_done : (word == "/done") ≡ false
  unfolding is_open
  not_done = closed_word word "/done" o refl

  not_project : (word == "/project") ≡ false
  unfolding is_open
  not_project = closed_word word "/project" o refl

  not_remember : (word == "/remember") ≡ false
  unfolding is_open
  not_remember = closed_word word "/remember" o refl

open_command-desk :
    (setting : Setting) (words : Words) (task : Task) (desk : Desk)
    → is_open words.command ≡ true
    → (handle_meta_command setting words task desk).1 ≡ desk
unfolding handle_meta_command
open_command-desk setting words task desk o =
    rw
      (
        not_new words.command o,
        not_stop words.command o,
        not_done words.command o,
        not_project words.command o,
        not_remember words.command o,
        handle_meta_command,
      )
      (if_both (λ (out : Result (Option Task × Answer) × Desk). out.1 ≡ desk)
        (words.command == "/help") _ _ refl
        (if_both (λ (out : Result (Option Task × Answer) × Desk). out.1 ≡ desk)
          (words.command == "/status") _ _ refl refl))

-- The desk and the workers stay as they are.
abbrev pub IsUntouched : Bot → Bot → Type 0
IsUntouched bot bot' = (bot'.desk ≡ bot.desk) × (bot'.workers ≡ bot.workers)

answer-IsUntouched :
    (setting : Setting) (reading : Reading) (task : Task) (bot : Bot)
    → is_open reading.words.command ≡ true
    → IsUntouched bot (answer setting reading task bot).1
answer-IsUntouched setting reading task bot o =
    (open_command-desk setting reading.words task bot.desk o, refl)

command-IsUntouched :
    (setting : Setting) (reading : Reading) (task : Task) (bot : Bot) (m : AclManager)
    → bot.acl_manager ≡ some m
    → is_open reading.words.command ≡ true
    → IsUntouched bot (command setting reading task bot).1
unfolding command
command-IsUntouched setting reading task bot m a o =
    rw (a, command)
      (elim (Result-cases (get_role (user_of setting task) m).0) [
        | inl (role, e) ↦ rw e (
            answer-IsUntouched setting reading task
              (record bot { acl_manager = some (get_role (user_of setting task) m).1 }) o)
        | inr (x, e) ↦ rw e (refl, refl)
      ])

-- A user without a role reaches no session, no queue, no store, no runtime, no memory and no worker, whatever the
-- text is, if the first word of a text that begins like an open command begins so too.
pub dispatch_denied :
    (setting : Setting) (reading : Reading) (task : Task) (bot : Bot) (m : AclManager)
    → bot.acl_manager ≡ some m
    → (get_role (user_of setting task) m).0 ≡ ok none
    → (is_open reading.lowered ≡ true → is_open reading.words.command ≡ true)
    → IsUntouched bot (dispatch setting reading task bot).1
unfolding dispatch
dispatch_denied setting reading task bot m a none_found opens =
    elim (Bool-cases (is_open reading.lowered)) [
      | inl o ↦ rw (a, dispatch) (rw o (command-IsUntouched setting reading task bot m a (opens o)))
      | inr o ↦ rw (a, dispatch) (rw (o, none_found) (refl, refl))
    ]
