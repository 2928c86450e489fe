-- ===== src/Core/Dispatch/Hooks/Denied.antt =====
-- What a click on a hook's button can change where the user has no role.
use next_me.Common.{
  String, ◌≡◌, refl, true, ◌||◌, Option, none, some, ◌==◌, string_comparable, if◌then◌else◌, Dict,
  Result, ok, Result-cases, ◌⊎◌, inl, inr, Option-cases, if_both, Action, ◌>>=◌,
}
use next_me.Feishu.Buttons.{text_at}
use next_me.Acl.Manager.{AclManager, get_role}
use next_me.Config.Schema.{Project, default_project}
use next_me.Core.Session.{Session, get_active_session, get_or_create_session}
use next_me.Core.Commands.{Desk, Setting}
use next_me.Core.Dispatch.{Bot, Verdict, is_open, dispatch}
use next_me.Core.Dispatch.Gate.{IsUntouched, dispatch_denied}
use next_me.Core.Dispatch.Hooks.{
  Outer, is_unsafe, hook_session, hook_path, hook_task, some_verdict, dispatch_file,
  dispatch_hook_task,
}

-- Whose role is asked for.
abbrev pub caller_of : Setting → Dict String String → String
caller_of setting value =
    if text_at "operator_id" value == "" then setting.user_id else text_at "operator_id" value

-- The context has no active session, and the session of the default project is opened in it.
pub record Opens (setting : Setting) (desk desk' : Desk) : Type 0 where
  pub project : Project
  pub default : default_project setting.config ≡ some project
  pub inactive : get_active_session desk.context ≡ none
  pub opened : desk' ≡ record desk {
    context = (get_or_create_session setting.salt setting.capacity project desk.context).1;
  }

abbrev pub OnlyOpens : Setting → Bot → Bot → Type 0
OnlyOpens setting bot bot' =
    ((bot'.desk ≡ bot.desk) ⊎ Opens setting bot.desk bot'.desk) × (bot'.workers ≡ bot.workers)

abbrev Opened : Setting → Bot → Option Session × Bot → Type 0
Opened setting bot (session, bot') =
    OnlyOpens setting bot bot' × (bot'.acl_manager ≡ bot.acl_manager)

hook_session-Opened :
    (setting : Setting) (bot : Bot) → Opened setting bot (hook_session setting bot)
unfolding hook_session
hook_session-Opened setting bot = elim (Option-cases (get_active_session bot.desk.context)) [
  | inr (s, active) ↦ rw (active, hook_session) ((inl refl, refl), refl)
  | inl inactive ↦
      rw (inactive, hook_session)
        (elim (Option-cases (default_project setting.config)) [
          | inl without ↦ rw without ((inl refl, refl), refl)
          | inr (project, there) ↦ rw there (
            (
              inr (record {
                project = project;
                default = there;
                inactive = inactive;
                opened = refl;
              }),
              refl,
            ),
            refl,
          )
        ])
]

some_verdict-state : (m : Action Bot Verdict) (bot : Bot) → (some_verdict m bot).1 ≡ (m bot).1
unfolding ◌>>=◌
some_verdict-state m bot = elim (Result-cases (m bot).0) [
  | inl (v, e) ↦ rw (e, ◌>>=◌) refl
  | inr (x, e) ↦ rw (e, ◌>>=◌) refl
]

untouched-OnlyOpens :
    (setting : Setting) (bot bot' bot'' : Bot)
    → OnlyOpens setting bot bot'
    → IsUntouched bot' bot''
    → OnlyOpens setting bot bot''
untouched-OnlyOpens setting bot bot' bot'' (desk, workers) (same_desk, same_workers) =
    (rw same_desk desk, rw same_workers workers)

module _ (out : Outer) (setting : Setting) (value : Dict String String) (m : AclManager)
    (denied : (get_role (caller_of setting value) m).0 ≡ ok none)
    (words : (text : String)
      → is_open (out.reading text).lowered ≡ true
      → is_open (out.reading text).words.command ≡ true) where
  file-IsUntouched :
      (name : String) (session : Option Session) (bot : Bot)
      → bot.acl_manager ≡ some m
      → IsUntouched bot (dispatch_file out setting value name session bot).1
  unfolding dispatch_file hook_task
  file-IsUntouched name none bot a = (refl, refl)
  file-IsUntouched name (some s) bot a = elim (Option-cases (out.read_text (hook_path s name))) [
    | inl missing ↦ rw (missing, dispatch_file) (refl, refl)
    | inr (text, there) ↦
        let task = hook_task out value name text in
        let reading = out.reading task.content in
        rw (there, dispatch_file)
          (rw (some_verdict-state (dispatch setting reading task) bot)
            (dispatch_denied setting reading task bot m a denied (words task.content)))
  ]

-- A click on a hook's button by a user without a role starts no worker and reaches no queue, no store, no runtime and
-- no memory; at most it opens a session of the default project, where the context has no active one.
pub hook_denied :
    (out : Outer) (setting : Setting) (value : Dict String String) (bot : Bot) (m : AclManager)
    → bot.acl_manager ≡ some m
    → (get_role (caller_of setting value) m).0 ≡ ok none
    → ((text : String)
        → is_open (out.reading text).lowered ≡ true
        → is_open (out.reading text).words.command ≡ true)
    → OnlyOpens setting bot (dispatch_hook_task out setting value bot).1
unfolding dispatch_hook_task
hook_denied out setting value bot m a denied words =
    let name = out.strip (text_at "hook" value) in
    let (opens, acl) = hook_session-Opened setting bot in
    if_both (λ (o : Result (Option Verdict) × Bot). OnlyOpens setting bot o.1)
      (name == "" || is_unsafe out name) _ _ (inl refl, refl)
      (untouched-OnlyOpens setting bot (hook_session setting bot).1
        (dispatch_file out setting value name (hook_session setting bot).0
          (hook_session setting bot).1).1
        opens
        (file-IsUntouched out setting value m denied words name (hook_session setting bot).0
          (hook_session setting bot).1 (rw acl a)))
