-- ===== src/Core/Dispatch/Hooks.antt =====
-- core/dispatcher.py: `dispatch_hook_task`, which a click on a hook's button leads to. The context at hand is that of
-- the task's session.
pub mod Denied
use Prim.Native.String.{◌++◌ as append}
use next_me.Common.{
  get_or, join, String, Bool, not, ◌&&◌, ◌||◌, false, Option, none, some, List, [], ◌∷◌, ◌++◌, map,
  ◌==◌, string_comparable, if◌then◌else◌, keep, elem, Dict, Action, ok, return, ◌>>=◌,
}
use next_me.Feishu.Buttons.{text_at}
use next_me.Config.Schema.{default_project}
use next_me.Core.Types.{Task}
use next_me.Core.Session.{Session, get_active_session, get_or_create_session}
use next_me.Core.Commands.{Setting}
use next_me.Core.Dispatch.{Reading, Bot, Verdict, put_desk, starts_with, dispatch}

-- What `str` and the file system give: whether the first text is in the second, the text of a file where it can be
-- read, the reading of a task's text, and the last part of its id.
pub record Outer : Type 0 where
  pub strip : String → String
  pub contains : String → String → Bool
  pub read_text : String → Option String
  pub reading : String → Reading
  pub random : String

unfoldable pub is_unsafe : Outer → String → Bool
is_unsafe out name = out.contains "/" name || out.contains "\\" name || starts_with "." name

abbrev pub joined_id : String → String → String
joined_id chat_id operator_id =
    if not (chat_id == "") && not (operator_id == "")
    then append chat_id (append ":" operator_id)
    else chat_id

unfoldable pub session_id_of : Outer → Dict String String → String
session_id_of out value =
    let given = out.strip (text_at "session_id" value) in
    if given == "" then joined_id (text_at "chat_id" value) (text_at "operator_id" value) else given

-- The active session, or a new one of the default project.
unfoldable pub hook_session : Setting → Bot → Option Session × Bot
hook_session setting bot = elim (get_active_session bot.desk.context) [
  | some s ↦ (some s, bot)
  | none ↦ elim (default_project setting.config) [
    | none ↦ (none, bot)
    | some project ↦
        let (s, ctx) =
          get_or_create_session setting.salt setting.capacity project bot.desk.context in
        (some s, put_desk (record bot.desk { context = ctx }) bot)
  ]
]

unfoldable pub hook_path : Session → String → String
hook_path s name = append s.project_path (append "/.nextme/hooks/" (append name ".md"))

abbrev pub labelled : String → String → List String
labelled label text = if text == "" then [] else append "- " (append label (append ": " text)) ∷ []

abbrev pub skipped : List String
skipped =
    "action" ∷ "hook" ∷ "session_id" ∷ "operator_id" ∷ "chat_id" ∷ "message_id" ∷ "chat_type" ∷ []

abbrev pub extra_lines : Dict String String → List String
extra_lines [] = []
extra_lines ((k, v) ∷ rest) = (if elem k skipped then [] else labelled k v) ++ extra_lines rest

unfoldable pub hook_content : Outer → Dict String String → String → String
hook_content out value text = append (out.strip text) (
    join "\n" (
      "" ∷ "" ∷ "---" ∷ "**卡片交互**" ∷ labelled "操作者 open_id" (text_at "operator_id" value)
      ++ labelled "聊天 ID" (text_at "chat_id" value)
      ++ labelled "消息 ID" (text_at "message_id" value)
      ++ extra_lines value))

unfoldable pub hook_task : Outer → Dict String String → String → String → Task
hook_task out value name text = record {
  id = append "hook_" (append name (append "_" out.random));
  content = hook_content out value text;
  session_id = session_id_of out value;
  message_id = text_at "message_id" value;
  chat_type = get_or "chat_type" "p2p" value;
  timeout = 28800;
  canceled = false;
  was_queued = false;
  mentions = [];
  user_id = text_at "operator_id" value;
  thread_root_id = "";
}

abbrev pub some_verdict : Action Bot Verdict → Action Bot (Option Verdict)
some_verdict m = m >>= λ verdict. return (some verdict)

unfoldable pub dispatch_file :
    Outer → Setting → Dict String String → String → Option Session → Action Bot (Option Verdict)
dispatch_file out setting value name none = return none
dispatch_file out setting value name (some s) = elim (out.read_text (hook_path s name)) [
  | none ↦ return none
  | some text ↦
      let task = hook_task out value name text in
      some_verdict (dispatch setting (out.reading task.content) task)
]

-- `none` where nothing is dispatched.
unfoldable pub dispatch_hook_task :
    Outer → Setting → Dict String String → Action Bot (Option Verdict)
dispatch_hook_task out setting value bot =
    let name = out.strip (text_at "hook" value) in
    if name == "" || is_unsafe out name
    then return none bot
    else (let (session, bot') = hook_session setting bot in
        dispatch_file out setting value name session bot')
