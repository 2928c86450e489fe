-- ===== src/Feishu/Handler.antt =====
-- feishu/handler.py: `MessageHandler` and the messages that it turns into tasks. The attributes of a message
-- that are missing are "". What the code calls of `str`, `re` and `uuid` is given; the JSON of a message's content is
-- read already.
pub mod Threads
pub mod Targets
use Prim.Native.String.{◌++◌ as append}
use next_me.Common.{
  ℕ, String, Bool, true, false, not, ◌&&◌, ◌||◌, Option, none, some, List, [], ◌∷◌, ◌++◌, map, ◌==◌,
  string_comparable, if◌then◌else◌, keep, any, elem, join, flat,
}
use next_me.Dedup.{MessageDedup, is_duplicate}
use next_me.Core.Types.{Task}

pub record Texts : Type 0 where
  pub strip : String → String
  -- `_MENTION_PREFIX_RE.sub("", text)`
  pub drop_mentions : String → String
  -- `text.startswith("/")`
  pub is_command : String → Bool

-- An entry of `message.mentions`; `has_id` says whether its `id` is there.
pub record Mention : Type 0 where
  pub has_id : Bool
  pub open_id : String
  pub user_id : String
  pub name : String

-- A node of a post: text, an at with its name and its id, or something else.
pub data Node : Type 0 where
  text_node : String → Node
  at_node : String → String → Node
  other_node : Node

-- The content of a message of type text, of type post (for each language its paragraphs), or of another type.
pub data Content : Type 0 where
  text_content : String → Content
  post_content : List (List (List Node)) → Content
  other_content : Content

pub record ChatMessage : Type 0 where
  pub message_id : String
  pub chat_id : String
  pub chat_type : String
  pub root_id : String
  pub sender_open_id : String
  pub mentions : List Mention
  pub content : Content

pub record MessageHandler : Type 0 where
  pub dedup : MessageDedup
  pub require_at_mention : Bool
  -- "" where it is not known
  pub bot_open_id : String
  pub active_threads : List String
  -- there is a running event loop
  pub loop_running : Bool

-- f"{chat_id}:{thread_root_id}"
abbrev pub thread_key : String → String → String
thread_key chat_id root = append chat_id (append ":" root)

-- `set.add` and `set.discard`
abbrev pub add : String → List String → List String
add key keys = if elem key keys then keys else keys ++ key ∷ []

unfoldable pub deregister_thread : String → String → MessageHandler → MessageHandler
deregister_thread chat_id root h = record h {
  active_threads = keep (λ key. not (key == thread_key chat_id root)) h.active_threads;
}

unfoldable pub register_thread : String → String → MessageHandler → MessageHandler
register_thread chat_id root h = record h {
  active_threads = add (thread_key chat_id root) h.active_threads;
}

-- `running`: whether the loop runs
unfoldable pub attach_loop : Bool → MessageHandler → MessageHandler
attach_loop running h = record h { loop_running = running }

unfoldable pub restore_active_threads : List String → MessageHandler → MessageHandler
restore_active_threads keys h = record h { active_threads = keys }

abbrev pub text_nodes : List Node → List String
text_nodes [] = []
text_nodes (text_node t ∷ rest) = t ∷ text_nodes rest
text_nodes (at_node _ _ ∷ rest) = text_nodes rest
text_nodes (other_node ∷ rest) = text_nodes rest

unfoldable pub extract_text : Texts → Content → String
extract_text py (text_content text) = py.strip (py.drop_mentions (py.strip text))
extract_text py (post_content bodies) =
    join " " (keep (λ t. not (t == "")) (map py.strip (text_nodes (flat (flat bodies)))))
extract_text py other_content = ""

-- The open id and the name of each user, the first time that the id is met.
abbrev pub add_mention : String → String → List (String × String) → List (String × String)
add_mention name open_id found =
    if open_id == "" || any (λ m. m.0 == open_id) found
    then found
    else found ++ (open_id, name) ∷ []

abbrev pub mentions_of : List Mention → List (String × String) → List (String × String)
mentions_of [] found = found
mentions_of (m ∷ rest) found =
    mentions_of rest (add_mention m.name (if m.has_id then m.open_id else "") found)

abbrev pub at_nodes : List Node → List (String × String) → List (String × String)
at_nodes [] found = found
at_nodes (at_node name id ∷ rest) found = at_nodes rest (add_mention name id found)
at_nodes (text_node _ ∷ rest) found = at_nodes rest found
at_nodes (other_node ∷ rest) found = at_nodes rest found

unfoldable pub extract_mentions : ChatMessage → List (String × String)
extract_mentions msg = elim msg.content [
  | text_content _ ↦ mentions_of msg.mentions []
  | post_content bodies ↦ at_nodes (flat (flat bodies)) []
  | other_content ↦ []
]

-- By the bot's own id, or, where that is not known, by the missing `user_id` of an app.
unfoldable pub has_bot_mention : ChatMessage → MessageHandler → Bool
has_bot_mention msg h =
    if h.bot_open_id == ""
    then any (λ (m : Mention). m.has_id && m.user_id == "") msg.mentions
    else any (λ (m : Mention). m.has_id && m.open_id == h.bot_open_id) msg.mentions

-- The session's id and the thread of a message that is not ignored, with the active threads after it.
unfoldable pub route :
    Texts → ChatMessage → String → MessageHandler → Option (String × String) × List String
route py msg text h =
    if msg.chat_type == "group"
    then (if not (msg.root_id == "")
        then (if h.require_at_mention && not (py.is_command text) && not (has_bot_mention msg h)
            then (none, h.active_threads)
            else if elem (thread_key msg.chat_id msg.root_id) h.active_threads
            then (some (thread_key msg.chat_id msg.root_id, msg.root_id), h.active_threads)
            else (none, h.active_threads))
        else if h.require_at_mention && not (has_bot_mention msg h)
        then (none, h.active_threads)
        else (
          some (thread_key msg.chat_id msg.message_id, msg.message_id),
          add (thread_key msg.chat_id msg.message_id) h.active_threads,
        ))
    else (some (thread_key msg.chat_id msg.sender_open_id, ""), h.active_threads)

-- The timeout of eight hours is the default of `Task`.
abbrev pub task_of : String → ChatMessage → String → String × String → Task
task_of id msg text target = record {
  id = id;
  content = text;
  session_id = target.0;
  message_id = msg.message_id;
  chat_type = msg.chat_type;
  timeout = 28800;
  canceled = false;
  was_queued = false;
  mentions = extract_mentions msg;
  user_id = msg.sender_open_id;
  thread_root_id = target.1;
}

-- Without a running loop the task is dropped.
abbrev pub schedule : Bool → Task → Option Task
schedule running task = if running then some task else none

abbrev pub routed :
    String
    → ChatMessage
    → String
    → MessageHandler
    → Option (String × String) × List String
    → Option Task × MessageHandler
routed id msg text h (none, threads) = (none, record h { active_threads = threads })
routed id msg text h (some target, threads) =
    (schedule h.loop_running (task_of id msg text target), record h { active_threads = threads })

-- `swept` and `now` are the times that the duplicates are looked for at; `id` is the new task's id.
unfoldable pub handle_message :
    Texts → ℕ → ℕ → String → ChatMessage → MessageHandler → Option Task × MessageHandler
handle_message py swept now id msg h =
    if msg.message_id == "" || msg.chat_id == ""
    then (none, h)
    else (let (seen, dedup) = is_duplicate swept now msg.message_id h.dedup in
        let h' : MessageHandler = record h { dedup = dedup } in
        if seen || extract_text py msg.content == ""
        then (none, h')
        else routed id msg (extract_text py msg.content) h'
            (route py msg (extract_text py msg.content) h'))
