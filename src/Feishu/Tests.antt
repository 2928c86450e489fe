-- ===== src/Feishu/Tests.antt =====
-- Runs of the handler, and its theorems at concrete inputs.
use next_me.Common.{
  ◌≡◌, refl, true, false, is_some, [], ◌∷◌, All, string_comparable, ◌==◌, lookup, insert, erase,
}
use next_me.Dedup.{is_duplicate}
use next_me.Core.Types.{Task}
use next_me.Feishu.Handler.{
  Texts, text_content, ChatMessage, MessageHandler, task_of, extract_text, handle_message, route,
}
use next_me.Feishu.Handler.Threads.{arrives, run, is_in, closed, closed_is_silent}
use next_me.Feishu.Handler.Targets.{Target, handle_message-Target}

abbrev py : Texts
py = record { strip = λ t. t; drop_mentions = λ t. t; is_command = λ t. t == "/done" }

abbrev root : ChatMessage
root = record {
  message_id = "om_1";
  chat_id = "oc_1";
  chat_type = "group";
  root_id = "";
  sender_open_id = "ou_1";
  mentions = [];
  content = text_content "fix the build";
}

abbrev later : ChatMessage
later = record root {
  message_id = "om_2";
  root_id = "om_1";
  content = text_content "and the tests";
}

abbrev handler : MessageHandler
handler = record {
  dedup = record { capacity = 10; ttl = 300; cache = [] };
  require_at_mention = false;
  bot_open_id = "";
  active_threads = "oc_1:om_1" ∷ [];
  loop_running = true;
}

-- Before the thread is closed, its messages become tasks.
reply_is_sent : is_some (handle_message py 0 5 "t-2" later handler).0 ≡ true
unfolding handle_message extract_text is_duplicate lookup route
reply_is_sent = refl

closed_is_silent_example :
    All
      (λ task. is_in "oc_1:om_1" task ≡ false)
      (run py (closed "oc_1" "om_1" ∷ arrives 0 5 "t-2" later ∷ []) handler).0
closed_is_silent_example =
    closed_is_silent py "oc_1" "om_1" (arrives 0 5 "t-2" later ∷ []) handler refl

-- The task that the message becomes.
abbrev answered : Task
answered = task_of "t-2" later "and the tests" ("oc_1:om_1", "om_1")

abbrev after : MessageHandler
after = record handler { dedup = record { capacity = 10; ttl = 300; cache = ("om_2", 5) ∷ [] } }

handle_message-Target_example :
    Target later answered after
    × (answered.content ≡ extract_text py later.content)
    × (answered.message_id ≡ "om_2")
    × (answered.user_id ≡ "ou_1")
unfolding handle_message extract_text is_duplicate lookup route insert erase
handle_message-Target_example = handle_message-Target py 0 5 "t-2" later handler after answered refl
