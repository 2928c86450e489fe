-- ===== src/Feishu/Handler/Targets.antt =====
-- Where the tasks of feishu/handler.py go.
use mathlib.Core.Path.{subst}
use next_me.Common.{
  ℕ, String, Bool, ◌≡◌, refl, true, false, ◌||◌, Option, some, List, [], ◌∷◌, ◌++◌, ◌==◌,
  string_comparable, if◌then◌else◌, elem, if_both, arith, equals_refl,
}
use next_me.Dedup.{is_duplicate}
use next_me.Core.Types.{Task}
use next_me.Feishu.Handler.{
  Texts, ChatMessage, MessageHandler, thread_key, add, route, routed, schedule, extract_text,
  task_of, handle_message,
}
use next_me.Feishu.Handler.Threads.{route-cases}

-- Where the task of a message goes: a group's message to the session of its thread, which is active from then on,
-- and any other to the session of its author.
abbrev pub Target : ChatMessage → Task → MessageHandler → Type 0
Target msg task h =
    if msg.chat_type == "group"
    then ((task.session_id ≡ thread_key msg.chat_id task.thread_root_id)
        × (task.thread_root_id ≡ (if msg.root_id == "" then msg.message_id else msg.root_id))
        × (elem task.session_id h.active_threads ≡ true))
    else ((task.session_id ≡ thread_key msg.chat_id msg.sender_open_id)
        × (task.thread_root_id ≡ ""))

record IsSent (py : Texts) (msg : ChatMessage) (out : Option Task × MessageHandler) : Type 0 where
  sent :
      (task : Task)
      → out.0 ≡ some task
      → Target msg task out.1
        × (task.content ≡ extract_text py msg.content)
        × (task.message_id ≡ msg.message_id)
        × (task.user_id ≡ msg.sender_open_id)

some_injective : (a b : Task) → some a ≡ some b → a ≡ b
some_injective a b e = cc

scheduled-IsSent :
    (py : Texts) (msg : ChatMessage) (id : String) (target : String × String) (running : Bool)
    (h : MessageHandler)
    → Target msg (task_of id msg (extract_text py msg.content) target) h
    → IsSent py msg (schedule running (task_of id msg (extract_text py msg.content) target), h)
scheduled-IsSent py msg id target false h t = record { sent = λ task e. ground arith }
scheduled-IsSent py msg id target true h t = record {
  sent = λ task e.
      subst
        (λ t.
          Target msg t h
          × (t.content ≡ extract_text py msg.content)
          × (t.message_id ≡ msg.message_id)
          × (t.user_id ≡ msg.sender_open_id))
        (some_injective _ task e) (t, refl, refl, refl);
}

elem-append_self : (key : String) (keys : List String) → elem key (keys ++ key ∷ []) ≡ true
elem-append_self key [] = ground (arith, equals_refl key)
elem-append_self key (x ∷ rest) = ground (arith, elem-append_self key rest)

elem-add_self : (key : String) (keys : List String) → elem key (add key keys) ≡ true
elem-add_self key keys = ground (arith, elem-append_self key keys)

routed-IsSent :
    (py : Texts) (id : String) (msg : ChatMessage) (h : MessageHandler)
    → IsSent py msg (
        routed id msg
          (extract_text py msg.content)
          h
          (route py msg (extract_text py msg.content) h))
routed-IsSent py id msg h =
    route-cases (λ out. IsSent py msg (routed id msg (extract_text py msg.content) h out)) py msg
      (extract_text py msg.content) h (record { sent = λ task e. ground arith })
      (λ group reply known.
        scheduled-IsSent py msg id _ h.loop_running h (rw group (refl, rw reply refl, known)))
      (λ group root. scheduled-IsSent py msg id _ h.loop_running _ (
        rw group (
          refl,
          rw root refl,
          elem-add_self (thread_key msg.chat_id msg.message_id) h.active_threads,
        )))
      (λ p2p. scheduled-IsSent py msg id _ h.loop_running h (rw p2p (refl, refl)))

handle_message-IsSent :
    (py : Texts) (swept now : ℕ) (id : String) (msg : ChatMessage) (h : MessageHandler)
    → IsSent py msg (handle_message py swept now id msg h)
unfolding handle_message
handle_message-IsSent py swept now id msg h =
    let (seen, dedup) = is_duplicate swept now msg.message_id h.dedup in
    if_both (IsSent py msg) (msg.message_id == "" || msg.chat_id == "") _ _
      (record { sent = λ task e. ground arith })
      (if_both (IsSent py msg) (seen || extract_text py msg.content == "") _ _
        (record { sent = λ task e. ground arith })
        (routed-IsSent py id msg (record h { dedup = dedup })))

-- A task that a message becomes goes to its target, with the message's own text, author and place to reply to: a
-- group's message to the session of its thread, which is active from then on, and any other to the session of its
-- author.
pub handle_message-Target :
    (py : Texts) (swept now : ℕ) (id : String) (msg : ChatMessage) (h h' : MessageHandler)
    (task : Task)
    → handle_message py swept now id msg h ≡ (some task, h')
    → Target msg task h'
      × (task.content ≡ extract_text py msg.content)
      × (task.message_id ≡ msg.message_id)
      × (task.user_id ≡ msg.sender_open_id)
handle_message-Target py swept now id msg h h' task e =
    let sent : IsSent py msg (some task, h') =
      rw e at (handle_message-IsSent py swept now id msg h) in
    sent.sent task refl
