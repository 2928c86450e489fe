-- ===== src/Scheduler/Replies.antt =====
-- scheduler/engine.py: the `reply_fn` that `_fire` gives to the task. `notice` is the text of the
-- overdue notice, `strip` is `str.strip`, and `sends` says whether the sending of a message returns
-- or raises. The messages are those whose sending is tried.
use Prim.Native.String.{◌++◌ as append}
use mathlib.Core.Path.{subst}
use next_me.Common.{
  String, ◌≡◌, refl, Bool, true, false, not, Option, none, some, List, [], ◌∷◌, ◌++◌, arith, ◌==◌,
  string_comparable, if◌then◌else◌, keep, All, All-append, Bool-cases, inl, inr, sym,
}
use next_me.Scheduler.Schema.{ScheduledTask}

pub record Reply : Type 0 where
  pub is_card : Bool
  pub content : String

-- Texts and cards, to a chat or to a user.
pub data Message : Type 0 where
  chat_text chat_card user_text user_card : String → String → Message

abbrev pub text_to : ScheduledTask → String → Message
text_to task content =
    if task.notify_chat
    then chat_text task.chat_id content
    else user_text task.creator_open_id content

abbrev pub card_to : ScheduledTask → String → Message
card_to task content =
    if task.notify_chat
    then chat_card task.chat_id content
    else user_card task.creator_open_id content

-- f"{overdue_notice}\n\n{content}"
abbrev pub with_notice : Option String → String → String
with_notice none content = content
with_notice (some notice) content = append notice (append "\n\n" content)

-- A card has the notice in front, as a message of its own.
abbrev pub notice_card : Option String → ScheduledTask → String → List Message
notice_card none task content = card_to task content ∷ []
notice_card (some notice) task content = text_to task notice ∷ card_to task content ∷ []

-- `due` is the notice where this is the first reply.
unfoldable pub messages : Option String → ScheduledTask → Reply → List Message
messages due task reply =
    if reply.is_card
    then notice_card due task reply.content
    else text_to task (with_notice due reply.content) ∷ []

-- A message whose sending raises is the last one.
unfoldable pub attempt : (Message → Bool) → List Message → List Message
attempt sends [] = []
attempt sends (m ∷ rest) = m ∷ (if sends m then attempt sends rest else [])

abbrev pub is_heartbeat : (String → String) → Reply → Bool
is_heartbeat strip reply = strip reply.content == "HEARTBEAT_OK"

unfoldable pub reply_fn :
    (String → String)
    → (Message → Bool)
    → Option String
    → ScheduledTask
    → Reply
    → Bool
    → Bool × List Message
unfolding messages attempt
reply_fn strip sends notice task reply first_reply_sent =
    if is_heartbeat strip reply
    then (first_reply_sent, [])
    else (true, attempt sends (messages (if first_reply_sent then none else notice) task reply))

-- The replies of one task, one after the other.
unfoldable pub reply_all :
    (String → String)
    → (Message → Bool)
    → Option String
    → ScheduledTask
    → Bool
    → List Reply
    → List Message
unfolding reply_fn
reply_all strip sends notice task sent [] = []
reply_all strip sends notice task sent (reply ∷ rest) =
    let (sent', now) = reply_fn strip sends notice task reply sent in
    now ++ reply_all strip sends notice task sent' rest

-- The replies that are no heartbeats: the first goes with the notice, the others without.
abbrev pub plain : (Message → Bool) → ScheduledTask → List Reply → List Message
plain sends task [] = []
plain sends task (reply ∷ rest) = attempt sends (messages none task reply) ++ plain sends task rest

abbrev pub noticed : (Message → Bool) → Option String → ScheduledTask → List Reply → List Message
noticed sends notice task [] = []
noticed sends notice task (reply ∷ rest) =
    attempt sends (messages notice task reply) ++ plain sends task rest

reply_all-plain :
    (strip : String → String) (sends : Message → Bool) (notice : Option String)
    (task : ScheduledTask) (replies : List Reply)
    → reply_all strip sends notice task true replies
      ≡ plain sends task (keep (λ reply. not (is_heartbeat strip reply)) replies)
unfolding reply_all reply_fn
reply_all-plain strip sends notice task [] = refl
reply_all-plain strip sends notice task (reply ∷ rest) =
    ground (arith, reply_all-plain strip sends notice task rest)

-- The notice of a late run goes with the first reply that is no heartbeat, and with no other, also
-- where a sending fails; heartbeats send nothing.
reply_all-noticed :
    (strip : String → String) (sends : Message → Bool) (notice : Option String)
    (task : ScheduledTask) (replies : List Reply)
    → reply_all strip sends notice task false replies
      ≡ noticed sends notice task (keep (λ reply. not (is_heartbeat strip reply)) replies)
unfolding reply_all reply_fn
reply_all-noticed strip sends notice task [] = refl
reply_all-noticed strip sends notice task (reply ∷ rest) = ground (
  arith,
  reply_all-plain strip sends notice task rest,
  reply_all-noticed strip sends notice task rest,
)

-- The chat for a task that notifies its chat, and otherwise the user who made it.
abbrev pub GoesTo : ScheduledTask → Message → Type 0
GoesTo task (chat_text to _) = (task.notify_chat ≡ true) × (to ≡ task.chat_id)
GoesTo task (chat_card to _) = (task.notify_chat ≡ true) × (to ≡ task.chat_id)
GoesTo task (user_text to _) = (task.notify_chat ≡ false) × (to ≡ task.creator_open_id)
GoesTo task (user_card to _) = (task.notify_chat ≡ false) × (to ≡ task.creator_open_id)

attempt-All :
    (P : Message → Type 0) (sends : Message → Bool) (ms : List Message)
    → All P ms
    → All P (attempt sends ms)
unfolding attempt
attempt-All P sends [] all = all
attempt-All P sends (m ∷ rest) all = elim (Bool-cases (sends m)) [
  | inl sent ↦ (
    all.0,
    subst (λ b. All P (if b then attempt sends rest else [])) (sym sent)
        (attempt-All P sends rest all.1),
  )
  | inr failed ↦ (all.0, subst (λ b. All P (if b then attempt sends rest else [])) (sym failed) tt)
]

messages-GoesTo :
    (due : Option String) (task : ScheduledTask) (reply : Reply)
    → All (GoesTo task) (messages due task reply)
unfolding messages
messages-GoesTo due task reply = ground arith

-- Every message that a scheduled task sends goes to its chat if it notifies its chat, and otherwise
-- to the user who made it, the notice included.
reply_all-GoesTo :
    (strip : String → String) (sends : Message → Bool) (notice : Option String)
    (task : ScheduledTask) (sent : Bool) (replies : List Reply)
    → All (GoesTo task) (reply_all strip sends notice task sent replies)
unfolding reply_all reply_fn
reply_all-GoesTo strip sends notice task sent [] = tt
reply_all-GoesTo strip sends notice task sent (reply ∷ rest) =
    elim (Bool-cases (is_heartbeat strip reply)) [
      | inl heartbeat ↦
          subst (λ ms. All (GoesTo task) ms) (ground arith)
            (reply_all-GoesTo strip sends notice task sent rest)
      | inr speaks ↦
          subst (λ ms. All (GoesTo task) ms) (ground arith)
            (All-append (GoesTo task) _ _
              (attempt-All (GoesTo task) sends _
                (messages-GoesTo (if sent then none else notice) task reply))
              (reply_all-GoesTo strip sends notice task true rest))
    ]
