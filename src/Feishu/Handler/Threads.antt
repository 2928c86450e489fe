-- ===== src/Feishu/Handler/Threads.antt =====
-- Which threads of a group the messages that feishu/handler.py lets through belong to.
use next_me.Common.{
  ℕ, String, Bool, ◌≡◌, refl, true, false, not, ◌&&◌, ◌||◌, Option, none, some, List, [], ◌∷◌, ◌++◌,
  ◌==◌, string_comparable, elem, any, keep, All, All-append, ap, if_both, Bool-cases, inl, inr,
  arith,
}
use next_me.Dedup.{is_duplicate}
use next_me.Core.Types.{Task}
use next_me.Feishu.Handler.{
  Texts, ChatMessage, MessageHandler, thread_key, add, deregister_thread, register_thread, route,
  routed, schedule, has_bot_mention, extract_text, handle_message,
}

-- What happens to the handler: a message at its times with the id for its task, and the dispatcher's two callbacks.
pub data Event : Type 0 where
  arrives : ℕ → ℕ → String → ChatMessage → Event
  accepted : String → String → Event
  closed : String → String → Event

abbrev pub step : Texts → Event → MessageHandler → Option Task × MessageHandler
step py (arrives swept now id msg) h = handle_message py swept now id msg h
step py (accepted chat_id root) h = (none, register_thread chat_id root h)
step py (closed chat_id root) h = (none, deregister_thread chat_id root h)

abbrev pub to_list : Option Task → List Task
to_list none = []
to_list (some task) = task ∷ []

-- The tasks that are dispatched, and the handler after.
unfoldable pub run : Texts → List Event → MessageHandler → List Task × MessageHandler
run py [] h = ([], h)
run py (e ∷ rest) h =
    let (task, h') = step py e h in
    let (tasks, last) = run py rest h' in (to_list task ++ tasks, last)

-- The event starts the thread: its root message, or the dispatcher's acceptance.
abbrev pub opens : String → Event → Bool
opens key (arrives swept now id msg) =
    msg.chat_type == "group" && msg.root_id == "" && thread_key msg.chat_id msg.message_id == key
opens key (accepted chat_id root) = thread_key chat_id root == key
opens key (closed chat_id root) = false

-- A task of a group's thread.
abbrev pub is_in : String → Task → Bool
is_in key task = task.chat_type == "group" && task.session_id == key

elem_append-other :
    (key k : String) (keys : List String)
    → elem key keys ≡ false
    → (k == key) ≡ false
    → elem key (keys ++ k ∷ []) ≡ false
elem_append-other key k [] h n =
    ground (arith, string_comparable.equals_iff key k, string_comparable.equals_iff k key)
elem_append-other key k (x ∷ rest) h n = ground (arith, elem_append-other key k rest)

elem-add :
    (key k : String) (keys : List String)
    → elem key keys ≡ false
    → (k == key) ≡ false
    → elem key (add k keys) ≡ false
elem-add key k keys h n = ground (arith, elem_append-other key k keys)

-- A known key is not an unknown one.
known_other :
    (key k : String) (keys : List String)
    → elem key keys ≡ false
    → elem k keys ≡ true
    → (k == key) ≡ false
known_other key k keys h e = elim (Bool-cases (k == key)) [
  | inr n ↦ n
  | inl q ↦ ground (arith, ap (λ x. elem x keys) ((string_comparable.equals_iff k key).0 q))
]

elem-keep :
    (key : String) (p : String → Bool) (keys : List String)
    → elem key keys ≡ false
    → elem key (keep p keys) ≡ false
elem-keep key p [] h = refl
elem-keep key p (x ∷ rest) h = ground (arith, elem-keep key p rest)

-- The thread stays unknown, and no task of it is dispatched.
record Silent (key : String) (out : Option Task × MessageHandler) : Type 0 where
  unknown : elem key out.1.active_threads ≡ false
  silent : All (λ task. is_in key task ≡ false) (to_list out.0)

scheduled-Silent :
    (key : String) (running : Bool) (task : Task) (h : MessageHandler)
    → is_in key task ≡ false
    → elem key h.active_threads ≡ false
    → Silent key (schedule running task, h)
scheduled-Silent key true task h i u = record { unknown = u; silent = (i, tt) }
scheduled-Silent key false task h i u = record { unknown = u; silent = tt }

-- The four ways that a message can be routed.
pub route-cases :
    (P : Option (String × String) × List String → Type 0) (py : Texts) (msg : ChatMessage)
    (text : String) (h : MessageHandler)
    → P (none, h.active_threads)
    → ((msg.chat_type == "group") ≡ true
        → (msg.root_id == "") ≡ false
        → elem (thread_key msg.chat_id msg.root_id) h.active_threads ≡ true
        → P (some (thread_key msg.chat_id msg.root_id, msg.root_id), h.active_threads))
    → ((msg.chat_type == "group") ≡ true
        → (msg.root_id == "") ≡ true
        → P (
          some (thread_key msg.chat_id msg.message_id, msg.message_id),
          add (thread_key msg.chat_id msg.message_id) h.active_threads,
        ))
    → ((msg.chat_type == "group") ≡ false
        → P (some (thread_key msg.chat_id msg.sender_open_id, ""), h.active_threads))
    → P (route py msg text h)
unfolding route
route-cases P py msg text h ignored reply root other =
    elim (Bool-cases (msg.chat_type == "group")) [
      | inr p2p ↦ rw (p2p, route) (other p2p)
      | inl group ↦
          rw (group, route)
            (elim (Bool-cases (msg.root_id == "")) [
              | inr is_reply ↦ rw is_reply (
                  if_both P
                    (h.require_at_mention
                      && not (py.is_command text)
                      && not (has_bot_mention msg h))
                    _ _ ignored
                    (elim (Bool-cases
                      (elem (thread_key msg.chat_id msg.root_id) h.active_threads)) [
                        | inl known ↦ rw known (reply group is_reply known)
                        | inr unknown ↦ rw unknown ignored
                      ]))
              | inl is_root ↦ rw is_root (
                  if_both P (h.require_at_mention && not (has_bot_mention msg h)) _ _ ignored
                    (root group is_root))
            ])
    ]

routed-Silent :
    (py : Texts) (key id text : String) (msg : ChatMessage) (h : MessageHandler)
    → elem key h.active_threads ≡ false
    → opens key (arrives 0 0 id msg) ≡ false
    → Silent key (routed id msg text h (route py msg text h))
routed-Silent py key id text msg h u o =
    route-cases (λ out. Silent key (routed id msg text h out)) py msg text h
      (record { unknown = u; silent = tt })
      (λ group reply known.
        scheduled-Silent key h.loop_running _ h
          (rw (group, known_other key (thread_key msg.chat_id msg.root_id) h.active_threads u known)
            refl)
          u)
      (λ group root.
        let n = rw (group, root) at o in
        scheduled-Silent key h.loop_running _ _ (rw (group, n) refl)
          (elem-add key (thread_key msg.chat_id msg.message_id) h.active_threads u n))
      (λ p2p. scheduled-Silent key h.loop_running _ h (rw p2p refl) u)

step-Silent :
    (py : Texts) (key : String) (e : Event) (h : MessageHandler)
    → elem key h.active_threads ≡ false
    → opens key e ≡ false
    → Silent key (step py e h)
unfolding handle_message register_thread deregister_thread
step-Silent py key (arrives swept now id msg) h u o =
    let (seen, dedup) = is_duplicate swept now msg.message_id h.dedup in
    let h' : MessageHandler = record h { dedup = dedup } in
    if_both (Silent key) (msg.message_id == "" || msg.chat_id == "") _ _
      (record { unknown = u; silent = tt })
      (if_both (Silent key) (seen || extract_text py msg.content == "") _ _
        (record { unknown = u; silent = tt })
        (routed-Silent py key id (extract_text py msg.content) msg h' u o))
step-Silent py key (accepted chat_id root) h u o = record {
  unknown = elem-add key (thread_key chat_id root) h.active_threads u o;
  silent = tt;
}
step-Silent py key (closed chat_id root) h u o = record {
  unknown = elem-keep key _ h.active_threads u;
  silent = tt;
}

or_false : (a b : Bool) → (a || b) ≡ false → (a ≡ false) × (b ≡ false)
or_false a b h = ground arith

elem-discard :
    (key : String) (keys : List String) → elem key (keep (λ k. not (k == key)) keys) ≡ false
elem-discard key [] = refl
elem-discard key (x ∷ rest) = ground (
  arith,
  string_comparable.equals_iff key x,
  string_comparable.equals_iff x key,
  elem-discard key rest,
)

run_silent :
    (py : Texts) (key : String) (events : List Event) (h : MessageHandler)
    → elem key h.active_threads ≡ false
    → any (opens key) events ≡ false
    → All (λ task. is_in key task ≡ false) (run py events h).0
unfolding run
run_silent py key [] h u o = tt
run_silent py key (e ∷ rest) h u o =
    let s = step-Silent py key e h u (or_false (opens key e) _ o).0 in
    All-append (λ task. is_in key task ≡ false) (to_list (step py e h).0)
      (run py rest (step py e h).1).0 s.silent
      (run_silent py key rest (step py e h).1 s.unknown (or_false (opens key e) _ o).1)

-- After a thread is closed, no message that arrives is dispatched as a task of it, as long as nothing opens it
-- again: its own root message, or the dispatcher's acceptance of it.
pub closed_is_silent :
    (py : Texts) (chat_id root : String) (events : List Event) (h : MessageHandler)
    → any (opens (thread_key chat_id root)) events ≡ false
    → All
        (λ task. is_in (thread_key chat_id root) task ≡ false)
        (run py (closed chat_id root ∷ events) h).0
unfolding run deregister_thread
closed_is_silent py chat_id root events h o =
    run_silent py (thread_key chat_id root) events (deregister_thread chat_id root h)
      (elem-discard (thread_key chat_id root) h.active_threads) o
