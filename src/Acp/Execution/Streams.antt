-- ===== src/Acp/Execution/Streams.antt =====
-- What a run of acp/runtime.py shows and returns, against the messages that it handles.
use Prim.Native.String.{◌++◌ as append_text}
use text.Mathlib.TextLemmas.{
  append_assoc as text_append_assoc, append-nil as text_append-nil, nil-append as text_nil-append,
}
use mathlib.Core.List.{append_assoc, append-nil}
use next_me.Common.{
  ℕ, ◌+◌, String, Bool, ◌≡◌, refl, sym, ap, ◌∙◌, true, false, Option, none, some, List, [], ◌∷◌,
  ◌++◌, map, map-append, Bool-cases, ◌≢◌, Result, ok, raised, ◌⊎◌, inl, inr, ◌==◌,
  string_comparable, if◌then◌else◌, ◌&&◌, leb, ◌>>=◌, arith,
}
use next_me.Acp.Protocol.{
  Message, Update, classify, response, notification, server_request, unknown, Kind,
}
use next_me.Acp.Process.{
  Incoming, message, failure, AcpRuntime, Line, send_raw, send_request, cancel, is_number,
}
use next_me.Acp.Execution.{
  Stream, Round, Choice, Ending, returned, failed, joined, is_empty, flush_progress, handle_update,
  add_chunk, tool_name_of, final_text, finish, handle_kind, handle_permission, ask_permission,
}

abbrev pub chunk_of : Kind → Update → List String
chunk_of notification update =
    if update.session_update == "agent_message_chunk" then update.text ∷ [] else []
chunk_of response update = []
chunk_of server_request update = []
chunk_of unknown update = []

-- The text of a message, if it is a piece of the answer.
abbrev pub text_of : Incoming → List String
text_of failure = []
text_of (message msg) = chunk_of (classify msg) msg.update

abbrev pub said : List Incoming → List String
said [] = []
said (m ∷ rest) = text_of m ++ said rest

pub said-append : (xs ys : List Incoming) → said (xs ++ ys) ≡ said xs ++ said ys
said-append [] ys = refl
said-append (x ∷ xs) ys =
    ap (λ t. text_of x ++ t) (said-append xs ys)
    ∙ sym (append_assoc (text_of x) (said xs) (said ys))

abbrev pub deltas : List (String × String) → List String
deltas shown = map (λ (call : String × String). call.0) shown

pub joined-append : (xs ys : List String) → joined (xs ++ ys) ≡ append_text (joined xs) (joined ys)
joined-append [] ys = sym (text_nil-append (joined ys))
joined-append (x ∷ xs) ys =
    ap (append_text x) (joined-append xs ys) ∙ sym (text_append_assoc x (joined xs) (joined ys))

-- What was shown and what is still to be shown is what was accumulated.
abbrev pub IsShown : Stream → Type 0
IsShown s = append_text (joined (deltas s.shown)) (joined s.pending_delta) ≡ joined s.accumulated

flush-IsShown :
    (now : ℕ) (tool_name : String) (s : Stream)
    → IsShown s
    → IsShown (flush_progress now tool_name s)
unfolding flush_progress
flush-IsShown now tool_name s h = elim (Bool-cases (is_empty s.pending_delta && tool_name == "")) [
  | inl e ↦ rw (e, flush_progress) h
  | inr e ↦
      rw (e, flush_progress)
        (text_append-nil _
          ∙ ap joined (
              map-append (λ (call : String × String). call.0) s.shown
                ((joined s.pending_delta, tool_name) ∷ []))
          ∙ joined-append (deltas s.shown) (joined s.pending_delta ∷ [])
          ∙ ap (append_text (joined (deltas s.shown))) (text_append-nil (joined s.pending_delta))
          ∙ h)
]

chunk-IsShown : (text : String) (s : Stream) → IsShown s → IsShown (add_chunk text s)
chunk-IsShown text s h =
    ap (append_text (joined (deltas s.shown))) (joined-append s.pending_delta (text ∷ []))
    ∙ sym
        (text_append_assoc (joined (deltas s.shown)) (joined s.pending_delta) (append_text text ""))
    ∙ ap (λ t. append_text t (append_text text "")) h
    ∙ sym (joined-append s.accumulated (text ∷ []))

-- The fields that an action on the runtime leaves.
record SameStream (s s' : Stream) : Type 0 where
  queue : s'.runtime.msg_queue ≡ s.runtime.msg_queue
  accumulated : s'.accumulated ≡ s.accumulated
  pending : s'.pending_delta ≡ s.pending_delta
  shown : s'.shown ≡ s.shown

send_raw-queue : (line : Line) (r : AcpRuntime) → (send_raw line r).1.msg_queue ≡ r.msg_queue
unfolding send_raw
send_raw-queue line r = ground arith

pub cancel-queue : (r : AcpRuntime) → (cancel r).msg_queue ≡ r.msg_queue
unfolding cancel send_request send_raw ◌>>=◌
cancel-queue r = ground arith

permission-SameStream :
    (says_allow : String → Bool) (choice : Choice) (msg : Message) (s : Stream)
    → SameStream s (handle_permission says_allow choice msg s).1
unfolding handle_permission ask_permission send_raw ◌>>=◌
permission-SameStream says_allow choice msg s = ground arith

-- Whether a message of a kind answers the prompt.
abbrev pub answers_prompt : ℕ → Kind → Option ℕ → Bool
answers_prompt prompt_id response id = is_number prompt_id id
answers_prompt prompt_id notification id = false
answers_prompt prompt_id server_request id = false
answers_prompt prompt_id unknown id = false

-- What handling one message of a kind does to what is told, and when it ends the loop.
pub record Handles (prompt_id : ℕ) (msg : Message) (kind : Kind) (s : Stream)
    (out : Option Ending × Stream) : Type 0 where
  pub queue : out.1.runtime.msg_queue ≡ s.runtime.msg_queue
  pub told : out.1.accumulated ≡ s.accumulated ++ chunk_of kind msg.update
  pub shown : IsShown out.1
  pub final :
      (text : String)
      → out.0 ≡ some (returned text)
      → (text ≡ final_text out.1.accumulated msg)
        × (out.1.pending_delta ≡ [])
        × (answers_prompt prompt_id kind msg.id ≡ true)
        × (msg.error ≡ none)
  pub unanswered : out.0 ≡ none → answers_prompt prompt_id kind msg.id ≡ false

record Flushed (s s' : Stream) : Type 0 where
  queue : s'.runtime.msg_queue ≡ s.runtime.msg_queue
  accumulated : s'.accumulated ≡ s.accumulated
  pending : (s'.pending_delta ≡ s.pending_delta) ⊎ (s'.pending_delta ≡ [])

flush-Flushed :
    (now : ℕ) (tool_name : String) (s : Stream) → Flushed s (flush_progress now tool_name s)
unfolding flush_progress
flush-Flushed now tool_name s = ground arith

flush-pending : (now : ℕ) (s : Stream) → (flush_progress now "" s).pending_delta ≡ []
unfolding flush_progress
flush-pending now s = pending s.pending_delta
  where
    pending :
        (p : List String)
        → (flush_progress now "" (record s { pending_delta = p })).pending_delta ≡ []
    pending [] = refl
    pending (t ∷ rest) = refl

finish-stream :
    (now : ℕ) (msg : Message) (s : Stream) → (finish now msg s).1 ≡ flush_progress now "" s
unfolding finish
finish-stream now msg s = ground arith

finish-text :
    (now : ℕ) (msg : Message) (s : Stream) (text : String)
    → (finish now msg s).0 ≡ returned text
    → (text ≡ final_text s.accumulated msg) × (msg.error ≡ none)
unfolding finish
finish-text now msg s text e = ground arith

pub some_injective : (a b : Ending) → some a ≡ some b → a ≡ b
some_injective a b e = cc

finish-Handles :
    (prompt_id now : ℕ) (msg : Message) (s : Stream)
    → is_number prompt_id msg.id ≡ true
    → IsShown s
    → Handles prompt_id msg response s (some (finish now msg s).0, (finish now msg s).1)
finish-Handles prompt_id now msg s answered h =
    let f = flush-Flushed now "" s in
    rw (finish-stream now msg s) (record {
      queue = f.queue;
      told = f.accumulated ∙ sym (append-nil s.accumulated);
      shown = flush-IsShown now "" s h;
      final = λ text e.
          let told = finish-text now msg s text (some_injective _ _ e) in
          (
            told.0 ∙ ap (λ a. final_text a msg) (sym f.accumulated),
            flush-pending now s,
            answered,
            told.1,
          );
      unanswered = λ e. ground arith;
    })

no_text :
    (r : Result (Unit {0})) (text : String)
    → (elim r [ ok _ ↦ none | raised e ↦ some (failed e) ]) ≢ some (returned text)
no_text (ok _) text e = ground arith
no_text (raised x) text e = ground arith

same-IsShown : (s s' : Stream) → SameStream s s' → IsShown s → IsShown s'
same-IsShown s s' same h = rw (same.shown, same.pending, same.accumulated) h

-- A flush, or none, after which nothing ends.
flushed-Handles :
    (prompt_id now : ℕ) (tool_name : String) (flushes : Bool) (msg : Message) (s s' : Stream)
    (texts : List String)
    → s'.runtime.msg_queue ≡ s.runtime.msg_queue
    → s'.accumulated ≡ s.accumulated ++ texts
    → chunk_of notification msg.update ≡ texts
    → IsShown s'
    → Handles prompt_id msg notification s
        (none, if flushes then flush_progress now tool_name s' else s')
flushed-Handles prompt_id now tool_name false msg s s' texts q a t h = record {
  queue = q;
  told = rw t a;
  shown = h;
  final = λ text e. ground arith;
  unanswered = λ e. refl;
}
flushed-Handles prompt_id now tool_name true msg s s' texts q a t h =
    let f = flush-Flushed now tool_name s' in
    record {
      queue = f.queue ∙ q;
      told = f.accumulated ∙ rw t a;
      shown = flush-IsShown now tool_name s' h;
      final = λ text e. ground arith;
      unanswered = λ e. refl;
    }

update-Handles :
    (prompt_id now : ℕ) (msg : Message) (s : Stream)
    → IsShown s
    → Handles prompt_id msg notification s (none, handle_update now msg.update s)
unfolding handle_update
update-Handles prompt_id now msg s h =
    elim (Bool-cases (msg.update.session_update == "agent_message_chunk")) [
      | inl chunk ↦
          rw (chunk, handle_update)
            (flushed-Handles prompt_id now ""
              (leb (s.last_progress_time + s.runtime.progress_debounce) now) msg s
              (add_chunk msg.update.text s) (msg.update.text ∷ []) refl refl (rw chunk refl)
              (chunk-IsShown msg.update.text s h))
      | inr other ↦
          rw (other, handle_update)
            (flushed-Handles prompt_id now (tool_name_of msg.update)
              (msg.update.session_update == "tool_call") msg s s [] refl
              (sym (append-nil s.accumulated)) (rw other refl) h)
    ]

pub handle_kind-Handles :
    (says_allow : String → Bool) (prompt_id : ℕ) (round : Round) (msg : Message) (kind : Kind)
    (s : Stream)
    → IsShown s
    → Handles prompt_id msg kind s (handle_kind says_allow prompt_id round msg kind s)
unfolding handle_kind
handle_kind-Handles says_allow prompt_id round msg response s h =
    elim (Bool-cases (is_number prompt_id msg.id)) [
      | inl e ↦ rw e (finish-Handles prompt_id round.now msg s e h)
      | inr e ↦ rw e (record {
        queue = refl;
        told = sym (append-nil s.accumulated);
        shown = h;
        final = λ text e. ground arith;
        unanswered = λ _. e;
      })
    ]
handle_kind-Handles says_allow prompt_id round msg notification s h =
    update-Handles prompt_id round.now msg s h
handle_kind-Handles says_allow prompt_id round msg server_request s h =
    let same = permission-SameStream says_allow round.choice msg s in
    record {
      queue = same.queue;
      told = same.accumulated ∙ sym (append-nil s.accumulated);
      shown = same-IsShown s _ same h;
      final = λ text e. absurd (no_text _ text e);
      unanswered = λ e. refl;
    }
handle_kind-Handles says_allow prompt_id round msg unknown s h = record {
  queue = refl;
  told = sym (append-nil s.accumulated);
  shown = h;
  final = λ text e. ground arith;
  unanswered = λ e. refl;
}
