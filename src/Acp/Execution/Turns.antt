-- ===== src/Acp/Execution/Turns.antt =====
-- The turns of the loop of acp/runtime.py, against the messages that they take.
use mathlib.Core.List.{append_assoc, append-nil}
use next_me.Common.{
  ℕ, String, Bool, ◌≡◌, refl, sym, ap, ◌∙◌, true, false, Option, none, some, List, [], ◌∷◌, ◌++◌,
  map, flat, if_both, any, ◌≢◌, string_comparable, ◌&&◌, ◌||◌, ◌==◌, not, is_some, nat_comparable,
  arith,
}
use next_me.Acp.Protocol.{Message, classify}
use next_me.Acp.Process.{Incoming, message, failure}
use next_me.Acp.Execution.{
  Stream, Round, Ending, returned, final_text, take_turn, take_message, timed_out, cancel_run,
  handle_message, receive, run,
}
use next_me.Acp.Execution.Streams.{
  answers_prompt, text_of, said, said-append, IsShown, some_injective, cancel-queue,
  handle_kind-Handles,
}

-- A response under the id of the prompt: no method, and a result or an error.
abbrev pub is_answer : ℕ → Incoming → Bool
is_answer prompt_id failure = false
is_answer prompt_id (message msg) =
    (elim msg.id [ none ↦ false | some id ↦ id == prompt_id ])
    && not (is_some msg.method)
    && (is_some msg.result || is_some msg.error)

is_answer_lem :
    (prompt_id : ℕ) (msg : Message)
    → is_answer prompt_id (message msg) ≡ answers_prompt prompt_id (classify msg) msg.id
unfolding classify
is_answer_lem prompt_id msg = ground arith

-- The last message that is handled is the first that answers the prompt, and nothing is left to be shown.
abbrev pub Final : ℕ → String → Stream → List Incoming → Type 0
Final prompt_id text s handled =
    (before : List Incoming) × (msg : Message) × (handled ≡ before ++ message msg ∷ [])
    × (text ≡ final_text s.accumulated msg)
    × (s.pending_delta ≡ [])
    × (is_answer prompt_id (message msg) ≡ true)
    × (msg.error ≡ none)
    × (any (is_answer prompt_id) before ≡ false)

-- What the loop does with the messages that come, from a stream on.
pub record Tells (prompt_id : ℕ) (came : List Incoming) (s : Stream) (out : Option Ending × Stream)
    : Type 0 where
  pub handled : List Incoming
  pub split : came ≡ handled ++ out.1.runtime.msg_queue
  pub told : out.1.accumulated ≡ s.accumulated ++ said handled
  pub shown : IsShown out.1
  pub final : (text : String) → out.0 ≡ some (returned text) → Final prompt_id text out.1 handled
  pub unanswered : out.0 ≡ none → any (is_answer prompt_id) handled ≡ false

-- An end without a message.
cancelled-Tells :
    (prompt_id : ℕ) (e : Ending) (came : List Incoming) (s : Stream)
    → s.runtime.msg_queue ≡ came
    → ((text : String) → e ≢ returned text)
    → IsShown s
    → Tells prompt_id came s (cancel_run e s)
cancelled-Tells prompt_id e came s same no_return h = record {
  handled = [];
  split = sym (cancel-queue s.runtime ∙ same);
  told = sym (append-nil s.accumulated);
  shown = h;
  final = λ text q. absurd (no_return text (some_injective _ _ q));
  unanswered = λ q. refl;
}

message-Tells :
    (says_allow : String → Bool) (prompt_id : ℕ) (round : Round) (msg : Message)
    (rest : List Incoming) (s : Stream)
    → IsShown s
    → Tells prompt_id (message msg ∷ rest) s (
        handle_message says_allow prompt_id round msg
          (record s { runtime = record s.runtime { msg_queue = rest } }))
message-Tells says_allow prompt_id round msg rest s h =
    let k =
      handle_kind-Handles says_allow prompt_id round msg (classify msg)
        (record s { runtime = record s.runtime { msg_queue = rest } }) h in
    record {
      handled = message msg ∷ [];
      split = ap (λ q. message msg ∷ q) (sym k.queue);
      told = k.told ∙ ap (λ t. s.accumulated ++ t) (sym (append-nil (text_of (message msg))));
      shown = k.shown;
      final = λ text e.
          let (told, pending, answered, result) = k.final text e in
          ([], msg, refl, told, pending, is_answer_lem prompt_id msg ∙ answered, result, refl);
      unanswered = λ e. ground (arith, is_answer_lem prompt_id msg, k.unanswered e);
    }

take_message-Tells :
    (says_allow : String → Bool) (bounded : Bool) (prompt_id : ℕ) (round : Round)
    (queue : List Incoming) (s : Stream)
    → s.runtime.msg_queue ≡ queue
    → IsShown s
    → Tells prompt_id queue s (take_message says_allow bounded prompt_id round queue s)
unfolding take_message
take_message-Tells says_allow true prompt_id round [] s q h =
    cancelled-Tells prompt_id timed_out [] s q (λ text e. ground arith) h
take_message-Tells says_allow false prompt_id round [] s q h = record {
  handled = [];
  split = sym q;
  told = sym (append-nil s.accumulated);
  shown = h;
  final = λ text e. ground arith;
  unanswered = λ e. refl;
}
take_message-Tells says_allow bounded prompt_id round (failure ∷ rest) s q h = record {
  handled = failure ∷ [];
  split = refl;
  told = sym (append-nil s.accumulated);
  shown = h;
  final = λ text e. ground arith;
  unanswered = λ e. refl;
}
take_message-Tells says_allow bounded prompt_id round (message msg ∷ rest) s q h =
    message-Tells says_allow prompt_id round msg rest s h

take_turn-Tells :
    (says_allow : String → Bool) (bounded : Bool) (prompt_id : ℕ) (round : Round) (s : Stream)
    → IsShown s
    → Tells prompt_id s.runtime.msg_queue s (take_turn says_allow bounded prompt_id round s)
unfolding take_turn
take_turn-Tells says_allow bounded prompt_id round s h =
    if_both (Tells prompt_id s.runtime.msg_queue s) round.canceled _ _
      (cancelled-Tells prompt_id _ s.runtime.msg_queue s refl (λ text q. ground arith) h)
      (if_both (Tells prompt_id s.runtime.msg_queue s) (bounded && round.expired) _ _
        (cancelled-Tells prompt_id _ s.runtime.msg_queue s refl (λ text q. ground arith) h)
        (take_message-Tells says_allow bounded prompt_id round s.runtime.msg_queue s refl h))

pub record Used (prompt_id : ℕ) (rounds : List Round) (s : Stream) (out : Option Ending × Stream)
    : Type 0 where
  pub used : List Round
  pub unused : List Round
  pub split : rounds ≡ used ++ unused
  pub tells :
      Tells prompt_id
        (s.runtime.msg_queue ++ flat (map (λ (round : Round). round.arrived) used))
        s
        out

any-append :
    (p : Incoming → Bool) (xs ys : List Incoming) → any p (xs ++ ys) ≡ (any p xs || any p ys)
any-append p [] ys = refl
any-append p (x ∷ xs) ys = ground (arith, any-append p xs ys)

-- The message that ends a later turn ends the run.
later-Final :
    (prompt_id : ℕ) (text : String) (s : Stream) (after first : List Incoming)
    → any (is_answer prompt_id) first ≡ false
    → Final prompt_id text s after
    → Final prompt_id text s (first ++ after)
later-Final prompt_id text s after first unanswered (before, msg, e, t, p, a, n, b) = (
  first ++ before,
  msg,
  ap (λ q. first ++ q) e ∙ sym (append_assoc first before (message msg ∷ [])),
  t,
  p,
  a,
  n,
  rw (any-append (is_answer prompt_id) first before, unanswered) b,
)

next-Used :
    (says_allow : String → Bool) (bounded : Bool) (prompt_id : ℕ) (round : Round)
    (later : List Round) (s : Stream) (out : Option Ending × Stream)
    → Tells prompt_id (s.runtime.msg_queue ++ round.arrived) s out
    → Used prompt_id later out.1 (run says_allow bounded prompt_id later out.1)
    → Used prompt_id (round ∷ later) s (elim out.0 [
      | some e ↦ (some e, out.1)
      | none ↦ run says_allow bounded prompt_id later out.1
    ])
next-Used says_allow bounded prompt_id round later s (some e, s') t u = record {
  used = round ∷ [];
  unused = later;
  split = refl;
  tells = record {
    handled = t.handled;
    split = ap (λ q. s.runtime.msg_queue ++ q) (append-nil round.arrived) ∙ t.split;
    told = t.told;
    shown = t.shown;
    final = t.final;
    unanswered = t.unanswered;
  };
}
next-Used says_allow bounded prompt_id round later s (none, s') t u = record {
  used = round ∷ u.used;
  unused = u.unused;
  split = ap (λ rs. round ∷ rs) u.split;
  tells = record {
    handled = t.handled ++ u.tells.handled;
    split =
        sym (append_assoc s.runtime.msg_queue round.arrived _)
        ∙ ap (λ q. q ++ flat (map (λ (round : Round). round.arrived) u.used)) t.split
        ∙ append_assoc t.handled s'.runtime.msg_queue _
        ∙ ap (λ q. t.handled ++ q) u.tells.split
        ∙ sym (append_assoc t.handled u.tells.handled _);
    told =
        u.tells.told
        ∙ ap (λ a. a ++ said u.tells.handled) t.told
        ∙ append_assoc s.accumulated (said t.handled) (said u.tells.handled)
        ∙ ap (λ a. s.accumulated ++ a) (sym (said-append t.handled u.tells.handled));
    shown = u.tells.shown;
    final = λ text e.
        later-Final prompt_id text (run says_allow bounded prompt_id later s').1 u.tells.handled
          t.handled (t.unanswered refl) (u.tells.final text e);
    unanswered = λ e.
        rw (any-append (is_answer prompt_id) t.handled u.tells.handled, t.unanswered refl)
          (u.tells.unanswered e);
  };
}

pub run-Used :
    (says_allow : String → Bool) (bounded : Bool) (prompt_id : ℕ) (rounds : List Round) (s : Stream)
    → IsShown s
    → Used prompt_id rounds s (run says_allow bounded prompt_id rounds s)
unfolding run
run-Used says_allow bounded prompt_id [] s h = record {
  used = [];
  unused = [];
  split = refl;
  tells = record {
    handled = [];
    split = append-nil s.runtime.msg_queue;
    told = sym (append-nil s.accumulated);
    shown = h;
    final = λ text e. ground arith;
    unanswered = λ e. refl;
  };
}
run-Used says_allow bounded prompt_id (round ∷ later) s h =
    let t = take_turn-Tells says_allow bounded prompt_id round (receive round.arrived s) h in
    next-Used says_allow bounded prompt_id round later s
      (take_turn says_allow bounded prompt_id round (receive round.arrived s))
      (record {
        handled = t.handled;
        split = t.split;
        told = t.told;
        shown = t.shown;
        final = t.final;
        unanswered = t.unanswered;
      })
      (run-Used says_allow bounded prompt_id later _ t.shown)
