-- ===== src/Acp/Execution/Runs.antt =====
-- What the loop of acp/runtime.py shows and returns, against all the messages that it takes.
use Prim.Native.String.{◌++◌ as append_text}
use text.Mathlib.TextLemmas.{append-nil as text_append-nil}
use next_me.Common.{
  ℕ, String, Bool, ◌≡◌, refl, sym, ap, ◌∙◌, true, false, Option, none, some, List, [], ◌∷◌, ◌++◌,
  map, flat, any, ◌≢◌, string_comparable, ◌==◌, not, nat_comparable, if◌then◌else◌, arith,
}
use next_me.Acp.Protocol.{Message, RpcResult}
use next_me.Acp.Process.{Incoming, message, AcpRuntime}
use next_me.Acp.Execution.{
  Stream, Round, returned, joined, final_text, take_turn, receive, run, fresh_stream,
}
use next_me.Acp.Execution.Turns.{is_answer, Used, run-Used}
use next_me.Acp.Execution.Streams.{said, deltas}

-- The pieces put together, or, where they say nothing, the first text that the result has.
abbrev pub answer_text : List String → RpcResult → String
answer_text pieces result =
    if not (joined pieces == "")
    then joined pieces
    else if not (result.output == "")
    then result.output
    else if not (result.text == "")
    then result.text
    else result.content

-- What a run that returns a text has handled, and what it has shown.
pub record Returned (prompt_id : ℕ) (rounds : List Round) (r : AcpRuntime) (text : String)
    (s : Stream) : Type 0 where
  pub used : List Round
  pub unused : List Round
  pub split : rounds ≡ used ++ unused
  pub before : List Incoming
  pub msg : Message
  pub handled :
      r.msg_queue ++ flat (map (λ (round : Round). round.arrived) used)
      ≡ (before ++ message msg ∷ []) ++ s.runtime.msg_queue
  -- the last one answers the prompt, without an error, and is the first to do so
  pub same_id : msg.id ≡ some prompt_id
  pub no_method : msg.method ≡ none
  pub no_error : msg.error ≡ none
  pub result : RpcResult
  pub holds : msg.result ≡ some result
  pub first : any (is_answer prompt_id) before ≡ false
  pub told : text ≡ answer_text (said (before ++ message msg ∷ [])) result
  pub all_shown : joined (deltas s.shown) ≡ joined (said (before ++ message msg ∷ []))

answer-Returned :
    (prompt_id : ℕ) (msg : Message)
    → is_answer prompt_id (message msg) ≡ true
    → msg.error ≡ none
    → (msg.id ≡ some prompt_id)
      × (msg.method ≡ none)
      × ((result : RpcResult) × (msg.result ≡ some result)
          × ((pieces : List String) → final_text pieces msg ≡ answer_text pieces result))
answer-Returned prompt_id msg a n =
    (ground (arith, nat_comparable.equals_iff), ground arith, results msg.result refl)
  where
    results :
        (result : Option RpcResult)
        → msg.result ≡ result
        → (result : RpcResult) × (msg.result ≡ some result)
          × ((pieces : List String) → final_text pieces msg ≡ answer_text pieces result)
    results none e = ground arith
    results (some result) e = (result, e, λ pieces. rw e (ground arith))

-- If a run returns a text, it has handled the messages that were left in the queue and those that arrived, in
-- order, up to the first response under the id of its prompt, which has a result and no error. The text is what the
-- pieces among them say, or, where they say nothing, what that result holds; and the calls that showed progress have
-- shown those pieces, each once.
pub run-returned :
    (says_allow : String → Bool) (bounded : Bool) (prompt_id : ℕ) (rounds : List Round)
    (r : AcpRuntime) (text : String) (s : Stream)
    → run says_allow bounded prompt_id rounds (fresh_stream r) ≡ (some (returned text), s)
    → Returned prompt_id rounds r text s
run-returned says_allow bounded prompt_id rounds r text s e =
    let u : Used prompt_id rounds (fresh_stream r) (some (returned text), s) =
      rw e at (run-Used says_allow bounded prompt_id rounds (fresh_stream r) refl) in
    let (before, msg, last, t, p, answers, no_error, first) = u.tells.final text refl in
    let told = u.tells.told ∙ ap said last in
    let (same_id, no_method, (result, holds, texts)) =
      answer-Returned prompt_id msg answers no_error in
    record {
      used = u.used;
      unused = u.unused;
      split = u.split;
      before = before;
      msg = msg;
      handled = u.tells.split ∙ ap (λ h. h ++ s.runtime.msg_queue) last;
      same_id = same_id;
      no_method = no_method;
      no_error = no_error;
      result = result;
      holds = holds;
      first = first;
      told = t ∙ ap (λ a. final_text a msg) told ∙ texts (said (before ++ message msg ∷ []));
      all_shown =
          sym (text_append-nil (joined (deltas s.shown)))
          ∙ ap (λ q. append_text (joined (deltas s.shown)) (joined q)) (sym p)
          ∙ u.tells.shown
          ∙ ap joined told;
    }

expired_turn :
    (says_allow : String → Bool) (prompt_id : ℕ) (round : Round) (s : Stream)
    → round.expired ≡ true
    → (take_turn says_allow true prompt_id round s).0 ≢ none
unfolding take_turn
expired_turn says_allow prompt_id round s e = ground arith

-- A run of a task that has a deadline ends by the first turn of its loop at which the deadline is over,
-- whatever arrives.
pub run-ends :
    (says_allow : String → Bool) (prompt_id : ℕ) (rounds : List Round) (s : Stream)
    → any (λ (round : Round). round.expired) rounds ≡ true
    → (run says_allow true prompt_id rounds s).0 ≢ none
unfolding run
run-ends says_allow prompt_id [] s e = ground arith
run-ends says_allow prompt_id (round ∷ later) s e = ground (
  arith,
  expired_turn says_allow prompt_id round (receive round.arrived s),
  run-ends says_allow prompt_id later
      (take_turn says_allow true prompt_id round (receive round.arrived s)).1,
)
