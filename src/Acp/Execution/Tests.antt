-- ===== src/Acp/Execution/Tests.antt =====
-- An agent's process, the loop over its messages, and their theorems at concrete inputs.
use next_me.Common.{
  flat, ℕ, String, Bool, ◌≡◌, ◌≢◌, refl, true, false, Option, none, some, List, [], ◌∷◌, ◌++◌,
  string_comparable, nat_comparable, elem, inr, ◌>>=◌, arith,
}
use next_me.Acp.Protocol.{InboundPermissionRequest, Update, Message, classify}
use next_me.Acp.Process.{
  Incoming, message, AcpRuntime, Line, selected, no_result, ensure_ready, negotiate, send_request,
  send_raw, wait_for, wait_loop, stop,
}
use next_me.Acp.Process.Waits.{Waits, wait_for-Waits}
use next_me.Acp.Process.Starts.{failed_start_leaks}
use next_me.Acp.Execution.{
  Stream, Round, chosen, run, take_turn, take_message, handle_kind, handle_permission,
  handle_update, flush_progress, finish, fresh_stream,
}
use next_me.Acp.Execution.Permits.{handle_permission-Answers}
use next_me.Acp.Execution.Runs.{Returned, run-returned, run-ends}

abbrev no_update : Update
no_update = record { session_update = ""; text = ""; title = ""; name = ""; tool = "" }

abbrev answer : ℕ → Option String → Message
answer id error = record {
  id = some id;
  method = none;
  result = some no_result;
  error = error;
  update = no_update;
  permission = none;
}

abbrev piece : String → Message
piece text = record {
  id = none;
  method = some "session/update";
  result = none;
  error = none;
  update = record no_update { session_update = "agent_message_chunk"; text = text };
  permission = none;
}

abbrev idle : AcpRuntime
idle = record {
  permission_auto_approve = false;
  progress_debounce = 5;
  actual_id = "sid-1";
  proc = none;
  alive = false;
  ready = false;
  req_id = 0;
  msg_queue = [];
  lines = [];
  started = 0;
  terminated = [];
  last_access = 0;
  ticks = [];
  writes = [];
}

-- The first handshake is answered by an error, the second one by a result.
abbrev refusing : AcpRuntime
refusing = record idle {
  ticks = (message (answer 1 (some "no")) ∷ []) ∷ (message (answer 1 none) ∷ []) ∷ [];
}

failed_start_leaks_example :
    let r' = (ensure_ready (ensure_ready refusing).1).1 in
    (r'.proc ≢ some 0) × (elem 0 r'.terminated ≡ false)
unfolding ensure_ready negotiate send_request send_raw wait_for wait_loop classify stop ◌>>=◌
failed_start_leaks_example = failed_start_leaks refusing refl refl refl refl

abbrev waiting : AcpRuntime
waiting = record idle {
  msg_queue = message (piece "late") ∷ [];
  ticks = [] ∷ (message (answer 2 none) ∷ message (piece "new") ∷ []) ∷ [];
}

wait_for-Waits_example :
    (arrived : List (List Incoming)) × (waiting.ticks ≡ arrived ++ (wait_for 2 waiting).1.ticks)
    × Waits 2
        (waiting.msg_queue ++ flat arrived)
        (wait_for 2 waiting).0
        (wait_for 2 waiting).1.msg_queue
wait_for-Waits_example = wait_for-Waits 2 waiting

abbrev round : Bool → List Incoming → Round
round expired arrived = record {
  canceled = false;
  expired = expired;
  arrived = arrived;
  now = 7;
  choice = chosen 1;
}

-- What an earlier run has left, and a response to another request, stand in front of the answer.
abbrev rounds : List Round
rounds =
    round false (message (answer 2 none) ∷ message (answer 3 none) ∷ [])
    ∷ round false []
    ∷ round false []
    ∷ round true []
    ∷ []

abbrev left_over : AcpRuntime
left_over = record idle { msg_queue = message (piece "late") ∷ [] }

abbrev shown : Stream
shown = record (fresh_stream (record left_over { msg_queue = [] })) {
  accumulated = "late" ∷ [];
  last_progress_time = 7;
  shown = ("late", "") ∷ [];
}

run-returned_example : Returned 3 rounds left_over "late" shown
unfolding run take_turn take_message handle_kind handle_update flush_progress finish classify
run-returned_example = run-returned (λ t. false) true 3 rounds left_over "late" shown refl

run-ends_example : (run (λ t. false) true 3 rounds (fresh_stream idle)).0 ≢ none
run-ends_example = run-ends (λ t. false) 3 rounds (fresh_stream idle) refl

abbrev question : InboundPermissionRequest
question = record {
  title = "write a file";
  description = "";
  options =
      record { option_id = "yes"; name = "Allow"; kind = "allow_once" }
      ∷ record { option_id = "no"; name = "Deny"; kind = "reject_once" }
      ∷ [];
}

abbrev asking : Message
asking = record {
  id = some 9;
  method = some "session/request_permission";
  result = none;
  error = none;
  update = no_update;
  permission = some question;
}

handle_permission-Answers_example :
    (line : Line) × ((handle_permission
        (λ t. false)
        (chosen 2)
        asking
        (fresh_stream idle)).1.runtime.lines
      ≡ [] ++ line ∷ [])
    × (line ≡ selected (some 9) "no")
handle_permission-Answers_example =
    handle_permission-Answers (λ t. false) (chosen 2) asking question (fresh_stream idle) refl refl
      refl (inr (λ e. ground arith))
