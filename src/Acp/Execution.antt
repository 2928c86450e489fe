-- ===== src/Acp/Execution.antt =====
-- acp/runtime.py: the loop of `ACPRuntime.execute` and the requests for permission. A `Round` is what one turn of
-- the loop meets. `shown` are the calls of `on_progress`, whose errors are caught; `asked` the requests that
-- `on_permission` gets, and `notices` those that it gets after an automatic answer.
pub mod Permits
pub mod Streams
pub mod Turns
pub mod Runs
pub mod Tests
use Prim.Native.String.{◌++◌ as append_text}
use next_me.Common.{
  ℕ, zero, suc, ◌+◌, ◌-◌, String, Bool, true, false, not, ◌&&◌, ◌||◌, Option, none, some, List, [],
  ◌∷◌, ◌++◌, ◌==◌, nat_comparable, string_comparable, if◌then◌else◌, ltb, leb, find, get_elem?,
  Result, ok, raised, Error, runtime_error, cancelled_error, Action, return, raise, ◌>>=◌, ◌>>◌,
}
use next_me.Acp.Protocol.{
  PermissionOption, InboundPermissionRequest, RpcResult, Update, Message, Kind, response,
  notification, server_request, unknown, classify,
}
use next_me.Acp.Process.{
  Incoming, message, failure, AcpRuntime, Line, selected, refusal, send_raw, cancel, is_number,
  result_of, or_text, submit,
}

-- What `on_permission` does.
pub data Choice : Type 0 where
  chosen : ℕ → Choice
  call_failed call_cancelled : Choice

pub record Round : Type 0 where
  -- `task.canceled`
  pub canceled : Bool
  -- the deadline is over
  pub expired : Bool
  -- what arrives until the next message is taken, or the deadline
  pub arrived : List Incoming
  -- `time.monotonic()`
  pub now : ℕ
  pub choice : Choice

pub record Stream : Type 0 where
  pub runtime : AcpRuntime
  pub accumulated : List String
  pub pending_delta : List String
  pub last_progress_time : ℕ
  pub shown : List (String × String)
  pub asked : List InboundPermissionRequest
  pub notices : List InboundPermissionRequest

pub data Ending : Type 0 where
  -- the task was cancelled
  interrupted : String → Ending
  returned : String → Ending
  timed_out : Ending
  -- there is no deadline, and no message comes any more
  blocked : Ending
  failed : Error → Ending

-- `"".join(texts)`
abbrev pub joined : List String → String
joined [] = ""
joined (t ∷ rest) = append_text t (joined rest)

-- `says_allow` is `"allow" in text.lower()`.
abbrev pub is_allow : (String → Bool) → PermissionOption → Bool
is_allow says_allow opt = says_allow opt.kind || says_allow opt.option_id

abbrev pub has_id : String → PermissionOption → Bool
has_id id opt = opt.option_id == id

abbrev pub first_preferred : List String → List PermissionOption → Option String
first_preferred [] options = none
first_preferred (preferred ∷ rest) options = elim (find (has_id preferred) options) [
  | some _ ↦ some preferred
  | none ↦ first_preferred rest options
]

abbrev pub session_allow_option_ids : List String
session_allow_option_ids = "session_level_allow" ∷ "allow_always" ∷ "always_allow" ∷ []

abbrev pub first_option : List PermissionOption → String
first_option [] = "allow_once"
first_option (opt ∷ rest) = opt.option_id

unfoldable pub pick_auto_approve_option : (String → Bool) → List PermissionOption → String
pick_auto_approve_option says_allow options =
    elim (first_preferred session_allow_option_ids options) [
      | some id ↦ id
      | none ↦ elim (find (is_allow says_allow) options) [
        | some opt ↦ opt.option_id
        | none ↦ first_option options
      ]
    ]

-- The index counts from one, and 0 is read as one.
unfoldable pub chosen_option : ℕ → List PermissionOption → String
chosen_option index options = elim (get_elem? options (index - 1)) [
  | some opt ↦ opt.option_id
  | none ↦ first_option options
]

-- A write to the agent's stdin, and what it raises.
abbrev pub write : Line → Action Stream (Unit {0})
write line s = let (sent, r) = send_raw line s.runtime in (sent, record s { runtime = r })

unfoldable pub ask_permission :
    (String → Bool) → Choice → Option ℕ → InboundPermissionRequest → Action Stream (Unit {0})
ask_permission says_allow choice id req s =
    if s.runtime.permission_auto_approve
    then (do
      write (selected id (pick_auto_approve_option says_allow req.options))
      λ s'. return tt (record s' { notices = s'.notices ++ record req { options = [] } ∷ [] }))
        s
    else (let asked : Stream = record s { asked = s.asked ++ req ∷ [] } in
        elim choice [
          | chosen index ↦ write (selected id (chosen_option index req.options)) asked
          | call_failed ↦ write (refusal id) asked
          | call_cancelled ↦ raise cancelled_error asked
        ])

abbrev pub is_permission_request : Option String → Bool
is_permission_request none = false
is_permission_request (some method) = method == "session/request_permission"

unfoldable pub handle_permission : (String → Bool) → Choice → Message → Action Stream (Unit {0})
handle_permission says_allow choice msg s =
    if is_permission_request msg.method
    then (elim msg.permission [
      | none ↦ write (refusal msg.id) s
      | some req ↦ ask_permission says_allow choice msg.id req s
    ])
    else return tt s

abbrev pub is_empty : List String → Bool
is_empty [] = true
is_empty (_ ∷ _) = false

unfoldable pub flush_progress : ℕ → String → Stream → Stream
flush_progress now tool_name s =
    if is_empty s.pending_delta && tool_name == "" then s else record s {
      pending_delta = [];
      last_progress_time = now;
      shown = s.shown ++ (joined s.pending_delta, tool_name) ∷ [];
    }

abbrev pub add_chunk : String → Stream → Stream
add_chunk text s = record s {
  accumulated = s.accumulated ++ text ∷ [];
  pending_delta = s.pending_delta ++ text ∷ [];
}

abbrev pub tool_name_of : Update → String
tool_name_of update = or_text update.title (or_text update.name (or_text update.tool "tool"))

unfoldable pub handle_update : ℕ → Update → Stream → Stream
handle_update now update s =
    if update.session_update == "agent_message_chunk"
    then (let s' = add_chunk update.text s in
        if leb (s.last_progress_time + s.runtime.progress_debounce) now
        then flush_progress now "" s'
        else s')
    else if update.session_update == "tool_call"
    then flush_progress now (tool_name_of update) s
    else s

-- What the result has in place of streamed text.
abbrev pub embedded : RpcResult → String
embedded result = or_text result.output (or_text result.text result.content)

abbrev pub final_text : List String → Message → String
final_text accumulated msg = or_text (joined accumulated) (embedded (result_of msg))

unfoldable pub finish : ℕ → Message → Stream → Ending × Stream
finish now msg s =
    let s' = flush_progress now "" s in
    elim msg.error [
      | some _ ↦ (failed runtime_error, s')
      | none ↦ (returned (final_text s.accumulated msg), s')
    ]

-- A message of a kind: whether it ends the loop, and how.
unfoldable pub handle_kind :
    (String → Bool) → ℕ → Round → Message → Kind → Stream → Option Ending × Stream
handle_kind says_allow prompt_id round msg response s =
    if is_number prompt_id msg.id
    then (let (e, s') = finish round.now msg s in (some e, s'))
    else (none, s)
handle_kind says_allow prompt_id round msg notification s =
    (none, handle_update round.now msg.update s)
handle_kind says_allow prompt_id round msg server_request s =
    let (handled, s') = handle_permission says_allow round.choice msg s in
    (elim handled [ ok _ ↦ none | raised e ↦ some (failed e) ], s')
handle_kind says_allow prompt_id round msg unknown s = (none, s)

abbrev pub handle_message : (String → Bool) → ℕ → Round → Message → Stream → Option Ending × Stream
handle_message says_allow prompt_id round msg s =
    handle_kind says_allow prompt_id round msg (classify msg) s

abbrev pub cancel_run : Ending → Stream → Option Ending × Stream
cancel_run e s = (some e, record s { runtime = cancel s.runtime })

unfoldable pub take_message :
    (String → Bool) → Bool → ℕ → Round → List Incoming → Stream → Option Ending × Stream
take_message says_allow bounded prompt_id round [] s =
    if bounded then cancel_run timed_out s else (some blocked, s)
take_message says_allow bounded prompt_id round (failure ∷ rest) s =
    (some (failed runtime_error), record s { runtime = record s.runtime { msg_queue = rest } })
take_message says_allow bounded prompt_id round (message msg ∷ rest) s =
    handle_message says_allow prompt_id round msg
      (record s { runtime = record s.runtime { msg_queue = rest } })

-- One turn of the loop with the messages that have arrived. `bounded`: the task has a deadline. Without one the
-- loop waits for a message, whatever happens.
unfoldable pub take_turn : (String → Bool) → Bool → ℕ → Round → Stream → Option Ending × Stream
take_turn says_allow bounded prompt_id round s =
    if round.canceled
    then cancel_run (interrupted (joined s.accumulated)) s
    else if bounded && round.expired
    then cancel_run timed_out s
    else take_message says_allow bounded prompt_id round s.runtime.msg_queue s

abbrev pub receive : List Incoming → Stream → Stream
receive arrived s = record s {
  runtime = record s.runtime { msg_queue = s.runtime.msg_queue ++ arrived };
}

-- The loop, over the rounds that are given; `none` where it has not ended by then.
unfoldable pub run : (String → Bool) → Bool → ℕ → List Round → Stream → Option Ending × Stream
run says_allow bounded prompt_id [] s = (none, s)
run says_allow bounded prompt_id (round ∷ later) s =
    let (ended, s') = take_turn says_allow bounded prompt_id round (receive round.arrived s) in
    elim ended [ some e ↦ (some e, s') | none ↦ run says_allow bounded prompt_id later s' ]

abbrev pub fresh_stream : AcpRuntime → Stream
fresh_stream r = record {
  runtime = r;
  accumulated = [];
  pending_delta = [];
  last_progress_time = 0;
  shown = [];
  asked = [];
  notices = [];
}

abbrev pub started :
    (String → Bool) → Bool → List Round → Result ℕ × AcpRuntime → Option Ending × Stream
started says_allow bounded rounds (ok prompt_id, r) =
    run says_allow bounded prompt_id rounds (fresh_stream r)
started says_allow bounded rounds (raised e, r) = (some (failed e), fresh_stream r)

unfoldable pub execute :
    (String → Bool) → ℕ → String → Bool → List Round → AcpRuntime → Option Ending × Stream
execute says_allow now content bounded rounds r =
    started says_allow bounded rounds (submit now content r)
