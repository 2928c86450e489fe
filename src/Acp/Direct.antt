-- ===== src/Acp/Direct.antt =====
-- acp/direct_runtime.py: `DirectClaudeRuntime`, which starts a process for each prompt and reads its lines. An
-- `Arrival` is a line with what has happened by the time that it is taken; what a line says is read already. A
-- missing text is "". The numbers of blocks are one more than the index, and 0 where it is missing. `shown` are the
-- calls of `on_progress`, whose errors are caught.
pub mod Events
pub mod Steps
pub mod Answers
pub mod Tools
pub mod Tests
use Prim.Native.String.{◌++◌ as append_text}
use next_me.Common.{
  get_or, ℕ, suc, ◌+◌, String, Bool, true, false, not, ◌&&◌, ◌||◌, Option, none, some, List, [],
  ◌∷◌, ◌++◌, ◌==◌, nat_comparable, string_comparable, if◌then◌else◌, keep, elem, leb, ◌-◌, Dict,
  lookup, insert, erase, has_key, os_error, runtime_error,
}
use next_me.Acp.Process.{or_text}
use next_me.Acp.Execution.{Ending, interrupted, returned, timed_out, failed, joined}

pub record DirectRuntime : Type 0 where
  pub executor : String
  pub actual_id : Option String
  pub last_access : ℕ
  pub cancel_flag : Bool
  -- the process at hand, and whether it has no return code
  pub current_proc : Option ℕ
  pub alive : Bool
  pub started : ℕ
  pub terminated : List ℕ
  pub killed : List ℕ

-- What the process does when it is told to stop: it is gone before, it ends, or it has to be killed.
pub data Stopping : Type 0 where
  gone ends stays : Stopping

unfoldable pub is_running : DirectRuntime → Bool
is_running r = elim r.current_proc [ none ↦ false | some p ↦ r.alive ]

abbrev pub terminate : ℕ → DirectRuntime → DirectRuntime
terminate p r = record r { terminated = r.terminated ++ p ∷ [] }

unfoldable pub stop : Stopping → DirectRuntime → DirectRuntime
stop outcome r = elim r.current_proc [
  | none ↦ r
  | some p ↦ if not r.alive then r else (elim outcome [
    | gone ↦ r
    | ends ↦ record (terminate p r) { current_proc = none; alive = false }
    | stays ↦ record (terminate p r) {
      current_proc = none;
      alive = false;
      killed = r.killed ++ p ∷ [];
    }
  ])
]

unfoldable pub cancel : DirectRuntime → DirectRuntime
cancel r = elim r.current_proc [
  | none ↦ record r { cancel_flag = true }
  | some p ↦ record (if r.alive then terminate p r else r) { cancel_flag = true }
]

unfoldable pub reset_session : DirectRuntime → DirectRuntime
reset_session r = record r { actual_id = none }

abbrev pub or_none : String → Option String
or_none text = if text == "" then none else some text

unfoldable pub restore_session : String → DirectRuntime → DirectRuntime
restore_session actual_id r = record r { actual_id = or_none actual_id }

abbrev pub resume_args : Option String → List String
resume_args none = []
resume_args (some id) = if id == "" then [] else "--resume" ∷ id ∷ []

unfoldable pub args : DirectRuntime → List String
args r =
    (r.executor ∷ "--print" ∷ "--output-format" ∷ "stream-json" ∷ "--verbose"
      ∷ "--dangerously-skip-permissions" ∷ "--include-partial-messages" ∷ [])
    ++ resume_args r.actual_id

-- `starts_with` is `startswith` of `str`, its argument first.
unfoldable pub child_env : (String → String → Bool) → Dict String String → Dict String String
child_env starts_with environ =
    let own =
      keep (λ e. not (e.0 == "CLAUDECODE") && not (starts_with "CLAUDE_CODE_" e.0)) environ in
    let env = insert "CI" "true" own in
    if has_key "TERM" env then env else insert "TERM" "xterm" env

-- `json.loads` of the input of a tool, with texts for values, or `none` where it raises; `len` and the first characters
-- of a `str`.
pub record Python : Type 0 where
  pub parse : String → Option (Dict String String)
  pub len : String → ℕ
  pub first : ℕ → String → String

unfoldable pub truncate : Python → String → ℕ → String
truncate py s max_len =
    if leb (py.len s) max_len then s else append_text (py.first (max_len - 1) s) "…"

abbrev pub first_value : Dict String String → String
first_value [] = ""
first_value ((_, text) ∷ rest) = text

-- The argument that says most about the call of the tool.
unfoldable pub argument : String → Dict String String → String
argument name args =
    if elem name ("Fetch" ∷ "WebFetch" ∷ "web_fetch" ∷ [])
    then get_or "url" "" args
    else if elem name ("Bash" ∷ "computer" ∷ [])
    then get_or "command" (get_or "action" "" args) args
    else if elem name ("Read" ∷ "Write" ∷ "Edit" ∷ "NotebookEdit" ∷ [])
    then get_or "file_path" (get_or "notebook_path" "" args) args
    else if name == "Glob" || name == "Grep"
    then get_or "pattern" "" args
    else if name == "Task"
    then get_or "description" (get_or "prompt" "" args) args
    else first_value args

abbrev pub is_nil : Dict String String → Bool
is_nil [] = true
is_nil (_ ∷ _) = false

unfoldable pub format_tool_call : Python → String → String → String
unfolding truncate argument
format_tool_call py name input_json = elim (py.parse input_json) [
  | none ↦ name
  | some args ↦
      let val = argument name args in
      if is_nil args || val == ""
      then name
      else append_text name (append_text "(" (append_text (truncate py val 60) ")"))
]

-- `event` of a stream_event.
pub data Inner : Type 0 where
  text_delta : String → Inner
  input_json_delta : ℕ → String → Inner
  -- a block that is a use of a tool
  block_start : ℕ → String → Inner
  block_stop : ℕ → Inner
  other_inner : Inner

pub data Event : Type 0 where
  system : String → Event
  stream_event : Inner → Event
  -- the texts of the blocks of type text
  assistant : List String → Event
  tool_use : String → Event
  -- the session's id, whether it is an error, and the text
  result : String → Bool → String → Event
  unhandled : Event

pub data Line : Type 0 where
  -- longer than the buffer
  oversized : Line
  -- empty, or not JSON
  unreadable : Line
  event : Event → Line

pub record Arrival : Type 0 where
  pub line : Line
  -- `cancel` is called before
  pub cancels : Bool
  -- the deadline of the task is over
  pub expired : Bool
  -- the process has ended, and a signal to it raises
  pub exited : Bool

pub record Stream : Type 0 where
  pub runtime : DirectRuntime
  pub accumulated : List String
  pub tool_blocks : Dict ℕ (String × String)
  pub shown : List (String × String)

unfoldable pub flush_progress : String → String → Stream → Stream
flush_progress delta tool_name s =
    if delta == "" && tool_name == ""
    then s
    else record s { shown = s.shown ++ (delta, tool_name) ∷ [] }

unfoldable pub handle_inner : Python → Inner → Stream → Stream
unfolding flush_progress format_tool_call
handle_inner py (text_delta text) s = flush_progress text "" s
handle_inner py (input_json_delta n part) s = elim (lookup n s.tool_blocks) [
  | none ↦ s
  | some (name, json) ↦ record s {
    tool_blocks = insert n (name, append_text json part) s.tool_blocks;
  }
]
handle_inner py (block_start n name) s =
    flush_progress "" (or_text name "tool")
      (record s { tool_blocks = insert n (or_text name "tool", "") s.tool_blocks })
handle_inner py (block_stop n) s = elim (lookup n s.tool_blocks) [
  | none ↦ s
  | some (name, json) ↦
      flush_progress "" (format_tool_call py name json)
        (record s { tool_blocks = erase n s.tool_blocks })
]
handle_inner py other_inner s = s

abbrev pub put_id : String → Stream → Stream
put_id id s =
    if id == "" then s else record s { runtime = record s.runtime { actual_id = some id } }

abbrev pub non_empty : List String → List String
non_empty = keep (λ t. not (t == ""))

unfoldable pub handle_event : Python → Event → Stream → Option Ending × Stream
unfolding handle_inner flush_progress
handle_event py (system id) s = (none, put_id id s)
handle_event py (stream_event inner) s = (none, handle_inner py inner s)
handle_event py (assistant texts) s =
    (none, record s { accumulated = s.accumulated ++ non_empty texts })
handle_event py (tool_use name) s = (none, flush_progress "" (or_text name "tool") s)
handle_event py (result id is_error text) s = (
  some (if is_error then failed runtime_error else returned (or_text text (joined s.accumulated))),
  put_id id s,
)
handle_event py unhandled s = (none, s)

abbrev pub on_runtime : (DirectRuntime → DirectRuntime) → Stream → Stream
on_runtime f s = record s { runtime = f s.runtime }

abbrev pub terminate_current : DirectRuntime → DirectRuntime
terminate_current r = elim r.current_proc [ none ↦ r | some p ↦ terminate p r ]

-- `proc.terminate()`, which raises where the process has ended, and then the ending.
abbrev pub ended_by : Bool → Ending → Stream → Option Ending × Stream
ended_by exited e s =
    if exited then (some (failed os_error), s) else (some e, on_runtime terminate_current s)

-- What is done with a line that is not too long.
unfoldable pub read_line : Python → Bool → Arrival → Stream → Option Ending × Stream
unfolding handle_event
read_line py bounded a s =
    if s.runtime.cancel_flag
    then ended_by a.exited (interrupted (joined s.accumulated)) s
    else if bounded && a.expired
    then ended_by a.exited timed_out s
    else (elim a.line [
      | oversized ↦ (none, s)
      | unreadable ↦ (none, s)
      | event e ↦ handle_event py e s
    ])

abbrev pub is_oversized : Line → Bool
is_oversized oversized = true
is_oversized unreadable = false
is_oversized (event _) = false

unfoldable pub take_line : Python → Bool → Arrival → Stream → Option Ending × Stream
unfolding read_line
take_line py bounded a s =
    let s' = if a.cancels then on_runtime cancel s else s in
    if is_oversized a.line then (none, s') else read_line py bounded a s'

-- The loop over the lines that arrive; `closed`: the output ends after them. `none` where it still waits for a line,
-- which it does without a limit.
unfoldable pub run : Python → Bool → Bool → List Arrival → Stream → Option Ending × Stream
unfolding take_line
run py bounded closed [] s = (if closed then some (returned (joined s.accumulated)) else none, s)
run py bounded closed (a ∷ later) s =
    let (ended, s') = take_line py bounded a s in
    elim ended [ some e ↦ (some e, s') | none ↦ run py bounded closed later s' ]

abbrev pub let_go : Option Ending × Stream → Option Ending × Stream
let_go (none, s) = (none, s)
let_go (some e, s) = (some e, on_runtime (λ r. record r { current_proc = none }) s)

abbrev pub spawn : ℕ → DirectRuntime → DirectRuntime
spawn now r = record r {
  last_access = now;
  cancel_flag = false;
  current_proc = some r.started;
  alive = true;
  started = suc r.started;
}

abbrev pub fresh : DirectRuntime → Stream
fresh r = record { runtime = r; accumulated = []; tool_blocks = []; shown = [] }

-- `written`: the prompt can be written to the process.
unfoldable pub execute :
    Python
    → ℕ
    → Bool
    → Stopping
    → Bool
    → Bool
    → List Arrival
    → DirectRuntime
    → Option Ending × Stream
unfolding run stop
execute py now written outcome bounded closed arrivals r =
    if written
    then let_go (run py bounded closed arrivals (fresh (spawn now r)))
    else (some (failed runtime_error), fresh (stop outcome (spawn now r)))
