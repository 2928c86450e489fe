-- ===== src/Acp/Process.antt =====
-- acp/runtime.py and the sending half of acp/client.py: `ACPRuntime` with the queue that its reader fills. What
-- the agent's process does is given: `ticks` are the messages that arrive by each `get` of a wait for a response,
-- and they end where its time is over; `writes` says of each write to stdin whether it succeeds, and none is left
-- where all do.
pub mod Waits
pub mod Starts
use Prim.Native.String.{◌++◌ as append_text}
use next_me.Common.{
  ℕ, suc, ◌+◌, ◌-◌, String, Bool, true, false, not, ◌&&◌, ◌||◌, Option, none, some, List, [], ◌∷◌,
  ◌++◌, ◌==◌, nat_comparable, string_comparable, if◌then◌else◌, ltb, leb, is_some, find, any,
  get_elem?, Result, ok, raised, Error, runtime_error, Action, return, raise, ◌>>=◌, ◌>>◌,
}
use next_me.Acp.Protocol.{
  PermissionOption, InboundPermissionRequest, RpcResult, Update, Message, Kind, response,
  notification, server_request, unknown, classify,
}

-- What the reader puts into the queue: a message, or the error at which it ends.
pub data Incoming : Type 0 where
  message : Message → Incoming
  failure : Incoming

pub data Method : Type 0 where
  initialize session_new : Method
  session_load session_cancel : String → Method
  session_prompt : String → String → Method

-- A line on the agent's stdin.
pub data Line : Type 0 where
  request : ℕ → Method → Line
  selected : Option ℕ → String → Line
  refusal : Option ℕ → Line

pub record AcpRuntime : Type 0 where
  pub permission_auto_approve : Bool
  pub progress_debounce : ℕ
  -- "" for none
  pub actual_id : String
  -- the number of the process at hand, and whether it runs
  pub proc : Option ℕ
  pub alive : Bool
  pub ready : Bool
  pub req_id : ℕ
  pub msg_queue : List Incoming
  pub lines : List Line
  -- how many processes were started, and which were terminated
  pub started : ℕ
  pub terminated : List ℕ
  pub last_access : ℕ
  pub ticks : List (List Incoming)
  pub writes : List Bool

abbrev pub is_running : AcpRuntime → Bool
is_running r = is_some r.proc && r.alive

-- ACPClient._send_raw, and the end of send_request
unfoldable pub send_raw : Line → Action AcpRuntime (Unit {0})
send_raw line r = elim r.writes [
  | [] ↦ (ok tt, record r { lines = r.lines ++ line ∷ [] })
  | fine ∷ rest ↦
      if fine
      then (ok tt, record r { lines = r.lines ++ line ∷ []; writes = rest })
      else (raised runtime_error, record r { writes = rest })
]

-- The id is counted up before the line is written.
unfoldable pub send_request : Method → Action AcpRuntime ℕ
send_request method r =
    (do send_raw (request (r.req_id + 1) method); return (r.req_id + 1))
      (record r { req_id = r.req_id + 1 })

-- How a wait for a response ends.
pub data Waited : Type 0 where
  answered : RpcResult → Waited
  refused broke out_of_time : Waited

abbrev pub is_number : ℕ → Option ℕ → Bool
is_number req_id none = false
is_number req_id (some id) = id == req_id

abbrev pub is_response_to : ℕ → Message → Bool
is_response_to req_id msg = elim (classify msg) [ response ↦ is_number req_id msg.id | _ ↦ false ]

abbrev pub no_result : RpcResult
no_result = record {
  session_id_camel = "";
  session_id_snake = "";
  plain_id = "";
  session = "";
  output = "";
  text = "";
  content = "";
}

abbrev pub result_of : Message → RpcResult
result_of msg = elim msg.result [ none ↦ no_result | some result ↦ result ]

abbrev pub response_result : Message → Waited
response_result msg = elim msg.error [ none ↦ answered (result_of msg) | some _ ↦ refused ]

-- The loop of _wait_response with its `finally`: how it ends, the queue and the ticks that are left.
unfoldable pub wait_loop :
    ℕ
    → List Incoming
    → List Incoming
    → List (List Incoming)
    → Waited × List Incoming × List (List Incoming)
wait_loop req_id stashed queue [] = (out_of_time, queue ++ stashed, [])
wait_loop req_id stashed queue (arrived ∷ later) = elim (queue ++ arrived) [
  | [] ↦ (out_of_time, stashed, later)
  | failure ∷ rest ↦ (broke, rest ++ stashed, later)
  | message msg ∷ rest ↦ elim (is_response_to req_id msg) [
    | true ↦ (response_result msg, rest ++ stashed, later)
    | false ↦ wait_loop req_id (stashed ++ message msg ∷ []) rest later
  ]
]

unfoldable pub wait_for : ℕ → AcpRuntime → Waited × AcpRuntime
wait_for req_id r =
    let (waited, queue, later) = wait_loop req_id [] r.msg_queue r.ticks in
    (waited, record r { msg_queue = queue; ticks = later })

abbrev pub raise_waited : Waited → Result RpcResult
raise_waited (answered result) = ok result
raise_waited _ = raised runtime_error

unfoldable pub wait_response : ℕ → Action AcpRuntime RpcResult
wait_response req_id r = let (waited, r') = wait_for req_id r in (raise_waited waited, r')

unfoldable pub stop : AcpRuntime → AcpRuntime
stop r = elim r.proc [
  | none ↦ r
  | some p ↦ record r {
    proc = none;
    ready = false;
    alive = false;
    terminated = if r.alive then r.terminated ++ p ∷ [] else r.terminated;
  }
]

abbrev pub spawn : AcpRuntime → AcpRuntime
spawn r = record r {
  proc = some r.started;
  started = r.started + 1;
  alive = true;
  ready = false;
  req_id = 0;
  msg_queue = [];
}

abbrev pub initialized : Waited × AcpRuntime → Result (Unit {0}) × AcpRuntime
initialized (answered result, r) = (ok tt, record r { ready = true })
initialized (out_of_time, r) = (raised runtime_error, stop r)
initialized (refused, r) = (raised runtime_error, r)
initialized (broke, r) = (raised runtime_error, r)

-- _do_initialize under its time limit
unfoldable pub negotiate : Action AcpRuntime (Unit {0})
negotiate = do req_id ← send_request initialize; λ r. initialized (wait_for req_id r)

unfoldable pub ensure_ready : Action AcpRuntime (Unit {0})
ensure_ready r = if r.ready && is_running r then return tt r else negotiate (spawn r)

-- Whatever the sending raises is caught.
unfoldable pub cancel : AcpRuntime → AcpRuntime
cancel r =
    if not (is_running r) || r.actual_id == ""
    then r
    else (send_request (session_cancel r.actual_id) r).1

unfoldable pub reset_session : AcpRuntime → AcpRuntime
reset_session r = record r { actual_id = "" }

unfoldable pub restore_session : String → AcpRuntime → AcpRuntime
restore_session actual_id r = record r { actual_id = actual_id }

abbrev pub unless_failed : Result RpcResult × AcpRuntime → AcpRuntime
unless_failed (ok result, r) = r
unless_failed (raised e, r) = record r { actual_id = "" }

unfoldable pub load_session : AcpRuntime → AcpRuntime
load_session r =
    if r.actual_id == ""
    then r
    else unless_failed
        ((do req_id ← send_request (session_load r.actual_id); wait_response req_id) r)

abbrev pub or_text : String → String → String
or_text a b = if a == "" then b else a

abbrev pub session_id_of : RpcResult → String
session_id_of resp =
    or_text resp.session_id_camel
      (or_text resp.session_id_snake (or_text resp.plain_id resp.session))

unfoldable pub new_session : Action AcpRuntime (Unit {0})
new_session r =
    if r.actual_id == ""
    then (do
      req_id ← send_request session_new
      resp ← wait_response req_id
      λ r'. return tt (record r' { actual_id = session_id_of resp }))
        r
    else return tt r

-- `execute` up to its loop: the id of the prompt's request.
unfoldable pub submit : ℕ → String → Action AcpRuntime ℕ
submit now content = do
  ensure_ready
  λ r.
      (do new_session; λ r'. send_request (session_prompt r'.actual_id content) r')
        (load_session (record r { last_access = now }))
