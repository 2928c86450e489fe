-- ===== src/Acp/Protocol.antt =====
-- acp/protocol.py: the messages of JSON-RPC, as `json.loads` gives them, with the keys that
-- acp/runtime.py reads. A text that is missing is "".
use next_me.Common.{ℕ, String, not, ◌&&◌, ◌||◌, Option, List, if◌then◌else◌, is_some}

pub record PermissionOption : Type 0 where
  pub option_id : String
  pub name : String
  pub kind : String

-- `params` of a request for permission: the options, and the title of the tool's call, or else its description.
pub record InboundPermissionRequest : Type 0 where
  pub title : String
  pub description : String
  pub options : List PermissionOption

-- The keys of a `result` that are read.
pub record RpcResult : Type 0 where
  pub session_id_camel : String
  pub session_id_snake : String
  pub plain_id : String
  pub session : String
  pub output : String
  pub text : String
  pub content : String

-- `params.update` of a notification.
pub record Update : Type 0 where
  pub session_update : String
  pub text : String
  pub title : String
  pub name : String
  pub tool : String

-- `error` is its message; `permission` is `none` where parse_permission_request raises.
pub record Message : Type 0 where
  pub id : Option ℕ
  pub method : Option String
  pub result : Option RpcResult
  pub error : Option String
  pub update : Update
  pub permission : Option InboundPermissionRequest

pub data Kind : Type 0 where
  response notification server_request unknown : Kind

unfoldable pub classify : Message → Kind
classify msg =
    let has_id = is_some msg.id in
    let has_method = is_some msg.method in
    let has_result = is_some msg.result || is_some msg.error in
    if has_id && has_result && not has_method
    then response
    else if has_method && not has_id
    then notification
    else if has_method && has_id
    then server_request
    else unknown
