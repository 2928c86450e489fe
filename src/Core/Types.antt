-- ===== src/Core/Types.antt =====
-- protocol/types.py: statuses, permission options and tasks. A reply function is
-- carried along unread by the modelled code, and is left out.
use next_me.Common.{ℕ, String, List, Bool}

pub data TaskStatus : Type 0 where
  idle queued waiting_lock executing waiting_permission done canceled : TaskStatus

pub record PermOption : Type 0 where
  pub index : ℕ
  pub label : String
  pub description : String

pub record PermissionChoice : Type 0 where
  pub request_id : String
  -- counted from 1
  pub option_index : ℕ
  pub option_label : String

pub record Task : Type 0 where
  pub id : String
  pub content : String
  -- "chatID:userID"
  pub session_id : String
  pub message_id : String
  pub chat_type : String
  -- seconds
  pub timeout : ℕ
  pub canceled : Bool
  pub was_queued : Bool
  -- open ids and names
  pub mentions : List (String × String)
  pub user_id : String
  pub thread_root_id : String
