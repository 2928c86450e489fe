-- ===== src/Feishu/Buttons.antt =====
-- feishu/handler.py: `_on_card_action`, the clicks on the buttons of cards. The value of a button is a dictionary of
-- texts, the one that the bot has put on it, whose index is no negative number. What the bot is called with is
-- given back beside the answer that the chat shows.
use next_me.Common.{
  ℕ, String, Bool, not, ◌||◌, Option, none, some, List, [], ◌∷◌, ◌==◌, string_comparable,
  if◌then◌else◌, Dict, get_or, insert,
}

pub record CardEvent : Type 0 where
  -- the event and its action are there
  pub has_action : Bool
  pub value : Dict String String
  -- "" where the event does not hold them
  pub operator_id : String
  pub chat_id : String
  pub message_id : String

pub data Call : Type 0 where
  acl_card_action hook_task : Dict String String → Call
  permission_action : String → ℕ → String → Call

-- The card that takes the place of the one with the buttons.
pub data Replacement : Type 0 where
  -- the application, and whether it is approved
  reviewing : String → Bool → Replacement
  applied : Replacement
  -- the label, and the parts of the footer
  chosen : String → List String → Replacement

pub record Response : Type 0 where
  pub toast : Option String
  pub card : Option Replacement

abbrev pub silent : Response
silent = record { toast = none; card = none }

-- `value.get(key, "")`
abbrev pub text_at : String → Dict String String → String
text_at key value = get_or key "" value

abbrev pub if_running : Bool → Call → List Call
if_running running call = if running then call ∷ [] else []

unfoldable pub acl_button : Bool → CardEvent → List Call × Response
acl_button running event = (
  if_running running (acl_card_action (insert "operator_id" event.operator_id event.value)),
  record {
    toast = some "已收到";
    card =
        if text_at "action" event.value == "acl_review"
        then some (
            reviewing (text_at "app_id" event.value) (text_at "decision" event.value == "approved"))
        else some applied;
  },
)

unfoldable pub hook_button : (String → String) → Bool → CardEvent → List Call × Response
hook_button strip running event =
    if strip (text_at "hook" event.value) == "" then ([], silent) else (
      if_running running (
          hook_task (
            insert "message_id" event.message_id (
              insert "chat_id" event.chat_id
                (insert "operator_id" event.operator_id event.value)))),
      record { toast = some "正在处理…"; card = none },
    )

abbrev pub footer : Dict String String → List String
footer value =
    let id =
      (if text_at "display_id" value == ""
        then text_at "session_id" value
        else text_at "display_id" value) in
    let executor = text_at "executor" value in
    if executor == "" then id ∷ [] else id ∷ executor ∷ []

unfoldable pub permission_button : (String → Option ℕ) → Bool → CardEvent → List Call × Response
permission_button to_int running event =
    let session_id = text_at "session_id" event.value in
    let index_text = text_at "index" event.value in
    if session_id == "" || index_text == "" then ([], silent) else (elim (to_int index_text) [
      | none ↦ ([], silent)
      | some index ↦ (
        if_running running
            (permission_action session_id index (text_at "project_name" event.value)),
        record {
          toast = some "已收到";
          card = some (chosen (get_or "label" index_text event.value) (footer event.value));
        },
      )
    ])

-- `strip` is that of `str`, and `to_int` is `int` of a text, `none` where it raises.
unfoldable pub on_card_action :
    (String → String) → (String → Option ℕ) → Bool → CardEvent → List Call × Response
on_card_action strip to_int running event =
    let action = text_at "action" event.value in
    if not event.has_action
    then ([], silent)
    else if action == "acl_apply" || action == "acl_review"
    then acl_button running event
    else if action == "nextme_hook"
    then hook_button strip running event
    else if action == "permission_choice"
    then permission_button to_int running event
    else ([], silent)
