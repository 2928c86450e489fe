-- ===== src/Acl/Cards.antt =====
-- The buttons of the cards on roles: `handle_acl_card_action` of core/dispatcher.py, from the point where
-- the fields of the card are read and the application's id is a number, `none` where it is not one. The
-- messages whose sending is tried are in the order of sending, and `message_id` gives the id of the one
-- to a user, `none` where the sending fails or gives no id.

pub mod Grants
use next_me.Common.{
  ℕ, String, not, ◌&&◌, Option, none, some, List, [], ◌∷◌, ◌++◌, map, Dict, lookup, insert, erase,
  ◌==◌, nat_comparable, string_comparable, if◌then◌else◌, Action, return, ◌>>=◌,
}
use next_me.Acl.Schema.{
  Role, admin, role_comparable, role_of_value, Status, pending, approved, rejected,
  status_comparable, AclApplication,
}
use next_me.Acl.Manager
use next_me.Acl.Manager.{
  AclManager, get_role, get_application, create_application, get_reviewers_for_role, can_review,
  approve, reject,
}

pub data Note : Type 0 where
  -- to a reviewer, about an application
  review_request : String → ℕ → Note
  -- the card with this id shows the decision
  decided_card : String → ℕ → Status → Note
  -- to a user
  not_pending : String → ℕ → Option Status → Note
  granted : String → Role → Note
  denied : String → Note
  has_approved has_rejected : String → ℕ → Note

pub record Desk : Type 0 where
  pub manager : AclManager
  -- `_review_notification_msgs`
  pub notified : Dict ℕ (List String)
  pub sent : List Note

pub data CardAction : Type 0 where
  -- `open_id` and the role
  acl_apply : String → String → CardAction
  -- the application and the decision
  acl_review : Option ℕ → String → CardAction

abbrev on_manager : {A : Type 0} → Action AclManager A → Action Desk A
on_manager m desk = let (r, manager) = m desk.manager in (r, record desk { manager = manager })

abbrev change : (Desk → Desk) → Action Desk (Unit {0})
change f desk = return tt (f desk)

abbrev say : List Note → Desk → Desk
say notes desk = record desk { sent = desk.sent ++ notes }

-- The ids of the messages to the reviewers.
unfoldable pub notify_ids : (String → Option String) → List String → List String
notify_ids message_id [] = []
notify_ids message_id (reviewer ∷ rest) = elim (message_id reviewer) [
  | none ↦ notify_ids message_id rest
  | some id ↦ id ∷ notify_ids message_id rest
]

unfoldable pub notify : (String → Option String) → ℕ → List String → Desk → Desk
unfolding notify_ids
notify message_id app_id reviewers desk =
    let told = say (map (λ reviewer. review_request reviewer app_id) reviewers) desk in
    elim (notify_ids message_id reviewers) [
      | [] ↦ told
      | id ∷ ids ↦ record told { notified = insert app_id (id ∷ ids) told.notified }
    ]

unfoldable pub handle_acl_apply_action :
    (String → Option String) → ℕ → String → String → String → Action Desk (Unit {0})
unfolding notify
handle_acl_apply_action message_id now operator_id open_id role_str =
    if open_id == ""
    then return tt
    else if not (operator_id == "") && not (operator_id == open_id)
    then return tt
    else elim (role_of_value role_str) [
      | none ↦ return tt
      | some requested_role ↦ if requested_role == admin then return tt else do
        existing_role ← on_manager (get_role open_id)
        elim existing_role [
          | some role ↦ return tt
          | none ↦ do
            (new_id, existing_app) ← on_manager (create_application now open_id "" requested_role)
            elim new_id [
              | none ↦ return tt
              | some app_id ↦ do
                reviewers ← on_manager (get_reviewers_for_role requested_role)
                change (notify message_id app_id reviewers)
            ]
        ]
    ]

-- `_review_notification_msgs.pop(app_id, [])`, and each of the cards shows the decision.
abbrev pop_cards : ℕ → Status → Desk → Desk
pop_cards app_id status desk = elim (lookup app_id desk.notified) [
  | none ↦ desk
  | some ids ↦
      say (map (λ id. decided_card id app_id status) ids)
        (record desk { notified = erase app_id desk.notified })
]

unfoldable pub decide : ℕ → ℕ → ℕ → String → String → AclApplication → Action Desk (Unit {0})
decide now later app_id decision operator_id app =
    if decision == "approved"
    then (on_manager (approve now later app_id operator_id) >>= λ result. elim result [
      | none ↦ return tt
      | some after ↦ change (λ desk.
          say (granted app.applicant_id after.requested_role ∷ has_approved operator_id app_id ∷ [])
            (pop_cards app_id approved desk))
    ])
    else if decision == "rejected"
    then (on_manager (reject now app_id operator_id) >>= λ result. elim result [
      | none ↦ return tt
      | some after ↦ change (λ desk.
          say (denied app.applicant_id ∷ has_rejected operator_id app_id ∷ [])
            (pop_cards app_id rejected desk))
    ])
    else return tt

abbrev status_of : Option AclApplication → Option Status
status_of none = none
status_of (some app) = some app.status

abbrev open_app : Option AclApplication → Option AclApplication
open_app none = none
open_app (some app) = if app.status == pending then some app else none

unfoldable pub handle_acl_review_action :
    ℕ → ℕ → String → Option ℕ → String → Action Desk (Unit {0})
unfolding decide
handle_acl_review_action now later operator_id none decision = return tt
handle_acl_review_action now later operator_id (some app_id) decision =
    if decision == ""
    then return tt
    else if operator_id == ""
    then return tt
    else (on_manager (get_role operator_id) >>= λ reviewer_role. elim reviewer_role [
      | none ↦ return tt
      | some role ↦ on_manager (get_application app_id) >>= λ found. elim (open_app found) [
        | none ↦ change (say (not_pending operator_id app_id (status_of found) ∷ []))
        | some app ↦
            if can_review role app.requested_role
            then decide now later app_id decision operator_id app
            else return tt
      ]
    ])

unfoldable pub handle_acl_card_action :
    (String → Option String) → ℕ → ℕ → String → CardAction → Action Desk (Unit {0})
unfolding handle_acl_apply_action handle_acl_review_action
handle_acl_card_action message_id now later operator_id (acl_apply open_id role_str) =
    handle_acl_apply_action message_id now operator_id open_id role_str
handle_acl_card_action message_id now later operator_id (acl_review app_id decision) =
    handle_acl_review_action now later operator_id app_id decision
