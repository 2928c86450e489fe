-- ===== src/Acl/Cards/Grants.antt =====
-- Which roles the buttons of the cards can give: core/dispatcher.py over acl/manager.py.
use mathlib.Core.Option
use next_me.Common.{
  ℕ, String, ◌≡◌, refl, ap, ◌∙◌, ◌⊎◌, inl, inr, true, ◌||◌, Option, none, some, arith, ◌==◌,
  nat_comparable, string_comparable, if◌then◌else◌, elem, ok, raised, Error, runtime_error, ◌>>=◌,
  Bool-cases, Option-cases,
}
use next_me.Acl.Schema.{Role, role_comparable, AclApplication, AppRow, pending, status_comparable}
use next_me.Acl.Db.{row_to_application}
use next_me.Acl.Db.Users
use next_me.Acl.Db.Applications
use next_me.Acl.Manager.{
  AclManager, get_role, get_application, create_application, get_reviewers_for_role, can_review,
  approve, reject,
}
use next_me.Acl.Manager.Roles.{stored_role, role_in}
use next_me.Acl.Manager.Reviews.{row_of}
use next_me.Acl.Commands.Escalation.{approve-found}
use next_me.Acl.Cards.{
  Desk, CardAction, acl_apply, acl_review, notify, handle_acl_apply_action,
  handle_acl_review_action, decide, handle_acl_card_action,
}

apply-users :
    (message_id : String → Option String) (now : ℕ) (operator_id open_id role_str : String)
    (desk : Desk)
    → (handle_acl_apply_action message_id now operator_id open_id role_str desk).1.manager.db.users
      ≡ desk.manager.db.users
unfolding handle_acl_apply_action get_role create_application get_reviewers_for_role Users.get_user
    Users.list_users Applications.get_pending_application Applications.create_application notify
    ◌>>=◌
apply-users message_id now operator_id open_id role_str desk = ground arith

reject-users :
    (now app_id : ℕ) (by : String) (s : AclManager)
    → (reject now app_id by s).1.db.users ≡ s.db.users
unfolding reject Applications.get_application Applications.update_application_status ◌>>=◌
reject-users now app_id by s = ground arith

-- The role comes from a reviewer who may give it.
pub record IsGranted (s : AclManager) (operator_id : String) (after : Option Role) : Type 0 where
  by : Role
  role : Role
  reviewer : role_in s operator_id ≡ some by
  may : can_review by role ≡ true
  gives : after ≡ some role

-- What a button leaves of a user's stored role.
abbrev pub IsFair : String → AclManager → AclManager → String → Type 0
IsFair id s s' operator_id =
    (stored_role id s'.db ≡ stored_role id s.db) ⊎ IsGranted s operator_id (stored_role id s'.db)

decide_lem :
    (now later app_id : ℕ) (decision operator_id : String) (app : AclApplication) (desk : Desk)
    → (decide now later app_id decision operator_id app desk).1.manager ≡ (
        if decision == "approved"
        then (approve now later app_id operator_id desk.manager).1
        else if decision == "rejected"
        then (reject now app_id operator_id desk.manager).1
        else desk.manager)
unfolding decide ◌>>=◌
decide_lem now later app_id decision operator_id app desk = ground arith

decide_role :
    (now later app_id : ℕ) (decision operator_id id : String) (app : AclApplication) (desk : Desk)
    (row : AppRow)
    → row_of app_id desk.manager.db ≡ some row
    → let s' = (decide now later app_id decision operator_id app desk).1.manager in
      (stored_role id s'.db ≡ stored_role id desk.manager.db)
      ⊎ (stored_role id s'.db ≡ some row.requested_role)
decide_role now later app_id decision operator_id id app desk row found =
    let made = decide_lem now later app_id decision operator_id app desk in
    elim (Bool-cases (decision == "approved")) [
      | inl approves ↦ elim (approve-found id desk.manager now later app_id operator_id row found) [
        | inl stays ↦ inl (ground (arith, made, stays))
        | inr given ↦ inr (ground (arith, made, given))
      ]
      | inr other ↦ inl (ground (arith, made, reject-users now app_id operator_id desk.manager))
    ]

get_role_lem :
    (id : String) (s : AclManager)
    → (get_role id s ≡ (ok (role_in s id), s)) ⊎ ((e : Error) × (get_role id s ≡ (raised e, s)))
unfolding get_role Users.get_user ◌>>=◌
get_role_lem id s = elim (Bool-cases s.db.is_open) [
  | inl opened ↦ inl (ground arith)
  | inr shut ↦ elim (Bool-cases (elem id s.admin_users)) [
    | inl listed ↦ inl (ground arith)
    | inr stored ↦ inr (runtime_error, ground arith)
  ]
]

get_application_lem :
    (app_id : ℕ) (s : AclManager)
    → (get_application app_id s ≡ (ok (Option.map row_to_application (row_of app_id s.db)), s))
      ⊎ ((e : Error) × (get_application app_id s ≡ (raised e, s)))
unfolding get_application Applications.get_application ◌>>=◌
get_application_lem app_id s = elim (Bool-cases s.db.is_open) [
  | inl opened ↦ inl (ground arith)
  | inr shut ↦ inr (runtime_error, ground arith)
]

-- Where it gets that far, a review decides on a pending application with a role that may review it.
data Reviewed (now later app_id : ℕ) (operator_id decision : String) (desk : Desk) : Type 0 where
  kept :
      (handle_acl_review_action now later operator_id (some app_id) decision desk).1.manager
        ≡ desk.manager
      → Reviewed now later app_id operator_id decision desk
  decided :
      (by : Role) (row : AppRow)
      → role_in desk.manager operator_id ≡ some by
      → row_of app_id desk.manager.db ≡ some row
      → can_review by row.requested_role ≡ true
      → (handle_acl_review_action now later operator_id (some app_id) decision desk).1.manager
        ≡ (decide now later app_id decision operator_id (row_to_application row) desk).1.manager
      → Reviewed now later app_id operator_id decision desk

reviewed :
    (now later app_id : ℕ) (operator_id decision : String) (desk : Desk)
    → Reviewed now later app_id operator_id decision desk
unfolding handle_acl_review_action ◌>>=◌
reviewed now later app_id operator_id decision desk = elim (get_role_lem operator_id desk.manager) [
  | inr (e, fails) ↦ kept (ground arith)
  | inl role_known ↦ elim (get_application_lem app_id desk.manager) [
    | inr (e, fails) ↦ kept (ground arith)
    | inl app_known ↦ elim (Option-cases (role_in desk.manager operator_id)) [
      | inl nobody ↦ kept (ground arith)
      | inr (by, known) ↦ elim (Option-cases (row_of app_id desk.manager.db)) [
        | inl missing ↦ kept (ground arith)
        | inr (row, found) ↦ elim (Bool-cases ((row_to_application row).status == pending)) [
          | inr processed ↦ kept (ground arith)
          | inl waits ↦ elim (Bool-cases (can_review by (row_to_application row).requested_role)) [
            | inr may_not ↦ kept (ground arith)
            | inl may ↦ elim (Bool-cases (decision == "" || operator_id == "")) [
              | inl nothing ↦ kept (ground arith)
              | inr given ↦
                  decided by row known found (unfold row_to_application in ground arith)
                    (ground arith)
            ]
          ]
        ]
      ]
    ]
  ]
]

review-IsFair :
    (now later : ℕ) (operator_id : String) (app_id : Option ℕ) (decision id : String) (desk : Desk)
    → IsFair id desk.manager
        (handle_acl_review_action now later operator_id app_id decision desk).1.manager
        operator_id
review-IsFair now later operator_id none decision id desk =
    inl (unfold handle_acl_review_action in refl)
review-IsFair now later operator_id (some app_id) decision id desk =
    elim (reviewed now later app_id operator_id decision desk) [
      | kept same ↦ inl (ap (λ s. stored_role id s.db) same)
      | decided by row known found may same ↦
          elim (decide_role now later app_id decision operator_id id (row_to_application row) desk
            row found) [
              | inl stays ↦ inl (ap (λ s. stored_role id s.db) same ∙ stays)
              | inr given ↦ inr (record {
                by = by;
                role = row.requested_role;
                reviewer = known;
                may = may;
                gives = ap (λ s. stored_role id s.db) same ∙ given;
              })
            ]
    ]

-- A button of a card leaves everybody's stored role as it was, or the user who has pressed it has a
-- role that may review the role that is given: an application alone gives nothing, and nobody gives a
-- role by a card that they could not give by `can_review`.
pub card_action-IsFair :
    (message_id : String → Option String) (now later : ℕ) (operator_id id : String)
    (action : CardAction) (desk : Desk)
    → let after = (handle_acl_card_action message_id now later operator_id action desk).1.manager in
      (stored_role id after.db ≡ stored_role id desk.manager.db)
      ⊎ IsGranted desk.manager operator_id (stored_role id after.db)
unfolding handle_acl_card_action
card_action-IsFair message_id now later operator_id id (acl_apply open_id role_str) desk =
    inl (ground (arith, apply-users message_id now operator_id open_id role_str desk))
card_action-IsFair message_id now later operator_id id (acl_review app_id decision) desk =
    review-IsFair now later operator_id app_id decision id desk
