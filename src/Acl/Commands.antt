-- ===== src/Acl/Commands.antt =====
-- The `/acl` commands: `handle_acl_*` of core/commands.py, and the guards and the choice of
-- `_handle_acl_command` in core/dispatcher.py, from the point where the text is split into words
-- and the application's id is read. A handler answers with one message, a value of `Answer`; that
-- sending it may fail is not modelled.
pub mod Escalation
use next_me.Common.{
  ℕ, String, Bool, ◌||◌, not, none, some, List, ◌==◌, string_comparable, if◌then◌else◌, elem, Error,
  value_error, ok, raised, Action, return, ◌>>=◌,
}
use next_me.Acl.Schema.{
  Role, admin, owner, collaborator, role_comparable, role_of_value, AclUser, AclApplication,
}
use next_me.Acl.Manager
use next_me.Acl.Manager.{AclManager, can_add, can_remove, can_review, get_admin_ids}

pub data Answer : Type 0 where
  listing : List String → List AclUser → List AclUser → Answer
  pending_list : List AclApplication → Answer
  unknown_role : String → Answer
  no_admin_by_command cannot_add cannot_remove cannot_review no_permission failed : Answer
  added : String → Role → Answer
  is_an_admin : Answer
  user_not_found removed : String → Answer
  application_not_found already_processed approved_app rejected_app : ℕ → Answer

-- `try: ... except Exception:`
abbrev pub handled : {S A B : Type 0} → Action S A → (A → B) → (Error → B) → Action S B
handled m f g s = let (r, s') = m s in (elim r [ ok a ↦ ok (f a) | raised e ↦ ok (g e) ], s')

-- `get_admin_ids` reads the set of administrators
abbrev listed_admin : String → AclManager → Bool
listed_admin target_id s = elem target_id (get_admin_ids s)

unfoldable pub handle_acl_list : Action AclManager Answer
handle_acl_list = do
  admin_ids ← Manager.asks get_admin_ids
  owners ← Manager.list_users (some owner)
  collaborators ← Manager.list_users (some collaborator)
  return (listing admin_ids owners collaborators)

-- `lower` is `str.lower`; an empty text stands for a collaborator
unfoldable pub handle_acl_add :
    (String → String) → ℕ → String → Role → String → String → Action AclManager Answer
handle_acl_add lower now actor_id actor_role target_id target_role_str =
    elim (if target_role_str == ""
      then some collaborator
      else role_of_value (lower target_role_str)) [
        | none ↦ return (unknown_role target_role_str)
        | some target_role ↦
            if target_role == admin
            then return no_admin_by_command
            else if not (can_add actor_role target_role)
            then return cannot_add
            else handled (Manager.add_user now target_id target_role "" actor_id)
                (λ _. added target_id target_role) (λ _. failed)
      ]

unfoldable pub handle_acl_remove : Role → String → Action AclManager Answer
handle_acl_remove actor_role target_id = do
  listed ← Manager.asks (listed_admin target_id)
  if listed then return is_an_admin else do
    target ← Manager.get_user target_id
    elim target [
      | none ↦ return (user_not_found target_id)
      | some user ↦ do
        allowed ← Manager.asks (λ s. can_remove s actor_role user)
        if not allowed
            then return cannot_remove
            else handled (Manager.remove_user target_id) (λ _. removed target_id)
                (λ e. elim e [ value_error ↦ is_an_admin | _ ↦ failed ])
    ]

unfoldable pub handle_acl_pending : Role → Action AclManager Answer
handle_acl_pending viewer_role = do
  applications ← Manager.list_pending viewer_role
  return (pending_list applications)

unfoldable pub handle_acl_approve : ℕ → ℕ → ℕ → String → Role → Action AclManager Answer
handle_acl_approve now later app_id reviewer_id reviewer_role = do
  found ← Manager.get_application app_id
  elim found [
    | none ↦ return (application_not_found app_id)
    | some app ↦
        if not (can_review reviewer_role app.requested_role) then return cannot_review else do
          result ← Manager.approve now later app_id reviewer_id
          elim result [
            | none ↦ return (already_processed app_id)
            | some updated ↦ return (approved_app app_id)
          ]
  ]

unfoldable pub handle_acl_reject : ℕ → ℕ → String → Role → Action AclManager Answer
handle_acl_reject now app_id reviewer_id reviewer_role = do
  found ← Manager.get_application app_id
  elim found [
    | none ↦ return (application_not_found app_id)
    | some app ↦
        if not (can_review reviewer_role app.requested_role) then return cannot_review else do
          result ← Manager.reject now app_id reviewer_id
          elim result [
            | none ↦ return (already_processed app_id)
            | some updated ↦ return (rejected_app app_id)
          ]
  ]

-- The words of one `/acl` line.
pub data AclCommand : Type 0 where
  list : AclCommand
  add : String → String → AclCommand
  remove : String → AclCommand
  pending : AclCommand
  approve reject : ℕ → AclCommand

abbrev reviews : Role → Bool
reviews caller_role = caller_role == admin || caller_role == owner

unfoldable pub handle_acl_command :
    (String → String) → ℕ → ℕ → AclCommand → Role → String → Action AclManager Answer
handle_acl_command lower now later list caller_role caller_id = handle_acl_list
handle_acl_command lower now later (add target_id role_str) caller_role caller_id =
    handle_acl_add lower now caller_id caller_role target_id role_str
handle_acl_command lower now later (remove target_id) caller_role caller_id =
    handle_acl_remove caller_role target_id
handle_acl_command lower now later pending caller_role caller_id =
    if not (reviews caller_role) then return no_permission else handle_acl_pending caller_role
handle_acl_command lower now later (approve app_id) caller_role caller_id =
    if not (reviews caller_role)
    then return no_permission
    else handle_acl_approve now later app_id caller_id caller_role
handle_acl_command lower now later (reject app_id) caller_role caller_id =
    if not (reviews caller_role)
    then return no_permission
    else handle_acl_reject now app_id caller_id caller_role
