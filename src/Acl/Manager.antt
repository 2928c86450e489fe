-- ===== src/Acl/Manager.antt =====
-- acl/manager.py: `AclManager`, over the database and the administrators of settings.json.
pub mod Roles
pub mod Reviews
pub mod Calls
pub mod Final
pub mod Reviewers
use mathlib.Core.Option
use next_me.Common.{
  ℕ, String, Bool, true, false, ◌&&◌, ◌||◌, not, Option, none, some, List, [], ◌++◌, map, ◌==◌,
  string_comparable, if◌then◌else◌, elem, Action, return, raise, ◌>>=◌, ◌>>◌, value_error,
}
use next_me.Acl.Schema.{
  Role, admin, owner, collaborator, role_comparable, pending, approved, rejected, status_comparable,
  AclUser, AclApplication,
}
use next_me.Acl.Db.{AclDb}
use next_me.Acl.Db.Users
use next_me.Acl.Db.Applications

pub record AclManager : Type 0 where
  pub db : AclDb
  -- a set: the order and the repetitions of its elements are never looked at
  pub admin_users : List String

-- A method of the database, called by the manager.
abbrev pub on_db : {A : Type 0} → Action AclDb A → Action AclManager A
on_db m s = let (r, db') = m s.db in (r, record s { db = db' })

abbrev pub asks : {A : Type 0} → (AclManager → A) → Action AclManager A
asks f s = return (f s) s

abbrev pub get_admin_ids : AclManager → List String
get_admin_ids s = s.admin_users

abbrev pub is_admin : String → AclManager → Bool
is_admin open_id s = elem open_id s.admin_users

unfoldable pub reload_admin_users : List String → AclManager → AclManager
reload_admin_users admin_users s = record s { admin_users = admin_users }

unfoldable pub get_role : String → Action AclManager (Option Role)
get_role open_id = do
  listed ← asks (is_admin open_id)
  if listed
      then return (some admin)
      else do user ← on_db (Users.get_user open_id); return (Option.map (λ u. u.role) user)

unfoldable pub get_user : String → Action AclManager (Option AclUser)
get_user open_id = on_db (Users.get_user open_id)

unfoldable pub get_application : ℕ → Action AclManager (Option AclApplication)
get_application app_id = on_db (Applications.get_application app_id)

unfoldable pub add_user : ℕ → String → Role → String → String → Action AclManager (Unit {0})
add_user now open_id role display_name added_by =
    if role == admin
    then raise value_error
    else on_db (Users.add_user now open_id role display_name added_by)

unfoldable pub remove_user : String → Action AclManager Bool
remove_user open_id = do
  listed ← asks (is_admin open_id)
  if listed then raise value_error else on_db (Users.remove_user open_id)

unfoldable pub list_users : Option Role → Action AclManager (List AclUser)
list_users role = on_db (Users.list_users role)

-- the new id, or the pending application that stands in the way
unfoldable pub create_application :
    ℕ → String → String → Role → Action AclManager (Option ℕ × Option AclApplication)
create_application now applicant_id applicant_name requested_role = do
  existing ← on_db (Applications.get_pending_application applicant_id)
  elim existing [
    | some app ↦ return (none, some app)
    | none ↦ do
      new_id ←
          on_db (Applications.create_application now applicant_id applicant_name requested_role)
      return (new_id, none)
  ]

-- `now` is the time of the UPDATE, and `later` that of the INSERT after it.
unfoldable pub approve : ℕ → ℕ → ℕ → String → Action AclManager (Option AclApplication)
approve now later app_id reviewer_id = do
  found ← on_db (Applications.get_application app_id)
  elim found [
    | none ↦ return none
    | some app ↦ if not (app.status == pending) then return none else do
      updated ← on_db (Applications.update_application_status now app_id approved reviewer_id)
      if not updated then return none else do
        on_db (
            Users.add_user later app.applicant_id app.requested_role app.applicant_name reviewer_id)
        on_db (Applications.get_application app_id)
  ]

unfoldable pub reject : ℕ → ℕ → String → Action AclManager (Option AclApplication)
reject now app_id reviewer_id = do
  found ← on_db (Applications.get_application app_id)
  elim found [
    | none ↦ return none
    | some app ↦ if not (app.status == pending) then return none else do
      updated ← on_db (Applications.update_application_status now app_id rejected reviewer_id)
      if not updated then return none else on_db (Applications.get_application app_id)
  ]

unfoldable pub list_pending : Role → Action AclManager (List AclApplication)
list_pending admin = on_db (Applications.list_pending_applications none)
list_pending owner = on_db (Applications.list_pending_applications (some collaborator))
list_pending collaborator = return []

unfoldable pub get_reviewers_for_role : Role → Action AclManager (List String)
get_reviewers_for_role requested_role =
    if requested_role == owner then asks (λ s. s.admin_users) else do
      owners ← on_db (Users.list_users (some owner))
      admins ← asks (λ s. s.admin_users)
      return (map (λ u. u.open_id) owners ++ admins)

unfoldable pub can_review : Role → Role → Bool
can_review reviewer_role requested_role =
    if reviewer_role == admin
    then true
    else reviewer_role == owner && requested_role == collaborator

unfoldable pub can_add : Role → Role → Bool
can_add actor_role target_role =
    if actor_role == admin
    then target_role == owner || target_role == collaborator
    else if actor_role == owner
    then target_role == collaborator
    else false

unfoldable pub can_remove : AclManager → Role → AclUser → Bool
can_remove s actor_role target =
    if is_admin target.open_id s
    then false
    else if actor_role == admin
    then true
    else if actor_role == owner
    then target.role == collaborator
    else false
