-- ===== src/Acl/Commands/Escalation.antt =====
-- What the `/acl` commands let a caller who is no administrator do to the stored roles.
use text.Mathlib.TextEquality.{eq_iff}
use next_me.Common.{
  ◌>>=◌, ℕ, String, ◌≡◌, ◌≢◌, ◌⊎◌, true, false, some, arith, ◌==◌, string_comparable, if◌then◌else◌,
  find, ok, elem, inl, inr, Option-cases, find_passes, any-find, map-eq-some,
}
use next_me.Acl.Schema.{
  Role, admin, owner, collaborator, role_comparable, role_of_value, AclUser, AppRow,
}
use next_me.Acl.Schema
use next_me.Acl.Db.{row_to_application}
use next_me.Acl.Db.Users
use next_me.Acl.Db.Applications
use next_me.Acl.Manager.{AclManager, can_add, can_review, can_remove}
use next_me.Acl.Manager
use next_me.Acl.Manager.Roles.{
  find-replace_user, stored_role, stored_role-replace_user, stored_role-delete_user,
}
use next_me.Acl.Manager.Reviews.{row_of, new_user, updated}
use next_me.Acl.Commands.{
  Answer, AclCommand, handle_acl_command, handle_acl_add, handle_acl_remove, handle_acl_approve,
  handle_acl_reject, handle_acl_list, handle_acl_pending,
}

module _ (id : String) (s : AclManager) where
  pub approve-found :
      (now later app_id : ℕ) (by : String) (row : AppRow)
      → row_of app_id s.db ≡ some row
      → let s' = (Manager.approve now later app_id by s).1 in
        (stored_role id s'.db ≡ stored_role id s.db)
        ⊎ (stored_role id s'.db ≡ some row.requested_role)
  unfolding Manager.approve Applications.get_application Applications.update_application_status
      Users.add_user row_to_application ◌>>=◌
  approve-found now later app_id by row found = ground (
    arith,
    eq_iff row.applicant_id id,
    stored_role-replace_user id (new_user later by row)
        (updated now app_id Schema.approved by s.db),
  )

  -- An owner reviews no application for the role of an owner.
  approve_no_owner :
      (now later app_id : ℕ) (by : String) (role : Role)
      → role ≢ admin
      → stored_role id (handle_acl_approve now later app_id by role s).1.db ≡ some owner
      → stored_role id s.db ≡ some owner
  unfolding handle_acl_approve Manager.get_application Applications.get_application
      row_to_application can_review ◌>>=◌
  approve_no_owner now later app_id by role low h = elim (Option-cases (row_of app_id s.db)) [
    | inl missing ↦ ground arith
    | inr (row, found) ↦ ground (arith, approve-found now later app_id by row found)
  ]

  reject_no_owner :
      (now app_id : ℕ) (by : String) (role : Role)
      → stored_role id (handle_acl_reject now app_id by role s).1.db ≡ some owner
      → stored_role id s.db ≡ some owner
  unfolding handle_acl_reject Manager.get_application Manager.reject Applications.get_application
      Applications.update_application_status ◌>>=◌
  reject_no_owner now app_id by role h = ground arith

  add_no_owner :
      (lower : String → String) (now : ℕ) (by : String) (role : Role) (target text : String)
      → role ≢ admin
      → stored_role id (handle_acl_add lower now by role target text s).1.db ≡ some owner
      → stored_role id s.db ≡ some owner
  unfolding handle_acl_add Manager.add_user Users.add_user can_add ◌>>=◌
  add_no_owner lower now by role target text low h = ground (
    arith,
    stored_role-replace_user id
        (record {
          open_id = target;
          role = collaborator;
          display_name = "";
          added_by = by;
          added_at = now;
        })
        s.db,
  )

  remove_no_owner :
      (role : Role) (target : String)
      → stored_role id (handle_acl_remove role target s).1.db ≡ some owner
      → stored_role id s.db ≡ some owner
  unfolding handle_acl_remove Manager.get_user Users.get_user Manager.remove_user Users.remove_user
      ◌>>=◌
  remove_no_owner role target h = ground (arith, stored_role-delete_user id target s.db)

-- Listing writes nothing.
list_no_owner :
    (id caller : String) (s : AclManager) (role : Role) (lower : String → String) (now later : ℕ)
    → stored_role id (handle_acl_command lower now later AclCommand.pending role caller s).1.db
      ≡ some owner
    → stored_role id s.db ≡ some owner
unfolding handle_acl_command handle_acl_pending Manager.list_pending
    Applications.list_pending_applications ◌>>=◌
list_no_owner id caller s admin lower now later h = ground arith
list_no_owner id caller s owner lower now later h = ground arith
list_no_owner id caller s collaborator lower now later h = ground arith

-- Whatever `/acl` command a caller who is no administrator gives, nobody is stored as an owner
-- afterwards who was not one before.
pub command_makes_no_owner :
    (lower : String → String) (now later : ℕ) (cmd : AclCommand) (role : Role) (caller id : String)
    (s : AclManager)
    → role ≢ admin
    → stored_role id (handle_acl_command lower now later cmd role caller s).1.db ≡ some owner
    → stored_role id s.db ≡ some owner
unfolding handle_acl_command handle_acl_list handle_acl_pending Manager.list_pending
    Manager.list_users Users.list_users Applications.list_pending_applications ◌>>=◌
command_makes_no_owner lower now later AclCommand.list role caller id s low h = ground arith
command_makes_no_owner lower now later (AclCommand.add target text) role caller id s low h =
    add_no_owner id s lower now caller role target text low h
command_makes_no_owner lower now later (AclCommand.remove target) role caller id s low h =
    remove_no_owner id s role target h
command_makes_no_owner lower now later AclCommand.pending role caller id s low h =
    list_no_owner id caller s role lower now later h
command_makes_no_owner lower now later (AclCommand.approve app_id) role caller id s low h =
    ground (arith, approve_no_owner id s now later app_id caller role low)
command_makes_no_owner lower now later (AclCommand.reject app_id) role caller id s low h =
    ground (arith, reject_no_owner id s now app_id caller role)

abbrev demoted : ℕ → String → String → AclUser
demoted now by target = record {
  open_id = target;
  role = collaborator;
  display_name = "";
  added_by = by;
  added_at = now;
}

-- What an owner's `/acl remove` of a stored user answers.
remove_by_owner :
    (target : String) (u : AclUser) (s : AclManager)
    → s.db.is_open ≡ true
    → elem target s.admin_users ≡ false
    → find (Users.has_id target) s.db.users ≡ some u
    → handle_acl_remove owner target s ≡ (
        if u.role == collaborator
        then (ok (Answer.removed target), record s { db = (Users.delete_user target s.db).1 })
        else (ok Answer.cannot_remove, s))
unfolding handle_acl_remove Manager.get_user Users.get_user Manager.remove_user Users.remove_user
    can_remove ◌>>=◌
remove_by_owner target u s is_open free found = ground (
  arith,
  eq_iff u.open_id target,
  find_passes (Users.has_id target) s.db.users u found,
  any-find (Users.has_id target) s.db.users,
)

-- An owner may not remove another owner; but on an open database, where neither is an
-- administrator, the owner may add the other once more, as a collaborator, and then remove them.
owner_removes_owner :
    (lower : String → String) (now : ℕ) (caller target : String) (s : AclManager)
    → s.db.is_open ≡ true
    → elem target s.admin_users ≡ false
    → stored_role target s.db ≡ some owner
    → (handle_acl_remove owner target s ≡ (ok Answer.cannot_remove, s))
      × (let s' = (handle_acl_add lower now caller owner target "" s).1 in
          (handle_acl_remove owner target s').0 ≡ ok (Answer.removed target))
unfolding handle_acl_add Manager.add_user Users.add_user can_add ◌>>=◌
owner_removes_owner lower now caller target s is_open free held =
    let u : AclUser = demoted now caller target in
    let (old, found, was) =
      map-eq-some (λ (w : AclUser). w.role) (find (Users.has_id target) s.db.users) owner held in
    let s' : AclManager = record s { db = Users.replace_user u s.db } in
    (
      ground (arith, remove_by_owner target old s is_open free found),
      ground (
        arith,
        eq_iff target target,
        find-replace_user target u s.db,
        remove_by_owner target u s' is_open free,
      ),
    )
