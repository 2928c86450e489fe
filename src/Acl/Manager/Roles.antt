-- ===== src/Acl/Manager/Roles.antt =====
-- Which role a user holds after each write of acl/manager.py.
use mathlib.Core.Option
use text.Mathlib.TextEquality.{eq_iff}
use next_me.Common.{
  ◌>>=◌, ℕ, String, ◌≡◌, true, false, not, Option, none, some, List, [], ◌∷◌, arith, ◌==◌, ◌≢◌,
  is_some, ◌&&◌, any-find, string_comparable, if◌then◌else◌, find, keep, find-append, ok, raised,
  value_error, elem,
}
use next_me.Acl.Schema.{Role, admin, role_comparable, AclUser}
use next_me.Acl.Db.{AclDb}
use next_me.Acl.Db.Users.{has_id, replace_user, delete_user}
use next_me.Acl.Db.Users
use next_me.Acl.Manager.{AclManager, get_role, add_user, remove_user}

-- The role that the table acl_users gives.
abbrev pub stored_role : String → AclDb → Option Role
stored_role open_id db = Option.map (λ u. u.role) (find (has_id open_id) db.users)

find-delete :
    (id target : String) (users : List AclUser)
    → find (has_id id) (keep (λ u. not (has_id target u)) users)
      ≡ (if target == id then none else find (has_id id) users)
find-delete id target [] = ground arith
find-delete id target (u ∷ us) = ground (
  arith,
  find-delete id target us,
  eq_iff u.open_id id,
  eq_iff u.open_id target,
  eq_iff target id,
)

pub find-replace_user :
    (id : String) (u : AclUser) (db : AclDb)
    → find (has_id id) (replace_user u db).users
      ≡ (if u.open_id == id then some u else find (has_id id) db.users)
find-replace_user id u db = ground (
  arith,
  find-append (has_id id) (keep (λ v. not (has_id u.open_id v)) db.users) (u ∷ []),
  find-delete id u.open_id db.users,
)

pub stored_role-replace_user :
    (id : String) (u : AclUser) (db : AclDb)
    → stored_role id (replace_user u db)
      ≡ (if u.open_id == id then some u.role else stored_role id db)
stored_role-replace_user id u db = ground (arith, find-replace_user id u db)

pub stored_role-delete_user :
    (id target : String) (db : AclDb)
    → stored_role id (delete_user target db).1 ≡ (if target == id then none else stored_role id db)
stored_role-delete_user id target db = ground (arith, find-delete id target db.users)

-- The role that the program acts on: that of an administrator first, then the stored one.
abbrev pub role_in : AclManager → String → Option Role
role_in s id = if elem id s.admin_users then some admin else stored_role id s.db

-- Adding a user who is no administrator with the role of an owner or collaborator succeeds on an
-- open database; from then on `get_role` answers that role for the user, and for everybody else
-- what it answered before.
get_role-add_user :
    (now : ℕ) (id other : String) (role : Role) (name by : String) (s : AclManager)
    → s.db.is_open ≡ true
    → role ≢ admin
    → elem id s.admin_users ≡ false
    → let (r, s') = add_user now id role name by s in
      (r ≡ ok tt)
      × ((get_role other s').0 ≡ (if id == other then ok (some role) else (get_role other s).0))
unfolding add_user Users.add_user get_role Users.get_user ◌>>=◌
get_role-add_user now id other role name by s is_open not_admin free =
    let u : AclUser = record {
      open_id = id;
      role = role;
      display_name = name;
      added_by = by;
      added_at = now;
    } in
    (ground (arith), ground (arith, eq_iff id other, find-replace_user other u s.db))

-- On an open database, removing an administrator is refused and changes nobody's role. Removing
-- anybody else tells whether they were stored; then they have no role, and all others keep theirs.
get_role-remove_user :
    (id other : String) (s : AclManager)
    → s.db.is_open ≡ true
    → let (r, s') = remove_user id s in
      (r ≡ (
        if elem id s.admin_users then raised value_error else ok (is_some (stored_role id s.db))))
      × ((get_role other s').0
          ≡ (if not (elem id s.admin_users) && id == other then ok none else (get_role other s).0))
unfolding remove_user Users.remove_user get_role Users.get_user ◌>>=◌
get_role-remove_user id other s is_open = (
  ground (arith, any-find (has_id id) s.db.users),
  ground (arith, eq_iff id other, find-delete other id s.db.users),
)
