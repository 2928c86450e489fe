-- ===== src/Acl/Db/Users.antt =====
-- acl/db.py: the methods on acl_users.
use next_me.Common.{
  ℕ, String, Bool, not, Option, none, some, List, [], ◌∷◌, ◌++◌, ◌==◌, string_comparable, leb, find,
  keep, any, sort_by, Action, return, ◌>>◌,
}
use next_me.Acl.Schema.{Role, role_comparable, AclUser}
use next_me.Acl.Db.{AclDb, require_open, is_stored_role, check, select}

abbrev pub has_id : String → AclUser → Bool
has_id open_id u = u.open_id == open_id

unfoldable pub get_user : String → Action AclDb (Option AclUser)
get_user open_id = do require_open; select (λ db. find (has_id open_id) db.users)

-- INSERT OR REPLACE: a row with the primary key goes, and the new row comes last
abbrev pub replace_user : AclUser → AclDb → AclDb
replace_user u db = record db { users = keep (λ v. not (has_id u.open_id v)) db.users ++ u ∷ [] }

abbrev pub write_user : AclUser → Action AclDb (Unit {0})
write_user u db = return tt (replace_user u db)

unfoldable pub add_user : ℕ → String → Role → String → String → Action AclDb (Unit {0})
add_user now open_id role display_name added_by = do
  require_open
  check (is_stored_role role)
  write_user (record {
    open_id = open_id;
    role = role;
    display_name = display_name;
    added_by = added_by;
    added_at = now;
  })

abbrev pub delete_user : String → Action AclDb Bool
delete_user open_id db =
    return (any (has_id open_id) db.users)
      (record db { users = keep (λ u. not (has_id open_id u)) db.users })

unfoldable pub remove_user : String → Action AclDb Bool
remove_user open_id = do require_open; delete_user open_id

-- ORDER BY added_at
abbrev pub by_added_at : List AclUser → List AclUser
by_added_at = sort_by (λ u v. leb u.added_at v.added_at)

unfoldable pub list_users : Option Role → Action AclDb (List AclUser)
list_users none = do require_open; select (λ db. by_added_at db.users)
list_users (some role) = do
  require_open
  select (λ db. by_added_at (keep (λ u. u.role == role) db.users))
