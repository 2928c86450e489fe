-- ===== src/Acl/Manager/Reviews.antt =====
-- The applications of acl/manager.py: each is processed once, and by whom it may be.
use mathlib.Core.Option
use next_me.Common.{
  ◌>>=◌, ℕ, String, ◌≡◌, ◌≢◌, true, not, Option, some, map, arith, ◌==◌, string_comparable,
  nat_comparable, if◌then◌else◌, find, any, find_passes, any_of_find, find-map, ok, elem, ◌&&◌,
}
use next_me.Acl.Schema.{
  admin, role_comparable, Status, pending, approved, status_comparable, AclUser, AppRow,
}
use next_me.Acl.Db.{AclDb, row_to_application}
use next_me.Acl.Db.Applications.{process_row, is_open_application}
use next_me.Acl.Db.Applications
use next_me.Acl.Db.Users
use next_me.Acl.Db.Users.{replace_user}
use next_me.Acl.Manager.{AclManager, approve}
use next_me.Acl.Manager.Roles.{role_in, stored_role-replace_user}

abbrev pub row_of : ℕ → AclDb → Option AppRow
row_of app_id db = find (λ row. row.id == app_id) db.applications

-- What an UPDATE, of whatever id, does to the row that a lookup finds.
pub row_of-update :
    (now app_id other : ℕ) (status : Status) (by : String) (db : AclDb)
    → row_of app_id
        (record db { applications = map (process_row now other status by) db.applications })
      ≡ Option.map (process_row now other status by) (row_of app_id db)
row_of-update now app_id other status by db =
    find-map (λ row. row.id == app_id) (process_row now other status by) (λ row. ground arith)
      db.applications

update_hits :
    (app_id : ℕ) (db : AclDb) (row : AppRow)
    → row_of app_id db ≡ some row
    → row.status ≡ pending
    → any (is_open_application app_id) db.applications ≡ true
update_hits app_id db row e waiting =
    any_of_find (λ row. row.id == app_id) (is_open_application app_id) db.applications row e
      (ground (arith, find_passes (λ row. row.id == app_id) db.applications row e))

abbrev pub updated : ℕ → ℕ → Status → String → AclDb → AclDb
updated now app_id status by db = record db {
  applications = map (process_row now app_id status by) db.applications;
}

abbrev pub new_user : ℕ → String → AppRow → AclUser
new_user later reviewer row = record {
  open_id = row.applicant_id;
  role = row.requested_role;
  display_name = row.applicant_name;
  added_by = reviewer;
  added_at = later;
}

module _ (now app_id : ℕ) (reviewer : String) (s : AclManager) (row : AppRow)
    (is_open : s.db.is_open ≡ true) (e : row_of app_id s.db ≡ some row) where
  approve_lem :
      (later : ℕ)
      → row.status ≡ pending
      → row.requested_role ≢ admin
      → approve now later app_id reviewer s ≡ (
        ok (some (row_to_application (process_row now app_id approved reviewer row))),
        record s {
          db =
              replace_user
                (new_user later reviewer row)
                (updated now app_id approved reviewer s.db);
        },
      )
  unfolding approve Applications.get_application Applications.update_application_status
      Users.add_user row_to_application ◌>>=◌
  approve_lem later waiting stored = ground (
    arith,
    update_hits app_id s.db row e waiting,
    row_of-update now app_id app_id approved reviewer s.db,
  )

-- Approving a pending application on an open database succeeds: it answers the application with its
-- new status, reviewer and time; the applicant, unless an administrator, now has the role asked
-- for, and everybody else the role they had.
pub approve-grants :
    (now later app_id : ℕ) (reviewer other : String) (s : AclManager) (row : AppRow)
    → s.db.is_open ≡ true
    → row_of app_id s.db ≡ some row
    → row.status ≡ pending
    → row.requested_role ≢ admin
    → let (r, s') = approve now later app_id reviewer s in
      (r
        ≡ ok (
            some (
              row_to_application (record row {
                status = approved;
                processed_by = some reviewer;
                processed_at = some now;
              }))))
      × (role_in s' other ≡ (
          if not (elem other s.admin_users) && row.applicant_id == other
          then some row.requested_role
          else role_in s other))
unfolding row_to_application ◌>>=◌
approve-grants now later app_id reviewer other s row is_open e waiting stored = (
  ground (
    arith,
    approve_lem now app_id reviewer s row is_open e later waiting stored,
    find_passes (λ row. row.id == app_id) s.db.applications row e,
  ),
  ground (
    arith,
    approve_lem now app_id reviewer s row is_open e later waiting stored,
    stored_role-replace_user other (new_user later reviewer row)
        (updated now app_id approved reviewer s.db),
  ),
)
