-- ===== src/Acl/Db/Applications.antt =====
-- acl/db.py: the methods on acl_applications.
use next_me.Common.{
  ℕ, suc, String, Bool, ◌&&◌, Option, none, some, List, [], ◌∷◌, ◌++◌, map, ◌==◌, string_comparable,
  nat_comparable, if◌then◌else◌, leb, find, keep, any, sort_by, Action, return, ◌>>=◌, ◌>>◌,
}
use mathlib.Core.Option
use next_me.Acl.Schema.{
  Role, role_comparable, Status, pending, status_comparable, AclApplication, AppRow,
}
use next_me.Acl.Db.{AclDb, require_open, is_stored_role, check, select, row_to_application}

abbrev pub is_pending_of : String → AppRow → Bool
is_pending_of applicant_id row = row.applicant_id == applicant_id && row.status == pending

abbrev pub new_row : ℕ → String → String → Role → AclDb → AppRow
new_row now applicant_id applicant_name requested_role db = record {
  id = suc db.sequence;
  applicant_id = applicant_id;
  applicant_name = applicant_name;
  requested_role = requested_role;
  status = pending;
  requested_at = now;
  processed_at = none;
  processed_by = none;
}

-- The id is the next one of AUTOINCREMENT; a row of acl_applications begins as pending.
abbrev pub insert_application : ℕ → String → String → Role → Action AclDb (Option ℕ)
insert_application now applicant_id applicant_name requested_role db =
    let row = new_row now applicant_id applicant_name requested_role db in
    return (some row.id)
      (record db { applications = db.applications ++ row ∷ []; sequence = row.id })

-- `none` when the applicant has a pending application
unfoldable pub create_application : ℕ → String → String → Role → Action AclDb (Option ℕ)
create_application now applicant_id applicant_name requested_role = do
  require_open
  existing ← select (λ db. any (is_pending_of applicant_id) db.applications)
  if existing then return none else do
    check (is_stored_role requested_role)
    insert_application now applicant_id applicant_name requested_role

unfoldable pub get_application : ℕ → Action AclDb (Option AclApplication)
get_application app_id = do
  require_open
  select (λ db. Option.map row_to_application (find (λ row. row.id == app_id) db.applications))

unfoldable pub get_pending_application : String → Action AclDb (Option AclApplication)
get_pending_application applicant_id = do
  require_open
  select (λ db. Option.map row_to_application (find (is_pending_of applicant_id) db.applications))

-- ORDER BY requested_at
abbrev pub by_requested_at : List AppRow → List AppRow
by_requested_at = sort_by (λ a b. leb a.requested_at b.requested_at)

unfoldable pub list_pending_applications : Option Role → Action AclDb (List AclApplication)
list_pending_applications none = do
  require_open
  select (λ db.
      map row_to_application
        (by_requested_at (keep (λ row. row.status == pending) db.applications)))
list_pending_applications (some role) = do
  require_open
  select (λ db. map row_to_application (
      by_requested_at
        (keep (λ row. row.status == pending && row.requested_role == role) db.applications)))

-- WHERE id = ? AND status = 'pending'
abbrev pub is_open_application : ℕ → AppRow → Bool
is_open_application app_id row = row.id == app_id && row.status == pending

abbrev pub process_row : ℕ → ℕ → Status → String → AppRow → AppRow
process_row now app_id status processed_by row =
    if is_open_application app_id row
    then record row { status = status; processed_by = some processed_by; processed_at = some now }
    else row

abbrev pub process_rows : ℕ → ℕ → Status → String → Action AclDb Bool
process_rows now app_id status processed_by db =
    return (any (is_open_application app_id) db.applications) (record db {
      applications = map (process_row now app_id status processed_by) db.applications;
    })

-- whether a row changed, so whether the application was pending
unfoldable pub update_application_status : ℕ → ℕ → Status → String → Action AclDb Bool
update_application_status now app_id status processed_by = do
  require_open
  process_rows now app_id status processed_by
