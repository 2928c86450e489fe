-- ===== src/Acl/Db/Invariant.antt =====
-- What the constraints of the two tables promise, kept by every statement of acl/db.py.
use text.Mathlib.TextEquality.{eq_iff}
use next_me.Common.{
  ◌>>=◌, ℕ, suc, String, ◌≡◌, ◌≤◌, true, false, not, [], ◌∷◌, arith, ◌==◌, ◌≢◌, string_comparable,
  nat_comparable, keep, count, count-append, count-keep-le, count-keep_fail, count-map-le,
  count_of_any, All, All-append, All-keep, All-map, All-weaken, any, Bool-cases, inl, inr,
}
use next_me.Acl.Schema.{Role, Status, pending, status_comparable, role_comparable, AclUser}
use next_me.Acl.Db.{AclDb, is_stored_role}
use next_me.Acl.Db.Users.{has_id, replace_user, delete_user, add_user, remove_user}
use next_me.Acl.Db.Applications.{
  new_row, is_pending_of, insert_application, process_row, process_rows, create_application,
  update_application_status,
}

-- A user has one row, with the role of an owner or a collaborator; so has each application, and its
-- id is one that AUTOINCREMENT has given; nobody has two pending applications.
pub record IsValid (db : AclDb) : Type 0 where
  pub stored_roles : All (λ u. is_stored_role u.role ≡ true) db.users
  pub one_row : (id : String) → count (has_id id) db.users ≤ 1
  pub requested_roles : All (λ row. is_stored_role row.requested_role ≡ true) db.applications
  pub given_ids : All (λ row. row.id ≤ db.sequence) db.applications
  pub one_pending : (id : String) → count (is_pending_of id) db.applications ≤ 1

pub replace_user-IsValid :
    (u : AclUser) (db : AclDb)
    → is_stored_role u.role ≡ true
    → IsValid db
    → IsValid (replace_user u db)
replace_user-IsValid u db stored v = record {
  stored_roles =
      All-append (λ w. is_stored_role w.role ≡ true) _ (u ∷ [])
        (All-keep (λ w. is_stored_role w.role ≡ true) _ db.users v.stored_roles) (stored, tt);
  one_row = λ id. elim (Bool-cases (u.open_id == id)) [
    | inl same ↦ ground (
      arith,
      eq_iff u.open_id id,
      count-append (has_id id) (keep (λ w. not (has_id u.open_id w)) db.users) (u ∷ []),
      count-keep_fail (has_id id) (λ w. not (has_id u.open_id w))
          (λ w h.
            ground (arith, eq_iff w.open_id id, eq_iff w.open_id u.open_id, eq_iff u.open_id id))
          db.users,
    )
    | inr other ↦ ground (
      arith,
      count-append (has_id id) (keep (λ w. not (has_id u.open_id w)) db.users) (u ∷ []),
      count-keep-le (has_id id) (λ w. not (has_id u.open_id w)) db.users,
      v.one_row id,
    )
  ];
  requested_roles = v.requested_roles;
  given_ids = v.given_ids;
  one_pending = v.one_pending;
}

pub delete_user-IsValid :
    (target : String) (db : AclDb) → IsValid db → IsValid (delete_user target db).1
delete_user-IsValid target db v = record {
  stored_roles = All-keep (λ w. is_stored_role w.role ≡ true) _ db.users v.stored_roles;
  one_row = λ id.
      ground (arith, count-keep-le (has_id id) (λ w. not (has_id target w)) db.users, v.one_row id);
  requested_roles = v.requested_roles;
  given_ids = v.given_ids;
  one_pending = v.one_pending;
}

pub insert_application-IsValid :
    (now : ℕ) (id name : String) (role : Role) (db : AclDb)
    → is_stored_role role ≡ true
    → any (is_pending_of id) db.applications ≡ false
    → IsValid db
    → IsValid (insert_application now id name role db).1
insert_application-IsValid now id name role db stored free v = record {
  stored_roles = v.stored_roles;
  one_row = v.one_row;
  requested_roles =
      All-append (λ row. is_stored_role row.requested_role ≡ true) db.applications _
        v.requested_roles (stored, tt);
  given_ids =
      All-append (λ row. row.id ≤ suc db.sequence) db.applications _
        (All-weaken (λ row. row.id ≤ db.sequence) (λ row. row.id ≤ suc db.sequence)
          (λ row h. omega arith) db.applications v.given_ids)
        (omega arith);
  one_pending = λ other. ground (
    arith,
    eq_iff id other,
    count-append (is_pending_of other) db.applications (new_row now id name role db ∷ []),
    count_of_any (is_pending_of id) db.applications free,
    v.one_pending other,
  );
}

pub process_rows-IsValid :
    (now app_id : ℕ) (status : Status) (by : String) (db : AclDb)
    → status ≢ pending
    → IsValid db
    → IsValid (process_rows now app_id status by db).1
process_rows-IsValid now app_id status by db processed v = record {
  stored_roles = v.stored_roles;
  one_row = v.one_row;
  requested_roles =
      All-map (λ row. is_stored_role row.requested_role ≡ true) (process_row now app_id status by)
        (λ row h. ground arith) db.applications v.requested_roles;
  given_ids =
      All-map (λ row. row.id ≤ db.sequence) (process_row now app_id status by)
        (λ row h. ground arith) db.applications v.given_ids;
  one_pending = λ id. ground (
    arith,
    count-map-le (is_pending_of id) (process_row now app_id status by) (λ row h. ground arith)
        db.applications,
    v.one_pending id,
  );
}

-- Every method that writes keeps the invariant, whether it succeeds or raises.
pub add_user-IsValid :
    (now : ℕ) (id : String) (role : Role) (name by : String) (db : AclDb)
    → IsValid db
    → IsValid (add_user now id role name by db).1
unfolding add_user ◌>>=◌
add_user-IsValid now id role name by db v = grind (
  arith,
  replace_user-IsValid
      (record { open_id = id; role = role; display_name = name; added_by = by; added_at = now }) db,
)

pub remove_user-IsValid : (id : String) (db : AclDb) → IsValid db → IsValid (remove_user id db).1
unfolding remove_user ◌>>=◌
remove_user-IsValid id db v = grind (arith, delete_user-IsValid id db)

pub create_application-IsValid :
    (now : ℕ) (id name : String) (role : Role) (db : AclDb)
    → IsValid db
    → IsValid (create_application now id name role db).1
unfolding create_application ◌>>=◌
create_application-IsValid now id name role db v =
    grind (arith, insert_application-IsValid now id name role db)

pub update_application_status-IsValid :
    (now app_id : ℕ) (status : Status) (by : String) (db : AclDb)
    → status ≢ pending
    → IsValid db
    → IsValid (update_application_status now app_id status by db).1
unfolding update_application_status ◌>>=◌
update_application_status-IsValid now app_id status by db processed v =
    grind (arith, process_rows-IsValid now app_id status by db)
