-- ===== src/Acl/Db.antt =====
-- acl/db.py: the two tables of nextme.db as lists of rows in the order of insertion, and each
-- method of `AclDb` with its SQL statement read as a function on the rows. The times that SQLite
-- takes from `datetime('now')` are arguments. The lock makes each statement one step.
pub mod Users
pub mod Applications
pub mod Invariant
use Prim.Native.Nat.{ℕ}
use next_me.Common.{
  suc, String, Bool, true, false, ◌&&◌, ◌||◌, not, Option, none, some, List, [], ◌∷◌, ◌++◌, map,
  ◌==◌, string_comparable, nat_comparable, if◌then◌else◌, leb, find, keep, any, is_some, sort_by,
  Action, return, raise, ◌>>=◌, ◌>>◌, runtime_error, integrity_error,
}
use next_me.Acl.Schema.{
  Role, admin, owner, collaborator, role_comparable, Status, pending, approved, rejected,
  status_comparable, AclUser, AclApplication, AppRow,
}

pub record AclDb : Type 0 where
  -- `_conn is not None`
  pub is_open : Bool
  pub users : List AclUser
  pub applications : List AppRow
  -- the largest id that AUTOINCREMENT has given
  pub sequence : ℕ

-- `if self._conn is None: raise RuntimeError(...)`
abbrev pub require_open : Action AclDb (Unit {0})
require_open db = if db.is_open then return tt db else raise runtime_error db

-- `CHECK(role IN ('owner', 'collaborator'))`
abbrev pub is_stored_role : Role → Bool
is_stored_role role = role == owner || role == collaborator

-- A constraint of the table that fails.
abbrev pub check : Bool → Action AclDb (Unit {0})
check holds = if holds then return tt else raise integrity_error

abbrev pub select : {A : Type 0} → (AclDb → A) → Action AclDb A
select f db = return (f db) db

unfoldable pub row_to_application : AppRow → AclApplication
row_to_application row = record {
  id = some row.id;
  applicant_id = row.applicant_id;
  applicant_name = row.applicant_name;
  requested_role = row.requested_role;
  status = row.status;
  requested_at = row.requested_at;
  processed_at = row.processed_at;
  processed_by = row.processed_by;
}
