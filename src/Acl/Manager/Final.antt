-- ===== src/Acl/Manager/Final.antt =====
-- What holds after any sequence of calls, by any number of callers, to acl/manager.py.
use next_me.Common.{
  raised, runtime_error, ◌>>=◌, ℕ, String, ◌≡◌, ◌≢◌, none, some, List, arith, ◌==◌,
  string_comparable, nat_comparable, if◌then◌else◌, find-append, ok,
}
use next_me.Acl.Schema.{
  Status, pending, approved, rejected, status_comparable, role_comparable, AppRow,
}
use next_me.Acl.Db.{AclDb, row_to_application}
use next_me.Acl.Db.Applications.{process_row, process_rows, insert_application, new_row}
use next_me.Acl.Db.Users
use next_me.Acl.Db.Applications
use next_me.Acl.Db.Invariant.{
  IsValid, add_user-IsValid, remove_user-IsValid, create_application-IsValid,
  update_application_status-IsValid,
}
use next_me.Acl.Manager.{AclManager, approve, reject}
use next_me.Acl.Manager.Reviews.{row_of, row_of-update}
use next_me.Acl.Manager.Calls.{Call, run, KeptByWrites, run_keeps}

-- From a valid database, every sequence of calls leads to a valid database: nobody is stored as an
-- administrator or twice, and nobody has two pending applications.
pub run-IsValid : (s : AclManager) (cs : List Call) → IsValid s.db → IsValid (run s cs).db
run-IsValid = run_keeps (record {
  adding = λ now id role name by. record { onward = add_user-IsValid now id role name by };
  removing = λ id. record { onward = remove_user-IsValid id };
  creating = λ now id name role. record { onward = create_application-IsValid now id name role };
  approving = λ now app_id by. record {
    onward = λ db. update_application_status-IsValid now app_id approved by db (λ e. cc);
  };
  rejecting = λ now app_id by. record {
    onward = λ db. update_application_status-IsValid now app_id rejected by db (λ e. cc);
  };
})

-- An application with this row is not pending.
abbrev IsProcessed : ℕ → AppRow → AclDb → Type 0
IsProcessed app_id row db = row_of app_id db ≡ some row

module _ (app_id : ℕ) (row : AppRow) (processed : row.status ≢ pending) where
  update_settled :
      (now other : ℕ) (status : Status) (by : String) (db : AclDb)
      → IsProcessed app_id row db
      → IsProcessed app_id row (Applications.update_application_status now other status by db).1
  unfolding Applications.update_application_status ◌>>=◌
  update_settled now other status by db e =
      ground (arith, row_of-update now app_id other status by db)

  settled : KeptByWrites (IsProcessed app_id row)
  settled = record {
    adding = λ now id role name by. record {
      onward = λ db e. unfold Users.add_user ◌>>=◌ in (grind arith);
    };
    removing = λ id. record { onward = λ db e. unfold Users.remove_user ◌>>=◌ in (grind arith) };
    creating = λ now id name role. record {
      onward = λ db e.
          unfold Applications.create_application ◌>>=◌ in
          (grind (arith, find-append (λ (r : AppRow). r.id == app_id) db.applications));
    };
    approving = λ now other by. record { onward = update_settled now other approved by };
    rejecting = λ now other by. record { onward = update_settled now other rejected by };
  }

module _ (now app_id : ℕ) (by : String) (row : AppRow) (s : AclManager)
    (e : row_of app_id s.db ≡ some row) (processed : row.status ≢ pending) where
  approve_refused :
      (later : ℕ)
      → approve now later app_id by s ≡ (if s.db.is_open then ok none else raised runtime_error, s)
  unfolding approve Applications.get_application row_to_application ◌>>=◌
  approve_refused later = ground (arith, processed)

  reject_refused :
      reject now app_id by s ≡ (if s.db.is_open then ok none else raised runtime_error, s)
  unfolding reject Applications.get_application row_to_application ◌>>=◌
  reject_refused = ground (arith, processed)

-- A processed application is final: after any calls its row is the same, and approving or rejecting
-- it again answers `None` and changes nothing (or raises, if the database is not open).
pub processed_is_final :
    (app_id now later : ℕ) (by : String) (row : AppRow) (s : AclManager) (cs : List Call)
    → row_of app_id s.db ≡ some row
    → row.status ≢ pending
    → let s' = run s cs in
      let refused = if s'.db.is_open then ok none else raised runtime_error in
      (row_of app_id s'.db ≡ some row)
      × (approve now later app_id by s' ≡ (refused, s'))
      × (reject now app_id by s' ≡ (refused, s'))
processed_is_final app_id now later by row s cs e processed =
    let e' = run_keeps (settled app_id row processed) s cs e in
    (
      e',
      approve_refused now app_id by row (run s cs) e' processed later,
      reject_refused now app_id by row (run s cs) e' processed,
    )
