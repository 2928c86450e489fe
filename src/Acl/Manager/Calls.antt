-- ===== src/Acl/Manager/Calls.antt =====
-- Any sequence of calls of the methods of acl/manager.py that write, by any number of callers.
use next_me.Common.{
  ◌>>=◌, Preserves, Preserves-bind, Preserves-elim, preserve_rules, Action, ℕ, String, List, [],
  ◌∷◌, arith, string_comparable, nat_comparable,
}
use next_me.Acl.Schema.{Role, approved, rejected, status_comparable, role_comparable}
use next_me.Acl.Db.{AclDb}
use next_me.Acl.Db.Applications.{process_row, process_rows, insert_application, new_row}
use next_me.Acl.Db.Users
use next_me.Acl.Db.Applications
use next_me.Acl.Manager.{
  AclManager, asks, on_db, add_user, remove_user, create_application, approve, reject,
  reload_admin_users,
}

-- The times of the calls are arguments too, and need not grow.
pub data Call : Type 0 where
  adds : ℕ → String → Role → String → String → Call
  removes : String → Call
  creates : ℕ → String → String → Role → Call
  approves : ℕ → ℕ → ℕ → String → Call
  rejects : ℕ → ℕ → String → Call
  reloads : List String → Call

unfoldable pub step : AclManager → Call → AclManager
step s (adds now id role name by) = (add_user now id role name by s).1
step s (removes id) = (remove_user id s).1
step s (creates now id name role) = (create_application now id name role s).1
step s (approves now later app_id by) = (approve now later app_id by s).1
step s (rejects now app_id by) = (reject now app_id by s).1
step s (reloads admin_users) = reload_admin_users admin_users s

unfoldable pub run : AclManager → List Call → AclManager
run s [] = s
run s (c ∷ cs) = run (step s c) cs

-- A property of the database, held by the manager.
pub record Held (P : AclDb → Type 0) (s : AclManager) : Type 0 where
  pub of_db : P s.db

Held-on_db :
    {P : AclDb → Type 0} {A : Type 0} (m : Action AclDb A)
    → Preserves P m
    → Preserves (Held P) (on_db m)
Held-on_db m k = record { onward = λ s h. record { of_db = k.onward s.db h.of_db } }

-- The reading methods change nothing.
Preserves-get_application :
    {P : AclDb → Type 0} (app_id : ℕ) → Preserves P (Applications.get_application app_id)
unfolding Applications.get_application ◌>>=◌
Preserves-get_application app_id = record { onward = λ db h. grind arith }

Preserves-get_pending_application :
    {P : AclDb → Type 0} (id : String) → Preserves P (Applications.get_pending_application id)
unfolding Applications.get_pending_application ◌>>=◌
Preserves-get_pending_application id = record { onward = λ db h. grind arith }

Preserves-asks : {P : AclManager → Type 0} {A : Type 0} (f : AclManager → A) → Preserves P (asks f)
Preserves-asks f = record { onward = λ s h. h }

-- What a property needs, to be kept by every call: that each write of the database keeps it.
pub record KeptByWrites (P : AclDb → Type 0) : Type 0 where
  pub adding :
      (now : ℕ) (id : String) (role : Role) (name by : String)
      → Preserves P (Users.add_user now id role name by)
  pub removing : (id : String) → Preserves P (Users.remove_user id)
  pub creating :
      (now : ℕ) (id name : String) (role : Role)
      → Preserves P (Applications.create_application now id name role)
  pub approving :
      (now app_id : ℕ) (by : String)
      → Preserves P (Applications.update_application_status now app_id approved by)
  pub rejecting :
      (now app_id : ℕ) (by : String)
      → Preserves P (Applications.update_application_status now app_id rejected by)

ruleset call_rules = (
  preserve_rules, Held-on_db, Preserves-get_application, Preserves-get_pending_application,
  Preserves-asks,
)

module _ {P : AclDb → Type 0} (kept : KeptByWrites P) where
  open kept use {adding, removing, creating, approving, rejecting}

  approve-Preserves :
      (now later app_id : ℕ) (by : String) → Preserves (Held P) (approve now later app_id by)
  unfolding approve
  approve-Preserves now later app_id by = Preserves-bind _ _ (search call_rules) (λ found.
      Preserves-elim found _ _ (search call_rules)
        (λ app. search (call_rules, adding, approving) depth 8))

  reject-Preserves : (now app_id : ℕ) (by : String) → Preserves (Held P) (reject now app_id by)
  unfolding reject
  reject-Preserves now app_id by = Preserves-bind _ _ (search call_rules) (λ found.
      Preserves-elim found _ _ (search call_rules) (λ app. search (call_rules, rejecting) depth 8))

  create-Preserves :
      (now : ℕ) (id name : String) (role : Role)
      → Preserves (Held P) (create_application now id name role)
  unfolding create_application
  create-Preserves now id name role = Preserves-bind _ _ (search call_rules) (λ existing.
      Preserves-elim existing _ _ (search (call_rules, creating)) (λ app. search call_rules))

  pub step_keeps : (s : AclManager) (c : Call) → P s.db → P (step s c).db
  unfolding step add_user remove_user reload_admin_users ◌>>=◌
  step_keeps s (adds now id role name by) h =
      grind (arith, (adding now id role name by).onward s.db)
  step_keeps s (removes id) h = grind (arith, (removing id).onward s.db)
  step_keeps s (creates now id name role) h =
      ((create-Preserves now id name role).onward s (record { of_db = h })).of_db
  step_keeps s (approves now later app_id by) h =
      ((approve-Preserves now later app_id by).onward s (record { of_db = h })).of_db
  step_keeps s (rejects now app_id by) h =
      ((reject-Preserves now app_id by).onward s (record { of_db = h })).of_db
  step_keeps s (reloads admin_users) h = h

  pub run_keeps : (s : AclManager) (cs : List Call) → P s.db → P (run s cs).db
  unfolding run
  run_keeps s [] h = h
  run_keeps s (c ∷ cs) h = run_keeps (step s c) cs (step_keeps s c h)
