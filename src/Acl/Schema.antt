-- ===== src/Acl/Schema.antt =====
-- acl/schema.py: roles, users and applications; the rows of acl_applications as the table of
-- acl/db.py declares them. A time is a number of seconds.
use next_me.Common.{
  ℕ, String, ◌≡◌, ◌↔◌, Bool, true, false, Option, none, some, arith, Comparable, if◌then◌else◌,
  ◌==◌, string_comparable,
}

pub data Role : Type 0 where
  admin owner collaborator : Role

-- `role.value`
unfoldable pub role_value : Role → String
role_value admin = "admin"
role_value owner = "owner"
role_value collaborator = "collaborator"

-- `Role(text)`, which raises on a text that is no role's value
unfoldable pub role_of_value : String → Option Role
role_of_value s =
    if s == "admin"
    then some admin
    else if s == "owner"
    then some owner
    else if s == "collaborator"
    then some collaborator
    else none

abbrev pub role_beq : Role → Role → Bool
role_beq admin admin = true
role_beq owner owner = true
role_beq collaborator collaborator = true
role_beq _ _ = false

pub role_beq_iff : (a b : Role) → (role_beq a b ≡ true) ↔ (a ≡ b)
role_beq_iff admin b = ground arith
role_beq_iff a b = ground arith

instance abbrev pub role_comparable : Comparable Role
role_comparable = record { equals = role_beq; equals_iff = role_beq_iff }

pub data Status : Type 0 where
  pending approved rejected : Status

abbrev pub status_beq : Status → Status → Bool
status_beq pending pending = true
status_beq approved approved = true
status_beq rejected rejected = true
status_beq _ _ = false

pub status_beq_iff : (a b : Status) → (status_beq a b ≡ true) ↔ (a ≡ b)
status_beq_iff pending b = ground arith
status_beq_iff a b = ground arith

instance abbrev pub status_comparable : Comparable Status
status_comparable = record { equals = status_beq; equals_iff = status_beq_iff }

pub record AclUser : Type 0 where
  pub open_id : String
  pub role : Role
  pub display_name : String
  pub added_by : String
  pub added_at : ℕ

pub record AclApplication : Type 0 where
  pub id : Option ℕ
  pub applicant_id : String
  pub applicant_name : String
  pub requested_role : Role
  pub status : Status
  pub requested_at : ℕ
  pub processed_at : Option ℕ
  pub processed_by : Option String

-- A row of acl_applications; its id is the primary key.
pub record AppRow : Type 0 where
  pub id : ℕ
  pub applicant_id : String
  pub applicant_name : String
  pub requested_role : Role
  pub status : Status
  pub requested_at : ℕ
  pub processed_at : Option ℕ
  pub processed_by : Option String
