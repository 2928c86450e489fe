-- ===== src/Memory/Schema.antt =====
-- memory/schema.py. A confidence is a float there that is only compared; it is a number here.
use next_me.Common.{
  ℕ, String, Bool, true, false, ◌&&◌, Option, none, some, ◌==◌, nat_comparable, string_comparable,
}

pub record Fact : Type 0 where
  pub text : String
  pub confidence : ℕ
  pub created_at : ℕ
  pub updated_at : Option ℕ
  pub source : String

abbrev pub same_time : Option ℕ → Option ℕ → Bool
same_time none none = true
same_time (some a) (some b) = a == b
same_time _ _ = false

-- `==` of two facts, which compares their fields
unfoldable pub same_fact : Fact → Fact → Bool
same_fact f g =
    f.text == g.text
    && f.confidence == g.confidence
    && f.created_at == g.created_at
    && same_time f.updated_at g.updated_at
    && f.source == g.source

pub record UserContextMemory : Type 0 where
  pub preferred_language : String
  pub communication_style : String
  pub notes : String
  pub updated_at : ℕ

pub record PersonalInfo : Type 0 where
  pub name : String
  pub timezone : String
  pub role : String
  pub updated_at : ℕ

-- The values of a file that is absent or corrupt; `now` is read when they are made.
abbrev pub default_user_context : ℕ → UserContextMemory
default_user_context now = record {
  preferred_language = "zh";
  communication_style = "";
  notes = "";
  updated_at = now;
}

abbrev pub default_personal : ℕ → PersonalInfo
default_personal now = record { name = ""; timezone = ""; role = ""; updated_at = now }
