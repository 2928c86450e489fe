-- ===== src/Skills/Tests.antt =====
-- A registry of skills, its theorem at concrete inputs, and prompts.
use mathlib.Core.Option.{bind}
use next_me.Common.{
  String, ◌≡◌, refl, Option, none, some, [], ◌∷◌, ◌==◌, string_comparable, if◌then◌else◌, insert,
  lookup,
}
use next_me.Skills.{
  Text, Skill, SkillFile, Directory, Places, load, get, candidates, load_skill_file, validated,
  with_override, parse_frontmatter, parse_lines, parse_line, includes_global, build_prompt,
}
use next_me.Skills.Priority.{load-get}

-- A file is one line, its description.
abbrev text_functions : Text
text_functions = record {
  frontmatter = λ s. if s == "" then none else some (s, "body");
  key_value = λ s. some ("description", s);
  inline_list = λ s. none;
  lines = λ s. s ∷ [];
  split_commas = λ s. s ∷ [];
  strip = λ s. s;
  strip_quotes = λ s. s;
  lower = λ s. s;
  starts_with = λ p s. p == s;
  replace = λ old new s. if s == old then new else s;
  contains = λ p s. p == s;
}

abbrev review : String → Option String → SkillFile
review stem text = record { stem = stem; parent_name = "review"; text = text }

abbrev places : Places
places = record {
  claude_skills = some (record { flat = []; nested = review "SKILL" (some "of Claude") ∷ [] });
  builtin_skills = some (record {
    flat = review "review" (some "flat") ∷ [];
    nested = review "SKILL" (some "nested") ∷ [];
  });
  nextme_skills = none;
}

abbrev project : Directory
project = record { flat = review "review" none ∷ []; nested = review "SKILL" (some "") ∷ [] }

abbrev nested_review : Skill
nested_review = record {
  meta = record {
    name = "review";
    trigger = "review";
    description = "nested";
    tools_allowlist = [];
    tools_denylist = [];
  };
  template = "body";
  source = "nextme";
}

-- Neither file of the project can be loaded.
load-get_example :
    get "review" (load text_functions places (some (some project)) (some ("claude" ∷ [])) [])
    ≡ some nested_review
unfolding candidates load_skill_file validated with_override parse_frontmatter parse_lines
    parse_line bind includes_global lookup insert
load-get_example =
    load-get text_functions places (some (some project)) (some ("claude" ∷ [])) [] "review"

-- What the user writes is searched for the placeholder of the context too.
replaced_in_input :
    build_prompt text_functions (record nested_review { template = "{user_input}" }) "{context}" ""
    ≡ ""
unfolding build_prompt
replaced_in_input = refl
