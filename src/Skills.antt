-- ===== src/Skills.antt =====
-- skills/loader.py, skills/registry.py and skills/invoker.py: the skill files of four directories. What
-- the code calls of `re` and `str` is a `Text`; the files are given, in the order of `sorted`, with the
-- text of each where it can be read.
pub mod Priority
pub mod Tests
use Prim.Native.String.{◌++◌ as append_text}
use mathlib.Core.Option.{bind}
use next_me.Common.{
  String, Bool, true, false, not, ◌&&◌, ◌||◌, Option, none, some, List, [], ◌∷◌, ◌++◌, map, ◌==◌,
  string_comparable, if◌then◌else◌, keep, Dict, lookup, insert, has_key,
}

infixl 10 ◌>>=◌
abbrev ◌>>=◌ : {A B : Type 0} → Option A → (A → Option B) → Option B
m >>= f = bind m f

pub record Text : Type 0 where
  -- the groups of _FRONTMATTER_RE, _KV_LINE_RE and _INLINE_LIST_RE where they match
  pub frontmatter : String → Option (String × String)
  pub key_value : String → Option (String × String)
  pub inline_list : String → Option String
  pub lines : String → List String
  pub split_commas : String → List String
  pub strip : String → String
  pub strip_quotes : String → String
  pub lower : String → String
  -- whether the second text starts with the first
  pub starts_with : String → String → Bool
  -- `replace(old, new)` of the third text
  pub replace : String → String → String → String
  -- whether the first text is in the second
  pub contains : String → String → Bool

pub record SkillMeta : Type 0 where
  pub name : String
  pub trigger : String
  pub description : String
  pub tools_allowlist : List String
  pub tools_denylist : List String

pub record Skill : Type 0 where
  pub meta : SkillMeta
  pub template : String
  pub source : String

pub data Value : Type 0 where
  plain : String → Value
  items : List String → Value

-- A file of a directory; its text is `none` where it cannot be read.
pub record SkillFile : Type 0 where
  pub stem : String
  pub parent_name : String
  pub text : Option String

-- What `glob("*.md")` and `rglob("SKILL.md")` find.
pub record Directory : Type 0 where
  pub flat : List SkillFile
  pub nested : List SkillFile

-- The directories of the first two tiers, `none` where there is none.
pub record Places : Type 0 where
  pub claude_skills : Option Directory
  pub builtin_skills : Option Directory
  pub nextme_skills : Option Directory

unfoldable pub parse_inline_list : Text → String → List String
parse_inline_list re value = elim (re.inline_list (re.strip value)) [
  | none ↦ []
  | some group ↦
      if re.strip group == ""
      then []
      else keep (λ item. not (item == ""))
          (map (λ part. re.strip_quotes (re.strip part)) (re.split_commas (re.strip group)))
]

unfoldable pub parse_line : Text → String → Dict String Value → Dict String Value
parse_line re line result =
    if (line == "") || re.starts_with "#" line then result else (elim (re.key_value line) [
      | none ↦ result
      | some (k, v) ↦
          insert (re.lower (re.strip k))
            (if re.starts_with "[" (re.strip v)
              then items (parse_inline_list re (re.strip v))
              else plain (re.strip_quotes (re.strip v)))
            result
    ])

unfoldable pub parse_lines : Text → List String → Dict String Value → Dict String Value
parse_lines re [] result = result
parse_lines re (line ∷ rest) result = parse_lines re rest (parse_line re (re.strip line) result)

unfoldable pub parse_frontmatter : Text → String → Dict String Value
parse_frontmatter re text = parse_lines re (re.lines text) []

abbrev setdefault : String → String → Dict String Value → Dict String Value
setdefault k v d = if has_key k d then d else insert k (plain v) d

unfoldable pub with_override : String → Dict String Value → Dict String Value
with_override trigger_override d =
    if trigger_override == ""
    then d
    else setdefault "name" trigger_override (setdefault "trigger" trigger_override d)

-- A field that must be there, a text, and not empty.
abbrev required : String → Dict String Value → Option String
required k d = elim (lookup k d) [
  | none ↦ none
  | some v ↦ elim v [ plain s ↦ if s == "" then none else some s | items _ ↦ none ]
]

-- A text that may be missing; a list is refused.
abbrev optional : String → Dict String Value → Option String
optional k d = elim (lookup k d) [
  | none ↦ some ""
  | some v ↦ elim v [ plain s ↦ some s | items _ ↦ none ]
]

-- A list that may be missing; a text is refused.
abbrev list_of : String → Dict String Value → Option (List String)
list_of k d = elim (lookup k d) [
  | none ↦ some []
  | some v ↦ elim v [ plain _ ↦ none | items l ↦ some l ]
]

-- The checks of the required fields and `SkillMeta.model_validate`.
unfoldable pub validated : Dict String Value → Option SkillMeta
validated d = do
  name ← required "name" d
  trigger ← required "trigger" d
  description ← optional "description" d
  tools_allowlist ← list_of "tools_allowlist" d
  tools_denylist ← list_of "tools_denylist" d
  some (record {
    name = name;
    trigger = trigger;
    description = description;
    tools_allowlist = tools_allowlist;
    tools_denylist = tools_denylist;
  })

-- `none` where it raises ValueError or OSError.
unfoldable pub load_skill_file : Text → SkillFile → String → String → Option Skill
load_skill_file re file trigger_override source = do
  raw ← file.text
  groups ← re.frontmatter raw
  meta ← validated (with_override trigger_override (parse_frontmatter re groups.0))
  some (record { meta = meta; template = re.strip groups.1; source = source })

unfoldable pub register : Skill → Dict String Skill → Dict String Skill
register skill registry = insert skill.meta.trigger skill registry

unfoldable pub candidates : Directory → List (SkillFile × String)
candidates directory =
    map (λ file. (file, file.stem)) directory.flat
    ++ map (λ file. (file, file.parent_name)) directory.nested

unfoldable pub load_each :
    Text → String → List (SkillFile × String) → Dict String Skill → Dict String Skill
load_each re source [] registry = registry
load_each re source ((file, trigger) ∷ rest) registry =
    load_each re source rest (elim (load_skill_file re file trigger source) [
      | none ↦ registry
      | some skill ↦ register skill registry
    ])

unfoldable pub load_directory :
    Text → String → Option Directory → Dict String Skill → Dict String Skill
load_directory re source none registry = registry
load_directory re source (some directory) registry =
    load_each re source (candidates directory) registry

-- `any(e.startswith("claude") for e in executors)`
abbrev any_claude : Text → List String → Bool
any_claude re [] = false
any_claude re (e ∷ rest) = re.starts_with "claude" e || any_claude re rest

unfoldable pub includes_global : Text → Option (List String) → Bool
includes_global re none = true
includes_global re (some executors) = any_claude re executors

-- What was registered before is cleared. `project` is the project's directory of skills, if a project is given.
unfoldable pub load :
    Text
    → Places
    → Option (Option Directory)
    → Option (List String)
    → Dict String Skill
    → Dict String Skill
load re places project executors before =
    load_directory re "project" (elim project [ none ↦ none | some directory ↦ directory ])
      (load_directory re "nextme" places.nextme_skills (
        load_directory re "nextme" places.builtin_skills (
          if includes_global re executors
          then load_directory re "global" places.claude_skills []
          else [])))

unfoldable pub get : String → Dict String Skill → Option Skill
get trigger registry = lookup trigger registry

-- SkillInvoker.build_prompt
unfoldable pub build_prompt : Text → Skill → String → String → String
build_prompt re skill user_input context =
    let result =
      re.replace "{context}" context (re.replace "{user_input}" user_input skill.template) in
    if not (user_input == "") && not (re.contains "{user_input}" skill.template)
    then append_text (append_text result "\n\nUser request: ") user_input
    else result

unfoldable pub list_all : Dict String Skill → List Skill
list_all registry = map (λ e. e.1) registry
