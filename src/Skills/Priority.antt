-- ===== src/Skills/Priority.antt =====
-- Which skill a trigger finds after skills/registry.py has loaded every tier.
use next_me.Common.{
  Bool, ◌∙◌, ap, Option-cases, inl, inr, String, true, false, ◌≡◌, refl, Option, none, some, List,
  [], ◌∷◌, ◌==◌, string_comparable, if◌then◌else◌, Dict, lookup, lookup-insert, arith,
}
use next_me.Skills.{
  Text, Skill, SkillFile, Directory, Places, load_skill_file, register, candidates, load_each,
  load_directory, includes_global, load, get,
}

abbrev or_else : {A : Type 0} → Option A → Option A → Option A
or_else first second = elim first [ none ↦ second | some a ↦ some a ]

or_else-none : {A : Type 0} (first : Option A) → or_else first none ≡ first
or_else-none none = refl
or_else-none (some a) = refl

-- The skill of one file, if it can be loaded and has the trigger.
abbrev offered : Text → String → String → SkillFile × String → Option Skill
offered re source trigger c = elim (load_skill_file re c.0 c.1 source) [
  | none ↦ none
  | some skill ↦ if skill.meta.trigger == trigger then some skill else none
]

-- The last of the files that offers one.
abbrev last_offered : Text → String → String → List (SkillFile × String) → Option Skill
last_offered re source trigger [] = none
last_offered re source trigger (c ∷ rest) =
    or_else (last_offered re source trigger rest) (offered re source trigger c)

abbrev tier : Text → String → String → Option Directory → Option Skill
tier re source trigger none = none
tier re source trigger (some directory) = last_offered re source trigger (candidates directory)

load_each-lookup :
    (re : Text) (source trigger : String) (cs : List (SkillFile × String))
    (registry : Dict String Skill)
    → lookup trigger (load_each re source cs registry)
      ≡ or_else (last_offered re source trigger cs) (lookup trigger registry)
unfolding load_each register
load_each-lookup re source trigger [] registry = refl
load_each-lookup re source trigger ((file, name) ∷ rest) registry =
    elim (Option-cases (load_skill_file re file name source)) [
      | inl e ↦ ground (arith, load_each-lookup re source trigger rest registry, e)
      | inr (skill, e) ↦ ground (
        arith,
        load_each-lookup re source trigger rest (register skill registry),
        lookup-insert skill.meta.trigger trigger skill registry,
        e,
      )
    ]

load_directory-lookup :
    (re : Text) (source trigger : String) (directory : Option Directory)
    (registry : Dict String Skill)
    → lookup trigger (load_directory re source directory registry)
      ≡ or_else (tier re source trigger directory) (lookup trigger registry)
unfolding load_directory
load_directory-lookup re source trigger none registry = refl
load_directory-lookup re source trigger (some directory) registry =
    load_each-lookup re source trigger (candidates directory) registry

global-lookup :
    (re : Text) (trigger : String) (included : Bool) (directory : Option Directory)
    → lookup trigger (if included then load_directory re "global" directory [] else [])
      ≡ (if included then tier re "global" trigger directory else none)
unfolding lookup
global-lookup re trigger true directory =
    load_directory-lookup re "global" trigger directory [] ∙ or_else-none _
global-lookup re trigger false directory = refl

-- After a load, a trigger finds the skill of the highest tier that has a file with it that can be loaded:
-- the project's directory, then the user's, then the one of the package, then Claude's where it is included.
-- In one directory it is the last such file, and the files in subdirectories come after the others. What was
-- registered before does not matter.
pub load-get :
    (re : Text) (places : Places) (project : Option (Option Directory))
    (executors : Option (List String)) (before : Dict String Skill) (trigger : String)
    → get trigger (load re places project executors before)
      ≡ or_else
          (tier re "project" trigger (elim project [ none ↦ none | some directory ↦ directory ]))
          (or_else (tier re "nextme" trigger places.nextme_skills) (
            or_else (tier re "nextme" trigger places.builtin_skills) (
              if includes_global re executors
              then tier re "global" trigger places.claude_skills
              else none)))
unfolding get load
load-get re places project executors before trigger =
    load_directory-lookup re "project" trigger _ _
    ∙ ap (or_else _) (
        load_directory-lookup re "nextme" trigger places.nextme_skills _
        ∙ ap (or_else _) (
            load_directory-lookup re "nextme" trigger places.builtin_skills _
            ∙ ap (or_else _)
                (global-lookup re trigger (includes_global re executors) places.claude_skills)))
