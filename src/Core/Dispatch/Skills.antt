-- ===== src/Core/Dispatch/Skills.antt =====
-- core/dispatcher.py: `/skill`, which lists the skills or puts the prompt of one into the queue of the session at hand.
pub mod Prompt
pub mod Attendees
use Prim.Native.String.{◌++◌ as append}
use next_me.Common.{
  ℕ, String, Bool, not, true, false, Option, none, some, List, [], ◌∷◌, ◌++◌, map, ◌==◌,
  string_comparable, if◌then◌else◌, keep, length, ltb, Dict, sort_by,
}
use next_me.Skills
use next_me.Skills.{Text, Skill, build_prompt, list_all}
use next_me.Core.Types.{Task}
use next_me.Core.Session.{Session}
use next_me.Core.Dispatcher.{is_full}
use next_me.Core.Worker.Execute.{all_lines, block}
use next_me.Core.Commands.{Words, Setting, put_session}
use next_me.Core.Dispatch.{Bot, user_of, ensure_worker, put_desk}

pub data SkillAnswer : Type 0 where
  -- the sources with their skills
  skills : List (String × List Skill) → SkillAnswer
  -- the trigger, and those that there are
  unknown_skill : String → List String → SkillAnswer
  skill_queued queue_full : SkillAnswer

-- What `str` and `uuid` give: the order of texts, `partition(" ")` without the space, and the id of the new task.
pub record Outer : Type 0 where
  pub text : Text
  pub leb_text : String → String → Bool
  pub partition : String → String × String
  pub new_id : String

abbrev pub is_empty : List Skill → Bool
is_empty [] = true
is_empty (_ ∷ _) = false

unfoldable pub sorted_skills : Outer → Dict String Skill → List Skill
sorted_skills out registry =
    sort_by (λ a b. out.leb_text a.meta.trigger b.meta.trigger) (list_all registry)

-- A skill from elsewhere than these sources is not shown.
unfoldable pub by_source : List Skill → List (String × List Skill)
by_source found =
    keep (λ g. not (is_empty g.1))
      (map (λ source. (source, keep (λ s. s.source == source) found))
        ("global" ∷ "nextme" ∷ "project" ∷ []))

-- The mentions, and the caller where no mention is the caller's, as in the prompt of a worker.
abbrev pub attendees : Setting → Task → List (String × String)
attendees setting task = all_lines (record task { user_id = user_of setting task })

abbrev pub with_attendees : String → List (String × String) → String
with_attendees input [] = input
with_attendees input (l ∷ lines) = append input (append "\n\n参与人(@mentions):" (block (l ∷ lines)))

-- The author and the thread of the task are not taken over.
unfoldable pub skill_task : Outer → Setting → Skill → String → Task → Task
skill_task out setting skill input task = record {
  id = out.new_id;
  content =
      build_prompt out.text skill (with_attendees (out.text.strip input) (attendees setting task))
        "";
  session_id = task.session_id;
  message_id = task.message_id;
  chat_type = task.chat_type;
  timeout = task.timeout;
  canceled = false;
  was_queued = false;
  mentions = [];
  user_id = "";
  thread_root_id = "";
}

-- The active task is not counted for `was_queued`.
abbrev pub put_task : Task → Session → Session
put_task task s =
    let queued = record task { was_queued = ltb 0 (length s.task_queue) } in
    record s {
      task_queue = s.task_queue ++ queued ∷ [];
      pending_tasks = s.pending_tasks ++ queued ∷ [];
    }

unfoldable pub skill_command :
    Outer → Setting → Dict String Skill → Words → Task → Session → Bot → SkillAnswer × Bot
skill_command out setting registry words task session bot =
    let (trigger, input) = out.partition words.arg in
    if words.arg == ""
    then (skills (by_source (sorted_skills out registry)), bot)
    else (elim (Skills.get (out.text.strip trigger) registry) [
      | none ↦ (unknown_skill trigger (map (λ s. s.meta.trigger) (sorted_skills out registry)), bot)
      | some skill ↦
          let session' = put_task (skill_task out setting skill input task) session in
          if is_full session
          then (queue_full, bot)
          else (skill_queued, ensure_worker session' (put_desk (put_session session' bot.desk) bot))
    ])
