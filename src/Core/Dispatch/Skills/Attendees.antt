-- ===== src/Core/Dispatch/Skills/Attendees.antt =====
-- core/dispatcher.py: the task that `/skill` puts into the queue, and the attendees that its prompt names.
use next_me.Common.{
  ap, ◌∙◌, ◌⊎◌, In, In-append, ℕ, String, ◌≡◌, refl, true, false, ◌||◌, some, List, [], ◌∷◌, ◌++◌,
  map, ◌==◌, string_comparable, if◌then◌else◌, elem, count, count-append, ltb, length, Dict, lookup,
  arith,
}
use next_me.Skills
use next_me.Skills.{Text, Skill, build_prompt}
use next_me.Core.Dispatch.Skills.Prompt.{
  request_text, prompt_text, with_attendees-request_text, build_prompt-prompt_text,
}
use next_me.Core.Types.{Task}
use next_me.Core.Session.{Session}
use next_me.Core.Dispatcher.{is_full}
use next_me.Core.Worker
use next_me.Core.Worker.{Outside}
use next_me.Core.Worker.Execute.{mention_lines, all_lines}
use next_me.Core.Commands.{Words, Setting, put_session}
use next_me.Core.Dispatch.{Bot, user_of, worker_key, put_desk}
use next_me.Core.Dispatch.Queued.{ensure_worker-works, ensure_worker-desk, put_session-lookup}
use next_me.Core.Dispatch.Skills.{
  Outer, attendees, with_attendees, skill_task, put_task, skill_command,
}

abbrev pub named : String → List (String × String) → ℕ
named id = count (λ l. l.0 == id)

mention_lines-named :
    (id : String) (seen : List String) (ms : List (String × String))
    → (id == "") ≡ false
    → named id (mention_lines seen ms)
      ≡ (if elem id seen then 0 else if elem id (map (λ l. l.0) ms) then 1 else 0)
unfolding mention_lines
mention_lines-named id seen [] n = ground arith
mention_lines-named id seen ((open_id, name) ∷ rest) n = ground (
  arith,
  string_comparable.equals_iff open_id id,
  string_comparable.equals_iff id open_id,
  string_comparable.equals_iff open_id "",
  mention_lines-named id (open_id ∷ seen) rest n,
  mention_lines-named id seen rest n,
)

elem-named :
    (id : String) (ms : List (String × String)) → elem id (map (λ l. l.0) ms) ≡ ltb 0 (named id ms)
elem-named id [] = refl
elem-named id (m ∷ ms) = ground (
  arith,
  elem-named id ms,
  string_comparable.equals_iff id m.0,
  string_comparable.equals_iff m.0 id,
)

all_lines-named :
    (id : String) (task : Task)
    → (id == "") ≡ false
    → named id (all_lines task)
      ≡ (if task.user_id == id || elem id (map (λ l. l.0) task.mentions) then 1 else 0)
unfolding all_lines
all_lines-named id task n = ground (
  arith,
  mention_lines-named id [] task.mentions n,
  elem-named task.user_id (mention_lines [] task.mentions),
  string_comparable.equals_iff task.user_id id,
  string_comparable.equals_iff task.user_id "",
  count-append (λ l. l.0 == id) (mention_lines [] task.mentions) ((task.user_id, "[预定人]") ∷ []),
)

mention_lines-In :
    (l : String × String) (seen : List String) (ms : List (String × String))
    → In l (mention_lines seen ms)
    → In l ms
unfolding mention_lines
mention_lines-In l seen [] h = h
mention_lines-In l seen ((open_id, name) ∷ rest) h =
    ground (arith, mention_lines-In l (open_id ∷ seen) rest, mention_lines-In l seen rest)

all_lines-In :
    (l : String × String) (task : Task)
    → In l (all_lines task)
    → In l task.mentions ⊎ (l ≡ (task.user_id, "[预定人]"))
unfolding all_lines
all_lines-In l task h = ground (
  arith,
  mention_lines-In l [] task.mentions,
  In-append l (mention_lines [] task.mentions) ((task.user_id, "[预定人]") ∷ []),
)

-- What the chat has after `/skill` has found the skill.
pub record IsQueued (out : Outer) (setting : Setting) (skill : Skill) (input : String) (task : Task)
    (before : Session) (bot : Bot) : Type 0 where
  pub session : Session
  pub queued : Task
  pub at_hand : lookup bot.desk.context.active_project bot.desk.context.sessions ≡ some session
  pub last : session.task_queue ≡ before.task_queue ++ queued ∷ []
  -- who is named, by id and name, and how
  pub people : List (String × String)
  pub content :
      queued.content
      ≡ prompt_text out.text skill.template (request_text (out.text.strip input) people)
  pub known :
      (l : String × String)
      → In l people
      → In l task.mentions ⊎ (l ≡ (user_of setting task, "[预定人]"))
  pub once :
      (id : String)
      → (id == "") ≡ false
      → named id people
        ≡ (if user_of setting task == id || elem id (map (λ l. l.0) task.mentions) then 1 else 0)
  pub working : lookup (worker_key session) bot.workers ≡ some true
  pub user : (o : Outside) → Worker.user_of o queued session ≡ o.last_part before.context_id

-- Where `/skill` finds a skill and the queue of the session has room, a prompt stands at the end of the queue: the
-- template of the skill with the user's request in it, or after it where the template has no place for it. The request
-- is the text after the trigger, stripped, and under it a line with name and id for each user with an id who is
-- mentioned or is the caller, each once. A worker of the session runs; but it takes for the user of that task the last
-- part of the context's id, whoever has asked.
pub skill_command-IsQueued :
    (out : Outer) (setting : Setting) (registry : Dict String Skill) (words : Words) (task : Task)
    (s : Session) (bot : Bot) (skill : Skill)
    → (words.arg == "") ≡ false
    → Skills.get (out.text.strip (out.partition words.arg).0) registry ≡ some skill
    → is_full s ≡ false
    → IsQueued out setting skill
        (out.partition words.arg).1
        task
        s
        (skill_command out setting registry words task s bot).1
unfolding skill_command skill_task
skill_command-IsQueued out setting registry words task s bot skill given found room =
    let input = (out.partition words.arg).1 in
    let s' = put_task (skill_task out setting skill input task) s in
    rw (given, found, room, skill_command)
      (record {
        session = s';
        queued = record (skill_task out setting skill input task) {
          was_queued = ltb 0 (length s.task_queue);
        };
        at_hand =
            rw (ensure_worker-desk s' (put_desk (put_session s' bot.desk) bot))
              (put_session-lookup s' bot.desk);
        last = refl;
        people = attendees setting task;
        content =
            build_prompt-prompt_text out.text skill
              (with_attendees (out.text.strip input) (attendees setting task))
            ∙ ap (prompt_text out.text skill.template)
                (with_attendees-request_text (out.text.strip input) (attendees setting task));
        known = λ l m. all_lines-In l (record task { user_id = user_of setting task }) m;
        once = λ id n. all_lines-named id (record task { user_id = user_of setting task }) n;
        working = ensure_worker-works s' (put_desk (put_session s' bot.desk) bot);
        user = λ o. refl;
      })
