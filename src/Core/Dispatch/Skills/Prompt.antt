-- ===== src/Core/Dispatch/Skills/Prompt.antt =====
-- The prompt that `/skill` in core/dispatcher.py makes of the template of a skill and the text of its caller.
use Prim.Native.String.{◌++◌ as append}
use text.Mathlib.TextLemmas.{append_assoc as text_append_assoc, append-nil as text_append-nil}
use next_me.Common.{
  sym, ap, ◌∙◌, Bool-cases, inl, inr, String, ◌≡◌, refl, List, [], ◌∷◌, ◌==◌, string_comparable,
  if◌then◌else◌, arith,
}
use next_me.Skills.{Text, Skill, build_prompt}
use next_me.Core.Worker.Execute.{block}
use next_me.Core.Dispatch.Skills.{with_attendees}

-- The line of a user, and the lines under each other.
abbrev pub attendee_line : String × String → String
attendee_line (open_id, name) =
    append "- " (append name (append " (open_id: " (append open_id ")")))

abbrev pub listing : List (String × String) → String
listing [] = ""
listing (l ∷ []) = attendee_line l
listing (l ∷ m ∷ rest) = append (attendee_line l) (append "\n" (listing (m ∷ rest)))

-- The text of the user, with the list under it where there is anyone to name.
abbrev pub request_text : String → List (String × String) → String
request_text input [] = input
request_text input (l ∷ lines) = append input (append "\n\n参与人(@mentions):\n" (listing (l ∷ lines)))

-- The template of the skill with the request in its place, or after it where it has none.
abbrev pub prompt_text : Text → String → String → String
prompt_text re template request =
    let filled = re.replace "{context}" "" (re.replace "{user_input}" request template) in
    if re.contains "{user_input}" template
    then filled
    else if request == ""
    then filled
    else append filled (append "\n\nUser request: " request)

line_lem :
    (id name rest : String)
    → append "\n- " (append name (append " (open_id: " (append id (append ")" rest))))
      ≡ append "\n" (append (attendee_line (id, name)) rest)
line_lem id name rest =
    text_append_assoc "\n" "- " (append name (append " (open_id: " (append id (append ")" rest))))
    ∙ ap (append "\n") (
        sym (
          text_append_assoc "- " (append name (append " (open_id: " (append id ")"))) rest
          ∙ ap (append "- ") (
              text_append_assoc name (append " (open_id: " (append id ")")) rest
              ∙ ap (append name) (
                  text_append_assoc " (open_id: " (append id ")") rest
                  ∙ ap (append " (open_id: ") (text_append_assoc id ")" rest)))))

block-listing :
    (l : String × String) (lines : List (String × String))
    → block (l ∷ lines) ≡ append "\n" (listing (l ∷ lines))
block-listing (id, name) [] =
    line_lem id name "" ∙ ap (append "\n") (text_append-nil (attendee_line (id, name)))
block-listing (id, name) (m ∷ rest) =
    line_lem id name (block (m ∷ rest))
    ∙ ap (λ b. append "\n" (append (attendee_line (id, name)) b)) (block-listing m rest)

pub with_attendees-request_text :
    (input : String) (lines : List (String × String))
    → with_attendees input lines ≡ request_text input lines
with_attendees-request_text input [] = refl
with_attendees-request_text input (l ∷ lines) = ap (append input) (
    ap (append "\n\n参与人(@mentions):") (block-listing l lines)
    ∙ sym (text_append_assoc "\n\n参与人(@mentions):" "\n" (listing (l ∷ lines))))

pub build_prompt-prompt_text :
    (re : Text) (skill : Skill) (request : String)
    → build_prompt re skill request "" ≡ prompt_text re skill.template request
unfolding build_prompt
build_prompt-prompt_text re skill request =
    elim (Bool-cases (re.contains "{user_input}" skill.template)) [
      | inl placed ↦ rw (placed, build_prompt) (ground arith)
      | inr unplaced ↦ elim (Bool-cases (request == "")) [
        | inl empty ↦ rw (unplaced, empty, build_prompt) refl
        | inr given ↦
            rw (unplaced, given, build_prompt) (text_append_assoc _ "\n\nUser request: " request)
      ]
    ]
