-- ===== src/Acp/Execution/Permits.antt =====
-- What acp/runtime.py answers to a request for permission.
use mathlib.Core.Path.{subst}
use next_me.Common.{
  ℕ, zero, suc, ◌-◌, String, Bool, ◌≡◌, refl, sym, any-find, ap, ◌∙◌, ◌==◌, ◌||◌, ◌≢◌, ◌⊎◌, inl,
  inr, true, false, Option, none, some, List, [], ◌∷◌, ◌++◌, string_comparable, any, find,
  get_elem?, Option-cases, Bool-cases, ◌>>=◌, arith,
}
use next_me.Acp.Protocol.{Message, PermissionOption, InboundPermissionRequest}
use next_me.Acp.Process.{Line, selected, refusal, send_raw}
use next_me.Acp.Execution.{
  Stream, Choice, chosen, call_failed, call_cancelled, is_allow, has_id, first_preferred,
  first_option, session_allow_option_ids, pick_auto_approve_option, chosen_option, ask_permission,
  is_permission_request, handle_permission,
}

-- The option at a place, counted from one; 0 is read as one.
abbrev pub at_place : ℕ → List PermissionOption → Option String
at_place n [] = none
at_place zero (opt ∷ rest) = some opt.option_id
at_place (suc zero) (opt ∷ rest) = some opt.option_id
at_place (suc (suc n)) (opt ∷ rest) = at_place (suc n) rest

-- Without options there is nothing to name but this.
abbrev pub leading : List PermissionOption → String
leading [] = "allow_once"
leading (opt ∷ rest) = opt.option_id

-- What stands for the user's choice.
abbrev pub placed : ℕ → List PermissionOption → String
placed index options = elim (at_place index options) [ some id ↦ id | none ↦ leading options ]

abbrev pub for_session : List String
for_session = "session_level_allow" ∷ "allow_always" ∷ "always_allow" ∷ []

abbrev pub offers : List PermissionOption → String → Bool
offers options id = any (λ opt. opt.option_id == id) options

-- An id that automatic approval may send.
pub data Approval (says_allow : String → Bool) (options : List PermissionOption) (id : String)
    : Type 0 where
  -- the first of these that is offered
  session_wide : find (offers options) for_session ≡ some id → Approval says_allow options id
  -- the first that says so
  allowing :
      (opt : PermissionOption)
      → find (offers options) for_session ≡ none
      → find (λ opt. says_allow opt.kind || says_allow opt.option_id) options ≡ some opt
      → id ≡ opt.option_id
      → Approval says_allow options id
  without_allow :
      find (offers options) for_session ≡ none
      → find (λ opt. says_allow opt.kind || says_allow opt.option_id) options ≡ none
      → id ≡ leading options
      → Approval says_allow options id

-- The answer to a request with this id and these options, by whether it is approved automatically and what the call
-- that asks the user does.
abbrev pub Answers :
    (String → Bool) → Bool → Choice → Option ℕ → List PermissionOption → Line → Type 0
Answers says_allow true choice id options line =
    (option_id : String) × (line ≡ selected id option_id) × Approval says_allow options option_id
Answers says_allow false (chosen index) id options line = line ≡ selected id (placed index options)
Answers says_allow false call_failed id options line = line ≡ refusal id
Answers says_allow false call_cancelled id options line = true ≡ false

leading_lem : (options : List PermissionOption) → first_option options ≡ leading options
leading_lem [] = refl
leading_lem (o ∷ rest) = refl

first_preferred-find :
    (ids : List String) (options : List PermissionOption)
    → first_preferred ids options ≡ find (offers options) ids
first_preferred-find [] options = refl
first_preferred-find (p ∷ rest) options =
    ground (arith, first_preferred-find rest options, any-find (has_id p) options)

pick-Approval :
    (says_allow : String → Bool) (options : List PermissionOption)
    → Approval says_allow options (pick_auto_approve_option says_allow options)
unfolding pick_auto_approve_option
pick-Approval says_allow options =
    let same = first_preferred-find session_allow_option_ids options in
    elim (Option-cases (first_preferred session_allow_option_ids options)) [
      | inr (id, e) ↦ rw (e, pick_auto_approve_option) (session_wide (sym same ∙ e))
      | inl e ↦
          rw (e, pick_auto_approve_option)
            (elim (Option-cases (find (is_allow says_allow) options)) [
              | inr (opt, h) ↦ rw h (allowing opt (sym same ∙ e) h refl)
              | inl h ↦ rw h (without_allow (sym same ∙ e) h (leading_lem options))
            ])
    ]

placed_lem :
    (n : ℕ) (options : List PermissionOption)
    → (elim (get_elem? options n) [ some opt ↦ opt.option_id | none ↦ first_option options ])
      ≡ (elim (at_place (suc n) options) [ some id ↦ id | none ↦ leading options ])
placed_lem n options = elim (Option-cases (get_elem? options n)) [
  | inr (opt, e) ↦ rw (e, at_place_lem n options, e) refl
  | inl e ↦ rw (e, at_place_lem n options, e) (leading_lem options)
]
  where
    at_place_lem :
        (n : ℕ) (options : List PermissionOption)
        → at_place (suc n) options
          ≡ (elim (get_elem? options n) [ some opt ↦ some opt.option_id | none ↦ none ])
    at_place_lem n [] = ground arith
    at_place_lem zero (o ∷ rest) = refl
    at_place_lem (suc n) (o ∷ rest) = at_place_lem n rest

place_zero : (options : List PermissionOption) → at_place 1 options ≡ at_place 0 options
place_zero [] = refl
place_zero (o ∷ rest) = refl

chosen_option-placed :
    (index : ℕ) (options : List PermissionOption)
    → chosen_option index options ≡ placed index options
unfolding chosen_option
chosen_option-placed zero options =
    placed_lem 0 options
    ∙ ap (λ (o : Option String). elim o [ some id ↦ id | none ↦ leading options ])
        (place_zero options)
chosen_option-placed (suc n) options =
    subst
      (λ k.
        (elim (get_elem? options k) [ some opt ↦ opt.option_id | none ↦ first_option options ])
        ≡ placed (suc n) options)
      (predecessor n) (placed_lem n options)
  where
    predecessor : (n : ℕ) → n ≡ suc n - 1
    predecessor n = omega arith

-- A request for permission gets one answer, under its own id, if the agent can be written to and, where it is not
-- approved automatically, the call that asks the user is not cancelled. That is: the option at the place that the user
-- chose, counted from one, or the first option where there is none at that place; an error, if the call failed; and
-- with automatic approval, the first of the three session-wide options that the agent offers, else its first option
-- that says "allow", else its first option. Where the agent offers no options at all, the option that is named is
-- "allow_once".
pub handle_permission-Answers :
    (says_allow : String → Bool) (choice : Choice) (msg : Message) (req : InboundPermissionRequest)
    (s : Stream)
    → is_permission_request msg.method ≡ true
    → msg.permission ≡ some req
    → s.runtime.writes ≡ []
    → (s.runtime.permission_auto_approve ≡ true) ⊎ (choice ≢ call_cancelled)
    → (line : Line) × ((handle_permission says_allow choice msg s).1.runtime.lines
        ≡ s.runtime.lines ++ line ∷ [])
      × Answers says_allow s.runtime.permission_auto_approve choice msg.id req.options line
unfolding handle_permission ask_permission send_raw ◌>>=◌
handle_permission-Answers says_allow choice msg req s m p w asked =
    elim (Bool-cases s.runtime.permission_auto_approve) [
      | inl auto ↦ (
        selected msg.id (pick_auto_approve_option says_allow req.options),
        ground arith,
        rw auto (
          pick_auto_approve_option says_allow req.options,
          refl,
          pick-Approval says_allow req.options,
        ),
      )
      | inr manual ↦
          elim choice
              as (λ c.
                (s.runtime.permission_auto_approve ≡ true) ⊎ (c ≢ call_cancelled)
                → (line : Line) × ((handle_permission says_allow c msg s).1.runtime.lines
                    ≡ s.runtime.lines ++ line ∷ [])
                  × Answers says_allow s.runtime.permission_auto_approve c msg.id req.options
                      line) [
                        | chosen index ↦ λ _. (
                          selected msg.id (chosen_option index req.options),
                          ground arith,
                          rw manual (ap (selected msg.id) (chosen_option-placed index req.options)),
                        )
                        | call_failed ↦ λ _. (refusal msg.id, ground arith, rw manual refl)
                        | call_cancelled ↦ λ h. ground arith
                      ]
            asked
    ]
