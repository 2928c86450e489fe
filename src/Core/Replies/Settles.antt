-- ===== src/Core/Replies/Settles.antt =====
-- What a button of a permission card does to the requests that wait.
use mathlib.Core.Path.{subst}
use next_me.Common.{
  ℕ, String, ◌≡◌, refl, inl, inr, true, false, Option, none, some, [], ◌∷◌, arith, Dict, lookup,
  insert, ◌==◌, nat_comparable, string_comparable, if◌then◌else◌, get_elem?, get_elem?-set,
  Bool-cases, Option-cases,
}
use next_me.Core.Types.{PermissionChoice}
use next_me.Core.Session.{
  Session, UserContext, Registry, Future, Futures, waiting, cancelled, resolved, is_waiting,
  get_context, resolve_permission,
}
use next_me.Core.Replies.{
  choice_of, is_permission_reply, apply_permission_reply, answer_first, answer_context,
  handle_card_action,
}

-- Nothing changes, or the future at one place, which waits, is resolved with this option.
data Effect (index : ℕ) (fs fs' : Futures) : Type 0 where
  unchanged : fs' ≡ fs → Effect index fs fs'
  answers :
      (place : ℕ) (choice : PermissionChoice)
      → get_elem? fs place ≡ some waiting
      → choice.option_index ≡ index
      → ((h : ℕ)
          → get_elem? fs' h ≡ (if place == h then some (resolved choice) else get_elem? fs h))
      → Effect index fs fs'

waiting_is : (f : Option Future) → is_waiting f ≡ true → f ≡ some waiting
waiting_is none h = absurd (ground arith)
waiting_is (some waiting) h = refl
waiting_is (some cancelled) h = absurd (ground arith)
waiting_is (some (resolved choice)) h = absurd (ground arith)

apply-Effect :
    (index : ℕ) (fs : Futures) (s : Session) → Effect index fs (apply_permission_reply index fs s).0
unfolding apply_permission_reply resolve_permission
apply-Effect index fs s = elim (Option-cases s.perm_future) [
  | inl nothing ↦ unchanged (ground arith)
  | inr (place, there) ↦ elim (Bool-cases (is_waiting (get_elem? fs place))) [
    | inr settled ↦ unchanged (ground arith)
    | inl waits ↦
        let waited = waiting_is (get_elem? fs place) waits in
        answers place (choice_of index s) waited refl (λ h.
          ground (arith, get_elem?-set fs place h (resolved (choice_of index s)) waiting waited))
  ]
]

first-Effect :
    (index : ℕ) (fs : Futures) (sessions : Dict String Session)
    → Effect index fs (answer_first index fs sessions).0
unfolding answer_first
first-Effect index fs [] = unchanged refl
first-Effect index fs ((name, s) ∷ rest) =
    elim (Bool-cases (is_permission_reply fs s (some index))) [
      | inl its ↦
          let same : (apply_permission_reply index fs s).0
              ≡ (answer_first index fs ((name, s) ∷ rest)).0 =
            ground arith in
          subst (Effect index fs) same (apply-Effect index fs s)
      | inr other ↦
          let same : (answer_first index fs rest).0 ≡ (answer_first index fs ((name, s) ∷ rest)).0 =
            ground arith in
          subst (Effect index fs) same (first-Effect index fs rest)
    ]

context-Effect :
    (index : ℕ) (project_name : String) (fs : Futures) (ctx : UserContext)
    → Effect index fs (answer_context index project_name fs ctx).0
unfolding answer_context
context-Effect index project_name fs ctx =
    let after : Futures = (answer_context index project_name fs ctx).0 in
    elim (Option-cases (lookup project_name ctx.sessions)) [
      | inl absent ↦
          let same : (answer_first index fs ctx.sessions).0 ≡ after = ground arith in
          subst (Effect index fs) same (first-Effect index fs ctx.sessions)
      | inr (s, there) ↦ elim (Bool-cases (project_name == "")) [
        | inl unnamed ↦
            let same : (answer_first index fs ctx.sessions).0 ≡ after = ground arith in
            subst (Effect index fs) same (first-Effect index fs ctx.sessions)
        | inr named ↦ elim (Bool-cases (is_permission_reply fs s (some index))) [
          | inl its ↦
              let same : (apply_permission_reply index fs s).0 ≡ after = ground arith in
              subst (Effect index fs) same (apply-Effect index fs s)
          | inr other ↦ unchanged (ground arith)
        ]
      ]
    ]

-- A button of a permission card changes no request, or answers exactly one that waits, with the option
-- of the button; an answer that was given or cancelled before stays.
card_action-Effect :
    (session_id : String) (index : ℕ) (project_name : String) (fs : Futures) (contexts : Registry)
    → Effect index fs (handle_card_action session_id index project_name fs contexts).0
unfolding handle_card_action
card_action-Effect session_id index project_name fs contexts =
    elim (Option-cases (get_context session_id contexts)) [
      | inl absent ↦ unchanged (ground arith)
      | inr (ctx, there) ↦
          let same : (answer_context index project_name fs ctx).0
              ≡ (handle_card_action session_id index project_name fs contexts).0 =
            ground arith in
          subst (Effect index fs) same (context-Effect index project_name fs ctx)
    ]

-- Where the session of the card's project waits for one of its options, the button answers that request
-- and no other, with the label of the option, and the session waits for nothing then.
pub card_action-answers :
    (session_id : String) (index place : ℕ) (project_name : String) (fs : Futures)
    (contexts : Registry) (ctx : UserContext) (s : Session)
    → get_context session_id contexts ≡ some ctx
    → lookup project_name ctx.sessions ≡ some s
    → (project_name == "") ≡ false
    → is_permission_reply fs s (some index) ≡ true
    → s.perm_future ≡ some place
    → let (fs', contexts') = handle_card_action session_id index project_name fs contexts in
      ((h : ℕ)
        → get_elem? fs' h
          ≡ (if place == h then some (resolved (choice_of index s)) else get_elem? fs h))
      × (contexts'
          ≡ insert session_id
              (record ctx {
                sessions =
                    insert project_name
                      (record s { perm_future = none; perm_options = [] })
                      ctx.sessions;
              })
              contexts)
unfolding handle_card_action answer_context is_permission_reply apply_permission_reply
    resolve_permission
card_action-answers session_id index place project_name fs contexts ctx s known there named its
      waits =
    let waited : get_elem? fs place ≡ some waiting =
      waiting_is (get_elem? fs place) (ground arith) in
    (
      (λ h. ground (arith, get_elem?-set fs place h (resolved (choice_of index s)) waiting waited)),
      ground (arith, waited),
    )
