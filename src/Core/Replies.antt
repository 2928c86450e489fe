-- ===== src/Core/Replies.antt =====
-- core/dispatcher.py: the answers to a request for permission, by a number or by a button of the card.
-- `index` is the number that `int` reads from the text, `none` for a text that is not made of digits.
pub mod Settles
use next_me.Common.{
  ℕ, String, Bool, false, not, ◌&&◌, Option, none, some, [], ◌∷◌, Dict, lookup, insert, any, find,
  ◌==◌, nat_comparable, string_comparable, if◌then◌else◌,
}
use next_me.Core.Types.{PermOption, PermissionChoice}
use next_me.Core.Session.{
  Session, UserContext, Registry, Futures, get_context, is_pending, resolve_permission,
}

abbrev pub is_option : ℕ → PermOption → Bool
is_option index opt = opt.index == index

unfoldable pub is_permission_reply : Futures → Session → Option ℕ → Bool
is_permission_reply fs s none = false
is_permission_reply fs s (some index) = is_pending fs s && any (is_option index) s.perm_options

abbrev pub label_of : Option PermOption → String
label_of none = ""
label_of (some opt) = opt.label

abbrev pub choice_of : ℕ → Session → PermissionChoice
choice_of index s = record {
  request_id = "";
  option_index = index;
  option_label = label_of (find (is_option index) s.perm_options);
}

unfoldable pub apply_permission_reply : ℕ → Futures → Session → Futures × Session
apply_permission_reply index fs s = resolve_permission (choice_of index s) fs s

-- The first of the sessions that waits for this option is answered.
unfoldable pub answer_first : ℕ → Futures → Dict String Session → Futures × Dict String Session
unfolding is_permission_reply apply_permission_reply
answer_first index fs [] = (fs, [])
answer_first index fs ((name, s) ∷ rest) =
    let later = answer_first index fs rest in
    if is_permission_reply fs s (some index)
    then (let (fs', s') = apply_permission_reply index fs s in (fs', (name, s') ∷ rest))
    else (later.0, (name, s) ∷ later.1)

-- The session of the card's project, or else all sessions of the context.
unfoldable pub answer_context : ℕ → String → Futures → UserContext → Futures × UserContext
unfolding answer_first
answer_context index project_name fs ctx = elim (lookup project_name ctx.sessions) [
  | some s ↦
      if project_name == ""
      then (let (fs', sessions) = answer_first index fs ctx.sessions in
          (fs', record ctx { sessions = sessions }))
      else if is_permission_reply fs s (some index)
      then (let (fs', s') = apply_permission_reply index fs s in
          (fs', record ctx { sessions = insert project_name s' ctx.sessions }))
      else (fs, ctx)
  | none ↦
      let (fs', sessions) = answer_first index fs ctx.sessions in
      (fs', record ctx { sessions = sessions })
]

unfoldable pub handle_card_action : String → ℕ → String → Futures → Registry → Futures × Registry
unfolding answer_context
handle_card_action session_id index project_name fs contexts =
    elim (get_context session_id contexts) [
      | none ↦ (fs, contexts)
      | some ctx ↦
          let (fs', ctx') = answer_context index project_name fs ctx in
          (fs', insert session_id ctx' contexts)
    ]
