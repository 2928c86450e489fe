-- ===== src/Core/Worker/Permission.antt =====
-- core/worker.py: `_on_permission`, in two parts: up to the wait for the user, and after it. The card, or the notice of
-- an automatic answer, is sent before the request is registered; clicks on the card can arrive while the call that
-- sends it has not returned.
pub mod Options
pub mod Clicks
use next_me.Common.{
  ℕ, ◌-◌, String, Bool, true, false, ◌&&◌, Option, none, some, List, [], ◌∷◌, ◌++◌, insert, lookup,
  string_comparable, nat_comparable, if◌then◌else◌, ltb, leb, length, get_elem?, Result, ok, raised,
  cancelled_error,
}
use next_me.Core.Types.{PermOption, PermissionChoice}
use next_me.Core.Session.{
  Session, Future, waiting, cancelled, resolved, Futures, set_permission_pending, cancel_permission,
  Registry, get_context,
}
use next_me.Core.Replies.{handle_card_action}
use next_me.Core.Worker.{canceled_task}

pub record PermissionRequest : Type 0 where
  pub request_id : String
  pub description : String
  pub options : List PermOption

-- The answer to a request that the runtime has answered already, or the future that is waited for.
pub data Asked : Type 0 where
  notified : PermissionChoice → Asked
  waits : ℕ → Asked

abbrev pub is_nil : List PermOption → Bool
is_nil [] = true
is_nil (_ ∷ _) = false

abbrev pub first_choice : PermissionRequest → PermissionChoice
first_choice req = record { request_id = req.request_id; option_index = 1; option_label = "" }

unfoldable pub ask : PermissionRequest → Futures → Session → Asked × Futures × Session
ask req fs s =
    if is_nil req.options
    then (notified (first_choice req), fs, s)
    else (let (h, fs', s') = set_permission_pending req.options fs s in (waits h, fs', s'))

-- What the worker and the clicks share. A card that is sent is the request that it shows.
pub record Scene : Type 0 where
  pub futures : Futures
  pub contexts : Registry
  pub cards : List PermissionRequest

abbrev pub session_at : String → String → Registry → Option Session
session_at id project_name contexts = elim (get_context id contexts) [
  | none ↦ none
  | some ctx ↦ lookup project_name ctx.sessions
]

abbrev pub store_session : String → String → Session → Registry → Registry
store_session id project_name s contexts = elim (get_context id contexts) [
  | none ↦ contexts
  | some ctx ↦ insert id (record ctx { sessions = insert project_name s ctx.sessions }) contexts
]

-- Clicks on the buttons of the session's card, by their options.
unfoldable pub arrive : String → String → List ℕ → Scene → Scene
arrive id project_name [] scene = scene
arrive id project_name (index ∷ rest) scene =
    let (fs, contexts) = handle_card_action id index project_name scene.futures scene.contexts in
    arrive id project_name rest (record scene { futures = fs; contexts = contexts })

-- A card that is sent, with the clicks that arrive before the call returns. An error of the call is caught.
abbrev pub send_card : PermissionRequest → String → String → List ℕ → Scene → Scene
send_card req id project_name clicks scene =
    arrive id project_name clicks (record scene { cards = scene.cards ++ req ∷ [] })

-- Up to the wait. The worker's session is an object that the registry holds too: it stands at this place. A request of a
-- session that the registry has lost meanwhile is not followed.
unfoldable pub request_permission :
    PermissionRequest → String → String → List ℕ → Scene → Option Asked × Scene
unfolding ask arrive
request_permission req id project_name clicks scene =
    if is_nil req.options
    then (some (notified (first_choice req)), scene)
    else (let scene' = send_card req id project_name clicks scene in
        elim (session_at id project_name scene'.contexts) [
          | none ↦ (none, scene')
          | some s ↦
              let (asked, fs, s') = ask req scene'.futures s in
              (
                some asked,
                record scene' {
                  futures = fs;
                  contexts = store_session id project_name s' scene'.contexts;
                },
              )
        ])

-- `denies` says whether a label has "deny" or "reject" in it.
abbrev pub is_denied : (String → Bool) → Option PermOption → Bool
is_denied denies none = false
is_denied denies (some opt) = denies opt.label

abbrev pub chosen : PermissionRequest → PermissionChoice → Option PermOption
chosen req choice =
    if ltb 0 choice.option_index && leb choice.option_index (length req.options)
    then get_elem? req.options (choice.option_index - 1)
    else none

unfoldable pub take_choice :
    (String → Bool) → PermissionRequest → PermissionChoice → Session → Session
take_choice denies req choice s =
    if is_denied denies (chosen req choice)
    then record s { active_task = canceled_task s.active_task }
    else s

-- The future by the end of the wait; it still waits where the worker itself is cancelled.
unfoldable pub answer :
    (String → Bool)
    → PermissionRequest
    → Future
    → Futures
    → Session
    → Result PermissionChoice × Futures × Session
unfolding take_choice
answer denies req (resolved choice) fs s = (ok choice, fs, take_choice denies req choice s)
answer denies req cancelled fs s =
    let (fs', s') = cancel_permission fs s in (raised cancelled_error, fs', s')
answer denies req waiting fs s =
    let (fs', s') = cancel_permission fs s in (raised cancelled_error, fs', s')
