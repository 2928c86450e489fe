-- ===== src/Core/Routing.antt =====
-- core/dispatcher.py: the session that `dispatch` takes for a task, by the bindings of the chat and
-- the projects of the user.
use next_me.Common.{
  ℕ, String, ◌≡◌, false, Option, none, some, ◌==◌, string_comparable, arith, if◌then◌else◌, Dict,
  lookup, lookup-insert, find_passes, Action, return, raise, assertion_error, ok, Option-cases, inl,
  inr,
}
use mathlib.Core.Path.{subst}
use mathlib.Core.Option
use next_me.Config.Schema.{AppConfig, Project, get_project, get_binding, default_project}
use next_me.Core.Session.{
  Session, UserContext, new_session, get_active_session, get_or_create_session,
}

-- `a or b`, where an empty text counts as nothing
abbrev pub or_text : Option String → Option String → Option String
or_text none b = b
or_text (some a) b = if a == "" then b else some a

-- `dynamic` is `_dynamic_bindings`.
unfoldable pub resolve_bound_project : AppConfig → Dict String String → String → Option Project
resolve_bound_project config dynamic chat_id =
    elim (or_text (get_binding config chat_id) (lookup chat_id dynamic)) [
      | none ↦ none
      | some project_name ↦ if project_name == "" then none else get_project config project_name
    ]

-- The answer is `none` where no project is configured.
unfoldable pub session_for :
    AppConfig → Dict String String → String → ℕ → String → Action UserContext (Option Session)
unfolding resolve_bound_project
session_for config dynamic salt capacity chat_id ctx =
    elim (resolve_bound_project config dynamic chat_id) [
      | some project ↦
          let (session, ctx') = get_or_create_session salt capacity project ctx in
          return (some session) ctx'
      | none ↦ elim (get_active_session ctx) [
        | some session ↦ return (some session) ctx
        | none ↦ elim (default_project config) [
          | none ↦ return none ctx
          | some project ↦
              let ctx' : UserContext = (get_or_create_session salt capacity project ctx).1 in
              elim (get_active_session ctx') [
                | none ↦ raise assertion_error ctx'
                | some session ↦ return (some session) ctx'
              ]
        ]
      ]
    ]

-- A session stands under the name of its project.
pub record IsValid (ctx : UserContext) : Type 0 where
  pub own :
      (name : String) (s : Session) → lookup name ctx.sessions ≡ some s → s.project_name ≡ name

get_or_create_session_lem :
    (salt : String) (capacity : ℕ) (project : Project) (ctx : UserContext)
    → IsValid ctx
    → ((get_or_create_session salt capacity project ctx).0.project_name ≡ project.name)
      × (lookup project.name (get_or_create_session salt capacity project ctx).1.sessions
          ≡ some (get_or_create_session salt capacity project ctx).0)
      × ((get_or_create_session salt capacity project ctx).1.active_project ≡ project.name)
unfolding get_or_create_session
get_or_create_session_lem salt capacity project ctx v =
    elim (Option-cases (lookup project.name ctx.sessions)) [
      | inl absent ↦
          let new : Session = new_session salt capacity ctx.context_id project in
          (
            unfold new_session in ground arith,
            ground (
              arith,
              lookup-insert project.name project.name new ctx.sessions,
              string_comparable.equals_iff project.name project.name,
            ),
            ground arith,
          )
      | inr (s, known) ↦ (ground (arith, v.own project.name s), ground arith, ground arith)
    ]

get_or_create_session-IsValid :
    (salt : String) (capacity : ℕ) (project : Project) (ctx : UserContext)
    → IsValid ctx
    → IsValid (get_or_create_session salt capacity project ctx).1
unfolding get_or_create_session
get_or_create_session-IsValid salt capacity project ctx v =
    elim (Option-cases (lookup project.name ctx.sessions)) [
      | inl absent ↦
          let new : Session = new_session salt capacity ctx.context_id project in
          record {
            own = λ name s e.
                unfold new_session in
                ground (
                  arith,
                  lookup-insert project.name name new ctx.sessions,
                  string_comparable.equals_iff project.name name,
                  v.own name s,
                );
          }
      | inr (s, known) ↦ record { own = λ name s' e. ground (arith, v.own name s') }
    ]

-- The project that the rules name: the bound one, else the active one, else the first one.
abbrev pub target : AppConfig → Dict String String → String → UserContext → Option String
target config dynamic chat_id ctx = elim (resolve_bound_project config dynamic chat_id) [
  | some project ↦ some project.name
  | none ↦ elim (get_active_session ctx) [
    | some session ↦ some session.project_name
    | none ↦ elim (default_project config) [ none ↦ none | some project ↦ some project.name ]
  ]
]

bound_name :
    (config : AppConfig) (dynamic : Dict String String) (chat_id : String) (project : Project)
    → resolve_bound_project config dynamic chat_id ≡ some project
    → (project.name == "") ≡ false
unfolding resolve_bound_project get_project
bound_name config dynamic chat_id project e =
    elim (Option-cases (or_text (get_binding config chat_id) (lookup chat_id dynamic))) [
      | inl unbound ↦ absurd (ground arith)
      | inr (name, bound) ↦ ground (
        arith,
        find_passes (λ p. p.name == name) config.projects project,
        string_comparable.equals_iff project.name name,
        string_comparable.equals_iff name "",
        string_comparable.equals_iff project.name "",
      )
    ]

active_after :
    (salt : String) (capacity : ℕ) (project : Project) (ctx : UserContext)
    → IsValid ctx
    → (project.name == "") ≡ false
    → get_active_session (get_or_create_session salt capacity project ctx).1
      ≡ some (get_or_create_session salt capacity project ctx).0
unfolding get_active_session
active_after salt capacity project ctx v named =
    ground (arith, get_or_create_session_lem salt capacity project ctx v)

-- The session that a task gets is the active one from then on, and it is the session of the project
-- that the rules name, if the configured projects have names: the chat's binding in the
-- configuration comes first, then its dynamic binding, then the user's active project, then the
-- first project.
session_for-target :
    (config : AppConfig) (dynamic : Dict String String) (salt : String) (capacity : ℕ)
    (chat_id : String) (ctx : UserContext)
    → IsValid ctx
    → ((project : Project) → default_project config ≡ some project → (project.name == "") ≡ false)
    → let (answer, ctx') = session_for config dynamic salt capacity chat_id ctx in
      (answer ≡ ok (get_active_session ctx'))
      × (Option.map (λ s. s.project_name) (get_active_session ctx')
          ≡ target config dynamic chat_id ctx)
unfolding session_for
session_for-target config dynamic salt capacity chat_id ctx v named =
    elim (Option-cases (resolve_bound_project config dynamic chat_id)) [
      | inr (project, bound) ↦ (
        ground (
          arith,
          active_after salt capacity project ctx v
              (bound_name config dynamic chat_id project bound),
        ),
        ground (
          arith,
          active_after salt capacity project ctx v
              (bound_name config dynamic chat_id project bound),
          get_or_create_session_lem salt capacity project ctx v,
        ),
      )
      | inl unbound ↦ elim (Option-cases (get_active_session ctx)) [
        | inr (session, active) ↦ (ground arith, ground arith)
        | inl inactive ↦ elim (Option-cases (default_project config)) [
          | inl nothing ↦ (ground arith, ground arith)
          | inr (project, first) ↦ (
            ground (arith, active_after salt capacity project ctx v (named project first)),
            ground (
              arith,
              active_after salt capacity project ctx v (named project first),
              get_or_create_session_lem salt capacity project ctx v,
            ),
          )
        ]
      ]
    ]

-- Every session of the context still stands under the name of its own project after a task has got
-- its session.
session_for-IsValid :
    (config : AppConfig) (dynamic : Dict String String) (salt : String) (capacity : ℕ)
    (chat_id : String) (ctx : UserContext)
    → IsValid ctx
    → IsValid (session_for config dynamic salt capacity chat_id ctx).1
unfolding session_for
session_for-IsValid config dynamic salt capacity chat_id ctx v =
    let after : UserContext = (session_for config dynamic salt capacity chat_id ctx).1 in
    elim (Option-cases (resolve_bound_project config dynamic chat_id)) [
      | inr (project, bound) ↦
          let same : (get_or_create_session salt capacity project ctx).1 ≡ after = ground arith in
          subst IsValid same (get_or_create_session-IsValid salt capacity project ctx v)
      | inl unbound ↦ elim (Option-cases (get_active_session ctx)) [
        | inr (session, active) ↦ let same : ctx ≡ after = ground arith in subst IsValid same v
        | inl inactive ↦ elim (Option-cases (default_project config)) [
          | inl nothing ↦ let same : ctx ≡ after = ground arith in subst IsValid same v
          | inr (project, first) ↦
              let made : UserContext = (get_or_create_session salt capacity project ctx).1 in
              let same : made ≡ after = elim (Option-cases (get_active_session made)) [
                | inl lost ↦ ground arith
                | inr (session, active) ↦ ground arith
              ] in
              subst IsValid same (get_or_create_session-IsValid salt capacity project ctx v)
        ]
      ]
    ]
