-- ===== src/Config/StateStore/Restart.antt =====
-- Nothing that the program put into its state is lost by a stop and a restart.
use next_me.Common.{
  ℕ, String, ◌≡◌, Bool, true, false, none, some, List, [], ◌∷◌, arith, lookup, insert, ok, ◌>>=◌,
  if◌then◌else◌, ◌&&◌, ◌==◌, string_comparable, lookup-insert, Option-cases, inl, inr,
}
use next_me.Config.Schema.{GlobalState, UserState, blank_user}
use next_me.Config.StateStore.{
  StateStore, read_from_disk, or_blank_project, load, get_user_state, set_user_state, set_binding,
  remove_binding, save_project_actual_id, register_thread, unregister_thread, touch_thread, flush,
  debounce_round, get_project_actual_id,
}

-- A state that is not dirty is the one that a restart would read.
pub record IsFaithful (s : StateStore) : Type 0 where
  pub clean : (g : GlobalState) → s.state ≡ some g → s.dirty ≡ false → read_from_disk s ≡ g

-- Every method that changes the state or the file.
pub data Call : Type 0 where
  loads : Call
  user_states : String → Call
  sets_user_state : String → UserState → Call
  sets_binding : String → String → Call
  removes_binding : String → Call
  saves_actual_id : String → String → String → Call
  registers : ℕ → String → String → String → Call
  unregisters : String → String → Call
  touches : ℕ → String → String → Call
  flushes debounces : Bool → Call

unfoldable pub step : StateStore → Call → StateStore
step s loads = (load s).1
step s (user_states c) = (get_user_state c s).1
step s (sets_user_state c u) = (set_user_state c u s).1
step s (sets_binding c p) = (set_binding c p s).1
step s (removes_binding c) = (remove_binding c s).1
step s (saves_actual_id c p a) = (save_project_actual_id c p a s).1
step s (registers now c t p) = (register_thread now c t p s).1
step s (unregisters c t) = (unregister_thread c t s).1
step s (touches now c t) = (touch_thread now c t s).1
step s (flushes written) = (flush written s).1
step s (debounces written) = (debounce_round written s).1

step-IsFaithful : (s : StateStore) (c : Call) → IsFaithful s → IsFaithful (step s c)
unfolding step load get_user_state set_user_state set_binding remove_binding save_project_actual_id
    register_thread unregister_thread touch_thread flush debounce_round read_from_disk ◌>>=◌
step-IsFaithful s loads f = record { clean = λ g e d. ground (arith, f.clean g) }
step-IsFaithful s (user_states c) f = record { clean = λ g e d. ground (arith, f.clean g) }
step-IsFaithful s c f = record { clean = λ g e d. ground (arith, f.clean g) }

unfoldable pub run : StateStore → List Call → StateStore
run s [] = s
run s (c ∷ cs) = run (step s c) cs

run-IsFaithful : (s : StateStore) (cs : List Call) → IsFaithful s → IsFaithful (run s cs)
unfolding run
run-IsFaithful s [] f = f
run-IsFaithful s (c ∷ cs) f = run-IsFaithful (step s c) cs (step-IsFaithful s c f)

-- A new process has the file and nothing else.
abbrev pub restart : StateStore → StateStore
restart s = record { disk = s.disk; state = none; dirty = false }

-- Whatever was called since the start, if the store is not dirty then a process that is killed and
-- started again loads the state that the old one had.
pub load-restart :
    (s : StateStore) (cs : List Call) (g : GlobalState)
    → s.state ≡ none
    → (run s cs).state ≡ some g
    → (run s cs).dirty ≡ false
    → (load (restart (run s cs))).0 ≡ ok g
unfolding load read_from_disk
load-restart s cs g fresh e d =
    let f : IsFaithful (run s cs) =
      run-IsFaithful s cs (record { clean = λ g' e' d'. ground arith }) in
    ground (arith, f.clean g e d)

-- The context's state with the id put in.
abbrev pub with_id : String → String → UserState → UserState
with_id project actual_id u = record u {
  projects =
      insert project
        (record (or_blank_project (lookup project u.projects)) { actual_id = actual_id })
        u.projects;
}

-- The id that a global state gives.
abbrev pub id_in : String → String → GlobalState → String
id_in context project g = elim (lookup context g.contexts) [
  | none ↦ ""
  | some u ↦ elim (lookup project u.projects) [ none ↦ "" | some p ↦ p.actual_id ]
]

-- What saving an id makes of the loaded state.
abbrev pub saved : String → String → String → GlobalState → GlobalState
saved context project actual_id g = elim (lookup context g.contexts) [
  | some u ↦ record g { contexts = insert context (with_id project actual_id u) g.contexts }
  | none ↦ record g {
    contexts =
        insert context (with_id project actual_id blank_user)
          (insert context blank_user g.contexts);
  }
]

pub id_in-saved :
    (context project actual_id other_context other_project : String) (g : GlobalState)
    → id_in other_context other_project (saved context project actual_id g) ≡ (
        if context == other_context && project == other_project
        then actual_id
        else id_in other_context other_project g)
id_in-saved context project actual_id other_context other_project g =
    elim (Option-cases (lookup context g.contexts)) [
      | inl new ↦
          unfold lookup insert in
          ground (
            arith,
            string_comparable.equals_iff context other_context,
            string_comparable.equals_iff project other_project,
            lookup-insert context other_context (with_id project actual_id blank_user)
                (insert context blank_user g.contexts),
            lookup-insert context other_context blank_user g.contexts,
          )
      | inr (u, known) ↦ ground (
        arith,
        string_comparable.equals_iff context other_context,
        lookup-insert context other_context (with_id project actual_id u) g.contexts,
        lookup-insert project other_project
            (record (or_blank_project (lookup project u.projects)) { actual_id = actual_id })
            u.projects,
      )
    ]

pub save_lem :
    (context project actual_id : String) (s : StateStore) (g : GlobalState)
    → s.state ≡ some g
    → (save_project_actual_id context project actual_id s).1
      ≡ record s { state = some (saved context project actual_id g); dirty = true }
unfolding save_project_actual_id get_user_state ◌>>=◌
save_lem context project actual_id s g e = elim (Option-cases (lookup context g.contexts)) [
  | inl new ↦ unfold lookup in ground arith
  | inr (u, known) ↦ ground arith
]

pub save_returns :
    (context project actual_id : String) (s : StateStore) (g : GlobalState)
    → s.state ≡ some g
    → (save_project_actual_id context project actual_id s).0 ≡ ok tt
unfolding save_project_actual_id get_user_state ◌>>=◌
save_returns context project actual_id s g e = elim (Option-cases (lookup context g.contexts)) [
  | inl new ↦ ground arith
  | inr (u, known) ↦ ground arith
]

pub get_project_actual_id_lem :
    (context project : String) (s : StateStore) (g : GlobalState)
    → s.state ≡ some g
    → get_project_actual_id context project s ≡ (ok (id_in context project g), s)
unfolding get_project_actual_id ◌>>=◌
get_project_actual_id_lem context project s g e = elim (Option-cases (lookup context g.contexts)) [
  | inl new ↦ ground arith
  | inr (u, known) ↦ elim (Option-cases (lookup project u.projects)) [
    | inl absent ↦ ground arith
    | inr (p, there) ↦ ground arith
  ]
]

-- A session id that is saved is what is read back, also after a successful write and a restart; the
-- ids of all other contexts and projects are what they were.
saved_id_survives :
    (context project actual_id other_context other_project : String) (s : StateStore)
    (g : GlobalState)
    → s.state ≡ some g
    → let s' =
        (load (
          restart
            (debounce_round true (save_project_actual_id context project actual_id s).1).1)).1 in
      (get_project_actual_id other_context other_project s').0 ≡ (
        if context == other_context && project == other_project
        then ok actual_id
        else (get_project_actual_id other_context other_project s).0)
unfolding debounce_round load read_from_disk get_project_actual_id ◌>>=◌
saved_id_survives context project actual_id other_context other_project s g e = ground (
  arith,
  save_lem context project actual_id s g e,
  id_in-saved context project actual_id other_context other_project g,
)
