-- ===== src/Core/Commands/Bindings.antt =====
-- core/dispatcher.py: the bindings of chats to projects, which the dispatcher reads from the store when
-- the program starts and then changes beside the store.
use next_me.Common.{
  String, ◌≡◌, refl, true, some, List, [], ◌∷◌, arith, Dict, lookup, insert, erase, lookup-insert,
  lookup-erase, ◌==◌, string_comparable, ok, ◌>>=◌, Bool-cases, Option-cases, inl, inr,
}
use mathlib.Core.Path.{subst}
use next_me.Core.Session.{UserContext, get_or_create_session}
use next_me.Config.Schema.{AppConfig, GlobalState, get_project}
use next_me.Config.StateStore.{
  read_from_disk, load, set_binding, remove_binding, get_all_bindings, debounce_round,
}
use next_me.Config.StateStore.Restart.{IsFaithful, restart}
use next_me.Core.Routing.{resolve_bound_project}
use next_me.Core.Commands.{Desk, Words, Setting}
use next_me.Core.Commands.Handlers.{handle_bind, handle_unbind, handle_project, project_command}

-- The dispatcher's bindings are the store's, and a store that is not dirty is the file.
pub record IsKept (desk : Desk) : Type 0 where
  pub g : GlobalState
  pub loaded : desk.dispatcher.store.state ≡ some g
  pub same : (chat_id : String) → lookup chat_id desk.bindings ≡ lookup chat_id g.bindings
  pub faithful : IsFaithful desk.dispatcher.store

-- New bindings in the dispatcher and in the store, which is dirty then.
abbrev with_bindings : Dict String String → Dict String String → GlobalState → Desk → Desk
with_bindings bindings stored g desk = record desk {
  bindings = bindings;
  dispatcher = record desk.dispatcher {
    store = record desk.dispatcher.store {
      state = some (record g { bindings = stored });
      dirty = true;
    };
  };
}

with_bindings-IsKept :
    (bindings stored : Dict String String) (g : GlobalState) (desk : Desk)
    → ((chat_id : String) → lookup chat_id bindings ≡ lookup chat_id stored)
    → IsKept (with_bindings bindings stored g desk)
with_bindings-IsKept bindings stored g desk same = record {
  g = record g { bindings = stored };
  loaded = refl;
  same = same;
  faithful = record { clean = λ g' e d. absurd (ground arith) };
}

handle_bind-IsKept :
    (setting : Setting) (name : String) (desk : Desk)
    → IsKept desk
    → IsKept (handle_bind setting name desk).1
unfolding handle_bind set_binding ◌>>=◌
handle_bind-IsKept setting name desk k = elim (Option-cases (get_project setting.config name)) [
  | inl unknown ↦
      let same : desk ≡ (handle_bind setting name desk).1 = ground arith in subst IsKept same k
  | inr (project, known) ↦
      let bindings = insert setting.chat_id name desk.bindings in
      let stored = insert setting.chat_id name k.g.bindings in
      let same : with_bindings bindings stored k.g desk ≡ (handle_bind setting name desk).1 =
        ground (arith, k.loaded) in
      subst IsKept same (
        with_bindings-IsKept bindings stored k.g desk (λ c. ground (
          arith,
          k.same c,
          lookup-insert setting.chat_id c name desk.bindings,
          lookup-insert setting.chat_id c name k.g.bindings,
        )))
]

handle_unbind-IsKept :
    (setting : Setting) (desk : Desk) → IsKept desk → IsKept (handle_unbind setting desk).1
unfolding handle_unbind remove_binding ◌>>=◌
handle_unbind-IsKept setting desk k =
    let bindings = erase setting.chat_id desk.bindings in
    elim (Option-cases (lookup setting.chat_id k.g.bindings)) [
      | inl unbound ↦
          let same : record desk { bindings = bindings } ≡ (handle_unbind setting desk).1 =
            ground (arith, k.loaded) in
          subst IsKept same (record {
            g = k.g;
            loaded = k.loaded;
            same = λ c. ground (
              arith,
              k.same c,
              lookup-erase setting.chat_id c desk.bindings,
              string_comparable.equals_iff setting.chat_id c,
            );
            faithful = k.faithful;
          })
      | inr (name, bound) ↦
          let stored = erase setting.chat_id k.g.bindings in
          let same : with_bindings bindings stored k.g desk ≡ (handle_unbind setting desk).1 =
            ground (arith, k.loaded) in
          subst IsKept same (
            with_bindings-IsKept bindings stored k.g desk (λ c. ground (
              arith,
              k.same c,
              lookup-erase setting.chat_id c desk.bindings,
              lookup-erase setting.chat_id c k.g.bindings,
            )))
    ]

handle_project-IsKept :
    (setting : Setting) (name : String) (desk : Desk)
    → IsKept desk
    → IsKept (handle_project setting name desk).1
unfolding handle_project ◌>>=◌
handle_project-IsKept setting name desk k = elim (Option-cases (get_project setting.config name)) [
  | inl unknown ↦
      let same : desk ≡ (handle_project setting name desk).1 = ground arith in subst IsKept same k
  | inr (project, known) ↦
      let after : UserContext =
        (get_or_create_session setting.salt setting.capacity project desk.context).1 in
      let same : record desk { context = after } ≡ (handle_project setting name desk).1 =
        ground arith in
      subst IsKept same
        (record { g = k.g; loaded = k.loaded; same = k.same; faithful = k.faithful })
]

project_command-IsKept :
    (setting : Setting) (words : Words) (desk : Desk)
    → IsKept desk
    → IsKept (project_command setting words desk).1
unfolding project_command
project_command-IsKept setting words desk k = elim (Bool-cases (words.arg == "")) [
  | inl lists ↦
      let same : desk ≡ (project_command setting words desk).1 = ground arith in subst IsKept same k
  | inr more ↦ elim (Bool-cases (words.sub_cmd == "bind")) [
    | inl binds ↦ elim (Bool-cases (words.sub_arg == "")) [
      | inl nothing ↦
          let same : desk ≡ (project_command setting words desk).1 = ground arith in
          subst IsKept same k
      | inr name ↦
          let same : (handle_bind setting words.sub_arg desk).1
              ≡ (project_command setting words desk).1 =
            ground arith in
          subst IsKept same (handle_bind-IsKept setting words.sub_arg desk k)
    ]
    | inr not_bind ↦ elim (Bool-cases (words.sub_cmd == "unbind")) [
      | inl unbinds ↦
          let same : (handle_unbind setting desk).1 ≡ (project_command setting words desk).1 =
            ground arith in
          subst IsKept same (handle_unbind-IsKept setting desk k)
      | inr switches ↦
          let same : (handle_project setting words.arg desk).1
              ≡ (project_command setting words desk).1 =
            ground arith in
          subst IsKept same (handle_project-IsKept setting words.arg desk k)
    ]
  ]
]

abbrev pub run : List (Setting × Words) → Desk → Desk
run [] desk = desk
run ((setting, words) ∷ rest) desk = run rest (project_command setting words desk).1

run-IsKept : (cs : List (Setting × Words)) (desk : Desk) → IsKept desk → IsKept (run cs desk)
run-IsKept [] desk k = k
run-IsKept ((setting, words) ∷ rest) desk k =
    run-IsKept rest (project_command setting words desk).1
      (project_command-IsKept setting words desk k)

-- Through any `/project` commands, also failing ones, the bindings of the dispatcher are those of its
-- store: after a successful write and a restart, a dispatcher that takes its bindings from the store
-- finds for every chat the project that the old one found.
pub run-resolve :
    (cs : List (Setting × Words)) (desk : Desk) (config : AppConfig) (chat_id : String)
    (bindings : Dict String String)
    → IsKept desk
    → let old = run cs desk in
      (get_all_bindings (load (restart (debounce_round true old.dispatcher.store).1)).1).0
        ≡ ok bindings
      → resolve_bound_project config bindings chat_id
        ≡ resolve_bound_project config old.bindings chat_id
unfolding debounce_round load read_from_disk get_all_bindings resolve_bound_project ◌>>=◌
run-resolve cs desk config chat_id bindings k reads =
    let after = run-IsKept cs desk k in
    let same : bindings ≡ after.g.bindings =
      ground (arith, after.loaded, after.faithful.clean after.g) in
    ground (arith, same, after.same chat_id)
