-- ===== src/Config/Tests.antt =====
-- Runs of the state store, and its theorems at concrete inputs.
use next_me.Common.{
  ◌≡◌, refl, true, false, string_comparable, none, some, List, [], ◌∷◌, ok, insert, ◌>>=◌,
}
use next_me.Config.Schema.{GlobalState, blank}
use next_me.Config.StateStore.{StateStore, load, set_binding, debounce_round, read_from_disk}
use next_me.Config.StateStore.Restart.{
  Call, loads, sets_binding, debounces, run, step, restart, load-restart,
}

abbrev fresh : StateStore
fresh = record { disk = none; state = none; dirty = false }

abbrev loaded : StateStore
loaded = record { disk = none; state = some blank; dirty = false }

abbrev calls : List Call
calls = loads ∷ sets_binding "oc_1" "bot" ∷ debounces false ∷ debounces true ∷ []

abbrev bound : GlobalState
bound = record blank { bindings = ("oc_1", "bot") ∷ [] }

load-restart_example : (load (restart (run fresh calls))).0 ≡ ok bound
unfolding run step load set_binding debounce_round read_from_disk insert ◌>>=◌
load-restart_example = load-restart fresh calls bound refl refl refl
