-- ===== src/Core/Dispatcher/Parked.antt =====
-- The tasks that core/dispatcher.py parks while a chat has too many threads.
use mathlib.Core.Path.{sym}
use next_me.Common.{
  String, ◌≡◌, none, some, List, [], ◌∷◌, ◌++◌, arith, string_comparable, lookup-insert, ok, inl,
  inr, List-cases,
}
use mathlib.Core.List.{append_assoc, append-nil}
use next_me.Core.Types.{Task}
use next_me.Core.Dispatcher.{Dispatcher, queue_of, park, pop_parked}

-- What happens to the queue of one chat.
pub data Event : Type 0 where
  parks : Task → Event
  pops : Event

-- The tasks that the events give back, and the dispatcher after them.
unfoldable pub run : String → Dispatcher → List Event → List Task × Dispatcher
run chat d [] = ([], d)
run chat d (parks task ∷ rest) = run chat (park chat task d).1 rest
run chat d (pops ∷ rest) = elim (pop_parked chat d).0 [
  | ok (some task) ↦ let (given, d') = run chat (pop_parked chat d).1 rest in (task ∷ given, d')
  | _ ↦ run chat (pop_parked chat d).1 rest
]

-- The tasks that the events park.
abbrev pub parked_by : List Event → List Task
parked_by [] = []
parked_by (parks task ∷ rest) = task ∷ parked_by rest
parked_by (pops ∷ rest) = parked_by rest

park-queue :
    (chat : String) (task : Task) (d : Dispatcher)
    → queue_of chat (park chat task d).1 ≡ queue_of chat d ++ task ∷ []
unfolding park
park-queue chat task d = ground (
  arith,
  lookup-insert chat chat (queue_of chat d ++ task ∷ []) d.parked,
  string_comparable.equals_iff chat chat,
)

pop_empty :
    (chat : String) (d : Dispatcher) → queue_of chat d ≡ [] → pop_parked chat d ≡ (ok none, d)
unfolding pop_parked
pop_empty chat d e = ground arith

pop_first :
    (chat : String) (d : Dispatcher) (task : Task) (rest : List Task)
    → queue_of chat d ≡ task ∷ rest
    → ((pop_parked chat d).0 ≡ ok (some task)) × (queue_of chat (pop_parked chat d).1 ≡ rest)
unfolding pop_parked
pop_first chat d task rest e = (
  ground arith,
  ground (arith, lookup-insert chat chat rest d.parked, string_comparable.equals_iff chat chat),
)

-- The tasks that closing threads gives back, and those that are still parked, are those that were
-- parked, in the same order: none is lost, none comes twice, and none overtakes another.
pub run-parked :
    (chat : String) (d : Dispatcher) (events : List Event)
    → (run chat d events).0 ++ queue_of chat (run chat d events).1
      ≡ queue_of chat d ++ parked_by events
unfolding run
run-parked chat d [] = sym (append-nil (queue_of chat d))
run-parked chat d (parks task ∷ rest) = ground (
  arith,
  run-parked chat (park chat task d).1 rest,
  park-queue chat task d,
  append_assoc (queue_of chat d) (task ∷ []) (parked_by rest),
)
run-parked chat d (pops ∷ rest) = elim (List-cases (queue_of chat d)) [
  | inl e ↦ ground (arith, run-parked chat d rest, pop_empty chat d e)
  | inr (task, queue, e) ↦
      ground (arith, run-parked chat (pop_parked chat d).1 rest, pop_first chat d task queue e)
]
