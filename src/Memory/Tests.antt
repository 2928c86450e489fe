-- ===== src/Memory/Tests.antt =====
-- Runs of the memory manager, and its theorems at concrete inputs.
use next_me.Common.{
  ℕ, String, ◌≡◌, refl, true, none, some, List, [], ◌∷◌, arith, string_comparable, ◌==◌, lookup,
  insert,
}
use next_me.Memory.Schema.{Fact}
use next_me.Memory.Manager.{
  ContextData, MemoryManager, Writes, read_directory, add_fact, evict, load, flush_all,
}
use next_me.Memory.Manager.Bounds.{Bounded}
use next_me.Memory.Manager.Bounds.Runs.{Call, loads, adds, step, run, run-Bounded}
use next_me.Memory.Manager.Restart.{load-flush_all}

abbrev fact : String → ℕ → Fact
fact text confidence = record {
  text = text;
  confidence = confidence;
  created_at = 1;
  updated_at = none;
  source = "agent_output";
}

abbrev known : ContextData
known = record {
  user_context = record {
    preferred_language = "zh";
    communication_style = "";
    notes = "";
    updated_at = 1;
  };
  personal = record { name = ""; timezone = ""; role = ""; updated_at = 1 };
  facts = fact "likes tea" 90 ∷ fact "uses vim" 95 ∷ [];
}

-- Room for two facts.
abbrev full : MemoryManager
full = record { max_facts = 2; cache = ("ou_1", known) ∷ []; dirty = []; disk = [] }

abbrev empty : MemoryManager
empty = record { max_facts = 2; cache = []; dirty = []; disk = [] }

abbrev calls : List Call
calls =
    loads 1 "ou_1"
    ∷ adds 2 "ou_1" (fact "likes tea" 90)
    ∷ adds 3 "ou_1" (fact "uses vim" 90)
    ∷ adds 4 "ou_1" (fact "moved to Oslo" 90)
    ∷ []

run-Bounded_example :
    Bounded (run (λ a b. a == b) (λ id. id) empty calls)
    × ((run (λ a b. a == b) (λ id. id) empty calls).max_facts ≡ 2)
unfolding lookup
run-Bounded_example =
    run-Bounded (λ a b. a == b) (λ id. id) empty calls
      (record { cached = λ id d h. ground arith; written = λ dir d facts h i. ground arith })

abbrev all_written : String → Writes
all_written id = record { user_context = true; personal = true; facts = true }

abbrev one_call : List Call
one_call = loads 1 "ou_1" ∷ adds 2 "ou_1" (fact "likes tea" 90) ∷ []

abbrev learnt : ContextData
learnt = record (read_directory 1 none) { facts = fact "likes tea" 90 ∷ [] }

learnt_cached : lookup "ou_1" (run (λ a b. a == b) (λ id. id) empty one_call).cache ≡ some learnt
unfolding run step load add_fact evict lookup insert
learnt_cached = refl

load-flush_all_example :
    (load
      (λ id. id)
      9
      "ou_1"
      (record (flush_all (λ id. id) all_written (run (λ a b. a == b) (λ id. id) empty one_call)) {
        cache = [];
        dirty = [];
      })).0.facts
    ≡ fact "likes tea" 90 ∷ []
load-flush_all_example =
    load-flush_all (λ a b. a == b) (λ id. id) (λ a b e. e) empty one_call all_written "ou_1" 9
      learnt refl (λ id. refl) learnt_cached
