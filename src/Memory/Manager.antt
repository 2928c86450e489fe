-- ===== src/Memory/Manager.antt =====
-- memory/manager.py: `MemoryManager` with the files that it writes. `similar` says whether difflib
-- finds two texts more alike than 0.85 after `str.lower`, and `dir_for` gives the directory of a
-- context. A directory holds what a reader of its three files gets, `none` for an absent or corrupt one.
pub mod Order
pub mod Bounds
pub mod Changes
pub mod Restart
use next_me.Common.{
  ℕ, zero, suc, String, Bool, true, false, not, Option, none, some, List, [], ◌∷◌, ◌++◌,
  string_comparable, if◌then◌else◌, leb, ltb, length, get_elem?, set, find, elem, sort_by, Dict,
  lookup, insert,
}
use next_me.Memory.Schema.{
  Fact, same_fact, UserContextMemory, PersonalInfo, default_user_context, default_personal,
}

pub record ContextData : Type 0 where
  pub user_context : UserContextMemory
  pub personal : PersonalInfo
  pub facts : List Fact

-- user_context.json, personal.json and facts.json
pub record Directory : Type 0 where
  pub user_context : Option UserContextMemory
  pub personal : Option PersonalInfo
  pub facts : Option (List Fact)

pub record MemoryManager : Type 0 where
  pub max_facts : ℕ
  pub cache : Dict String ContextData
  -- a set
  pub dirty : List String
  pub disk : Dict String Directory

-- `self._dirty.add(context_id)`
abbrev pub mark : String → List String → List String
mark context_id dirty = if elem context_id dirty then dirty else context_id ∷ dirty

abbrev pub or_default {ℓ} : {A : Type ℓ} → A → Option A → A
or_default a none = a
or_default a (some b) = b

abbrev pub read_directory : ℕ → Option Directory → ContextData
read_directory now none = record {
  user_context = default_user_context now;
  personal = default_personal now;
  facts = [];
}
read_directory now (some d) = record {
  user_context = or_default (default_user_context now) d.user_context;
  personal = or_default (default_personal now) d.personal;
  facts = or_default [] d.facts;
}

unfoldable pub load : (String → String) → ℕ → String → MemoryManager → ContextData × MemoryManager
load dir_for now context_id m = elim (lookup context_id m.cache) [
  | some stored ↦ (stored, m)
  | none ↦
      let stored = read_directory now (lookup (dir_for context_id) m.disk) in
      (stored, record m { cache = insert context_id stored m.cache })
]

-- `sorted(..., key=confidence, reverse=True)`, which keeps the order of equal ones
abbrev pub not_less : Fact → Fact → Bool
not_less f g = leb g.confidence f.confidence

unfoldable pub by_confidence : List Fact → List Fact
by_confidence = sort_by not_less

abbrev pub take {ℓ} : {A : Type ℓ} → ℕ → List A → List A
take zero xs = []
take (suc n) [] = []
take (suc n) (x ∷ xs) = x ∷ take n xs

unfoldable pub get_top_facts : String → ℕ → MemoryManager → List Fact
unfolding by_confidence
get_top_facts context_id n m = elim (lookup context_id m.cache) [
  | none ↦ []
  | some stored ↦ take n (by_confidence stored.facts)
]

-- A cached context gets new facts, and is dirty.
abbrev pub put_facts : String → ContextData → List Fact → MemoryManager → MemoryManager
put_facts context_id stored facts m = record m {
  cache = insert context_id (record stored { facts = facts }) m.cache;
  dirty = mark context_id m.dirty;
}

-- The loop over the facts: the first similar one takes the new text, if it is not more certain.
unfoldable pub merge_into : (String → String → Bool) → ℕ → Fact → List Fact → List Fact
merge_into similar now fact [] = []
merge_into similar now fact (e ∷ rest) =
    if similar e.text fact.text
    then (if leb e.confidence fact.confidence
        then record e { text = fact.text; confidence = fact.confidence; updated_at = some now }
          ∷ rest
        else e ∷ rest)
    else e ∷ merge_into similar now fact rest

unfoldable pub evict : ℕ → List Fact → List Fact
unfolding by_confidence
evict max_facts facts =
    if ltb max_facts (length facts) then take max_facts (by_confidence facts) else facts

unfoldable pub add_fact :
    (String → String → Bool) → ℕ → String → Fact → MemoryManager → MemoryManager
unfolding merge_into evict
add_fact similar now context_id fact m = elim (lookup context_id m.cache) [
  | none ↦ m
  | some stored ↦ elim (find (λ e. similar e.text fact.text) stored.facts) [
    | some e ↦
        if leb e.confidence fact.confidence
        then put_facts context_id stored (merge_into similar now fact stored.facts) m
        else m
    | none ↦ put_facts context_id stored (evict m.max_facts (stored.facts ++ fact ∷ [])) m
  ]
]

-- Each fact with its place in the store: the sorted list has the same objects.
unfoldable pub numbered : ℕ → List Fact → List (ℕ × Fact)
numbered i [] = []
numbered i (f ∷ rest) = (i, f) ∷ numbered (suc i) rest

unfoldable pub places_by_confidence : List Fact → List (ℕ × Fact)
unfolding numbered
places_by_confidence facts = sort_by (λ a b. not_less a.1 b.1) (numbered 0 facts)

-- `idx` is not below 0; the callers give none that is.
unfoldable pub replace_fact : ℕ → String → ℕ → String → MemoryManager → Bool × MemoryManager
unfolding places_by_confidence
replace_fact now context_id idx new_text m = elim (lookup context_id m.cache) [
  | none ↦ (false, m)
  | some stored ↦ elim (get_elem? (places_by_confidence stored.facts) idx) [
    | none ↦ (false, m)
    | some p ↦ (
      true,
      put_facts context_id stored
          (set stored.facts p.0 (record p.1 { text = new_text; updated_at = some now })) m,
    )
  ]
]

-- `list.remove`: the first element that equals the value
unfoldable pub remove_fact : Fact → List Fact → List Fact
remove_fact f [] = []
remove_fact f (g ∷ rest) = if same_fact g f then rest else g ∷ remove_fact f rest

unfoldable pub forget_fact : String → ℕ → MemoryManager → Bool × MemoryManager
unfolding by_confidence remove_fact
forget_fact context_id idx m = elim (lookup context_id m.cache) [
  | none ↦ (false, m)
  | some stored ↦ elim (get_elem? (by_confidence stored.facts) idx) [
    | none ↦ (false, m)
    | some f ↦ (true, put_facts context_id stored (remove_fact f stored.facts) m)
  ]
]

unfoldable pub update_user_context : String → UserContextMemory → MemoryManager → MemoryManager
update_user_context context_id ctx m = elim (lookup context_id m.cache) [
  | none ↦ m
  | some stored ↦ record m {
    cache = insert context_id (record stored { user_context = ctx }) m.cache;
    dirty = mark context_id m.dirty;
  }
]

unfoldable pub update_personal_info : String → PersonalInfo → MemoryManager → MemoryManager
update_personal_info context_id personal m = elim (lookup context_id m.cache) [
  | none ↦ m
  | some stored ↦ record m {
    cache = insert context_id (record stored { personal = personal }) m.cache;
    dirty = mark context_id m.dirty;
  }
]

-- Which of the three atomic writes succeed; the first that does not ends the flush of the context.
pub record Writes : Type 0 where
  pub user_context : Bool
  pub personal : Bool
  pub facts : Bool

abbrev pub or_empty : Option Directory → Directory
or_empty none = record { user_context = none; personal = none; facts = none }
or_empty (some d) = d

-- Whether all writes have succeeded, and the directory after them.
unfoldable pub flush_context : Writes → ContextData → Directory → Bool × Directory
flush_context w stored d =
    if not w.user_context
    then (false, d)
    else if not w.personal
    then (false, record d { user_context = some stored.user_context })
    else if not w.facts
    then (
      false,
      record d { user_context = some stored.user_context; personal = some stored.personal },
    )
    else (
      true,
      record {
        user_context = some stored.user_context;
        personal = some stored.personal;
        facts = some stored.facts;
      },
    )

-- One round of the loop of `flush_all`, with the set of dirty contexts already emptied.
unfoldable pub flush_one :
    (String → String) → (String → Writes) → String → MemoryManager → MemoryManager
unfolding flush_context
flush_one dir_for writes context_id m = elim (lookup context_id m.cache) [
  | none ↦ m
  | some stored ↦
      let (flushed, d) =
        flush_context (writes context_id) stored (or_empty (lookup (dir_for context_id) m.disk)) in
      record m {
        disk = insert (dir_for context_id) d m.disk;
        dirty = if flushed then m.dirty else mark context_id m.dirty;
      }
]

unfoldable pub flush_each :
    (String → String) → (String → Writes) → List String → MemoryManager → MemoryManager
unfolding flush_one
flush_each dir_for writes [] m = m
flush_each dir_for writes (context_id ∷ rest) m =
    flush_each dir_for writes rest (flush_one dir_for writes context_id m)

unfoldable pub flush_all : (String → String) → (String → Writes) → MemoryManager → MemoryManager
unfolding flush_each
flush_all dir_for writes m = flush_each dir_for writes m.dirty (record m { dirty = [] })
