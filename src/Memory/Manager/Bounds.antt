-- ===== src/Memory/Manager/Bounds.antt =====
-- How many facts each method of memory/manager.py leaves of a context.
pub mod Runs
use next_me.Common.{
  ℕ, zero, suc, ◌≤◌, String, ◌≡◌, refl, Bool, some, List, [], ◌∷◌, ◌++◌, arith, string_comparable,
  leb, length, length-set, get_elem?, set, find, lookup, insert, lookup-insert, Option-cases,
  Bool-cases, inl, inr,
}
use mathlib.Core.Path.{subst}
use next_me.Memory.Schema.{Fact, UserContextMemory, PersonalInfo}
use next_me.Memory.Manager.{
  ContextData, Directory, MemoryManager, mark, Writes, load, read_directory, take, put_facts,
  merge_into, evict, add_fact, places_by_confidence, by_confidence, replace_fact, remove_fact,
  forget_fact, update_user_context, update_personal_info, flush_context,
}

length-take : (n : ℕ) (xs : List Fact) → length (take n xs) ≤ n
length-take zero xs = omega arith
length-take (suc n) [] = omega arith
length-take (suc n) (x ∷ xs) = omega (arith, length-take n xs)

length-evict : (n : ℕ) (xs : List Fact) → length (evict n xs) ≤ n
unfolding evict
length-evict n xs = ground (arith, length-take n (by_confidence xs))

length-merge_into :
    (similar : String → String → Bool) (now : ℕ) (fact : Fact) (xs : List Fact)
    → length (merge_into similar now fact xs) ≡ length xs
unfolding merge_into
length-merge_into similar now fact [] = refl
length-merge_into similar now fact (e ∷ rest) =
    ground (arith, length-merge_into similar now fact rest)

length-remove_fact-le : (f : Fact) (xs : List Fact) → length (remove_fact f xs) ≤ length xs
unfolding remove_fact
length-remove_fact-le f [] = omega arith
length-remove_fact-le f (x ∷ xs) = ground (arith, length-remove_fact-le f xs)

-- Every cached context, and every directory, has at most as many facts as the settings allow.
pub record Bounded (m : MemoryManager) : Type 0 where
  pub cached :
      (id : String) (d : ContextData) → lookup id m.cache ≡ some d → length d.facts ≤ m.max_facts
  pub written :
      (dir : String) (d : Directory) (facts : List Fact)
      → lookup dir m.disk ≡ some d
      → d.facts ≡ some facts
      → length facts ≤ m.max_facts

-- Cached data that is replaced with as many facts.
recached-Bounded :
    (id : String) (d : ContextData) (dirty : List String) (m : MemoryManager)
    → length d.facts ≤ m.max_facts
    → Bounded m
    → Bounded (record m { cache = insert id d m.cache; dirty = dirty })
recached-Bounded id d dirty m few b = record {
  cached = λ j e h.
      ground (arith, lookup-insert id j d m.cache, b.cached j e, string_comparable.equals_iff id j);
  written = b.written;
}

pub add_fact-Bounded :
    (similar : String → String → Bool) (now : ℕ) (id : String) (fact : Fact) (m : MemoryManager)
    → Bounded m
    → Bounded (add_fact similar now id fact m)
unfolding add_fact
add_fact-Bounded similar now id fact m b = elim (Option-cases (lookup id m.cache)) [
  | inl absent ↦
      let same : m ≡ add_fact similar now id fact m = ground arith in subst Bounded same b
  | inr (d, known) ↦ elim (Option-cases (find (λ e. similar e.text fact.text) d.facts)) [
    | inl new ↦
        let facts : List Fact = evict m.max_facts (d.facts ++ fact ∷ []) in
        let same : put_facts id d facts m ≡ add_fact similar now id fact m = ground arith in
        subst Bounded same (
          recached-Bounded id (record d { facts = facts }) _ m
            (length-evict m.max_facts (d.facts ++ fact ∷ [])) b)
    | inr (e, close) ↦ elim (Bool-cases (leb e.confidence fact.confidence)) [
      | inl wins ↦
          let facts : List Fact = merge_into similar now fact d.facts in
          let same : put_facts id d facts m ≡ add_fact similar now id fact m = ground arith in
          subst Bounded same (
            recached-Bounded id (record d { facts = facts }) _ m
              (omega (arith, length-merge_into similar now fact d.facts, b.cached id d known)) b)
      | inr loses ↦
          let same : m ≡ add_fact similar now id fact m = ground arith in subst Bounded same b
    ]
  ]
]

pub replace_fact-Bounded :
    (now : ℕ) (id : String) (idx : ℕ) (text : String) (m : MemoryManager)
    → Bounded m
    → Bounded (replace_fact now id idx text m).1
unfolding replace_fact
replace_fact-Bounded now id idx text m b = elim (Option-cases (lookup id m.cache)) [
  | inl absent ↦
      let same : m ≡ (replace_fact now id idx text m).1 = ground arith in subst Bounded same b
  | inr (d, known) ↦ elim (Option-cases (get_elem? (places_by_confidence d.facts) idx)) [
    | inl beyond ↦
        let same : m ≡ (replace_fact now id idx text m).1 = ground arith in subst Bounded same b
    | inr (p, found) ↦
        let facts : List Fact =
          set d.facts p.0 (record p.1 { text = text; updated_at = some now }) in
        let same : put_facts id d facts m ≡ (replace_fact now id idx text m).1 = ground arith in
        subst Bounded same (
          recached-Bounded id (record d { facts = facts }) _ m
            (omega (
              arith,
              length-set d.facts p.0 (record p.1 { text = text; updated_at = some now }),
              b.cached id d known,
            ))
            b)
  ]
]

pub forget_fact-Bounded :
    (id : String) (idx : ℕ) (m : MemoryManager) → Bounded m → Bounded (forget_fact id idx m).1
unfolding forget_fact
forget_fact-Bounded id idx m b = elim (Option-cases (lookup id m.cache)) [
  | inl absent ↦ let same : m ≡ (forget_fact id idx m).1 = ground arith in subst Bounded same b
  | inr (d, known) ↦ elim (Option-cases (get_elem? (by_confidence d.facts) idx)) [
    | inl beyond ↦ let same : m ≡ (forget_fact id idx m).1 = ground arith in subst Bounded same b
    | inr (f, found) ↦
        let facts : List Fact = remove_fact f d.facts in
        let same : put_facts id d facts m ≡ (forget_fact id idx m).1 = ground arith in
        subst Bounded same (
          recached-Bounded id (record d { facts = facts }) _ m
            (omega (arith, length-remove_fact-le f d.facts, b.cached id d known)) b)
  ]
]

pub update_user_context-Bounded :
    (id : String) (ctx : UserContextMemory) (m : MemoryManager)
    → Bounded m
    → Bounded (update_user_context id ctx m)
unfolding update_user_context
update_user_context-Bounded id ctx m b = elim (Option-cases (lookup id m.cache)) [
  | inl absent ↦ let same : m ≡ update_user_context id ctx m = ground arith in subst Bounded same b
  | inr (d, known) ↦
      let same : record m {
        cache = insert id (record d { user_context = ctx }) m.cache;
        dirty = mark id m.dirty;
      }
          ≡ update_user_context id ctx m =
        ground arith in
      subst Bounded same
        (recached-Bounded id (record d { user_context = ctx }) _ m (b.cached id d known) b)
]

pub update_personal_info-Bounded :
    (id : String) (personal : PersonalInfo) (m : MemoryManager)
    → Bounded m
    → Bounded (update_personal_info id personal m)
unfolding update_personal_info
update_personal_info-Bounded id personal m b = elim (Option-cases (lookup id m.cache)) [
  | inl absent ↦
      let same : m ≡ update_personal_info id personal m = ground arith in subst Bounded same b
  | inr (d, known) ↦
      let same : record m {
        cache = insert id (record d { personal = personal }) m.cache;
        dirty = mark id m.dirty;
      }
          ≡ update_personal_info id personal m =
        ground arith in
      subst Bounded same
        (recached-Bounded id (record d { personal = personal }) _ m (b.cached id d known) b)
]

read-few :
    (now : ℕ) (dir : String) (m : MemoryManager)
    → Bounded m
    → length (read_directory now (lookup dir m.disk)).facts ≤ m.max_facts
read-few now dir m b = elim (Option-cases (lookup dir m.disk)) [
  | inl absent ↦ ground arith
  | inr (d, there) ↦ elim (Option-cases d.facts) [
    | inl corrupt ↦ ground arith
    | inr (facts, e) ↦ ground (arith, b.written dir d facts there e)
  ]
]

pub load-Bounded :
    (dir_for : String → String) (now : ℕ) (id : String) (m : MemoryManager)
    → Bounded m
    → Bounded (load dir_for now id m).1
unfolding load
load-Bounded dir_for now id m b = elim (Option-cases (lookup id m.cache)) [
  | inr (d, known) ↦ let same : m ≡ (load dir_for now id m).1 = ground arith in subst Bounded same b
  | inl absent ↦
      let d : ContextData = read_directory now (lookup (dir_for id) m.disk) in
      let same : record m { cache = insert id d m.cache } ≡ (load dir_for now id m).1 =
        ground arith in
      subst Bounded same (recached-Bounded id d m.dirty m (read-few now (dir_for id) m b) b)
]

-- The directory after a flush has the facts that it had, or those of the cache.
pub flush_context-few :
    (w : Writes) (d : ContextData) (old : Directory) (n : ℕ) (facts : List Fact)
    → length d.facts ≤ n
    → ((fs : List Fact) → old.facts ≡ some fs → length fs ≤ n)
    → (flush_context w d old).1.facts ≡ some facts
    → length facts ≤ n
unfolding flush_context
flush_context-few w d old n facts few before e = ground (arith, before facts)
