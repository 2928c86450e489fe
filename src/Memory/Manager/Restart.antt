-- ===== src/Memory/Manager/Restart.antt =====
-- What a new process finds of the facts that memory/manager.py has flushed.
use mathlib.Core.Path.{subst}
use next_me.Common.{
  ℕ, String, ◌≡◌, refl, Bool, true, false, ◌||◌, Option, none, some, List, [], ◌∷◌, arith, ◌==◌,
  string_comparable, elem, lookup, insert, lookup-insert, Option-cases, Bool-cases, inl, inr,
}
use next_me.Memory.Schema.{Fact}
use next_me.Memory.Manager.{
  ContextData, Directory, MemoryManager, mark, Writes, or_empty, read_directory, load, flush_all,
  flush_each, flush_one, flush_context,
}
use next_me.Memory.Manager.Changes.{
  Changes, nothing, marks, update_user_context-Changes, update_personal_info-Changes,
  forget_fact-Changes, replace_fact-Changes, add_fact-Changes,
}
use next_me.Memory.Manager.Bounds.Runs.{
  Call, loads, adds, replaces, forgets, updates_context, updates_personal, flushes, step, run,
}

-- The facts that a new process would read.
abbrev stored_facts : (String → String) → String → MemoryManager → List Fact
stored_facts dir_for id m = (read_directory 0 (lookup (dir_for id) m.disk)).facts

-- But for the contexts that are dirty or wait for the flush, the files have the cached facts.
record IsFaithful (dir_for : String → String) (waiting : List String) (m : MemoryManager)
    : Type 0 where
  same :
      (id : String) (d : ContextData)
      → lookup id m.cache ≡ some d
      → elem id m.dirty ≡ false
      → elem id waiting ≡ false
      → stored_facts dir_for id m ≡ d.facts

module _ (similar : String → String → Bool) (dir_for : String → String)
    (apart : (a b : String) → dir_for a ≡ dir_for b → a ≡ b) where
  elem-mark :
      (id j : String) (dirty : List String) → elem j (mark id dirty) ≡ (j == id || elem j dirty)
  elem-mark id j dirty = ground (arith, string_comparable.equals_iff j id)

  -- A context that is marked may have any data.
  marked-IsFaithful :
      (id : String) (d : ContextData) (m : MemoryManager)
      → IsFaithful dir_for [] m
      → IsFaithful dir_for [] (record m { cache = insert id d m.cache; dirty = mark id m.dirty })
  marked-IsFaithful id d m f = record {
    same = λ j e known clean w. ground (
      arith,
      lookup-insert id j d m.cache,
      elem-mark id j m.dirty,
      f.same j e,
      string_comparable.equals_iff id j,
      string_comparable.equals_iff j id,
    );
  }

  -- What the files have after the flush of one context.
  flush_one-IsFaithful :
      (writes : String → Writes) (id : String) (rest : List String) (m : MemoryManager)
      → IsFaithful dir_for (id ∷ rest) m
      → IsFaithful dir_for rest (flush_one dir_for writes id m)
  unfolding flush_one flush_context
  flush_one-IsFaithful writes id rest m f = elim (Option-cases (lookup id m.cache)) [
    | inl absent ↦
        let kept : IsFaithful dir_for rest m = record {
          same = λ j e known clean w. ground (arith, f.same j e, string_comparable.equals_iff j id);
        } in
        let same : m ≡ flush_one dir_for writes id m = ground arith in
        subst (IsFaithful dir_for rest) same kept
    | inr (d, there) ↦
        let out : Bool × Directory =
          flush_context (writes id) d (or_empty (lookup (dir_for id) m.disk)) in
        record {
          same = λ j e known clean w. elim (Bool-cases (j == id)) [
            | inl hit ↦ ground (
              arith,
              string_comparable.equals_iff j id,
              elem-mark id j m.dirty,
              lookup-insert (dir_for id) (dir_for j) out.1 m.disk,
              string_comparable.equals_iff (dir_for id) (dir_for j),
            )
            | inr miss ↦ ground (
              arith,
              f.same j e,
              string_comparable.equals_iff j id,
              elem-mark id j m.dirty,
              lookup-insert (dir_for id) (dir_for j) out.1 m.disk,
              string_comparable.equals_iff (dir_for id) (dir_for j),
              apart id j,
            )
          ];
        }
  ]

  flush_each-IsFaithful :
      (writes : String → Writes) (ids : List String) (m : MemoryManager)
      → IsFaithful dir_for ids m
      → IsFaithful dir_for [] (flush_each dir_for writes ids m)
  unfolding flush_each
  flush_each-IsFaithful writes [] m f = f
  flush_each-IsFaithful writes (id ∷ rest) m f =
      flush_each-IsFaithful writes rest (flush_one dir_for writes id m)
        (flush_one-IsFaithful writes id rest m f)

  flush_all-IsFaithful :
      (writes : String → Writes) (m : MemoryManager)
      → IsFaithful dir_for [] m
      → IsFaithful dir_for [] (flush_all dir_for writes m)
  unfolding flush_all
  flush_all-IsFaithful writes m f =
      flush_each-IsFaithful writes m.dirty (record m { dirty = [] })
        (record { same = λ id d known clean w. f.same id d known w refl })

  load-IsFaithful :
      (now : ℕ) (id : String) (m : MemoryManager)
      → IsFaithful dir_for [] m
      → IsFaithful dir_for [] (load dir_for now id m).1
  unfolding load
  load-IsFaithful now id m f = elim (Option-cases (lookup id m.cache)) [
    | inr (d, known) ↦
        let same : m ≡ (load dir_for now id m).1 = ground arith in
        subst (IsFaithful dir_for []) same f
    | inl absent ↦
        let d : ContextData = read_directory now (lookup (dir_for id) m.disk) in
        record {
          same = λ j e known clean w. ground (
            arith,
            lookup-insert id j d m.cache,
            f.same j e,
            string_comparable.equals_iff id j,
            same_facts now (lookup (dir_for id) m.disk),
          );
        }
  ]
    where
      same_facts :
          (now : ℕ) (o : Option Directory)
          → (read_directory 0 o).facts ≡ (read_directory now o).facts
      same_facts now none = refl
      same_facts now (some d) = refl

  Changes-IsFaithful :
      {m m' : MemoryManager} → Changes m m' → IsFaithful dir_for [] m → IsFaithful dir_for [] m'
  Changes-IsFaithful nothing f = f
  Changes-IsFaithful (marks id d) f = marked-IsFaithful id d _ f

  step-IsFaithful :
      (m : MemoryManager) (c : Call)
      → IsFaithful dir_for [] m
      → IsFaithful dir_for [] (step similar dir_for m c)
  unfolding step
  step-IsFaithful m (loads now id) f = load-IsFaithful now id m f
  step-IsFaithful m (flushes writes) f = flush_all-IsFaithful writes m f
  step-IsFaithful m (updates_context id ctx) f =
      Changes-IsFaithful (update_user_context-Changes id ctx m) f
  step-IsFaithful m (updates_personal id personal) f =
      Changes-IsFaithful (update_personal_info-Changes id personal m) f
  step-IsFaithful m (forgets id idx) f = Changes-IsFaithful (forget_fact-Changes id idx m) f
  step-IsFaithful m (replaces now id idx text) f =
      Changes-IsFaithful (replace_fact-Changes now id idx text m) f
  step-IsFaithful m (adds now id fact) f =
      Changes-IsFaithful (add_fact-Changes similar now id fact m) f

  run-IsFaithful :
      (m : MemoryManager) (cs : List Call)
      → IsFaithful dir_for [] m
      → IsFaithful dir_for [] (run similar dir_for m cs)
  unfolding run
  run-IsFaithful m [] f = f
  run-IsFaithful m (c ∷ cs) f = run-IsFaithful (step similar dir_for m c) cs (step-IsFaithful m c f)

  -- A flush in which every write succeeds keeps the cache and leaves nothing dirty.
  flush_each-clean :
      (writes : String → Writes) (ids : List String) (m : MemoryManager)
      → ((id : String) → writes id ≡ record { user_context = true; personal = true; facts = true })
      → m.dirty ≡ []
      → ((flush_each dir_for writes ids m).dirty ≡ [])
        × ((flush_each dir_for writes ids m).cache ≡ m.cache)
  unfolding flush_each flush_one flush_context
  flush_each-clean writes [] m all clean = (clean, refl)
  flush_each-clean writes (id ∷ rest) m all clean =
      ground (arith, all id, flush_each-clean writes rest (flush_one dir_for writes id m) all)

  -- After any calls of a new manager and a flush in which every write succeeds, a process that is
  -- started then loads for each context the facts that the old one had.
  pub load-flush_all :
      (m : MemoryManager) (cs : List Call) (writes : String → Writes) (id : String) (now : ℕ)
      (d : ContextData)
      → m.cache ≡ []
      → ((j : String) → writes j ≡ record { user_context = true; personal = true; facts = true })
      → let old = run similar dir_for m cs in
        lookup id old.cache ≡ some d
        → let new = record (flush_all dir_for writes old) { cache = []; dirty = [] } in
          (load dir_for now id new).0.facts ≡ d.facts
  load-flush_all m cs writes id now d fresh all known =
      let old : MemoryManager = run similar dir_for m cs in
      let start : IsFaithful dir_for [] m = record {
        same = λ j e k clean w. unfold lookup in ground arith;
      } in
      let f : IsFaithful dir_for [] (flush_all dir_for writes old) =
        flush_all-IsFaithful writes old (run-IsFaithful m cs start) in
      unfold load flush_all lookup in
      ground (arith, f.same id d, flush_each-clean writes old.dirty (record old { dirty = [] }) all)
