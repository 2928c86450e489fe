-- ===== src/Memory/Manager/Bounds/Runs.antt =====
-- How many facts memory/manager.py keeps of a context, through any calls.
use mathlib.Core.Path.{subst}
use next_me.Common.{
  ℕ, ◌≤◌, String, ◌≡◌, refl, Bool, some, List, [], ◌∷◌, arith, string_comparable, if◌then◌else◌,
  length, lookup, insert, lookup-insert, Option-cases, inl, inr,
}
use next_me.Memory.Schema.{Fact, UserContextMemory, PersonalInfo}
use next_me.Memory.Manager.{
  Directory, MemoryManager, mark, Writes, load, add_fact, replace_fact, forget_fact,
  update_user_context, update_personal_info, flush_all, flush_each, flush_one, flush_context,
  or_empty,
}
use next_me.Memory.Manager.Bounds.{
  Bounded, add_fact-Bounded, replace_fact-Bounded, forget_fact-Bounded, update_user_context-Bounded,
  update_personal_info-Bounded, load-Bounded, flush_context-few,
}

-- The methods that change the manager or its files.
pub data Call : Type 0 where
  loads : ℕ → String → Call
  adds : ℕ → String → Fact → Call
  replaces : ℕ → String → ℕ → String → Call
  forgets : String → ℕ → Call
  updates_context : String → UserContextMemory → Call
  updates_personal : String → PersonalInfo → Call
  flushes : (String → Writes) → Call

module _ (similar : String → String → Bool) (dir_for : String → String) where
  unfoldable pub step : MemoryManager → Call → MemoryManager
  step m (loads now id) = (load dir_for now id m).1
  step m (adds now id fact) = add_fact similar now id fact m
  step m (replaces now id idx text) = (replace_fact now id idx text m).1
  step m (forgets id idx) = (forget_fact id idx m).1
  step m (updates_context id ctx) = update_user_context id ctx m
  step m (updates_personal id personal) = update_personal_info id personal m
  step m (flushes writes) = flush_all dir_for writes m

  unfoldable pub run : MemoryManager → List Call → MemoryManager
  run m [] = m
  run m (c ∷ cs) = run (step m c) cs

  flush_one-Bounded :
      (writes : String → Writes) (id : String) (m : MemoryManager)
      → Bounded m
      → Bounded (flush_one dir_for writes id m)
  unfolding flush_one
  flush_one-Bounded writes id m b = elim (Option-cases (lookup id m.cache)) [
    | inl absent ↦
        let same : m ≡ flush_one dir_for writes id m = ground arith in subst Bounded same b
    | inr (d, known) ↦
        let old : Directory = or_empty (lookup (dir_for id) m.disk) in
        let out : Bool × Directory = flush_context (writes id) d old in
        let same : record m {
          disk = insert (dir_for id) out.1 m.disk;
          dirty = if out.0 then m.dirty else mark id m.dirty;
        }
            ≡ flush_one dir_for writes id m =
          ground arith in
        subst Bounded same (record {
          cached = b.cached;
          written = λ dir e facts h i. ground (
            arith,
            lookup-insert (dir_for id) dir out.1 m.disk,
            string_comparable.equals_iff (dir_for id) dir,
            b.written dir e facts,
            flush_context-few (writes id) d old m.max_facts facts (b.cached id d known)
                (old_few id m b),
          );
        })
  ]
    where
      old_few :
          (id : String) (m : MemoryManager)
          → Bounded m
          → (fs : List Fact) → (or_empty (lookup (dir_for id) m.disk)).facts ≡ some fs
          → length fs ≤ m.max_facts
      old_few id m b fs e = elim (Option-cases (lookup (dir_for id) m.disk)) [
        | inl absent ↦ absurd (ground arith)
        | inr (d, there) ↦ ground (arith, b.written (dir_for id) d fs)
      ]

  flush_each-Bounded :
      (writes : String → Writes) (ids : List String) (m : MemoryManager)
      → Bounded m
      → Bounded (flush_each dir_for writes ids m)
  unfolding flush_each
  flush_each-Bounded writes [] m b = b
  flush_each-Bounded writes (id ∷ rest) m b =
      flush_each-Bounded writes rest (flush_one dir_for writes id m)
        (flush_one-Bounded writes id m b)

  step-Bounded : (m : MemoryManager) (c : Call) → Bounded m → Bounded (step m c)
  unfolding step flush_all
  step-Bounded m (loads now id) b = load-Bounded dir_for now id m b
  step-Bounded m (adds now id fact) b = add_fact-Bounded similar now id fact m b
  step-Bounded m (replaces now id idx text) b = replace_fact-Bounded now id idx text m b
  step-Bounded m (forgets id idx) b = forget_fact-Bounded id idx m b
  step-Bounded m (updates_context id ctx) b = update_user_context-Bounded id ctx m b
  step-Bounded m (updates_personal id personal) b = update_personal_info-Bounded id personal m b
  step-Bounded m (flushes writes) b =
      flush_each-Bounded writes m.dirty (record m { dirty = [] })
        (record { cached = b.cached; written = b.written })

  flush_each-max_facts :
      (writes : String → Writes) (ids : List String) (m : MemoryManager)
      → (flush_each dir_for writes ids m).max_facts ≡ m.max_facts
  unfolding flush_each flush_one
  flush_each-max_facts writes [] m = refl
  flush_each-max_facts writes (id ∷ rest) m =
      ground (arith, flush_each-max_facts writes rest (flush_one dir_for writes id m))

  step-max_facts : (m : MemoryManager) (c : Call) → (step m c).max_facts ≡ m.max_facts
  unfolding step load add_fact replace_fact forget_fact update_user_context update_personal_info
      flush_all
  step-max_facts m (flushes writes) = flush_each-max_facts writes m.dirty (record m { dirty = [] })
  step-max_facts m c = ground arith

  -- From a manager whose cached contexts and files have no more facts than the settings allow, this stays so through
  -- any calls, also where writes fail, and the settings stay. Loading does not cut down a file that was written under a
  -- larger limit, so that the condition is needed.
  pub run-Bounded :
      (m : MemoryManager) (cs : List Call)
      → Bounded m
      → Bounded (run m cs) × ((run m cs).max_facts ≡ m.max_facts)
  unfolding run
  run-Bounded m [] b = (b, refl)
  run-Bounded m (c ∷ cs) b =
      let (b', same) = run-Bounded (step m c) cs (step-Bounded m c b) in
      (b', ground (arith, step-max_facts m c))
