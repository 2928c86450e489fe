-- ===== src/Memory/Manager/Changes.antt =====
-- How each method of memory/manager.py that writes facts changes the manager.
use mathlib.Core.Path.{subst}
use next_me.Common.{
  ℕ, String, ◌≡◌, Bool, none, some, [], ◌∷◌, arith, string_comparable, get_elem?, set, find, leb,
  ◌++◌, sym, ◌⊎◌, lookup, insert, Option-cases, Bool-cases, inl, inr,
}
use next_me.Memory.Schema.{Fact, UserContextMemory, PersonalInfo}
use next_me.Memory.Manager.{
  ContextData, MemoryManager, mark, add_fact, replace_fact, forget_fact, evict, merge_into,
  remove_fact, by_confidence, places_by_confidence, update_user_context, update_personal_info,
}

-- A method that either changes nothing or puts new data into the cache and marks the context.
pub data Changes (m : MemoryManager) : MemoryManager → Type 0 where
  nothing : Changes m m
  marks :
      (id : String) (d : ContextData)
      → Changes m (record m { cache = insert id d m.cache; dirty = mark id m.dirty })

-- A method that looks the context up, and does nothing where it is not cached.
Changes-cached :
    (id : String) (m m' : MemoryManager)
    → (lookup id m.cache ≡ none → m' ≡ m)
    → ((d : ContextData)
        → lookup id m.cache ≡ some d
        → ((e : ContextData) × (m'
              ≡ record m { cache = insert id e m.cache; dirty = mark id m.dirty }))
          ⊎ (m' ≡ m))
    → Changes m m'
Changes-cached id m m' unknown known = elim (Option-cases (lookup id m.cache)) [
  | inl absent ↦ subst (Changes m) (sym (unknown absent)) nothing
  | inr (d, there) ↦ cases (known d there)
]
  where
    cases :
        ((e : ContextData) × (m'
              ≡ record m { cache = insert id e m.cache; dirty = mark id m.dirty }))
          ⊎ (m' ≡ m)
        → Changes m m'
    cases (inl (e, changed)) = subst (Changes m) (sym changed) (marks id e)
    cases (inr kept) = subst (Changes m) (sym kept) nothing

pub update_user_context-Changes :
    (id : String) (ctx : UserContextMemory) (m : MemoryManager)
    → Changes m (update_user_context id ctx m)
update_user_context-Changes id ctx m =
    Changes-cached id m (update_user_context id ctx m)
      (λ absent. unfold update_user_context in ground arith)
      (λ d there. inl (record d { user_context = ctx }, unfold update_user_context in ground arith))

pub update_personal_info-Changes :
    (id : String) (personal : PersonalInfo) (m : MemoryManager)
    → Changes m (update_personal_info id personal m)
update_personal_info-Changes id personal m =
    Changes-cached id m (update_personal_info id personal m)
      (λ absent. unfold update_personal_info in ground arith)
      (λ d there.
        inl (record d { personal = personal }, unfold update_personal_info in ground arith))

pub forget_fact-Changes :
    (id : String) (idx : ℕ) (m : MemoryManager) → Changes m (forget_fact id idx m).1
forget_fact-Changes id idx m =
    Changes-cached id m (forget_fact id idx m).1 (λ absent. unfold forget_fact in ground arith)
      (λ d there. elim (Option-cases (get_elem? (by_confidence d.facts) idx)) [
        | inl beyond ↦ inr (unfold forget_fact in ground arith)
        | inr (fact, found) ↦
            inl (record d { facts = remove_fact fact d.facts }, unfold forget_fact in ground arith)
      ])

pub replace_fact-Changes :
    (now : ℕ) (id : String) (idx : ℕ) (text : String) (m : MemoryManager)
    → Changes m (replace_fact now id idx text m).1
replace_fact-Changes now id idx text m =
    Changes-cached id m (replace_fact now id idx text m).1
      (λ absent. unfold replace_fact in ground arith)
      (λ d there. elim (Option-cases (get_elem? (places_by_confidence d.facts) idx)) [
        | inl beyond ↦ inr (unfold replace_fact in ground arith)
        | inr (p, found) ↦ inl (
          record d { facts = set d.facts p.0 (record p.1 { text = text; updated_at = some now }) },
          unfold replace_fact in ground arith,
        )
      ])

pub add_fact-Changes :
    (similar : String → String → Bool) (now : ℕ) (id : String) (fact : Fact) (m : MemoryManager)
    → Changes m (add_fact similar now id fact m)
add_fact-Changes similar now id fact m =
    Changes-cached id m (add_fact similar now id fact m) (λ absent. unfold add_fact in ground arith)
      (λ d there. elim (Option-cases (find (λ e. similar e.text fact.text) d.facts)) [
        | inl new ↦ inl (
          record d { facts = evict m.max_facts (d.facts ++ fact ∷ []) },
          unfold add_fact in ground arith,
        )
        | inr (e, close) ↦ elim (Bool-cases (leb e.confidence fact.confidence)) [
          | inl wins ↦ inl (
            record d { facts = merge_into similar now fact d.facts },
            unfold add_fact in ground arith,
          )
          | inr loses ↦ inr (unfold add_fact in ground arith)
        ]
      ])
