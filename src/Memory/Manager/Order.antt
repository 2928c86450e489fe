-- ===== src/Memory/Manager/Order.antt =====
-- The order in which memory/manager.py counts the facts of a context.
use mathlib.Core.Path.{subst}
use next_me.Common.{
  ℕ, zero, suc, ◌≤◌, String, ◌≡◌, refl, ap, Bool, true, false, none, some, List, [], ◌∷◌, ◌++◌,
  arith, nat_comparable, string_comparable, length, get_elem?, find, sort_by, insert_by, lookup,
  lookup-insert, All, Bool-cases, inl, inr, length-append, length-sort_by,
}
use next_me.Memory.Schema.{Fact, same_fact}
use next_me.Memory.Manager.{
  ContextData, MemoryManager, not_less, by_confidence, take, get_top_facts, add_fact, evict,
  remove_fact, forget_fact,
}

abbrev Below : ℕ → List Fact → Type 0
Below n xs = All (λ e. e.confidence ≤ n) xs

abbrev pub IsSorted : List Fact → Type 0
IsSorted [] = Unit
IsSorted (x ∷ xs) = Below x.confidence xs × IsSorted xs

Below-weaken : (n k : ℕ) (xs : List Fact) → n ≤ k → Below n xs → Below k xs
Below-weaken n k [] le h = tt
Below-weaken n k (x ∷ xs) le h = (omega (arith, h.0), Below-weaken n k xs le h.1)

Below-insert_by :
    (n : ℕ) (y : Fact) (ys : List Fact)
    → y.confidence ≤ n
    → Below n ys
    → Below n (insert_by not_less y ys)
unfolding insert_by
Below-insert_by n y [] le h = (le, tt)
Below-insert_by n y (z ∷ zs) le h = ground (arith, Below-insert_by n y zs le h.1)

insert_by-IsSorted : (y : Fact) (ys : List Fact) → IsSorted ys → IsSorted (insert_by not_less y ys)
unfolding insert_by
insert_by-IsSorted y [] h = (tt, tt)
insert_by-IsSorted y (z ∷ zs) h = elim (Bool-cases (not_less y z)) [
  | inl front ↦
      let same : y ∷ z ∷ zs ≡ insert_by not_less y (z ∷ zs) = ground arith in
      subst IsSorted same
        ((ground arith, Below-weaken z.confidence y.confidence zs (ground arith) h.0), h)
  | inr behind ↦
      let same : z ∷ insert_by not_less y zs ≡ insert_by not_less y (z ∷ zs) = ground arith in
      subst IsSorted same
        (Below-insert_by z.confidence y zs (ground arith) h.0, insert_by-IsSorted y zs h.1)
]

by_confidence-IsSorted : (xs : List Fact) → IsSorted (by_confidence xs)
unfolding by_confidence sort_by
by_confidence-IsSorted [] = tt
by_confidence-IsSorted (x ∷ xs) =
    insert_by-IsSorted x (by_confidence xs) (by_confidence-IsSorted xs)

insert_front :
    (y : Fact) (ys : List Fact) → Below y.confidence ys → insert_by not_less y ys ≡ y ∷ ys
unfolding insert_by
insert_front y [] h = refl
insert_front y (z ∷ zs) h = ground (arith, h.0)

same_confidence : (f g : Fact) → same_fact f g ≡ true → f.confidence ≡ g.confidence
unfolding same_fact
same_confidence f g e = ground arith

remove_inserted :
    (f y : Fact) (ys : List Fact)
    → same_fact y f ≡ true
    → remove_fact f (insert_by not_less y ys) ≡ ys
unfolding remove_fact insert_by
remove_inserted f y [] e = ground arith
remove_inserted f y (z ∷ zs) e =
    ground (arith, remove_inserted f y zs e, same_confidence y f e, same_confidence z f)

remove_around :
    (f y : Fact) (ys : List Fact)
    → same_fact y f ≡ false
    → IsSorted ys
    → remove_fact f (insert_by not_less y ys) ≡ insert_by not_less y (remove_fact f ys)
unfolding remove_fact insert_by
remove_around f y [] e h = ground arith
remove_around f y (z ∷ zs) e h = elim (Bool-cases (not_less y z)) [
  | inr behind ↦ ground (arith, remove_around f y zs e h.1)
  | inl front ↦
      ground
        (arith, insert_front y zs (Below-weaken z.confidence y.confidence zs (ground arith) h.0))
]

-- Sorting and forgetting commute.
sort-remove_fact :
    (f : Fact) (xs : List Fact)
    → by_confidence (remove_fact f xs) ≡ remove_fact f (by_confidence xs)
unfolding by_confidence sort_by remove_fact
sort-remove_fact f [] = refl
sort-remove_fact f (x ∷ xs) = ground (
  arith,
  remove_inserted f x (by_confidence xs),
  remove_around f x (by_confidence xs),
  by_confidence-IsSorted xs,
  sort-remove_fact f xs,
)

-- Forgetting the fact at a place takes the first fact that equals it out of the order by confidence:
-- the facts behind it move up by one place, so that an index that was read before is off by one.
pub forget_fact-order :
    (id : String) (idx n : ℕ) (m : MemoryManager) (d : ContextData) (f : Fact)
    → lookup id m.cache ≡ some d
    → get_elem? (by_confidence d.facts) idx ≡ some f
    → ((forget_fact id idx m).0 ≡ true)
      × (get_top_facts id n (forget_fact id idx m).1
          ≡ take n (remove_fact f (by_confidence d.facts)))
unfolding forget_fact get_top_facts
forget_fact-order id idx n m d f known found = (
  ground arith,
  ground (
    arith,
    lookup-insert id id (record d { facts = remove_fact f d.facts }) m.cache,
    string_comparable.equals_iff id id,
    sort-remove_fact f d.facts,
  ),
)

insert_by-append_last :
    (y f : Fact) (ys : List Fact)
    → f.confidence ≤ y.confidence
    → insert_by not_less y (ys ++ f ∷ []) ≡ insert_by not_less y ys ++ f ∷ []
unfolding insert_by
insert_by-append_last y f [] le = ground arith
insert_by-append_last y f (z ∷ zs) le = ground (arith, insert_by-append_last y f zs le)

abbrev pub NotLess : Fact → List Fact → Type 0
NotLess f xs = All (λ e. f.confidence ≤ e.confidence) xs

sort-append_last :
    (f : Fact) (xs : List Fact)
    → NotLess f xs
    → by_confidence (xs ++ f ∷ []) ≡ by_confidence xs ++ f ∷ []
unfolding by_confidence sort_by insert_by
sort-append_last f [] h = refl
sort-append_last f (x ∷ xs) h =
    ground (arith, sort-append_last f xs h.1, insert_by-append_last x f (by_confidence xs) h.0)

sort-sorted : (xs : List Fact) → IsSorted xs → by_confidence xs ≡ xs
unfolding by_confidence sort_by
sort-sorted [] h = refl
sort-sorted (x ∷ xs) h = ground (arith, sort-sorted xs h.1, insert_front x xs h.0)

take-append : (n : ℕ) (xs ys : List Fact) → length xs ≡ n → take n (xs ++ ys) ≡ xs
take-append zero [] ys e = refl
take-append zero (x ∷ xs) ys e = absurd (omega arith)
take-append (suc n) [] ys e = absurd (omega arith)
take-append (suc n) (x ∷ xs) ys e = ap (λ zs. x ∷ zs) (take-append n xs ys (omega arith))

evict_new :
    (f : Fact) (xs : List Fact) (n : ℕ)
    → length xs ≡ n
    → NotLess f xs
    → evict n (xs ++ f ∷ []) ≡ by_confidence xs
unfolding evict
evict_new f xs n full h = ground (
  arith,
  sort-append_last f xs h,
  length-append xs (f ∷ []),
  take-append n (by_confidence xs) (f ∷ [])
      (unfold by_confidence in omega (arith, length-sort_by not_less xs)),
)

-- Where a context is full and every fact in it is at least as certain, a new fact that is similar to
-- none is lost at once: what the manager tells of the context stays as it was.
add_fact-full :
    (similar : String → String → Bool) (now : ℕ) (id : String) (fact : Fact) (n : ℕ)
    (m : MemoryManager) (d : ContextData)
    → lookup id m.cache ≡ some d
    → find (λ e. similar e.text fact.text) d.facts ≡ none
    → length d.facts ≡ m.max_facts
    → NotLess fact d.facts
    → get_top_facts id n (add_fact similar now id fact m) ≡ get_top_facts id n m
unfolding add_fact get_top_facts
add_fact-full similar now id fact n m d known new full certain = ground (
  arith,
  lookup-insert id id (record d { facts = evict m.max_facts (d.facts ++ fact ∷ []) }) m.cache,
  string_comparable.equals_iff id id,
  evict_new fact d.facts m.max_facts full certain,
  sort-sorted (by_confidence d.facts) (by_confidence-IsSorted d.facts),
)
