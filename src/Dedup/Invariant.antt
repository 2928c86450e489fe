-- ===== src/Dedup/Invariant.antt =====
-- The cache of feishu/dedup.py after each call.
use native.Mathlib.Nat.{le_refl}
use next_me.Common.{
  if_both, length-keep-le, ◌≤◌, ◌<◌, ℕ, String, ◌≡◌, Bool, false, not, none, some, [], ◌∷◌, ◌++◌,
  ◌==◌, string_comparable, arith, if◌then◌else◌, length, Dict, lookup, insert, erase, has_key, keep,
  All, All-append, All-keep, All-weaken, insert_absent, insert_last, erase_last, has_key-erase,
  lookup-append, length-append, Option-cases, inl, inr,
}
use next_me.Dedup.{MessageDedup, is_expired, pop_oldest, move_to_end, is_duplicate}
use next_me.Dedup.Eviction.{IsOrdered, live, evict_expired-live}

-- What is left when an id is moved behind all others with a new time.
abbrev pub renewed : String → ℕ → Dict String ℕ → Dict String ℕ
renewed id now cache = erase id cache ++ (id, now) ∷ []

renew_known :
    (id : String) (now : ℕ) (cache : Dict String ℕ) (ts : ℕ)
    → lookup id cache ≡ some ts
    → insert id now (move_to_end id cache) ≡ renewed id now cache
unfolding move_to_end
renew_known id now cache ts h =
    ground (arith, insert_last id now ts (erase id cache) (has_key-erase id cache))

renew_new :
    (id : String) (now : ℕ) (cache : Dict String ℕ)
    → lookup id cache ≡ none
    → move_to_end id (insert id now cache) ≡ renewed id now cache
unfolding move_to_end lookup
renew_new id now cache h = ground (
  arith,
  insert_absent id now cache h,
  lookup-append id cache ((id, now) ∷ []),
  string_comparable.equals_iff id id,
  erase_last id now cache,
)

-- A call sweeps the expired entries away, and answers whether the id is still there; it then
-- stands last, and a new id may push the oldest out.
pub is_duplicate_lem :
    (swept now : ℕ) (id : String) (d : MessageDedup)
    → IsOrdered d.cache
    → let cache = live swept d.ttl d.cache in
      is_duplicate swept now id d ≡ (
        has_key id cache,
        record d {
          cache =
              if has_key id cache
              then renewed id now cache
              else pop_oldest d.capacity (renewed id now cache);
        },
      )
unfolding is_duplicate
is_duplicate_lem swept now id d h = elim (Option-cases (lookup id (live swept d.ttl d.cache))) [
  | inl gone ↦
      ground (arith, evict_expired-live swept d h, renew_new id now (live swept d.ttl d.cache) gone)
  | inr (ts, known) ↦
      ground (
        arith,
        evict_expired-live swept d h,
        renew_known id now (live swept d.ttl d.cache) ts known,
      )
]

pub record IsValid (now : ℕ) (d : MessageDedup) : Type 0 where
  pub ordered : IsOrdered d.cache
  pub past : All (λ e. e.1 ≤ now) d.cache
  pub bounded : length d.cache ≤ d.capacity

IsOrdered-keep :
    (p : String × ℕ → Bool) (cache : Dict String ℕ) → IsOrdered cache → IsOrdered (keep p cache)
IsOrdered-keep p [] h = h
IsOrdered-keep p ((id, ts) ∷ rest) h = ground (
  arith,
  IsOrdered-keep p rest h.1,
  All-keep (λ (e : String × ℕ). (ts ≤ e.1) × ((id == e.0) ≡ false)) p rest h.0,
)

All-erase :
    (P : String × ℕ → Type 0) (id : String) (cache : Dict String ℕ)
    → All P cache
    → All P (erase id cache)
unfolding erase
All-erase P id [] h = h
All-erase P id ((j, ts) ∷ rest) h = ground (arith, All-erase P id rest h.1)

IsOrdered-erase :
    (id : String) (cache : Dict String ℕ) → IsOrdered cache → IsOrdered (erase id cache)
unfolding erase
IsOrdered-erase id [] h = h
IsOrdered-erase id ((j, ts) ∷ rest) h = ground (
  arith,
  IsOrdered-erase id rest h.1,
  All-erase (λ (e : String × ℕ). (ts ≤ e.1) × ((j == e.0) ≡ false)) id rest h.0,
)

All-last :
    (j id : String) (ts now : ℕ) (cache : Dict String ℕ)
    → All (λ e. (ts ≤ e.1) × ((j == e.0) ≡ false)) cache
    → ts ≤ now
    → (j == id) ≡ false
    → All (λ e. (ts ≤ e.1) × ((j == e.0) ≡ false)) (cache ++ (id, now) ∷ [])
All-last j id ts now cache h le other =
    All-append (λ e. (ts ≤ e.1) × ((j == e.0) ≡ false)) cache _ h ((le, other), tt)

IsOrdered-last :
    (id : String) (now : ℕ) (cache : Dict String ℕ)
    → IsOrdered cache
    → All (λ e. e.1 ≤ now) cache
    → lookup id cache ≡ none
    → IsOrdered (cache ++ (id, now) ∷ [])
unfolding lookup
IsOrdered-last id now [] h past free = (tt, tt)
IsOrdered-last id now ((j, ts) ∷ rest) h past free = (
  All-last j id ts now rest h.0 past.0 (ground arith),
  IsOrdered-last id now rest h.1 past.1 (ground arith),
)

IsOrdered-pop_oldest :
    (cap : ℕ) (cache : Dict String ℕ) → IsOrdered cache → IsOrdered (pop_oldest cap cache)
unfolding pop_oldest
IsOrdered-pop_oldest cap [] h = h
IsOrdered-pop_oldest cap (e ∷ rest) h = ground (arith, IsOrdered-pop_oldest cap rest h.1)

All-pop_oldest :
    (P : String × ℕ → Type 0) (cap : ℕ) (cache : Dict String ℕ)
    → All P cache
    → All P (pop_oldest cap cache)
unfolding pop_oldest
All-pop_oldest P cap [] h = h
All-pop_oldest P cap (e ∷ rest) h = ground (arith, All-pop_oldest P cap rest h.1)

length-pop_oldest-le : (cap : ℕ) (cache : Dict String ℕ) → length (pop_oldest cap cache) ≤ cap
unfolding pop_oldest
length-pop_oldest-le cap [] = omega arith
length-pop_oldest-le cap (e ∷ rest) = ground (arith, length-pop_oldest-le cap rest)

pub length-erase-le : (id : String) (cache : Dict String ℕ) → length (erase id cache) ≤ length cache
unfolding erase
length-erase-le id [] = omega arith
length-erase-le id ((j, u) ∷ rest) = ground (arith, length-erase-le id rest)

length-erase-lt :
    (id : String) (cache : Dict String ℕ) (ts : ℕ)
    → lookup id cache ≡ some ts
    → length (erase id cache) < length cache
unfolding lookup erase
length-erase-lt id [] ts h = cc
length-erase-lt id ((j, u) ∷ rest) ts h =
    ground (arith, length-erase-lt id rest ts, length-erase-le id rest)

renewed-IsOrdered :
    (id : String) (now : ℕ) (cache : Dict String ℕ)
    → IsOrdered cache
    → All (λ e. e.1 ≤ now) cache
    → IsOrdered (renewed id now cache) × All (λ e. e.1 ≤ now) (renewed id now cache)
renewed-IsOrdered id now cache h past = (
  IsOrdered-last id now (erase id cache) (IsOrdered-erase id cache h)
      (All-erase (λ e. e.1 ≤ now) id cache past) (has_key-erase id cache),
  All-append (λ e. e.1 ≤ now) (erase id cache) _ (All-erase (λ e. e.1 ≤ now) id cache past)
      (le_refl now, tt),
)

-- Each call leaves at most `capacity` ids, each once, in the order of their times.
pub is_duplicate-IsValid :
    (before swept now : ℕ) (id : String) (d : MessageDedup)
    → before ≤ swept
    → swept ≤ now
    → IsValid before d
    → IsValid now (is_duplicate swept now id d).1
is_duplicate-IsValid before swept now id d h k v =
    rw (is_duplicate_lem swept now id d v.ordered) (record {
      ordered =
          if_both IsOrdered (has_key id cache) _ _ kept.0
            (IsOrdered-pop_oldest d.capacity (renewed id now cache) kept.0);
      past =
          if_both (All (λ e. e.1 ≤ now)) (has_key id cache) _ _ kept.1 (
            All-pop_oldest (λ (e : String × ℕ). e.1 ≤ now) d.capacity (renewed id now cache)
              kept.1);
      bounded = elim (Option-cases (lookup id cache)) [
        | inl gone ↦ ground (arith, length-pop_oldest-le d.capacity (renewed id now cache))
        | inr (ts, known) ↦ ground (
          arith,
          length-erase-lt id cache ts known,
          length-append (erase id cache) ((id, now) ∷ []),
          length-keep-le (λ (e : String × ℕ). not (is_expired swept d.ttl e.1)) d.cache,
          v.bounded,
        )
      ];
    })
  where
    cache : Dict String ℕ
    cache = live swept d.ttl d.cache

    kept : IsOrdered (renewed id now cache) × All (λ e. e.1 ≤ now) (renewed id now cache)
    kept =
        renewed-IsOrdered id now cache
          (IsOrdered-keep (λ (e : String × ℕ). not (is_expired swept d.ttl e.1)) d.cache v.ordered)
          (All-keep (λ (e : String × ℕ). e.1 ≤ now) _ d.cache
            (All-weaken (λ (e : String × ℕ). e.1 ≤ before) (λ (e : String × ℕ). e.1 ≤ now)
              (λ e le. omega arith) d.cache v.past))
