-- ===== src/Dedup.antt =====
-- feishu/dedup.py: `MessageDedup`. A time is a number of ticks of `time.monotonic()`. The cutoff
-- `now - ttl` may be negative there, so `ts < now - ttl` is read as `ts + ttl < now`.
pub mod Eviction
pub mod Invariant
pub mod History
pub mod Tests
use next_me.Common.{
  ◌+◌, ℕ, suc, String, Bool, true, false, Option, none, some, List, [], ◌∷◌, ◌++◌, ◌==◌,
  string_comparable, if◌then◌else◌, ltb, length, Dict, lookup, insert, erase, has_key,
}

pub record MessageDedup : Type 0 where
  pub capacity : ℕ
  pub ttl : ℕ
  -- oldest first
  pub cache : Dict String ℕ

unfoldable pub init : ℕ → ℕ → MessageDedup
init capacity ttl_seconds = record { capacity = capacity; ttl = ttl_seconds; cache = [] }

abbrev pub is_expired : ℕ → ℕ → ℕ → Bool
is_expired now ttl ts = ltb (ts + ttl) now

-- The loop that collects the ids of the expired entries, and breaks at the first that is not.
unfoldable pub expired_ids : ℕ → ℕ → Dict String ℕ → List String
expired_ids now ttl [] = []
expired_ids now ttl ((message_id, ts) ∷ rest) =
    if is_expired now ttl ts then message_id ∷ expired_ids now ttl rest else []

-- `for message_id in expired_ids: del self._cache[message_id]`
unfoldable pub delete_all : List String → Dict String ℕ → Dict String ℕ
delete_all [] cache = cache
delete_all (message_id ∷ rest) cache = delete_all rest (erase message_id cache)

unfoldable pub evict_expired : ℕ → MessageDedup → MessageDedup
unfolding expired_ids delete_all
evict_expired now d = elim d.cache [
  | [] ↦ d
  | e ∷ rest ↦ record d { cache = delete_all (expired_ids now d.ttl d.cache) d.cache }
]

-- `move_to_end(key)`, and nothing if the key is not there
unfoldable pub move_to_end : String → Dict String ℕ → Dict String ℕ
move_to_end key cache = elim (lookup key cache) [
  | none ↦ cache
  | some ts ↦ erase key cache ++ (key, ts) ∷ []
]

-- `while len(self._cache) > self._capacity: self._cache.popitem(last=False)`
unfoldable pub pop_oldest : ℕ → Dict String ℕ → Dict String ℕ
pop_oldest capacity [] = []
pop_oldest capacity (e ∷ rest) =
    if ltb capacity (length (e ∷ rest)) then pop_oldest capacity rest else e ∷ rest

-- `swept` is the time that `_evict_expired` reads, and `now` the time that the method reads after.
unfoldable pub is_duplicate : ℕ → ℕ → String → MessageDedup → Bool × MessageDedup
unfolding evict_expired move_to_end pop_oldest
is_duplicate swept now message_id d =
    let d' = evict_expired swept d in
    if has_key message_id d'.cache
    then (true, record d' { cache = insert message_id now (move_to_end message_id d'.cache) })
    else (
      false,
      record d' {
        cache = pop_oldest d'.capacity (move_to_end message_id (insert message_id now d'.cache));
      },
    )
