-- ===== src/Dedup/Eviction.antt =====
-- The sweep of feishu/dedup.py, against a sweep of the whole cache.
use next_me.Common.{
  ◌≤◌, ℕ, String, ◌≡◌, refl, false, not, [], ◌∷◌, ◌==◌, string_comparable, arith, Dict, erase, keep,
  All,
}
use next_me.Dedup.{MessageDedup, is_expired, expired_ids, delete_all, evict_expired}

-- The entries stand in the order of their times, and no id twice.
abbrev pub IsOrdered : Dict String ℕ → Type 0
IsOrdered [] = Unit
IsOrdered ((id, ts) ∷ rest) = All (λ e. (ts ≤ e.1) × ((id == e.0) ≡ false)) rest × IsOrdered rest

abbrev pub live : ℕ → ℕ → Dict String ℕ → Dict String ℕ
live now ttl cache = keep (λ e. not (is_expired now ttl e.1)) cache

-- Nothing is expired after an entry that is not.
live-ordered :
    (now ttl ts : ℕ) (id : String) (rest : Dict String ℕ)
    → All (λ e. (ts ≤ e.1) × ((id == e.0) ≡ false)) rest
    → is_expired now ttl ts ≡ false
    → live now ttl rest ≡ rest
live-ordered now ttl ts id [] h e = refl
live-ordered now ttl ts id ((j, u) ∷ rest) h e =
    ground (arith, live-ordered now ttl ts id rest h.1 e)

erase_absent :
    (id : String) (ts : ℕ) (rest : Dict String ℕ)
    → All (λ e. (ts ≤ e.1) × ((id == e.0) ≡ false)) rest
    → erase id rest ≡ rest
unfolding erase
erase_absent id ts [] h = refl
erase_absent id ts ((j, u) ∷ rest) h = ground (
  arith,
  string_comparable.equals_iff j id,
  string_comparable.equals_iff id j,
  erase_absent id ts rest h.1,
)

pub delete_all-live :
    (now ttl : ℕ) (cache : Dict String ℕ)
    → IsOrdered cache
    → delete_all (expired_ids now ttl cache) cache ≡ live now ttl cache
unfolding delete_all expired_ids erase
delete_all-live now ttl [] h = refl
delete_all-live now ttl ((id, ts) ∷ rest) h = ground (
  arith,
  string_comparable.equals_iff id id,
  erase_absent id ts rest h.0,
  live-ordered now ttl ts id rest h.0,
  delete_all-live now ttl rest h.1,
)

-- In an ordered cache, the sweep that stops early keeps the same entries as a full sweep.
pub evict_expired-live :
    (now : ℕ) (d : MessageDedup)
    → IsOrdered d.cache
    → evict_expired now d ≡ record d { cache = live now d.ttl d.cache }
unfolding evict_expired
evict_expired-live now d h = ground (arith, delete_all-live now d.ttl d.cache h)
