-- ===== src/Dedup/History.antt =====
-- `MessageDedup` against the whole history of calls.
use next_me.Common.{
  length-keep-le, ◌+◌, ◌≤◌, ◌<◌, ℕ, suc, String, ◌≡◌, refl, Bool, false, not, Option, none, some,
  List, [], ◌∷◌, ◌==◌, string_comparable, arith, if◌then◌else◌, length, Dict, lookup, lookup-erase,
  has_key, All, lookup-append, length-append, erase,
}
use next_me.Dedup.{MessageDedup, init, is_expired, pop_oldest, is_duplicate}
use next_me.Dedup.Eviction.{IsOrdered, live}
use next_me.Dedup.Invariant.{
  IsValid, renewed, is_duplicate_lem, is_duplicate-IsValid, length-erase-le,
}

-- A call: the time that the sweep reads, the time after it, and the message.
abbrev pub Arrival : Type 0
Arrival = ℕ × ℕ × String

-- The clock never goes back.
abbrev pub InOrder : ℕ → List Arrival → Type 0
InOrder before [] = Unit
InOrder before ((swept, now, id) ∷ rest) = (before ≤ swept) × (swept ≤ now) × InOrder now rest

unfoldable pub answers : MessageDedup → List Arrival → List Bool
answers d [] = []
answers d ((swept, now, id) ∷ rest) =
    let (seen, d') = is_duplicate swept now id d in seen ∷ answers d' rest

-- The time is one of the last `ttl` ticks.
abbrev pub is_recent : ℕ → ℕ → Option ℕ → Bool
is_recent swept ttl none = false
is_recent swept ttl (some ts) = not (is_expired swept ttl ts)

-- The specification: a message is a duplicate if the last call with its id is recent. `last` gives
-- the time of that call, and forgets nothing.
unfoldable pub expected : ℕ → (String → Option ℕ) → List Arrival → List Bool
expected ttl last [] = []
expected ttl last ((swept, now, id) ∷ rest) =
    is_recent swept ttl (last id) ∷ expected ttl (λ j. if id == j then some now else last j) rest

-- The cache and the history agree on who is recent, now and later.
pub record Tracks (now : ℕ) (d : MessageDedup) (last : String → Option ℕ) : Type 0 where
  pub agree :
      (id : String) (later : ℕ)
      → now ≤ later
      → is_recent later d.ttl (lookup id d.cache) ≡ is_recent later d.ttl (last id)

absent_later :
    (id : String) (ts : ℕ) (rest : Dict String ℕ)
    → All (λ e. (ts ≤ e.1) × ((id == e.0) ≡ false)) rest
    → lookup id rest ≡ none
unfolding lookup
absent_later id ts [] h = refl
absent_later id ts ((j, u) ∷ rest) h = ground (
  arith,
  string_comparable.equals_iff j id,
  string_comparable.equals_iff id j,
  absent_later id ts rest h.1,
)

-- After a sweep an id is there if its time is recent.
lookup-live :
    (swept ttl : ℕ) (id : String) (cache : Dict String ℕ)
    → IsOrdered cache
    → lookup id (live swept ttl cache)
      ≡ (if is_recent swept ttl (lookup id cache) then lookup id cache else none)
unfolding lookup
lookup-live swept ttl id [] h = refl
lookup-live swept ttl id ((j, ts) ∷ rest) h = ground (
  arith,
  string_comparable.equals_iff j id,
  lookup-live swept ttl id rest h.1,
  absent_later j ts rest h.0,
)

pop_oldest_fits :
    (cap : ℕ) (cache : Dict String ℕ) → length cache ≤ cap → pop_oldest cap cache ≡ cache
unfolding pop_oldest
pop_oldest_fits cap [] h = refl
pop_oldest_fits cap (e ∷ rest) h = ground arith

lookup-renewed :
    (id j : String) (now : ℕ) (cache : Dict String ℕ)
    → lookup j (renewed id now cache) ≡ (if id == j then some now else lookup j cache)
unfolding lookup
lookup-renewed id j now cache =
    ground (arith, lookup-append j (erase id cache) ((id, now) ∷ []), lookup-erase id j cache)

-- What has been swept away would not be recent later either.
is_recent-live :
    (swept later ttl : ℕ) (o : Option ℕ)
    → swept ≤ later
    → is_recent later ttl (if is_recent swept ttl o then o else none) ≡ is_recent later ttl o
is_recent-live swept later ttl none h = refl
is_recent-live swept later ttl (some ts) h = ground arith

module _ (swept now : ℕ) (id : String) (d : MessageDedup) (ordered : IsOrdered d.cache) where
  length-renewed-le : length (renewed id now (live swept d.ttl d.cache)) ≤ suc (length d.cache)
  length-renewed-le = ground (
    arith,
    length-append (erase id (live swept d.ttl d.cache)) ((id, now) ∷ []),
    length-erase-le id (live swept d.ttl d.cache),
    length-keep-le (λ (e : String × ℕ). not (is_expired swept d.ttl e.1)) d.cache,
  )

  is_duplicate_fits :
      length d.cache < d.capacity
      → is_duplicate swept now id d ≡ (
        has_key id (live swept d.ttl d.cache),
        record d { cache = renewed id now (live swept d.ttl d.cache) },
      )
  is_duplicate_fits room = ground (
    arith,
    is_duplicate_lem swept now id d ordered,
    pop_oldest_fits d.capacity (renewed id now (live swept d.ttl d.cache)),
    length-renewed-le,
  )

  answer-is_recent :
      has_key id (live swept d.ttl d.cache) ≡ is_recent swept d.ttl (lookup id d.cache)
  answer-is_recent = ground (arith, lookup-live swept d.ttl id d.cache ordered)

  Tracks-renewed :
      (before : ℕ) (last : String → Option ℕ)
      → before ≤ swept
      → swept ≤ now
      → Tracks before d last
      → Tracks now
          (record d { cache = renewed id now (live swept d.ttl d.cache) })
          (λ j. if id == j then some now else last j)
  Tracks-renewed before last h k t = record {
    agree = λ j later le. ground (
      arith,
      lookup-renewed id j now (live swept d.ttl d.cache),
      lookup-live swept d.ttl j d.cache ordered,
      is_recent-live swept later d.ttl (lookup j d.cache),
      t.agree j later,
    );
  }

lookup-nothing : (id : String) (later ttl : ℕ) → is_recent later ttl (lookup {V = ℕ} id []) ≡ false
unfolding lookup
lookup-nothing id later ttl = refl

answers-Tracks :
    (before : ℕ) (d : MessageDedup) (last : String → Option ℕ) (cs : List Arrival)
    → InOrder before cs
    → length d.cache + length cs ≤ d.capacity
    → IsValid before d
    → Tracks before d last
    → answers d cs ≡ expected d.ttl last cs
unfolding answers expected
answers-Tracks before d last [] h room v t = refl
answers-Tracks before d last ((swept, now, id) ∷ cs) h room v t =
    let d' : MessageDedup = record d { cache = renewed id now (live swept d.ttl d.cache) } in
    let step = is_duplicate_fits swept now id d v.ordered (omega arith) in
    let valid : IsValid now d' =
      rw step at (is_duplicate-IsValid before swept now id d h.0 h.1 v) in
    let tail =
      answers-Tracks now d' (λ j. if id == j then some now else last j) cs h.2
        (omega (arith, length-renewed-le swept now id d v.ordered)) valid
        (Tracks-renewed swept now id d v.ordered before last h.0 h.1 t) in
    rw step (cc (answer-is_recent swept now id d v.ordered, t.agree id swept h.0, tail))

-- As long as there are no more calls than the capacity, each call answers that its message is a
-- duplicate exactly if the last call with the same id is at most `ttl` ticks old.
pub answers-init :
    (capacity ttl : ℕ) (cs : List Arrival)
    → length cs ≤ capacity
    → InOrder 0 cs
    → answers (init capacity ttl) cs ≡ expected ttl (λ _. none) cs
unfolding init
answers-init capacity ttl cs room h =
    answers-Tracks 0 (init capacity ttl) (λ _. none) cs h (omega arith)
      (record { ordered = tt; past = tt; bounded = omega arith })
      (record { agree = λ id later le. lookup-nothing id later ttl })
