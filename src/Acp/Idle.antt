-- ===== src/Acp/Idle.antt =====
-- Which runtimes the janitor of acp/janitor.py leaves in the registry.
use next_me.Common.{
  ℕ, String, ◌≡◌, refl, Bool, true, false, Option, none, some, List, [], ◌∷◌, ◌==◌,
  string_comparable, arith, if◌then◌else◌, elem, All, Dict, lookup, lookup-erase, ok, ◌>>=◌,
  Option-cases, inl, inr,
}
use next_me.Config.Schema.{Settings}
use next_me.Acp.{Runtime, RuntimeRegistry, is_idle, idle_session_ids, remove, remove_all, reap_idle}

-- Each session once.
abbrev pub IsKeyed : Dict String Runtime → Type 0
IsKeyed [] = Unit
IsKeyed ((id, runtime) ∷ rest) = All (λ e. (id == e.0) ≡ false) rest × IsKeyed rest

remove-lookup :
    (stops : Runtime → Bool) (id j : String) (r : RuntimeRegistry)
    → ((runtime : Runtime) → stops runtime ≡ true)
    → ((remove stops id r).0 ≡ ok tt)
      × (lookup j (remove stops id r).1.runtimes ≡ (if id == j then none else lookup j r.runtimes))
unfolding remove
remove-lookup stops id j r h = elim (Option-cases (lookup id r.runtimes)) [
  | inl gone ↦ (ground arith, ground (arith, string_comparable.equals_iff id j))
  | inr (runtime, known) ↦
      (ground (arith, h runtime), ground (arith, h runtime, lookup-erase id j r.runtimes))
]

remove_all-lookup :
    (stops : Runtime → Bool) (ids : List String) (j : String) (r : RuntimeRegistry)
    → ((runtime : Runtime) → stops runtime ≡ true)
    → ((remove_all stops ids r).0 ≡ ok tt)
      × (lookup j (remove_all stops ids r).1.runtimes
          ≡ (if elem j ids then none else lookup j r.runtimes))
unfolding remove_all ◌>>=◌
remove_all-lookup stops [] j r h = (refl, refl)
remove_all-lookup stops (id ∷ rest) j r h = (
  ground
      (arith, remove-lookup stops id j r h, remove_all-lookup stops rest j (remove stops id r).1 h),
  ground (
    arith,
    remove-lookup stops id j r h,
    remove_all-lookup stops rest j (remove stops id r).1 h,
    string_comparable.equals_iff id j,
    string_comparable.equals_iff j id,
  ),
)

-- What the lookup finds, if it is not idle.
abbrev pub unless_idle : ℕ → ℕ → Option Runtime → Option Runtime
unless_idle now timeout none = none
unless_idle now timeout (some runtime) = if is_idle now timeout runtime then none else some runtime

others_absent :
    (now timeout : ℕ) (id j : String) (rest : Dict String Runtime)
    → All (λ e. (id == e.0) ≡ false) rest
    → (id == j) ≡ true
    → elem j (idle_session_ids now timeout rest) ≡ false
unfolding idle_session_ids
others_absent now timeout id j [] h same = refl
others_absent now timeout id j ((i, runtime) ∷ rest) h same = ground (
  arith,
  others_absent now timeout id j rest h.1 same,
  h.0,
  string_comparable.equals_iff id j,
  string_comparable.equals_iff id i,
  string_comparable.equals_iff j i,
)

idle-lookup :
    (now timeout : ℕ) (j : String) (runtimes : Dict String Runtime)
    → IsKeyed runtimes
    → (if elem j (idle_session_ids now timeout runtimes) then none else lookup j runtimes)
      ≡ unless_idle now timeout (lookup j runtimes)
unfolding idle_session_ids lookup
idle-lookup now timeout j [] h = refl
idle-lookup now timeout j ((id, runtime) ∷ rest) h = ground (
  arith,
  idle-lookup now timeout j rest h.1,
  others_absent now timeout id j rest h.0,
  string_comparable.equals_iff id j,
  string_comparable.equals_iff j id,
)

-- If the runtimes can be stopped, the janitor takes out exactly the idle ones: afterwards a session
-- has the runtime that it had, unless that was idle.
reap_idle-lookup :
    (settings : Settings) (stops : Runtime → Bool) (now : ℕ) (session : String)
    (r : RuntimeRegistry)
    → IsKeyed r.runtimes
    → ((runtime : Runtime) → stops runtime ≡ true)
    → ((reap_idle settings stops now r).0 ≡ ok tt)
      × (lookup session (reap_idle settings stops now r).1.runtimes
          ≡ unless_idle now settings.acp_idle_timeout_seconds (lookup session r.runtimes))
unfolding reap_idle
reap_idle-lookup settings stops now session r keyed h =
    let ids : List String = idle_session_ids now settings.acp_idle_timeout_seconds r.runtimes in
    (
      ground (arith, remove_all-lookup stops ids session r h),
      ground (
        arith,
        remove_all-lookup stops ids session r h,
        idle-lookup now settings.acp_idle_timeout_seconds session r.runtimes keyed,
      ),
    )
