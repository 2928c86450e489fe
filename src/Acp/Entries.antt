-- ===== src/Acp/Entries.antt =====
-- The entries of the registry of acp/janitor.py, through any calls.
use next_me.Common.{
  ℕ, String, ◌≡◌, Bool, List, [], ◌∷◌, ◌++◌, ◌==◌, string_comparable, arith, elem, All, Dict,
  lookup, erase, insert_absent, All-append, ◌>>=◌, Bool-cases, Option-cases, Result-cases, inl, inr,
}
use mathlib.Core.Path.{subst}
use next_me.Config.Schema.{Settings}
use next_me.Acp.{
  Runtime, RuntimeRegistry, is_acp, acp_executor_names, new_runtime, get_or_create, remove,
  remove_all, stop_all, idle_session_ids, reap_idle,
}

-- A runtime stands under its own session, and is of the class that its executor asks for.
pub record Fits (e : String × Runtime) : Type 0 where
  pub own : e.1.session_id ≡ e.0
  pub chosen : is_acp e.1.kind ≡ elem e.1.executor acp_executor_names

abbrev pub IsFit : RuntimeRegistry → Type 0
IsFit r = All Fits r.runtimes

new_runtime-Fits :
    (now : ℕ) (session cwd executor : String) (args : List String)
    → Fits (session, new_runtime now session cwd executor args)
unfolding new_runtime
new_runtime-Fits now session cwd executor args =
    elim (Bool-cases (elem executor acp_executor_names)) [
      | inl named ↦ record { own = ground arith; chosen = ground arith }
      | inr other ↦ record { own = ground arith; chosen = ground arith }
    ]

All-erase : (id : String) (d : Dict String Runtime) → All Fits d → All Fits (erase id d)
unfolding erase
All-erase id [] h = h
All-erase id ((j, runtime) ∷ rest) h = elim (Bool-cases (j == id)) [
  | inl hit ↦
      let same : erase id rest ≡ erase id ((j, runtime) ∷ rest) = ground arith in
      subst (All Fits) same (All-erase id rest h.1)
  | inr miss ↦
      let same : (j, runtime) ∷ erase id rest ≡ erase id ((j, runtime) ∷ rest) = ground arith in
      subst (All Fits) same (h.0, All-erase id rest h.1)
]

-- The calls on the registry; the janitor's round is one.
pub data Call : Type 0 where
  gets_or_creates : ℕ → String → String → String → List String → Call
  removes : (Runtime → Bool) → String → Call
  stops_all : Call
  reaps : Settings → (Runtime → Bool) → ℕ → Call

unfoldable pub step : RuntimeRegistry → Call → RuntimeRegistry
step r (gets_or_creates now session cwd executor args) =
    (get_or_create now session cwd executor args r).1
step r (removes stops session) = (remove stops session r).1
step r stops_all = stop_all r
step r (reaps settings stops now) = (reap_idle settings stops now r).1

unfoldable pub run : RuntimeRegistry → List Call → RuntimeRegistry
run r [] = r
run r (c ∷ cs) = run (step r c) cs

remove-IsFit :
    (stops : Runtime → Bool) (id : String) (r : RuntimeRegistry)
    → IsFit r
    → IsFit (remove stops id r).1
unfolding remove
remove-IsFit stops id r h = elim (Option-cases (lookup id r.runtimes)) [
  | inl gone ↦
      let same : r.runtimes ≡ (remove stops id r).1.runtimes = ground arith in
      subst (All Fits) same h
  | inr (runtime, known) ↦
      let same : erase id r.runtimes ≡ (remove stops id r).1.runtimes = ground arith in
      subst (All Fits) same (All-erase id r.runtimes h)
]

remove_all-IsFit :
    (stops : Runtime → Bool) (ids : List String) (r : RuntimeRegistry)
    → IsFit r
    → IsFit (remove_all stops ids r).1
unfolding remove_all ◌>>=◌
remove_all-IsFit stops [] r h = h
remove_all-IsFit stops (id ∷ rest) r h =
    let h' : IsFit (remove stops id r).1 = remove-IsFit stops id r h in
    elim (Result-cases (remove stops id r).0) [
      | inl (u, returned) ↦
          let same : (remove_all stops rest (remove stops id r).1).1.runtimes
              ≡ (remove_all stops (id ∷ rest) r).1.runtimes =
            ground arith in
          subst (All Fits) same (remove_all-IsFit stops rest (remove stops id r).1 h')
      | inr (error, raises) ↦
          let same : (remove stops id r).1.runtimes ≡ (remove_all stops (id ∷ rest) r).1.runtimes =
            ground arith in
          subst (All Fits) same h'
    ]

step-IsFit : (r : RuntimeRegistry) (c : Call) → IsFit r → IsFit (step r c)
unfolding step reap_idle stop_all get_or_create
step-IsFit r (gets_or_creates now session cwd executor args) h =
    elim (Option-cases (lookup session r.runtimes)) [
      | inl absent ↦
          let new : Runtime = new_runtime now session cwd executor args in
          let same : r.runtimes ++ (session, new) ∷ []
              ≡ (get_or_create now session cwd executor args r).1.runtimes =
            ground (arith, insert_absent session new r.runtimes) in
          subst (All Fits) same (
            All-append Fits r.runtimes ((session, new) ∷ []) h
              (new_runtime-Fits now session cwd executor args, tt))
      | inr (runtime, known) ↦
          let same : r.runtimes ≡ (get_or_create now session cwd executor args r).1.runtimes =
            ground arith in
          subst (All Fits) same h
    ]
step-IsFit r (removes stops session) h = remove-IsFit stops session r h
step-IsFit r stops_all h = tt
step-IsFit r (reaps settings stops now) h =
    remove_all-IsFit stops (idle_session_ids now settings.acp_idle_timeout_seconds r.runtimes) r h

-- Through any sequence of calls, also where runtimes fail to stop, every runtime stands under its
-- own session, and is an `ACPRuntime` exactly if its executor is one of the three names.
run-IsFit : (r : RuntimeRegistry) (cs : List Call) → IsFit r → IsFit (run r cs)
unfolding run
run-IsFit r [] h = h
run-IsFit r (c ∷ cs) h = run-IsFit (step r c) cs (step-IsFit r c h)
