-- ===== src/Acp/Process/Starts.antt =====
-- What acp/runtime.py leaves of a process whose handshake fails.
use next_me.Common.{
  ℕ, ◌+◌, ◌≡◌, refl, true, false, none, some, List, [], ◌∷◌, ◌++◌, nat_comparable, elem, Result,
  raised, runtime_error, ◌⊎◌, inl, inr, ◌>>=◌, ◌≢◌, arith,
}
use next_me.Acp.Process.{
  AcpRuntime, Waited, answered, refused, broke, out_of_time, send_request, send_raw, stop, wait_for,
  spawn, initialized, negotiate, ensure_ready,
}

-- What a start leaves, of the process `p` that it starts.
record Start (p : ℕ) (before : List ℕ) (out : Result (Unit {0}) × AcpRuntime) : Type 0 where
  count : out.1.started ≡ p + 1
  left :
      ((out.1.proc ≡ some p) × (out.1.terminated ≡ before))
      ⊎ ((out.1.proc ≡ none) × (out.1.terminated ≡ before ++ p ∷ []))
  failed : out.0 ≡ raised runtime_error → out.1.ready ≡ false

initialized-Start :
    (p : ℕ) (before : List ℕ) (waited : Waited) (r : AcpRuntime)
    → r.started ≡ p + 1
    → r.proc ≡ some p
    → r.terminated ≡ before
    → r.ready ≡ false
    → r.alive ≡ true
    → Start p before (initialized (waited, r))
unfolding stop
initialized-Start p before (answered result) r c e t n a = ground arith
initialized-Start p before refused r c e t n a = ground arith
initialized-Start p before broke r c e t n a = ground arith
initialized-Start p before out_of_time r c e t n a = ground arith

negotiate-Start :
    (p : ℕ) (before : List ℕ) (r : AcpRuntime)
    → r.started ≡ p + 1
    → r.proc ≡ some p
    → r.terminated ≡ before
    → r.ready ≡ false
    → r.alive ≡ true
    → Start p before (negotiate r)
unfolding negotiate send_request send_raw wait_for ◌>>=◌
negotiate-Start p before r c e t n a =
    elim r.writes as (λ w. Start p before (negotiate (record r { writes = w }))) [
      | [] ↦ initialized-Start p before _ _ c e t n a
      | fine ∷ rest ↦
          elim fine as (λ b. Start p before (negotiate (record r { writes = b ∷ rest }))) [
            | true ↦ initialized-Start p before _ _ c e t n a
            | false ↦ record { count = c; left = inl (e, t); failed = λ _. n }
          ]
    ]

ensure_ready-Start :
    (r : AcpRuntime) → r.ready ≡ false → Start r.started r.terminated (ensure_ready r)
unfolding ensure_ready
ensure_ready-Start r n =
    rw (n, ensure_ready) (negotiate-Start r.started r.terminated (spawn r) refl refl refl refl refl)

elem_append-other :
    (p q : ℕ) (xs : List ℕ) → elem p xs ≡ false → p ≢ q → elem p (xs ++ q ∷ []) ≡ false
elem_append-other p q [] h n = ground arith
elem_append-other p q (x ∷ xs) h n = ground (arith, elem_append-other p q xs)

held_terminated :
    (p : ℕ) (before : List ℕ) (r : AcpRuntime)
    → ((r.proc ≡ some p) × (r.terminated ≡ before))
      ⊎ ((r.proc ≡ none) × (r.terminated ≡ before ++ p ∷ []))
    → r.proc ≡ some p
    → r.terminated ≡ before
held_terminated p before r (inl h) e = h.1
held_terminated p before r (inr h) e = ground arith

left_alone :
    (p : ℕ) (before : List ℕ) (out : Result (Unit {0}) × AcpRuntime)
    → Start (p + 1) before out
    → elem p before ≡ false
    → (out.1.proc ≢ some p) × (elem p out.1.terminated ≡ false)
left_alone p before out start h = elim start.left [
  | inl l ↦ (λ e. ground arith, rw l.1 h)
  | inr l ↦ (λ e. ground arith, rw l.1 (elem_append-other p (p + 1) before h (λ e. omega arith)))
]

-- Where the handshake of a start fails and its process is still at hand, the next start puts another in
-- its place, and the first one is never terminated.
pub failed_start_leaks :
    (r : AcpRuntime)
    → r.ready ≡ false
    → elem r.started r.terminated ≡ false
    → (ensure_ready r).0 ≡ raised runtime_error
    → (ensure_ready r).1.proc ≡ some r.started
    → let r' = (ensure_ready (ensure_ready r).1).1 in
      (r'.proc ≢ some r.started) × (elem r.started r'.terminated ≡ false)
failed_start_leaks r n fresh failed held =
    let first = ensure_ready-Start r n in
    let second = ensure_ready-Start (ensure_ready r).1 (first.failed failed) in
    left_alone r.started (ensure_ready r).1.terminated (ensure_ready (ensure_ready r).1)
      (rw (← first.count) second)
      (rw (held_terminated _ _ (ensure_ready r).1 first.left held) fresh)
