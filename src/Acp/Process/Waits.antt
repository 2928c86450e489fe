-- ===== src/Acp/Process/Waits.antt =====
-- What a wait of acp/runtime.py for one response does with the other messages.
use mathlib.Core.List.{append_assoc, append-nil}
use next_me.Common.{
  ℕ, ◌≡◌, refl, sym, ap, ◌∙◌, true, false, List, [], ◌∷◌, ◌++◌, All, All-append, flat, ◌⊎◌, inl,
  inr, Bool-cases, arith,
}
use next_me.Acp.Protocol.{Message}
use next_me.Acp.Process.{
  Incoming, message, failure, Waited, answered, refused, broke, out_of_time, is_response_to,
  response_result, wait_loop, AcpRuntime, wait_for,
}

abbrev pub IsOther : ℕ → Incoming → Type 0
IsOther req_id failure = ◌≡◌ true false
IsOther req_id (message msg) = is_response_to req_id msg ≡ false

-- The message that ends the wait.
abbrev pub Ends : ℕ → Waited → List Incoming → Type 0
Ends req_id out_of_time taken = taken ≡ []
Ends req_id broke taken = taken ≡ failure ∷ []
Ends req_id (answered result) taken =
    (msg : Message) × (taken ≡ message msg ∷ [])
    × (is_response_to req_id msg ≡ true)
    × (response_result msg ≡ answered result)
Ends req_id refused taken =
    (msg : Message) × (taken ≡ message msg ∷ [])
    × (is_response_to req_id msg ≡ true)
    × (response_result msg ≡ refused)

-- `came` is what was there and what arrived.
pub record Waits (req_id : ℕ) (came : List Incoming) (waited : Waited) (queue : List Incoming)
    : Type 0 where
  pub before : List Incoming
  pub taken : List Incoming
  pub after : List Incoming
  pub split : came ≡ before ++ taken ++ after
  pub ends : Ends req_id waited taken
  pub others : All (IsOther req_id) before
  pub kept : queue ≡ after ++ before

response_Ends :
    (req_id : ℕ) (msg : Message) (waited : Waited)
    → response_result msg ≡ waited
    → is_response_to req_id msg ≡ true
    → Ends req_id waited (message msg ∷ [])
response_Ends req_id msg (answered result) h e = (msg, refl, e, h)
response_Ends req_id msg refused h e = (msg, refl, e, h)
response_Ends req_id msg broke h e = ground arith
response_Ends req_id msg out_of_time h e = ground arith

pub Incoming-cases :
    (xs : List Incoming)
    → (xs ≡ [])
      ⊎ ((rest : List Incoming) × (xs ≡ failure ∷ rest))
      ⊎ ((msg : Message) × (rest : List Incoming) × (xs ≡ message msg ∷ rest))
Incoming-cases [] = inl refl
Incoming-cases (failure ∷ rest) = inr (inl (rest, refl))
Incoming-cases (message msg ∷ rest) = inr (inr (msg, rest, refl))

abbrev Outcome :
    ℕ
    → List Incoming
    → List (List Incoming)
    → Waited × List Incoming × List (List Incoming)
    → Type 0
Outcome req_id there ticks out =
    (arrived : List (List Incoming)) × (ticks ≡ arrived ++ out.2)
    × Waits req_id (there ++ flat arrived) out.0 out.1

regroup :
    (stashed queue new rest xs : List Incoming) (m : Incoming)
    → queue ++ new ≡ m ∷ rest
    → (stashed ++ queue) ++ (new ++ xs) ≡ ((stashed ++ m ∷ []) ++ rest) ++ xs
regroup stashed queue new rest xs m e =
    append_assoc stashed queue (new ++ xs)
    ∙ ap (λ t. stashed ++ t) (sym (append_assoc queue new xs) ∙ ap (λ t. t ++ xs) e)
    ∙ sym (append_assoc (stashed ++ m ∷ []) rest xs ∙ append_assoc stashed (m ∷ []) (rest ++ xs))

wait_loop-Waits :
    (req_id : ℕ) (stashed queue : List Incoming) (ticks : List (List Incoming))
    → All (IsOther req_id) stashed
    → Outcome req_id (stashed ++ queue) ticks (wait_loop req_id stashed queue ticks)
unfolding wait_loop
wait_loop-Waits req_id stashed queue [] others = (
  [],
  refl,
  record {
    before = stashed;
    taken = [];
    after = queue;
    split = simp append-nil;
    ends = refl;
    others = others;
    kept = refl;
  },
)
wait_loop-Waits req_id stashed queue (new ∷ later) others = elim (Incoming-cases (queue ++ new)) [
  | inl e ↦
      rw (e, wait_loop)
        (
          new ∷ [],
          refl,
          record {
            before = stashed;
            taken = [];
            after = [];
            split = simp (append_assoc, append-nil, e);
            ends = refl;
            others = others;
            kept = refl;
          },
        )
  | inr (inl (rest, e)) ↦
      rw (e, wait_loop)
        (
          new ∷ [],
          refl,
          record {
            before = stashed;
            taken = failure ∷ [];
            after = rest;
            split = simp (append_assoc, append-nil, e);
            ends = refl;
            others = others;
            kept = refl;
          },
        )
  | inr (inr (msg, rest, e)) ↦
      rw (e, wait_loop)
        (elim (Bool-cases (is_response_to req_id msg)) [
          | inl it ↦ rw it (
            new ∷ [],
            refl,
            record {
              before = stashed;
              taken = message msg ∷ [];
              after = rest;
              split = simp (append_assoc, append-nil, e);
              ends = response_Ends req_id msg _ refl it;
              others = others;
              kept = refl;
            },
          )
          | inr it ↦ rw it (
              let (arrived, ts, w) =
                wait_loop-Waits req_id (stashed ++ message msg ∷ []) rest later
                  (All-append (IsOther req_id) stashed _ others (it, tt)) in
              (
                new ∷ arrived,
                ap (λ ts. new ∷ ts) ts,
                record {
                  before = w.before;
                  taken = w.taken;
                  after = w.after;
                  split = regroup stashed queue new rest (flat arrived) (message msg) e ∙ w.split;
                  ends = w.ends;
                  others = w.others;
                  kept = w.kept;
                },
              ))
        ])
]

-- A wait for a response takes the first message that is one, or the error of the reader, out of what was in the
-- queue and what arrived by then, or nothing if its time is over before either. Every other message stays,
-- but those that came before it stand behind those that came after it.
pub wait_for-Waits :
    (req_id : ℕ) (r : AcpRuntime)
    → (arrived : List (List Incoming)) × (r.ticks ≡ arrived ++ (wait_for req_id r).1.ticks)
      × Waits req_id
          (r.msg_queue ++ flat arrived)
          (wait_for req_id r).0
          (wait_for req_id r).1.msg_queue
unfolding wait_for
wait_for-Waits req_id r = wait_loop-Waits req_id [] r.msg_queue r.ticks tt
