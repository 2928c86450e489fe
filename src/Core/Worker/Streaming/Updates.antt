-- ===== src/Core/Worker/Streaming/Updates.antt =====
-- core/worker.py: the order and the distance in time of the updates of a card.
use mathlib.Core.Path.{subst}
use Prim.Native.String.{◌++◌ as append}
use next_me.Common.{
  ℕ, suc, zero, ◌+◌, ◌-◌, ◌/◌, ◌≤◌, String, ◌≡◌, refl, Bool, false, not, ◌&&◌, List, [], ◌∷◌, map,
  arith, ◌==◌, string_comparable, ltb, Bool-cases, inl, inr,
}
use next_me.Progress.{RunProgressCard, Element, render_elements}
use next_me.Core.Worker.Streaming.{
  Update, Shown, Texts, streaming_debounce, record_events, stream, patch, on_progress,
}

-- n, n - 1, ..., 1
abbrev pub down : ℕ → List ℕ
down zero = []
down (suc n) = suc n ∷ down n

-- An update that no tool has forced comes at least the debounce time after the one before it.
abbrev pub Spaced : List Update → Type 0
Spaced [] = Unit
Spaced (u ∷ []) = Unit
Spaced (u ∷ v ∷ rest) = (u.forced ≡ false → v.at + streaming_debounce ≤ u.at) × Spaced (v ∷ rest)

pub record IsOrdered (p : Shown) : Type 0 where
  pub sequences : map (λ u. u.sequence) p.updates ≡ down p.sequence
  pub spaced : Spaced p.updates
  pub newest :
      (u : Update) (rest : List Update) → p.updates ≡ u ∷ rest → u.at ≡ p.last_streaming_update

Spaced-next :
    (u : Update) (us : List Update) (last : ℕ)
    → Spaced us
    → ((v : Update) (rest : List Update) → us ≡ v ∷ rest → v.at ≡ last)
    → (u.forced ≡ false → last + streaming_debounce ≤ u.at)
    → Spaced (u ∷ us)
Spaced-next u [] last spaced newest late = tt
Spaced-next u (v ∷ rest) last spaced newest late =
    (λ e. let same = newest v rest refl in let l = late e in omega arith, spaced)

-- What an update makes of the card.
abbrev sent : ℕ → List Element → Bool → RunProgressCard → Shown → Shown
sent now elements forced card p = record p {
  run_card = card;
  sequence = suc p.sequence;
  last_streaming_update = now;
  updates =
      record { sequence = suc p.sequence; elements = elements; at = now; forced = forced }
      ∷ p.updates;
}

sent-IsOrdered :
    (now : ℕ) (elements : List Element) (forced : Bool) (card : RunProgressCard) (p : Shown)
    → IsOrdered p
    → (forced ≡ false → p.last_streaming_update + streaming_debounce ≤ now)
    → IsOrdered (sent now elements forced card p)
sent-IsOrdered now elements forced card p v late =
    let u : Update = record {
      sequence = suc p.sequence;
      elements = elements;
      at = now;
      forced = forced;
    } in
    record {
      sequences = ground (arith, v.sequences);
      spaced = Spaced-next u p.updates p.last_streaming_update v.spaced v.newest late;
      newest = λ w rest e. ground arith;
    }

stream-IsOrdered :
    (t : Texts) (now : ℕ) (delta tool_name : String) (p : Shown)
    → IsOrdered p
    → IsOrdered (stream t now delta tool_name p)
unfolding stream
stream-IsOrdered t now delta tool_name p v =
    let elapsed_s = (now - p.task_start) / 1000 in
    let card = record_events t elapsed_s delta tool_name p.run_card in
    let kept : IsOrdered (record p { run_card = card }) = record {
      sequences = v.sequences;
      spaced = v.spaced;
      newest = v.newest;
    } in
    elim (Bool-cases (tool_name == "" && ltb (now - p.last_streaming_update) streaming_debounce)) [
      | inl soon ↦
          let same : record p { run_card = card } ≡ stream t now delta tool_name p = ground arith in
          subst IsOrdered same kept
      | inr late ↦ elim (Bool-cases (delta == "" && tool_name == "")) [
        | inl nothing ↦
            let same : record p { run_card = card } ≡ stream t now delta tool_name p =
              ground arith in
            subst IsOrdered same kept
        | inr something ↦
            let forced = not (tool_name == "") in
            let elements = render_elements elapsed_s card in
            let same : sent now elements forced card p ≡ stream t now delta tool_name p =
              ground arith in
            subst IsOrdered same (sent-IsOrdered now elements forced card p v (λ e. ground arith))
      ]
    ]

on_progress-IsOrdered :
    (t : Texts) (now : ℕ) (delta tool_name : String) (p : Shown)
    → IsOrdered p
    → IsOrdered (on_progress t now delta tool_name p)
unfolding on_progress patch
on_progress-IsOrdered t now delta tool_name p v =
    let q : Shown = record p { buffer = append p.buffer delta } in
    let kept : IsOrdered q = record {
      sequences = v.sequences;
      spaced = v.spaced;
      newest = v.newest;
    } in
    elim (Bool-cases p.streaming) [
      | inl streams ↦
          let same : stream t now delta tool_name q ≡ on_progress t now delta tool_name p =
            ground arith in
          subst IsOrdered same (stream-IsOrdered t now delta tool_name q kept)
      | inr patches ↦
          let same : patch now tool_name q ≡ on_progress t now delta tool_name p = ground arith in
          subst IsOrdered same (record {
            sequences = ground (arith, v.sequences);
            spaced = unchanged q (patch now tool_name q) (ground arith) kept.spaced;
            newest = λ u rest e. ground (arith, v.newest u rest);
          })
    ]
  where
    unchanged : (a b : Shown) → a.updates ≡ b.updates → Spaced a.updates → Spaced b.updates
    unchanged a b same h = subst Spaced same h

-- The time, the text and the tool's name of each call.
abbrev pub run : Texts → List (ℕ × String × String) → Shown → Shown
run t [] p = p
run t ((now, delta, tool_name) ∷ rest) p = run t rest (on_progress t now delta tool_name p)

-- Through any progress of a task, the updates of its card have the numbers 1, 2, 3 and so on, none of
-- them twice and none left out, and an update that no tool has forced comes at least 200 ms after the
-- one before it.
run-IsOrdered :
    (t : Texts) (calls : List (ℕ × String × String)) (p : Shown)
    → IsOrdered p
    → IsOrdered (run t calls p)
run-IsOrdered t [] p v = v
run-IsOrdered t ((now, delta, tool_name) ∷ rest) p v =
    run-IsOrdered t rest (on_progress t now delta tool_name p)
      (on_progress-IsOrdered t now delta tool_name p v)
