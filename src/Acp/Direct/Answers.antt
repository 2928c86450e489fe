-- ===== src/Acp/Direct/Answers.antt =====
-- What a run of acp/direct_runtime.py makes of the lines that arrive.
use mathlib.Core.List.{append_assoc, append-nil}
use next_me.Common.{
  String, Bool, ◌≡◌, refl, sym, ap, ◌∙◌, true, false, Option, none, some, List, [], ◌∷◌, ◌++◌, map,
  flat, string_comparable, any, ◌⊎◌, inl, inr, nat_comparable, arith,
}
use next_me.Acp.Process.{or_text}
use next_me.Acp.Execution.{Ending, interrupted, returned, timed_out, blocked, failed, joined}
use next_me.Acp.Direct.{Python, Event, result, Arrival, Stream, take_line, run}
use next_me.Acp.Direct.Events.{
  events_of, events, texts_of, said, tokens_of, tokens, id_after, last_id, is_result, pieces, Tells,
}
use next_me.Acp.Direct.Steps.{IsStep, none-Tells, take_line-IsStep}

gathered-append :
    {A : Type 0} (f : Event → List A) (xs ys : List Event)
    → flat (map f (xs ++ ys)) ≡ flat (map f xs) ++ flat (map f ys)
gathered-append f [] ys = refl
gathered-append f (x ∷ xs) ys =
    ap (λ l. f x ++ l) (gathered-append f xs ys)
    ∙ sym (append_assoc (f x) (flat (map f xs)) (flat (map f ys)))

last_id-append :
    (before : Option String) (xs ys : List Event)
    → last_id before (xs ++ ys) ≡ last_id (last_id before xs) ys
last_id-append before [] ys = refl
last_id-append before (x ∷ xs) ys = last_id-append (id_after before x) xs ys

Tells-append :
    (xs ys : List Event) (s s' s'' : Stream)
    → Tells xs s s'
    → Tells ys s' s''
    → Tells (xs ++ ys) s s''
Tells-append xs ys s s' s'' f g = record {
  accumulated =
      g.accumulated
      ∙ ap (λ l. l ++ said ys) f.accumulated
      ∙ append_assoc s.accumulated (said xs) (said ys)
      ∙ ap (λ l. s.accumulated ++ l) (sym (gathered-append texts_of xs ys));
  actual_id =
      g.actual_id
      ∙ ap (λ i. last_id i ys) f.actual_id
      ∙ sym (last_id-append s.runtime.actual_id xs ys);
  shown =
      g.shown
      ∙ ap (λ l. l ++ tokens ys) f.shown
      ∙ append_assoc (pieces s.shown) (tokens xs) (tokens ys)
      ∙ ap (λ l. pieces s.shown ++ l) (sym (gathered-append tokens_of xs ys));
}

any-append :
    (xs ys : List Event)
    → any is_result xs ≡ false
    → any is_result ys ≡ false
    → any is_result (xs ++ ys) ≡ false
any-append [] ys h k = k
any-append (x ∷ xs) ys h k = ground (arith, any-append xs ys)

-- The text comes from what was taken: there was no result and the output has ended, or a result was the last event.
pub record Answered (closed : Bool) (arrivals : List Arrival) (s : Stream) (answer : String)
    (out : Stream) : Type 0 where
  pub used : List Arrival
  pub later : List Arrival
  pub split : arrivals ≡ used ++ later
  pub tells : Tells (events used) s out
  pub source :
      ((closed ≡ true)
        × (later ≡ [])
        × (any is_result (events used) ≡ false)
        × (answer ≡ joined out.accumulated))
      ⊎ ((front : List Event) × (id : String) × (text : String) × (events used
            ≡ front ++ result id false text ∷ [])
          × (any is_result front ≡ false)
          × (answer ≡ or_text text (joined out.accumulated)))

abbrev Outcome : Bool → List Arrival → Stream → Option Ending × Stream → Type 0
Outcome closed arrivals s (some (returned answer), out) = Answered closed arrivals s answer out
Outcome closed arrivals s (some (interrupted _), out) = Unit
Outcome closed arrivals s (some timed_out, out) = Unit
Outcome closed arrivals s (some blocked, out) = Unit
Outcome closed arrivals s (some (failed _), out) = Unit
Outcome closed arrivals s (none, out) = Unit

-- A line that does not end the loop goes in front of the rest.
later-Outcome :
    (closed : Bool) (a : Arrival) (later : List Arrival) (s s' : Stream)
    (out : Option Ending × Stream)
    → IsStep (events_of a.line) s (none, s')
    → Outcome closed later s' out
    → Outcome closed (a ∷ later) s out
later-Outcome closed a later s s' (some (returned answer), out) (t, r) h = record {
  used = a ∷ h.used;
  later = h.later;
  split = ap (λ l. a ∷ l) h.split;
  tells = Tells-append (events_of a.line) (events h.used) s s' out t h.tells;
  source = elim h.source [
    | inl (c, l, n, e) ↦ inl (c, l, any-append (events_of a.line) (events h.used) r n, e)
    | inr (front, id, text, e, n, x) ↦ inr (
      events_of a.line ++ front,
      id,
      text,
      ap (λ l. events_of a.line ++ l) e
          ∙ sym (append_assoc (events_of a.line) front (result id false text ∷ [])),
      any-append (events_of a.line) front r n,
      x,
    )
  ];
}
later-Outcome closed a later s s' (some (interrupted _), out) t h = tt
later-Outcome closed a later s s' (some timed_out, out) t h = tt
later-Outcome closed a later s s' (some blocked, out) t h = tt
later-Outcome closed a later s s' (some (failed _), out) t h = tt
later-Outcome closed a later s s' (none, out) t h = tt

ended-Outcome :
    (closed : Bool) (a : Arrival) (later : List Arrival) (s : Stream) (e : Ending) (out : Stream)
    → IsStep (events_of a.line) s (some e, out)
    → Outcome closed (a ∷ later) s (some e, out)
ended-Outcome closed a later s (returned answer) out (t, (id, text, is_last, e)) = record {
  used = a ∷ [];
  later = later;
  split = refl;
  tells = rw (append-nil (events_of a.line)) t;
  source = inr ([], id, text, append-nil (events_of a.line) ∙ is_last, refl, e);
}
ended-Outcome closed a later s (interrupted _) out h = tt
ended-Outcome closed a later s timed_out out h = tt
ended-Outcome closed a later s blocked out h = tt
ended-Outcome closed a later s (failed _) out h = tt

next-Outcome :
    (py : Python) (bounded closed : Bool) (a : Arrival) (later : List Arrival) (s : Stream)
    (ended : Option Ending) (s' : Stream)
    → IsStep (events_of a.line) s (ended, s')
    → Outcome closed later s' (run py bounded closed later s')
    → Outcome closed
        (a ∷ later)
        s
        (elim ended [ some e ↦ (some e, s') | none ↦ run py bounded closed later s' ])
next-Outcome py bounded closed a later s none s' step rest =
    later-Outcome closed a later s s' (run py bounded closed later s') step rest
next-Outcome py bounded closed a later s (some e) s' step rest =
    ended-Outcome closed a later s e s' step

run-Outcome :
    (py : Python) (bounded closed : Bool) (arrivals : List Arrival) (s : Stream)
    → Outcome closed arrivals s (run py bounded closed arrivals s)
unfolding run
run-Outcome py bounded true [] s = record {
  used = [];
  later = [];
  split = refl;
  tells = none-Tells s s refl refl refl;
  source = inl (refl, refl, refl, refl);
}
run-Outcome py bounded false [] s = tt
run-Outcome py bounded closed (a ∷ later) s =
    next-Outcome py bounded closed a later s (take_line py bounded a s).0
      (take_line py bounded a s).1 (take_line-IsStep py bounded a s)
      (run-Outcome py bounded closed later (take_line py bounded a s).1)

-- If a run of a prompt gives an answer, it has taken lines up to a result that is no error, or all of them where the
-- output ends without one; the answer is the text of that result, or, where it has none, the texts of the messages
-- taken, in order; the pieces shown on the way are the pieces among those lines, each once and in order; and the
-- session that is resumed next is the last one that a line has named.
pub run-Answered :
    (py : Python) (bounded closed : Bool) (arrivals : List Arrival) (s out : Stream)
    (answer : String)
    → run py bounded closed arrivals s ≡ (some (returned answer), out)
    → Answered closed arrivals s answer out
run-Answered py bounded closed arrivals s out answer e =
    rw e at (run-Outcome py bounded closed arrivals s)
