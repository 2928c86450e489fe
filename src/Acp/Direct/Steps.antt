-- ===== src/Acp/Direct/Steps.antt =====
-- What acp/direct_runtime.py does with one line.
use mathlib.Core.List.{append-nil}
use next_me.Common.{
  String, Bool, ◌≡◌, refl, sym, ap, ◌∙◌, true, false, ◌&&◌, Option, none, some, List, [], ◌∷◌, ◌++◌,
  ◌==◌, string_comparable, if◌then◌else◌, any, inl, inr, Bool-cases, Option-cases, lookup, insert,
  erase, nat_comparable, if_both, arith,
}
use next_me.Acp.Process.{or_text}
use next_me.Acp.Execution.{Ending, interrupted, returned, timed_out, blocked, failed, joined}
use next_me.Acp.Direct.{
  DirectRuntime, Python, cancel, Inner, text_delta, input_json_delta, block_start, block_stop,
  other_inner, Event, system, stream_event, assistant, tool_use, result, unhandled, Line, oversized,
  unreadable, event, Arrival, Stream, flush_progress, handle_inner, format_tool_call, put_id,
  non_empty, handle_event, on_runtime, ended_by, read_line, is_oversized, take_line,
}
use next_me.Acp.Direct.Events.{
  events_of, texts_of, said, token_of, tokens_of, tokens, or_before, id_after, last_id, is_result,
  pieces, Tells,
}

pieces-append : (xs ys : List (String × String)) → pieces (xs ++ ys) ≡ pieces xs ++ pieces ys
pieces-append [] ys = refl
pieces-append (x ∷ xs) ys = ground (arith, pieces-append xs ys)

flush-pieces :
    (delta tool_name : String) (s : Stream)
    → pieces (flush_progress delta tool_name s).shown ≡ pieces s.shown ++ non_empty (delta ∷ [])
unfolding flush_progress
flush-pieces delta tool_name s = elim (Bool-cases (delta == "" && tool_name == "")) [
  | inl silent ↦ ground (arith, append-nil (pieces s.shown))
  | inr shows ↦ rw (shows, flush_progress) (pieces-append s.shown ((delta, tool_name) ∷ []))
]

-- The fields that the showing of progress leaves, and what it shows.
pub record Shows (texts : List String) (s s' : Stream) : Type 0 where
  accumulated : s'.accumulated ≡ s.accumulated
  pub runtime : s'.runtime ≡ s.runtime
  shown : pieces s'.shown ≡ pieces s.shown ++ texts

flush-Shows :
    (delta tool_name : String) (s : Stream)
    → Shows (non_empty (delta ∷ [])) s (flush_progress delta tool_name s)
flush-Shows delta tool_name s = record {
  accumulated = unfold flush_progress in ground arith;
  runtime = unfold flush_progress in ground arith;
  shown = flush-pieces delta tool_name s;
}

same-Shows : (s : Stream) → Shows [] s s
same-Shows s = record {
  accumulated = refl;
  runtime = refl;
  shown = sym (append-nil (pieces s.shown));
}

pub handle_inner-Shows :
    (py : Python) (inner : Inner) (s : Stream) → Shows (token_of inner) s (handle_inner py inner s)
unfolding handle_inner
handle_inner-Shows py (text_delta text) s = flush-Shows text "" s
handle_inner-Shows py (input_json_delta n part) s = elim (Option-cases (lookup n s.tool_blocks)) [
  | inl none_there ↦ rw (none_there, handle_inner) (same-Shows s)
  | inr (block, there) ↦
      rw (there, handle_inner)
        (record { accumulated = refl; runtime = refl; shown = sym (append-nil (pieces s.shown)) })
]
handle_inner-Shows py (block_start n name) s =
    let f =
      flush-Shows "" (or_text name "tool")
        (record s { tool_blocks = insert n (or_text name "tool", "") s.tool_blocks }) in
    record { accumulated = f.accumulated; runtime = f.runtime; shown = f.shown }
handle_inner-Shows py (block_stop n) s = elim (Option-cases (lookup n s.tool_blocks)) [
  | inl none_there ↦ rw (none_there, handle_inner) (same-Shows s)
  | inr ((name, json), there) ↦
      rw (there, handle_inner)
        (let f =
            flush-Shows "" (format_tool_call py name json)
              (record s { tool_blocks = erase n s.tool_blocks }) in
          record { accumulated = f.accumulated; runtime = f.runtime; shown = f.shown })
]
handle_inner-Shows py other_inner s = same-Shows s

Shows-Tells :
    (e : Event) (s s' : Stream)
    → texts_of e ≡ []
    → id_after s.runtime.actual_id e ≡ s.runtime.actual_id
    → Shows (tokens_of e) s s'
    → Tells (e ∷ []) s s'
Shows-Tells e s s' t i h = record {
  accumulated = h.accumulated ∙ sym (rw t (append-nil s.accumulated));
  actual_id = ap (λ (r : DirectRuntime). r.actual_id) h.runtime ∙ sym i;
  shown = h.shown ∙ ap (λ l. pieces s.shown ++ l) (sym (append-nil (tokens_of e)));
}

put_id_lem :
    (id : String) (s : Stream)
    → ((put_id id s).accumulated ≡ s.accumulated)
      × ((put_id id s).shown ≡ s.shown)
      × ((put_id id s).runtime.actual_id ≡ or_before id s.runtime.actual_id)
put_id_lem id s = ground arith

put_id-Tells :
    (e : Event) (id : String) (s : Stream)
    → texts_of e ≡ []
    → tokens_of e ≡ []
    → id_after s.runtime.actual_id e ≡ or_before id s.runtime.actual_id
    → Tells (e ∷ []) s (put_id id s)
put_id-Tells e id s t k i =
    let (accumulated, shown, actual_id) = put_id_lem id s in
    record {
      accumulated = rw (accumulated, t) (sym (append-nil s.accumulated));
      actual_id = actual_id ∙ sym i;
      shown = rw (shown, k) (sym (append-nil (pieces s.shown)));
    }

-- What one line does: it does not end the loop and is no result, or it is a result that gives the answer, or the
-- ending is no answer.
abbrev pub IsStep : List Event → Stream → Option Ending × Stream → Type 0
IsStep es s (none, s') = Tells es s s' × (any is_result es ≡ false)
IsStep es s (some (returned t), s') =
    Tells es s s'
    × ((id : String) × (text : String) × (es ≡ result id false text ∷ [])
        × (t ≡ or_text text (joined s'.accumulated)))
IsStep es s (some (interrupted t), s') = Unit
IsStep es s (some timed_out, s') = Unit
IsStep es s (some blocked, s') = Unit
IsStep es s (some (failed e), s') = Unit

handle_event-IsStep :
    (py : Python) (e : Event) (s : Stream) → IsStep (e ∷ []) s (handle_event py e s)
unfolding handle_event
handle_event-IsStep py (system id) s = (put_id-Tells (system id) id s refl refl refl, refl)
handle_event-IsStep py (stream_event inner) s = (
  Shows-Tells (stream_event inner) s (handle_inner py inner s) refl refl
      (handle_inner-Shows py inner s),
  refl,
)
handle_event-IsStep py (assistant texts) s = (
  record {
    accumulated = ap (λ l. s.accumulated ++ l) (sym (append-nil (non_empty texts)));
    actual_id = refl;
    shown = sym (append-nil (pieces s.shown));
  },
  refl,
)
handle_event-IsStep py (tool_use name) s = (
  Shows-Tells (tool_use name) s (flush_progress "" (or_text name "tool") s) refl refl
      (flush-Shows "" (or_text name "tool") s),
  refl,
)
handle_event-IsStep py (result id true text) s = tt
handle_event-IsStep py (result id false text) s = (
  put_id-Tells (result id false text) id s refl refl refl,
  (id, text, refl, ap (λ l. or_text text (joined l)) (sym (put_id_lem id s).0)),
)
handle_event-IsStep py unhandled s = (Shows-Tells unhandled s s refl refl (same-Shows s), refl)

pub none-Tells :
    (s s' : Stream)
    → s'.accumulated ≡ s.accumulated
    → s'.runtime.actual_id ≡ s.runtime.actual_id
    → s'.shown ≡ s.shown
    → Tells [] s s'
none-Tells s s' a i h = record {
  accumulated = a ∙ sym (append-nil s.accumulated);
  actual_id = i;
  shown = ap pieces h ∙ sym (append-nil (pieces s.shown));
}

ended_by-IsStep :
    (es : List Event) (exited : Bool) (e : Ending) (s : Stream)
    → ((s' : Stream) → IsStep es s (some e, s'))
    → IsStep es s (ended_by exited e s)
ended_by-IsStep es true e s h = tt
ended_by-IsStep es false e s h = h _

read_line-IsStep :
    (py : Python) (bounded : Bool) (a : Arrival) (s : Stream)
    → IsStep (events_of a.line) s (read_line py bounded a s)
unfolding read_line
read_line-IsStep py bounded a s =
    if_both (IsStep (events_of a.line) s) s.runtime.cancel_flag _ _
      (ended_by-IsStep (events_of a.line) a.exited (interrupted (joined s.accumulated)) s
        (λ s'. tt))
      (if_both (IsStep (events_of a.line) s) (bounded && a.expired) _ _
        (ended_by-IsStep (events_of a.line) a.exited timed_out s (λ s'. tt))
        (elim a.line
          as (λ l. IsStep (events_of l) s (elim l [
            | oversized ↦ (none, s)
            | unreadable ↦ (none, s)
            | event e ↦ handle_event py e s
          ])) [
            | oversized ↦ (none-Tells s s refl refl refl, refl)
            | unreadable ↦ (none-Tells s s refl refl refl, refl)
            | event e ↦ handle_event-IsStep py e s
          ]))

-- The stream is the same but for the process.
record IsSame (s s' : Stream) : Type 0 where
  accumulated : s'.accumulated ≡ s.accumulated
  actual_id : s'.runtime.actual_id ≡ s.runtime.actual_id
  shown : s'.shown ≡ s.shown

cancel-IsSame :
    (cancels : Bool) (s : Stream) → IsSame s (if cancels then on_runtime cancel s else s)
cancel-IsSame false s = record { accumulated = refl; actual_id = refl; shown = refl }
cancel-IsSame true s = record {
  accumulated = refl;
  actual_id = unfold cancel in ground arith;
  shown = refl;
}

Tells-before :
    (es : List Event) (s s' s'' : Stream) → IsSame s s' → Tells es s' s'' → Tells es s s''
Tells-before es s s' s'' h t = record {
  accumulated = t.accumulated ∙ ap (λ l. l ++ said es) h.accumulated;
  actual_id = t.actual_id ∙ ap (λ i. last_id i es) h.actual_id;
  shown = t.shown ∙ ap (λ l. pieces l ++ tokens es) h.shown;
}

IsStep-before :
    (es : List Event) (s s' : Stream) (out : Option Ending × Stream)
    → IsSame s s'
    → IsStep es s' out
    → IsStep es s out
IsStep-before es s s' (none, s'') h (t, r) = (Tells-before es s s' s'' h t, r)
IsStep-before es s s' (some (returned answer), s'') h (t, r) = (Tells-before es s s' s'' h t, r)
IsStep-before es s s' (some (interrupted answer), s'') h t = tt
IsStep-before es s s' (some timed_out, s'') h t = tt
IsStep-before es s s' (some blocked, s'') h t = tt
IsStep-before es s s' (some (failed e), s'') h t = tt

pub take_line-IsStep :
    (py : Python) (bounded : Bool) (a : Arrival) (s : Stream)
    → IsStep (events_of a.line) s (take_line py bounded a s)
unfolding take_line
take_line-IsStep py bounded a s =
    let s' : Stream = (if a.cancels then on_runtime cancel s else s) in
    let same = cancel-IsSame a.cancels s in
    IsStep-before (events_of a.line) s s' _ same
      (too_long a.line (read_line-IsStep py bounded a s'))
  where
    too_long :
        (l : Line)
        → IsStep
            (events_of l)
            (if a.cancels then on_runtime cancel s else s)
            (read_line py bounded a (if a.cancels then on_runtime cancel s else s))
        → IsStep (events_of l) (if a.cancels then on_runtime cancel s else s) (
            if is_oversized l
            then (none, if a.cancels then on_runtime cancel s else s)
            else read_line py bounded a (if a.cancels then on_runtime cancel s else s))
    too_long oversized h = (none-Tells _ _ refl refl refl, refl)
    too_long unreadable h = h
    too_long (event e) h = h
