-- ===== src/Acp/Direct/Tools.antt =====
-- The calls of tools that acp/direct_runtime.py shows while their inputs arrive in pieces.
use Prim.Native.String.{◌++◌ as append_text}
use text.Mathlib.TextLemmas.{
  cons≢nil, cons-append, append_assoc as text_append_assoc, append-nil as text_append-nil,
  nil-append as text_nil-append,
}
use next_me.Common.{
  ℕ, String, Bool, ◌≡◌, refl, sym, ap, ◌∙◌, true, false, ◌||◌, Option, none, some, List, [], ◌∷◌,
  ◌++◌, map, ◌==◌, string_comparable, nat_comparable, if◌then◌else◌, any, if_both, Bool-cases,
  Option-cases, inl, inr, lookup, lookup-insert, lookup-erase, insert, erase, equals_refl, arith,
}
use next_me.Acp.Process.{or_text}
use next_me.Acp.Execution.{Ending, joined}
use next_me.Acp.Direct.{
  DirectRuntime, Python, Inner, text_delta, input_json_delta, block_start, block_stop, other_inner,
  stream_event, event, Arrival, Stream, flush_progress, is_nil, argument, format_tool_call,
  handle_inner, handle_event, read_line, take_line, run,
}
use next_me.Acp.Direct.Steps.{handle_inner-Shows}

-- A line in time, with nothing cancelled.
abbrev pub calm : Inner → Arrival
calm inner = record {
  line = event (stream_event inner);
  cancels = false;
  expired = false;
  exited = false;
}

-- The block with this number starts or stops.
abbrev pub bounds : ℕ → Inner → Bool
bounds n (block_start m _) = m == n
bounds n (block_stop m) = m == n
bounds n (text_delta _) = false
bounds n (input_json_delta _ _) = false
bounds n other_inner = false

-- What is added to the input of that block.
abbrev pub part_of : ℕ → Inner → String
part_of n (input_json_delta m part) = if m == n then part else ""
part_of n (block_start _ _) = ""
part_of n (block_stop _) = ""
part_of n (text_delta _) = ""
part_of n other_inner = ""

abbrev pub input_of : ℕ → List Inner → String
input_of n inners = joined (map (part_of n) inners)

abbrev streamed : Python → List Inner → Stream → Stream
streamed py [] s = s
streamed py (inner ∷ rest) s = streamed py rest (handle_inner py inner s)

take_line-calm :
    (py : Python) (bounded : Bool) (inner : Inner) (s : Stream)
    → s.runtime.cancel_flag ≡ false
    → take_line py bounded (calm inner) s ≡ (none, handle_inner py inner s)
unfolding take_line read_line handle_event
take_line-calm py true inner s c = ground arith
take_line-calm py false inner s c = ground arith

goes_on :
    (py : Python) (bounded : Bool) (later : List Arrival) (out : Option Ending × Stream)
    (s' : Stream)
    → out ≡ (none, s')
    → (elim out.0 [ some e ↦ (some e, out.1) | none ↦ run py bounded false later out.1 ])
      ≡ run py bounded false later s'
goes_on py bounded later out s' e =
    ap
      (λ (o : Option Ending × Stream). elim o.0 as (λ x. Option Ending × Stream) [
        | some f ↦ (some f, o.1)
        | none ↦ run py bounded false later o.1
      ])
      e

run-calm :
    (py : Python) (bounded : Bool) (inners : List Inner) (s : Stream)
    → s.runtime.cancel_flag ≡ false
    → run py bounded false (map calm inners) s ≡ (none, streamed py inners s)
unfolding run
run-calm py bounded [] s c = refl
run-calm py bounded (inner ∷ rest) s c =
    goes_on py bounded (map calm rest) (take_line py bounded (calm inner) s)
      (handle_inner py inner s) (take_line-calm py bounded inner s c)
    ∙ run-calm py bounded rest (handle_inner py inner s)
        (ap (λ (r : DirectRuntime). r.cancel_flag) (handle_inner-Shows py inner s).runtime ∙ c)

flush-blocks :
    (delta tool_name : String) (s : Stream)
    → (flush_progress delta tool_name s).tool_blocks ≡ s.tool_blocks
unfolding flush_progress
flush-blocks delta tool_name s = ground arith

inner-block :
    (py : Python) (n : ℕ) (name json : String) (inner : Inner) (s : Stream)
    → bounds n inner ≡ false
    → lookup n s.tool_blocks ≡ some (name, json)
    → lookup n (handle_inner py inner s).tool_blocks
      ≡ some (name, append_text json (part_of n inner))
unfolding handle_inner
inner-block py n name json (text_delta text) s b e =
    rw (flush-blocks text "" s, text_append-nil json) e
inner-block py n name json (input_json_delta m part) s b e =
    elim (Option-cases (lookup m s.tool_blocks)) [
      | inl absent ↦
          rw (absent, handle_inner)
            (ground (arith, nat_comparable.equals_iff m n, text_append-nil json))
      | inr ((other, before), there) ↦
          rw (there, handle_inner)
            (ground (
              arith,
              nat_comparable.equals_iff m n,
              text_append-nil json,
              lookup-insert m n (other, append_text before part) s.tool_blocks,
            ))
    ]
inner-block py n name json (block_start m other) s b e =
    rw
      (
        flush-blocks "" (or_text other "tool")
            (record s { tool_blocks = insert m (or_text other "tool", "") s.tool_blocks }),
        text_append-nil json,
      )
      (ground (arith, lookup-insert m n (or_text other "tool", "") s.tool_blocks))
inner-block py n name json (block_stop m) s b e = elim (Option-cases (lookup m s.tool_blocks)) [
  | inl absent ↦ rw (absent, handle_inner, text_append-nil json) e
  | inr ((other, before), there) ↦
      rw
        (
          there,
          handle_inner,
          flush-blocks "" (format_tool_call py other before)
              (record s { tool_blocks = erase m s.tool_blocks }),
          text_append-nil json,
        )
        (ground (arith, lookup-erase m n s.tool_blocks))
]
inner-block py n name json other_inner s b e = rw (text_append-nil json) e

streamed-block :
    (py : Python) (n : ℕ) (name json : String) (inners : List Inner) (s : Stream)
    → any (bounds n) inners ≡ false
    → lookup n s.tool_blocks ≡ some (name, json)
    → lookup n (streamed py inners s).tool_blocks
      ≡ some (name, append_text json (input_of n inners))
streamed-block py n name json [] s b e = rw (text_append-nil json) e
streamed-block py n name json (inner ∷ rest) s b e =
    rw (← text_append_assoc json (part_of n inner) (input_of n rest)) (
      streamed-block py n name (append_text json (part_of n inner)) rest (handle_inner py inner s)
        (neither (bounds n inner) _ b).1
        (inner-block py n name json inner s (neither (bounds n inner) _ b).0 e))
  where
    neither : (a b : Bool) → (a || b) ≡ false → (a ≡ false) × (b ≡ false)
    neither a b h = ground arith

streamed-append :
    (py : Python) (xs ys : List Inner) (s : Stream)
    → streamed py (xs ++ ys) s ≡ streamed py ys (streamed py xs s)
streamed-append py [] ys s = refl
streamed-append py (x ∷ xs) ys s = streamed-append py xs ys (handle_inner py x s)

non_empty-append : (x y : String) → (x == "") ≡ false → (append_text x y == "") ≡ false
non_empty-append String.[] y h = ground arith
non_empty-append (String.◌∷◌ c x) y h = elim (Bool-cases (append_text (String.◌∷◌ c x) y == "")) [
  | inr other ↦ other
  | inl nil ↦ absurd (
      cons≢nil (
        sym (cons-append c x y)
        ∙ (string_comparable.equals_iff (append_text (String.◌∷◌ c x) y) "").0 nil))
]

or_text-non_empty : (a b : String) → (b == "") ≡ false → (or_text a b == "") ≡ false
or_text-non_empty a b h = ground arith

format-non_empty :
    (py : Python) (name json : String)
    → (name == "") ≡ false
    → (format_tool_call py name json == "") ≡ false
unfolding format_tool_call
format-non_empty py name json h = elim (Option-cases (py.parse json)) [
  | inl unread ↦ rw (unread, format_tool_call) h
  | inr (args, there) ↦
      rw (there, format_tool_call)
        (if_both (λ (t : String). (t == "") ≡ false) (is_nil args || argument name args == "") _ _ h
          (non_empty-append name _ h))
]

start-block :
    (py : Python) (n : ℕ) (name : String) (s : Stream)
    → lookup n (handle_inner py (block_start n name) s).tool_blocks ≡ some (or_text name "tool", "")
unfolding handle_inner
start-block py n name s =
    rw
      (flush-blocks "" (or_text name "tool")
        (record s { tool_blocks = insert n (or_text name "tool", "") s.tool_blocks }))
      (ground (arith, lookup-insert n n (or_text name "tool", "") s.tool_blocks, equals_refl n))

stop-shows :
    (py : Python) (n : ℕ) (name json : String) (s : Stream)
    → lookup n s.tool_blocks ≡ some (name, json)
    → (name == "") ≡ false
    → (handle_inner py (block_stop n) s).shown ≡ s.shown ++ ("", format_tool_call py name json) ∷ []
unfolding handle_inner
stop-shows py n name json s e h =
    rw (e, handle_inner) (unfold flush_progress in ground (arith, format-non_empty py name json h))

pub tool_call-shown :
    (py : Python) (bounded : Bool) (n : ℕ) (name : String) (inners : List Inner) (s : Stream)
    → s.runtime.cancel_flag ≡ false
    → any (bounds n) inners ≡ false
    → let before = (run py bounded false (map calm (block_start n name ∷ inners)) s).1 in
      let after =
        (run py bounded false (map calm (block_start n name ∷ inners ++ block_stop n ∷ [])) s).1 in
      after.shown
      ≡ before.shown ++ ("", format_tool_call py (or_text name "tool") (input_of n inners)) ∷ []
tool_call-shown py bounded n name inners s c b =
    let start = handle_inner py (block_start n name) s in
    let block =
      rw (text_nil-append (input_of n inners)) at
        (streamed-block py n (or_text name "tool") "" inners start b (start-block py n name s)) in
    rw
      (
        run-calm py bounded (block_start n name ∷ inners) s c,
        run-calm py bounded (block_start n name ∷ inners ++ block_stop n ∷ []) s c,
        streamed-append py inners (block_stop n ∷ []) start,
      )
      (stop-shows py n (or_text name "tool") (input_of n inners) (streamed py inners start) block
        (or_text-non_empty name "tool" refl))
