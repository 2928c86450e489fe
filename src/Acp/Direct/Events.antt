-- ===== src/Acp/Direct/Events.antt =====
-- What the lines that acp/direct_runtime.py reads say, in order.
use next_me.Common.{
  String, Bool, ◌≡◌, true, false, Option, some, List, [], ◌∷◌, ◌++◌, map, flat, ◌==◌,
  string_comparable, if◌then◌else◌, nat_comparable,
}
use next_me.Acp.Direct.{
  Inner, text_delta, input_json_delta, block_start, block_stop, other_inner, Event, system,
  stream_event, assistant, tool_use, result, unhandled, Line, oversized, unreadable, event, Arrival,
  Stream, non_empty,
}

abbrev pub events_of : Line → List Event
events_of oversized = []
events_of unreadable = []
events_of (event e) = e ∷ []

abbrev pub events : List Arrival → List Event
events arrivals = flat (map (λ (a : Arrival). events_of a.line) arrivals)

-- The texts of the answer.
abbrev pub texts_of : Event → List String
texts_of (assistant texts) = non_empty texts
texts_of (system _) = []
texts_of (stream_event _) = []
texts_of (tool_use _) = []
texts_of (result _ _ _) = []
texts_of unhandled = []

abbrev pub said : List Event → List String
said es = flat (map texts_of es)

abbrev pub token_of : Inner → List String
token_of (text_delta text) = non_empty (text ∷ [])
token_of (input_json_delta _ _) = []
token_of (block_start _ _) = []
token_of (block_stop _) = []
token_of other_inner = []

abbrev pub tokens_of : Event → List String
tokens_of (stream_event inner) = token_of inner
tokens_of (assistant _) = []
tokens_of (system _) = []
tokens_of (tool_use _) = []
tokens_of (result _ _ _) = []
tokens_of unhandled = []

-- The pieces of the text while it is written.
abbrev pub tokens : List Event → List String
tokens es = flat (map tokens_of es)

abbrev pub or_before : String → Option String → Option String
or_before id before = if id == "" then before else some id

abbrev pub id_after : Option String → Event → Option String
id_after before (system id) = or_before id before
id_after before (result id _ _) = or_before id before
id_after before (assistant _) = before
id_after before (stream_event _) = before
id_after before (tool_use _) = before
id_after before unhandled = before

-- The last id that an event gives.
abbrev pub last_id : Option String → List Event → Option String
last_id before [] = before
last_id before (e ∷ es) = last_id (id_after before e) es

abbrev pub is_result : Event → Bool
is_result (result _ _ _) = true
is_result (system _) = false
is_result (assistant _) = false
is_result (stream_event _) = false
is_result (tool_use _) = false
is_result unhandled = false

abbrev pub pieces : List (String × String) → List String
pieces shown = non_empty (map (λ (call : String × String). call.0) shown)

-- The events have been taken: their texts are kept, their pieces shown, and their ids remembered.
pub record Tells (es : List Event) (s s' : Stream) : Type 0 where
  pub accumulated : s'.accumulated ≡ s.accumulated ++ said es
  pub actual_id : s'.runtime.actual_id ≡ last_id s.runtime.actual_id es
  pub shown : pieces s'.shown ≡ pieces s.shown ++ tokens es
