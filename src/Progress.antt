-- ===== src/Progress.antt =====
-- feishu/progress_card.py: `RunProgressCard`. `base_of` is the tool's name up to its first "(", and
-- `tail_of` the text as the card shows it, its last 120 characters at most.
pub mod Window
pub mod Tests
use Prim.Native.String.{◌++◌ as append}
use next_me.Common.{
  ℕ, suc, ◌+◌, ◌/◌, ◌%◌, String, Bool, true, false, List, [], ◌∷◌, ◌++◌, map, ◌==◌, nat_comparable,
  string_comparable, if◌then◌else◌, ltb, length, any,
}

-- A tool's entry with its base name, its name and the seconds that are shown, or the text.
pub data Event : Type 0 where
  tool : String → String → ℕ → Event
  text : String → Event

pub record RunProgressCard : Type 0 where
  pub events : List Event
  pub omitted : ℕ
  pub tool_count : ℕ
  pub max_events : ℕ
  -- all text so far
  pub text_so_far : String

-- `max(1, max_events)`
unfoldable pub new_card : ℕ → RunProgressCard
new_card max_events = record {
  events = [];
  omitted = 0;
  tool_count = 0;
  max_events = if max_events == 0 then 1 else max_events;
  text_so_far = "";
}

abbrev pub is_tool : Event → Bool
is_tool (tool base name s) = true
is_tool (text t) = false

abbrev pub is_text : Event → Bool
is_text (tool base name s) = false
is_text (text t) = true

abbrev pub one_if : Bool → ℕ
one_if true = 1
one_if false = 0

-- The loop that pops the oldest events: what is left, and how many tools went.
unfoldable pub pop_events : ℕ → List Event → List Event × ℕ
pop_events max_events [] = ([], 0)
pop_events max_events (e ∷ rest) =
    let popped = pop_events max_events rest in
    if ltb max_events (length (e ∷ rest))
    then (popped.0, one_if (is_tool e) + popped.1)
    else (e ∷ rest, 0)

unfoldable pub push : Event → RunProgressCard → RunProgressCard
unfolding pop_events
push e c =
    let (events, gone) = pop_events c.max_events (c.events ++ e ∷ []) in
    record c { events = events; omitted = c.omitted + gone }

-- Whether the last event is of the tool.
unfoldable pub last_is : String → List Event → Bool
last_is base [] = false
last_is base (tool other name s ∷ []) = other == base
last_is base (text t ∷ []) = false
last_is base (e ∷ f ∷ rest) = last_is base (f ∷ rest)

-- `events[-1] = e`
unfoldable pub set_last : Event → List Event → List Event
set_last e [] = []
set_last e (f ∷ []) = e ∷ []
set_last e (f ∷ g ∷ rest) = f ∷ set_last e (g ∷ rest)

unfoldable pub add_tool : (String → String) → String → ℕ → RunProgressCard → RunProgressCard
unfolding push last_is set_last
add_tool base_of tool_name elapsed_s c =
    let e = tool (base_of tool_name) tool_name elapsed_s in
    if last_is (base_of tool_name) c.events
    then record c { events = set_last e c.events }
    else push e (record c { tool_count = suc c.tool_count })

-- The first text gives way to the new one.
unfoldable pub set_text : Event → List Event → List Event
set_text e [] = []
set_text e (tool base name s ∷ rest) = tool base name s ∷ set_text e rest
set_text e (text t ∷ rest) = e ∷ rest

unfoldable pub add_text_chunk : (String → String) → String → RunProgressCard → RunProgressCard
unfolding push set_text
add_text_chunk tail_of delta c =
    if delta == ""
    then c
    else let so_far = append c.text_so_far delta in
      let e = text (tail_of so_far) in
      let c' = record c { text_so_far = so_far } in
      if any is_text c.events then record c' { events = set_text e c.events } else push e c'

-- "5s", "1m 30s" and "2m"
pub data Elapsed : Type 0 where
  secs mins : ℕ → Elapsed
  mins_secs : ℕ → ℕ → Elapsed

unfoldable pub fmt_elapsed : ℕ → Elapsed
fmt_elapsed seconds =
    if ltb seconds 60
    then secs seconds
    else if seconds % 60 == 0
    then mins (seconds / 60)
    else mins_secs (seconds / 60) (seconds % 60)

pub data Element : Type 0 where
  heading rule : Element
  omitted_note : ℕ → Element
  tool_line : String → Elapsed → Element
  text_line : String → Element
  footer : ℕ → Elapsed → Element

unfoldable pub line_of : Event → Element
unfolding fmt_elapsed
line_of (tool base name s) = tool_line name (fmt_elapsed s)
line_of (text t) = text_line t

-- `elapsed_s` is read from the clock.
unfoldable pub render_elements : ℕ → RunProgressCard → List Element
unfolding fmt_elapsed
render_elements elapsed_s c =
    (heading ∷ (if c.omitted == 0 then [] else omitted_note c.omitted ∷ []))
    ++ rule ∷ (map line_of c.events ++ rule ∷ footer c.tool_count (fmt_elapsed elapsed_s) ∷ [])

pub data Status : Type 0 where
  running finished error cancelled : Status

-- The colour of the header stands for the title beside it, which has the project's name too.
pub data Template : Type 0 where
  blue green red grey : Template

unfoldable pub resolve_header : Status → Template
resolve_header running = blue
resolve_header finished = green
resolve_header error = red
resolve_header cancelled = grey
