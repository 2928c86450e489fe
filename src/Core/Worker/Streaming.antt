-- ===== src/Core/Worker/Streaming.antt =====
-- core/worker.py: `_on_progress`, which shows the user what the agent does, with the updates of the card
-- whose sending is tried, the newest first. Times are milliseconds of `time.monotonic()`.
pub mod Updates
use Prim.Native.String.{◌++◌ as append}
use next_me.Common.{
  ℕ, suc, ◌-◌, ◌/◌, String, Bool, not, ◌&&◌, List, ◌∷◌, ◌==◌, string_comparable, if◌then◌else◌, ltb,
}
use next_me.Progress.{RunProgressCard, Element, add_tool, add_text_chunk, render_elements}

pub record Update : Type 0 where
  pub sequence : ℕ
  pub elements : List Element
  pub at : ℕ
  -- a tool has been called
  pub forced : Bool

-- A card of the other way: the tool's name, if there is one, the seconds, and the text so far.
pub record Patch : Type 0 where
  pub tool_name : String
  pub seconds : ℕ
  pub content : String

pub record Shown : Type 0 where
  -- `_card_id` is set
  pub streaming : Bool
  -- `settings.streaming_enabled`
  pub streaming_enabled : Bool
  -- `settings.progress_debounce_seconds`, in milliseconds
  pub debounce : ℕ
  pub run_card : RunProgressCard
  -- `_progress_buffer`, joined
  pub buffer : String
  pub sequence : ℕ
  pub task_start : ℕ
  pub last_streaming_update : ℕ
  pub last_progress_update : ℕ
  pub updates : List Update
  pub patches : List Patch

-- `_STREAMING_DEBOUNCE_SECONDS`
abbrev pub streaming_debounce : ℕ
streaming_debounce = 200

-- The texts of the progress card: the base of a tool's name, and the end of a text.
pub record Texts : Type 0 where
  pub base_of : String → String
  pub tail_of : String → String

unfoldable pub record_events : Texts → ℕ → String → String → RunProgressCard → RunProgressCard
record_events t elapsed_s delta tool_name card =
    let card' = if delta == "" then card else add_text_chunk t.tail_of delta card in
    if tool_name == "" then card' else add_tool t.base_of tool_name elapsed_s card'

unfoldable pub stream : Texts → ℕ → String → String → Shown → Shown
unfolding record_events
stream t now delta tool_name p =
    let elapsed_s = (now - p.task_start) / 1000 in
    let card = record_events t elapsed_s delta tool_name p.run_card in
    let q = record p { run_card = card } in
    if tool_name == "" && ltb (now - p.last_streaming_update) streaming_debounce
    then q
    else if delta == "" && tool_name == ""
    then q
    else record q {
      sequence = suc q.sequence;
      last_streaming_update = now;
      updates =
          record {
            sequence = suc q.sequence;
            elements = render_elements elapsed_s card;
            at = now;
            forced = not (tool_name == "");
          }
          ∷ q.updates;
    }

abbrev pub or_thinking : String → String
or_thinking content = if content == "" then "思考中..." else content

unfoldable pub patch : ℕ → String → Shown → Shown
patch now tool_name p =
    if not p.streaming_enabled
    then p
    else if ltb (now - p.last_progress_update) p.debounce && tool_name == ""
    then p
    else if p.buffer == "" && tool_name == ""
    then p
    else record p {
      last_progress_update = now;
      patches =
          record {
            tool_name = tool_name;
            seconds = (now - p.task_start) / 1000;
            content = or_thinking p.buffer;
          }
          ∷ p.patches;
    }

unfoldable pub on_progress : Texts → ℕ → String → String → Shown → Shown
unfolding stream patch
on_progress t now delta tool_name p =
    let q = record p { buffer = append p.buffer delta } in
    if p.streaming then stream t now delta tool_name q else patch now tool_name q
