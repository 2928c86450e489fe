-- ===== src/Acp/Direct/Tests.antt =====
-- Runs of a prompt, and the theorems about them at concrete inputs.
use next_me.Common.{
  List, map, ◌≡◌, refl, true, false, none, some, [], ◌∷◌, ◌++◌, string_comparable, nat_comparable,
}
use next_me.Acp.Direct.{
  DirectRuntime, Python, text_delta, input_json_delta, block_start, block_stop, Event, system,
  stream_event, assistant, result, event, Arrival, Stream, run, format_tool_call, spawn, fresh,
}
use next_me.Acp.Direct.Answers.{Answered, run-Answered}
use next_me.Acp.Direct.Tools.{calm, tool_call-shown}

abbrev py : Python
py = record { parse = λ json. some (("url", json) ∷ []); len = λ t. 3; first = λ n t. t }

abbrev direct : DirectRuntime
direct = record {
  executor = "claude";
  actual_id = none;
  last_access = 0;
  cancel_flag = false;
  current_proc = none;
  alive = false;
  started = 0;
  terminated = [];
  killed = [];
}

abbrev start : Stream
start = fresh (spawn 5 direct)

abbrev line : Event → Arrival
line e = record { line = event e; cancels = false; expired = false; exited = false }

abbrev lines : List Arrival
lines =
    line (system "sid-1")
    ∷ line (stream_event (text_delta "He"))
    ∷ line (stream_event (text_delta "llo"))
    ∷ line (assistant ("Hello" ∷ []))
    ∷ line (result "sid-2" false "")
    ∷ line (assistant ("late" ∷ []))
    ∷ []

abbrev over : Stream
over = record {
  runtime = record (spawn 5 direct) { actual_id = some "sid-2" };
  accumulated = "Hello" ∷ [];
  tool_blocks = [];
  shown = ("He", "") ∷ ("llo", "") ∷ [];
}

run-Answered_example : Answered false lines start "Hello" over
unfolding run
run-Answered_example = run-Answered py true false lines start over "Hello" refl

tool_call-shown_example :
    (run py true false
      (map calm (
        block_start 1 "Fetch"
        ∷ input_json_delta 1 "a"
        ∷ input_json_delta 2 "b"
        ∷ block_stop 1
        ∷ []))
      start).1.shown
    ≡ (run py true false
        (map calm (block_start 1 "Fetch" ∷ input_json_delta 1 "a" ∷ input_json_delta 2 "b" ∷ []))
        start).1.shown
      ++ ("", format_tool_call py "Fetch" "a") ∷ []
tool_call-shown_example =
    tool_call-shown py true 1 "Fetch" (input_json_delta 1 "a" ∷ input_json_delta 2 "b" ∷ []) start
      refl refl
