-- ===== src/Progress/Tests.antt =====
-- Runs of the progress card, and its theorem at a concrete input.
use next_me.Common.{◌≡◌, refl, List, [], ◌∷◌, arith, string_comparable}
use next_me.Progress.{
  RunProgressCard, new_card, add_tool, add_text_chunk, push, pop_events, last_is, set_last,
  set_text,
}
use next_me.Progress.Window.{IsValid, Call, tools, chunks, step, run, run_window}

-- Two events at most.
abbrev card : RunProgressCard
unfolding new_card
card = new_card 2

abbrev calls : List Call
calls = tools "Bash" 1 ∷ chunks "Looking" ∷ tools "Read" 2 ∷ tools "Bash" 3 ∷ []

run_window_example : IsValid (run (λ name. name) (λ text. text) card calls)
unfolding new_card
run_window_example =
    run_window (λ name. name) (λ text. text) card calls
      (record { short = omega arith; counted = refl; one_text = omega arith })

-- The first tool is left out, and the text, which nothing counts.
one_omitted : (run (λ name. name) (λ text. text) card calls).omitted ≡ 1
unfolding run step add_tool add_text_chunk push pop_events last_is set_last set_text new_card
one_omitted = refl
