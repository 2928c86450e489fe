-- ===== src/Progress/Window.antt =====
-- The sliding window of feishu/progress_card.py.
use next_me.Common.{
  ℕ, ◌+◌, ◌≤◌, String, ◌≡◌, true, List, [], ◌∷◌, ◌++◌, arith, ◌==◌, string_comparable, length, any,
  count, count-append, count_of_any, Bool-cases, inl, inr,
}
use Prim.Native.String.{◌++◌ as append}
use next_me.Progress.{
  Event, tool, text, RunProgressCard, is_tool, is_text, pop_events, push, last_is, set_last,
  set_text, add_tool, add_text_chunk,
}

-- What popping leaves: no more than the maximum, all the tools but those that it counts, and no text
-- that was not there.
pop_events_lem :
    (n : ℕ) (es : List Event)
    → (length (pop_events n es).0 ≤ n)
      × (count is_tool es ≡ count is_tool (pop_events n es).0 + (pop_events n es).1)
      × (count is_text (pop_events n es).0 ≤ count is_text es)
unfolding pop_events
pop_events_lem n [] = ground arith
pop_events_lem n (e ∷ rest) = ground (arith, pop_events_lem n rest)

set_last_lem :
    (base name : String) (s : ℕ) (es : List Event)
    → last_is base es ≡ true
    → (length (set_last (tool base name s) es) ≡ length es)
      × (count is_tool (set_last (tool base name s) es) ≡ count is_tool es)
      × (count is_text (set_last (tool base name s) es) ≡ count is_text es)
unfolding last_is set_last
set_last_lem base name s [] e = cc
set_last_lem base name s (tool b m k ∷ []) e = ground arith
set_last_lem base name s (text t ∷ []) e = cc
set_last_lem base name s (f ∷ g ∷ rest) e = ground (arith, set_last_lem base name s (g ∷ rest) e)

set_text_lem :
    (t : String) (es : List Event)
    → (length (set_text (text t) es) ≡ length es)
      × (count is_tool (set_text (text t) es) ≡ count is_tool es)
      × (count is_text (set_text (text t) es) ≡ count is_text es)
unfolding set_text
set_text_lem t [] = ground arith
set_text_lem t (tool b m k ∷ rest) = ground (arith, set_text_lem t rest)
set_text_lem t (text u ∷ rest) = ground arith

-- The window is not longer than the card allows, has one text at most, and the tools in it and those
-- that were left out are all the tools that were counted.
pub record IsValid (c : RunProgressCard) : Type 0 where
  pub short : length c.events ≤ c.max_events
  pub counted : c.tool_count ≡ c.omitted + count is_tool c.events
  pub one_text : count is_text c.events ≤ 1

pub data Call : Type 0 where
  tools : String → ℕ → Call
  chunks : String → Call

module _ (base_of tail_of : String → String) where
  unfoldable pub step : RunProgressCard → Call → RunProgressCard
  step c (tools name s) = add_tool base_of name s c
  step c (chunks delta) = add_text_chunk tail_of delta c

  unfoldable pub run : RunProgressCard → List Call → RunProgressCard
  run c [] = c
  run c (x ∷ xs) = run (step c x) xs

  add_tool-IsValid :
      (name : String) (s : ℕ) (c : RunProgressCard)
      → IsValid c
      → IsValid (add_tool base_of name s c)
  unfolding add_tool push
  add_tool-IsValid name s c v = elim (Bool-cases (last_is (base_of name) c.events)) [
    | inl again ↦ record {
      short = ground (arith, v.short, set_last_lem (base_of name) name s c.events again);
      counted = ground (arith, v.counted, set_last_lem (base_of name) name s c.events again);
      one_text = ground (arith, v.one_text, set_last_lem (base_of name) name s c.events again);
    }
    | inr new ↦
        let es : List Event = c.events ++ tool (base_of name) name s ∷ [] in
        record {
          short = ground (arith, pop_events_lem c.max_events es);
          counted = ground (
            arith,
            v.counted,
            pop_events_lem c.max_events es,
            count-append is_tool c.events (tool (base_of name) name s ∷ []),
          );
          one_text = ground (
            arith,
            v.one_text,
            pop_events_lem c.max_events es,
            count-append is_text c.events (tool (base_of name) name s ∷ []),
          );
        }
  ]

  add_text_chunk-IsValid :
      (delta : String) (c : RunProgressCard) → IsValid c → IsValid (add_text_chunk tail_of delta c)
  unfolding add_text_chunk push
  add_text_chunk-IsValid delta c v = elim (Bool-cases (delta == "")) [
    | inl nothing ↦ record {
      short = ground (arith, v.short);
      counted = ground (arith, v.counted);
      one_text = ground (arith, v.one_text);
    }
    | inr some_text ↦
        let shown : String = tail_of (append c.text_so_far delta) in
        elim (Bool-cases (any is_text c.events)) [
          | inl there ↦ record {
            short = ground (arith, v.short, set_text_lem shown c.events);
            counted = ground (arith, v.counted, set_text_lem shown c.events);
            one_text = ground (arith, v.one_text, set_text_lem shown c.events);
          }
          | inr absent ↦
              let es : List Event = c.events ++ text shown ∷ [] in
              record {
                short = ground (arith, pop_events_lem c.max_events es);
                counted = ground (
                  arith,
                  v.counted,
                  pop_events_lem c.max_events es,
                  count-append is_tool c.events (text shown ∷ []),
                );
                one_text = ground (
                  arith,
                  count_of_any is_text c.events absent,
                  pop_events_lem c.max_events es,
                  count-append is_text c.events (text shown ∷ []),
                );
              }
        ]
  ]

  step-IsValid : (c : RunProgressCard) (x : Call) → IsValid c → IsValid (step c x)
  unfolding step
  step-IsValid c (tools name s) v = add_tool-IsValid name s c v
  step-IsValid c (chunks delta) v = add_text_chunk-IsValid delta c v

  -- Through any tools and texts, the window stays within its size with at most one text in it, and
  -- the tools that it shows and those that it says are left out are all that were counted.
  pub run_window : (c : RunProgressCard) (xs : List Call) → IsValid c → IsValid (run c xs)
  unfolding run
  run_window c [] v = v
  run_window c (x ∷ xs) v = run_window (step c x) xs (step-IsValid c x v)
