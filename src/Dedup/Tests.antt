-- ===== src/Dedup/Tests.antt =====
-- Runs of the duplicate check, and its theorems at concrete inputs.
use next_me.Common.{◌≡◌, refl, true, false, List, [], ◌∷◌, arith, none, lookup, insert, erase}
use next_me.Dedup.{MessageDedup, init, is_duplicate}
use next_me.Dedup.History.{Arrival, answers, expected, answers-init}

-- room for two ids, for 10 ticks
abbrev cached : MessageDedup
cached = record { capacity = 2; ttl = 10; cache = ("a", 1) ∷ ("b", 5) ∷ [] }

-- The third id pushes the oldest out, and `a` is then new again.
forgets_oldest :
    answers (init 2 10) ((1, 1, "a") ∷ (2, 2, "b") ∷ (3, 3, "c") ∷ (4, 4, "a") ∷ [])
    ≡ false ∷ false ∷ false ∷ false ∷ []
unfolding answers init is_duplicate lookup insert erase
forgets_oldest = refl

abbrev arrivals : List Arrival
arrivals = (1, 1, "a") ∷ (4, 5, "a") ∷ (14, 15, "a") ∷ (30, 31, "a") ∷ []

answers-init_example : answers (init 4 10) arrivals ≡ expected 10 (λ _. none) arrivals
answers-init_example = answers-init 4 10 arrivals (omega arith) (omega arith)

answers_as_expected : expected 10 (λ _. none) arrivals ≡ false ∷ true ∷ true ∷ false ∷ []
unfolding expected
answers_as_expected = refl
