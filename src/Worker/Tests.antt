-- ===== src/Worker/Tests.antt =====
-- Runs of a worker's log.
use mehoy_malloy_ai_runtime.Common.{
  ℕ, ◌≡◌, refl, false, none, some, List, [], ◌∷◌, ok, err, is_some,
}
use mehoy_malloy_ai_runtime.Worker.{
  starting, failed, can_transition_to, transition_to, stdout, stderr, LogLine, with_capacity,
  record_all, lines_from,
}

abbrev out : ℕ → LogLine
out n = record { stream = stdout; at = n; text = n ∷ [] }

abbrev complaint : LogLine
complaint = record { stream = stderr; at = 9; text = [] }

abbrev three_lines : List LogLine
three_lines = out 1 ∷ complaint ∷ out 2 ∷ []

latest_of_stdout : lines_from stdout (record_all three_lines (with_capacity 2)) ≡ out 2 ∷ []
unfolding lines_from record_all with_capacity
latest_of_stdout = refl

no_way_back :
    is_some (elim (transition_to failed starting) [ ok s ↦ some s | err e ↦ none ]) ≡ false
unfolding transition_to can_transition_to
no_way_back = refl
