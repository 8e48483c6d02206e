-- ===== src/Cancel/Tests.antt =====
-- Runs of cancel.rs, and its theorems at concrete histories.
use mehoy_malloy_ai_runtime.Cancel.{
  user, stream_idle_timeout, running, completed, cancelled, new_handle, completes, cancels, Op,
  marks_running, requests, finishes, times_out, run, all_reported,
}
use mehoy_malloy_ai_runtime.Cancel.History.{expected_report, one_outcome}
use mehoy_malloy_ai_runtime.Common.{◌≡◌, refl, List, [], ◌∷◌}

abbrev race : List Op
race =
    marks_running ∷ requests user ∷ finishes completed completes ∷ finishes cancelled cancels ∷ []

race_completes : (run race (new_handle 7)).state ≡ completed
unfolding run new_handle
race_completes = refl

-- The idle budget cancels the token and leaves the state: a later request finds the cause taken.
idle_then_user :
    (run (marks_running ∷ times_out stream_idle_timeout ∷ requests user ∷ []) (new_handle 7)).state
    ≡ running
unfolding run new_handle
idle_then_user = refl

one_outcome_example :
    all_reported race (new_handle 7) ≡ expected_report (run race (new_handle 7)).state
one_outcome_example = one_outcome 7 race
