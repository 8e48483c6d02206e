-- ===== src/Loader/Tests.antt =====
-- Runs of a loaded model, and the theorems about it at concrete models. Workers and backends are
-- numbers here.
use mehoy_malloy_ai_runtime.Common.{
  ℕ, ◌*◌, ◌≡◌, refl, ◌⊎◌, Option, none, some, List, [], ◌∷◌, ◌++◌, arith, ◌==◌, if◌then◌else◌,
  Result, ok, err, get_elem?, lookup,
}
use mehoy_malloy_ai_runtime.Common.Text.{Text}
use mehoy_malloy_ai_runtime.Capability.{embeddings}
use mehoy_malloy_ai_runtime.Instance.{backend_ready, verify_instance}
use mehoy_malloy_ai_runtime.Cancel.{
  running, completed, new_handle, marks_running, finishes, completes, times_out,
  stream_idle_timeout,
}
use mehoy_malloy_ai_runtime.Inference.Embedding.{
  EmbedRequest, EmbeddingResult, ResultDefect, validate,
}
use mehoy_malloy_ai_runtime.Loader.Model.{
  serving, unloading, not_serving, LoadedModel, active_requests, admit,
}
use mehoy_malloy_ai_runtime.Loader.Requests.{
  ready, Between, cancel_handle, cause_of, verify_embeddings,
}
use mehoy_malloy_ai_runtime.Loader.Unloading.{
  proceeds, Surroundings, begin_unload, cancel_outstanding,
}
use mehoy_malloy_ai_runtime.Loader.Ownership.{
  System, Event, begins, acts, unload_begins, phase_of, IsOwned, run-IsOwned, unload_proceeds,
  admission_closed,
}
use mehoy_malloy_ai_runtime.Loader.Ownership
use mehoy_malloy_ai_runtime.Loader.Stopping.{AreStopping, unload_stops_all}
use mehoy_malloy_ai_runtime.Loader.Admission.{admit_retains}
use mehoy_malloy_ai_runtime.Loader.Answers.{
  Tells, at_second_look, cancel_handle_tells, verify_embeddings_lem,
}

abbrev loaded : LoadedModel ℕ ℕ
loaded = record {
  instance_data = record {
    id = 1;
    artifact_id = 2;
    backend = some 3;
    state = backend_ready;
    capabilities = record { entries = [] };
  };
  identity = some 3;
  next_request = 7;
  lifecycle = record { phase = serving; active = (6, 0) ∷ []; worker = some 9 };
  handles = record { id = 6; state = running; token = record { signal = none } } ∷ [];
}

abbrev idle : System ℕ ℕ
idle = record { model = loaded; holder = none }

abbrev two_requests : List Event
two_requests = begins ∷ acts 1 marks_running ∷ []

idle-IsOwned : IsOwned 9 idle
idle-IsOwned = (refl, refl)

run-IsOwned_example : IsOwned 9 (Ownership.run (two_requests ++ unload_begins ∷ []) idle)
run-IsOwned_example = run-IsOwned 9 (two_requests ++ unload_begins ∷ []) idle idle-IsOwned

abbrev later : System ℕ ℕ
later = Ownership.run two_requests idle

abbrev torn : System ℕ ℕ
torn = record {
  model = record loaded {
    lifecycle = record { phase = unloading; active = (6, 0) ∷ []; worker = none };
  };
  holder = some (9, 0 ∷ []);
}

admission_closed_example : admit (Ownership.run two_requests torn).model ≡ (
  (Ownership.run two_requests torn).model,
  err (not_serving (Ownership.run two_requests torn).model.lifecycle.phase),
)
admission_closed_example = admission_closed two_requests torn refl

unload_stops_all_example :
    (m1 : LoadedModel ℕ ℕ) × (ats : List ℕ) × (begin_unload loaded ≡ (m1, proceeds 9 ats))
    × (m1.lifecycle.phase ≡ unloading)
    × AreStopping (cancel_outstanding ats m1).handles loaded.lifecycle.active
unload_stops_all_example = unload_stops_all 9 loaded refl refl

-- The request of the model ends in the second round.
abbrev quiet : Surroundings
quiet = record {
  now = λ n. 20 * n;
  during = λ n. if n == 1 then (0, finishes completed completes) ∷ [] else [];
}

abbrev refuses_to_stop : ℕ → Result (Unit {0}) Text
refuses_to_stop w = err (116 ∷ [])

-- The request ends between the second look at its state and the read of its cause.
abbrev ended_late : Between
ended_late = record {
  before = times_out stream_idle_timeout ∷ [];
  meanwhile = [];
  after = marks_running ∷ [];
  last = finishes completed completes ∷ [];
}

cancel_handle_tells_example :
    let r = cancel_handle ended_late (new_handle 4) in
    Tells (at_second_look ended_late (new_handle 4)) r.1 r.0
cancel_handle_tells_example = cancel_handle_tells ended_late (new_handle 4)

abbrev accepts : ℕ → Result (Unit {0}) Text
accepts r = if r == 5 then ok tt else err []

abbrev five_sent : Option (Result ℕ Text)
five_sent = some (ok 5)

abbrev one_input : EmbedRequest
one_input = record { inputs = (104 ∷ []) ∷ [] }

abbrev one_embedding : EmbeddingResult
one_embedding = record { embeddings = record { index = 0; vector = 0 ∷ 1 ∷ [] } ∷ [] }

abbrev embedding_sent : Option (Result EmbeddingResult Text)
embedding_sent = some (ok one_embedding)

abbrev worded : ResultDefect → Text
worded d = []

verify_embeddings_lem_example :
    let after = verify_embeddings 50 worded one_input 0 embedding_sent loaded in
    (after.0.instance_data ≡ loaded.instance_data)
    ⊎ ((r : EmbeddingResult) × (after.1 ≡ ready (ok r))
        × (embedding_sent ≡ some (ok r))
        × (cause_of (get_elem? loaded.handles 0) ≡ none)
        × (validate one_input r ≡ ok tt)
        × (after.0.instance_data
            ≡ verify_instance 50 embeddings loaded.identity loaded.instance_data))
verify_embeddings_lem_example = verify_embeddings_lem 50 worded one_input 0 embedding_sent loaded

admit_retains_example :
    (lookup 6 (active_requests loaded).0.lifecycle.active ≡ some 0)
    × (lookup 6 (admit loaded).0.lifecycle.active ≡ some 0)
    × (get_elem? (admit loaded).0.handles 0 ≡ get_elem? loaded.handles 0)
unfolding lookup
admit_retains_example = admit_retains loaded 6 0 refl refl (omega arith)
