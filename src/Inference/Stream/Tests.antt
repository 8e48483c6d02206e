-- ===== src/Inference/Stream/Tests.antt =====
-- The theorems on streams at a concrete stream.
use mehoy_malloy_ai_runtime.Common.Text.{Text}
use mehoy_malloy_ai_runtime.Cancel.{user, cancelling, new_handle}
use mehoy_malloy_ai_runtime.Inference.Generation.{FinishReason}
use mehoy_malloy_ai_runtime.Inference.Stream.{
  GenerationSink, generation_stream, collect, Ending, ends_complete, sends,
}
use mehoy_malloy_ai_runtime.Inference.Stream.Delivery.{outcome_of, collect-sends}
use mehoy_malloy_ai_runtime.Common.{◌≡◌, false, none, some, List, [], ◌∷◌}

abbrev pieces : List Text
pieces = (b'h' ∷ []) ∷ [] ∷ (b'i' ∷ []) ∷ []

abbrev stopped : Ending
stopped = ends_complete (record { finish_reason = FinishReason.stop; usage = none })

collect-sends_example :
    let (sink, stream, first) = generation_stream (new_handle 3) in
    (collect (first ∷ sends pieces stopped sink) [] stream).1
    ≡ outcome_of stopped (b'h' ∷ b'i' ∷ [])
collect-sends_example = collect-sends (new_handle 3) pieces stopped

abbrev fresh : GenerationSink
fresh = record {
  handle = record { id = 3; state = cancelling; token = record { signal = some user } };
  finished = false;
}
