-- ===== src/Inference/Generation/Tests.antt =====
-- The theorems on generation at concrete parameters and results.
use mehoy_malloy_ai_runtime.Inference.Generation.{
  GenerationParameters, GenerationResult, length_reached, validate_parameters, temperature_negative,
}
use mehoy_malloy_ai_runtime.Common.{◌≡◌, refl, none, some, [], ◌∷◌, err}
use mehoy_malloy_ai_runtime.Inference.Float.{is_finite, is_negative}

-- 0.75 and -1.0 as bit patterns.
abbrev cool : GenerationParameters
cool = record {
  max_output_tokens = some 64;
  temperature = some 0x3f40_0000;
  seed = none;
  stop = (b'#' ∷ []) ∷ [];
}

negative_refused :
    validate_parameters (record cool { temperature = some 0xbf80_0000 }) ≡ err temperature_negative
unfolding validate_parameters is_finite is_negative
negative_refused = refl

abbrev answer : GenerationResult
answer = record {
  text = b'h' ∷ b'i' ∷ [];
  finish_reason = length_reached;
  usage = some (record { input_tokens = 3; output_tokens = 1 });
}
