-- ===== src/Inference/Embedding/Tests.antt =====
-- Validation at concrete responses.
use mehoy_malloy_ai_runtime.Inference.Float.{is_finite}
use mehoy_malloy_ai_runtime.Inference.Embedding.{
  EmbedRequest, Embedding, EmbeddingResult, unattributable_index, inconsistent_dimension, check_one,
  check_each, dimension, validate,
}
use mehoy_malloy_ai_runtime.Inference.Embedding.Validation.{
  IsUsable, validate-IsUsable, validate_complete,
}
use mehoy_malloy_ai_runtime.Common.{ℕ, ◌≡◌, refl, [], ◌∷◌, arith, ok, err}

abbrev two_inputs : EmbedRequest
two_inputs = record { inputs = (b'a' ∷ []) ∷ (b'b' ∷ []) ∷ [] }

abbrev one_at : ℕ → Embedding
one_at i = record { index = i; vector = 0x3f80_0000 ∷ 0 ∷ [] }

abbrev swapped : EmbeddingResult
swapped = record { embeddings = one_at 1 ∷ one_at 0 ∷ [] }

swapped_lem : validate two_inputs swapped ≡ ok tt
unfolding validate check_each check_one dimension is_finite
swapped_lem = refl

duplicate_refused :
    validate two_inputs (record { embeddings = one_at 1 ∷ one_at 1 ∷ [] })
    ≡ err (unattributable_index 1)
unfolding validate check_each check_one dimension is_finite
duplicate_refused = refl

-- A request with no input is refused also with no embedding in the response.
no_input_refused :
    validate (record { inputs = [] }) (record { embeddings = [] }) ≡ err inconsistent_dimension
unfolding validate check_each dimension
no_input_refused = refl

validate-IsUsable_example : IsUsable two_inputs swapped
validate-IsUsable_example = validate-IsUsable two_inputs swapped swapped_lem

validate_complete_example : validate two_inputs swapped ≡ ok tt
unfolding is_finite
validate_complete_example =
    validate_complete 2 two_inputs swapped (omega arith) refl
      (omega arith, (λ e. omega arith, tt), (omega arith, tt, tt))
      ((refl, refl), ((refl, refl), tt)) (refl, (refl, tt))
