-- ===== src/Inference/Embedding.antt =====
-- inference.rs, lines 77 to 269: an embedding request, its result, and the structural validation
-- that a result passes before anyone sees it. A vector's `f32` values are bit patterns.
pub mod Validation
mod Tests
use mehoy_malloy_ai_runtime.Common.Text.{Text}
use mehoy_malloy_ai_runtime.Inference.Float.{is_finite}
use mehoy_malloy_ai_runtime.Common.{
  ℕ, Bool, true, false, ◌&&◌, Option, none, some, List, [], ◌∷◌, ◌==◌, if◌then◌else◌, Result, ok,
  err, ◌>>=◌, is_some, length, get_elem?, set, replicate, is_empty,
}

pub record EmbedRequest : Type 0 where
  pub inputs : List Text

pub record Embedding : Type 0 where
  pub index : ℕ
  pub vector : List ℕ

pub record EmbeddingResult : Type 0 where
  pub embeddings : List Embedding

pub data ResultDefect : Type 0 where
  count_mismatch : (expected actual : ℕ) → ResultDefect
  empty_vector non_finite_value unattributable_index : (index : ℕ) → ResultDefect
  inconsistent_dimension : ResultDefect

abbrev pub dimension_of : Embedding → ℕ
dimension_of e = length e.vector

abbrev pub all_finite : List ℕ → Bool
all_finite [] = true
all_finite (x ∷ xs) = let rest = all_finite xs in is_finite x && rest

-- `EmbeddingResult::for_input`: the first embedding under the index.
unfoldable pub find_index : ℕ → List Embedding → Option Embedding
find_index i [] = none
find_index i (e ∷ es) = if e.index == i then some e else find_index i es

unfoldable pub for_input : EmbeddingResult → ℕ → Option Embedding
unfolding find_index
for_input r i = find_index i r.embeddings

abbrev pub all_of_dimension : ℕ → List Embedding → Bool
all_of_dimension n [] = true
all_of_dimension n (e ∷ es) = let rest = all_of_dimension n es in dimension_of e == n && rest

-- The dimension that the embeddings share; none for an empty list.
unfoldable pub dimension : List Embedding → Option ℕ
dimension [] = none
dimension (e ∷ es) = if all_of_dimension (dimension_of e) es then some (dimension_of e) else none

-- One round of the loop, on the slots seen so far.
unfoldable pub check_one : Embedding → List Bool → Result (List Bool) ResultDefect
check_one e seen = elim (get_elem? seen e.index) [
  | none ↦ err (unattributable_index e.index)
  | some slot ↦
      if slot
      then err (unattributable_index e.index)
      else if is_empty e.vector
      then err (empty_vector e.index)
      else if all_finite e.vector
      then ok (set seen e.index true)
      else err (non_finite_value e.index)
]

unfoldable pub check_each : List Embedding → List Bool → Result (List Bool) ResultDefect
check_each [] seen = ok seen
check_each (e ∷ es) seen = do seen' ← check_one e seen; check_each es seen'

unfoldable pub validate : EmbedRequest → EmbeddingResult → Result (Unit {0}) ResultDefect
validate request result =
    if length result.embeddings == length request.inputs
    then (do
      _ ← check_each result.embeddings (replicate (length request.inputs) false)
      if is_some (dimension result.embeddings) then ok tt else err inconsistent_dimension)
    else err (count_mismatch (length request.inputs) (length result.embeddings))
