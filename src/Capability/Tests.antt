-- ===== src/Capability/Tests.antt =====
-- The theorems on capabilities at concrete records. A backend is a number here.
use mehoy_malloy_ai_runtime.Capability.{
  embeddings, vision, metadata, backend_supported, new_capabilities, is_verified, indicate, verify,
  Claim, indicates, demonstrates, run,
}
use mehoy_malloy_ai_runtime.Common.{ℕ, ◌≡◌, refl, true, some, List, [], ◌∷◌, lookup, insert}

abbrev claims : List (Claim ℕ)
claims =
    demonstrates 3 embeddings (some 7)
    ∷ indicates embeddings backend_supported
    ∷ indicates vision metadata
    ∷ []

demonstration_stays : is_verified embeddings (run claims new_capabilities) ≡ true
unfolding is_verified run new_capabilities lookup indicate verify insert
demonstration_stays = refl
