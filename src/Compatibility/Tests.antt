-- ===== src/Compatibility/Tests.antt =====
-- The theorems on compatibility at concrete descriptors.
use mehoy_malloy_ai_runtime.Common.Text.{text_eq, contains, starts_with}
use mehoy_malloy_ai_runtime.Capability.{bert}
use mehoy_malloy_ai_runtime.Compatibility.{
  ModelDescriptor, embedding, launch_mode, clip, assess, permits_start,
}
use mehoy_malloy_ai_runtime.Common.{◌≡◌, refl, false, none, some, ◌∷◌}

abbrev projector : ModelDescriptor
projector = record {
  architecture = some clip;
  context_length = none;
  embedding_length = none;
  tokenizer_model = none;
  has_chat_template = false;
}

abbrev embedder : ModelDescriptor
embedder = record projector { architecture = some (b'n' ∷ bert) }

embedder_mode : launch_mode embedder ≡ embedding
unfolding launch_mode contains starts_with
embedder_mode = refl

projector_refused : permits_start (assess projector) ≡ false
unfolding permits_start assess text_eq
projector_refused = refl
