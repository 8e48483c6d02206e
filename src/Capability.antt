-- ===== src/Capability.antt =====
-- crates/mehoy-runtime/src/capability.rs: what a model can do and how strongly that is known. The
-- map is keyed by the position of a capability in its declaration, by which the source orders it.
-- The identity of a backend is a parameter, and the instant of a demonstration an argument.
pub mod Evidence
mod Tests
use mehoy_malloy_ai_runtime.Common.{
  ℕ, Bool, true, false, ◌&&◌, Option, none, some, List, [], ◌∷◌, if◌then◌else◌, is_some, lookup,
  insert,
}
use mehoy_malloy_ai_runtime.Common.Text.{Text, contains}

pub data ModelCapability : Type 0 where
  text_generation embeddings vision tool_calling structured_output : ModelCapability

abbrev pub position : ModelCapability → ℕ
position text_generation = 0
position embeddings = 1
position vision = 2
position tool_calling = 3
position structured_output = 4

pub data CapabilityEvidence : Type 0 where
  metadata backend_supported : CapabilityEvidence

pub data CapabilityState (B : Type 0) : Type 0 where
  unknown : CapabilityState B
  indicated : (by : CapabilityEvidence) → CapabilityState B
  verified : (at : ℕ) (backend : Option B) → CapabilityState B

abbrev pub bert : Text
bert = b'b' ∷ b'e' ∷ b'r' ∷ b't' ∷ []

-- `architecture.contains("bert") && embedding_length.is_some()`, for an architecture that is there.
abbrev pub embedding_hint : Option Text → Option ℕ → Bool
embedding_hint none embedding_length = false
embedding_hint (some architecture) embedding_length =
    contains bert architecture && is_some embedding_length

module _ {B : Type 0} where
  abbrev pub is_demonstrated : CapabilityState B → Bool
  is_demonstrated (verified at backend) = true
  is_demonstrated _ = false

  abbrev pub or_unknown : Option (CapabilityState B) → CapabilityState B
  or_unknown none = unknown
  or_unknown (some s) = s

pub record ModelCapabilities (B : Type 0) : Type 0 where
  pub entries : List (ℕ × CapabilityState B)

module _ {B : Type 0} where
  unfoldable pub new_capabilities : ModelCapabilities B
  new_capabilities = record { entries = [] }

  unfoldable pub state : ModelCapability → ModelCapabilities B → CapabilityState B
  state c m = or_unknown (lookup (position c) m.entries)

  unfoldable pub is_verified : ModelCapability → ModelCapabilities B → Bool
  unfolding state
  is_verified c m = is_demonstrated (state c m)

  -- `entry(..).or_insert(Unknown)` puts the key in, also where the entry is then left alone.
  unfoldable pub indicate :
      ModelCapability → CapabilityEvidence → ModelCapabilities B → ModelCapabilities B
  indicate c by m =
      let entry = or_unknown (lookup (position c) m.entries) in
      record m {
        entries =
            insert (position c) (if is_demonstrated entry then entry else indicated by) m.entries;
      }

  unfoldable pub verify : ℕ → ModelCapability → Option B → ModelCapabilities B → ModelCapabilities B
  verify now c backend m = record m {
    entries = insert (position c) (verified now backend) m.entries;
  }

  unfoldable pub indicated_by_metadata : Option Text → Option ℕ → Bool → ModelCapabilities B
  unfolding new_capabilities indicate
  indicated_by_metadata architecture embedding_length has_chat_template =
      let m : ModelCapabilities B = new_capabilities in
      let m' : ModelCapabilities B =
        if has_chat_template then indicate text_generation metadata m else m in
      if embedding_hint architecture embedding_length then indicate embeddings metadata m' else m'

-- What changes the record of an instance's capabilities, in the order of the calls.
pub data Claim (B : Type 0) : Type 0 where
  indicates : ModelCapability → CapabilityEvidence → Claim B
  demonstrates : (now : ℕ) → ModelCapability → Option B → Claim B

module _ {B : Type 0} where
  unfoldable pub apply : Claim B → ModelCapabilities B → ModelCapabilities B
  unfolding indicate verify
  apply (indicates c by) m = indicate c by m
  apply (demonstrates now c backend) m = verify now c backend m

  unfoldable pub run : List (Claim B) → ModelCapabilities B → ModelCapabilities B
  unfolding apply
  run [] m = m
  run (c ∷ cs) m = run cs (apply c m)
