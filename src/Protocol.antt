-- ===== src/Protocol.antt =====
-- crates/mehoy-protocol/src/lib.rs: what the daemon and its clients say to each other. JSON is what
-- serde makes of these values.
use mehoy_malloy_ai_runtime.Common.{ℕ, Bool, ◌&&◌, [], ◌∷◌, leb, ◌==◌}
use mehoy_malloy_ai_runtime.Common.Text.{Text}

pub record ProtocolVersion : Type 0 where
  pub major : ℕ
  pub minor : ℕ

abbrev pub current : ProtocolVersion
current = record { major = 1; minor = 0 }

-- Whether a client of the first version can talk to a daemon of the second.
unfoldable pub is_compatible_with : ProtocolVersion → ProtocolVersion → Bool
is_compatible_with client daemon = client.major == daemon.major && leb client.minor daemon.minor

pub record RuntimeIdentity : Type 0 where
  pub name : Text
  pub version : Text

pub record RuntimeInfo : Type 0 where
  pub protocol : ProtocolVersion
  pub runtime : RuntimeIdentity

pub data HealthStatus : Type 0 where
  healthy shutting_down : HealthStatus

pub record Health : Type 0 where
  pub status : HealthStatus

-- `ErrorBody`, which holds an `ErrorDetail`.
pub record ErrorBody : Type 0 where
  pub code : Text
  pub message : Text

-- `/health`
abbrev pub path_health : Text
path_health = b'/' ∷ b'h' ∷ b'e' ∷ b'a' ∷ b'l' ∷ b't' ∷ b'h' ∷ []

-- `/v1/runtime`
abbrev pub path_runtime : Text
path_runtime = b'/' ∷ b'v' ∷ b'1' ∷ b'/' ∷ b'r' ∷ b'u' ∷ b'n' ∷ b't' ∷ b'i' ∷ b'm' ∷ b'e' ∷ []
