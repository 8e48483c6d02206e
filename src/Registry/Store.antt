-- ===== src/Registry/Store.antt =====
-- crates/mehoy-registry/src/store.rs: the registry over its database. The database is SQLite's: it is
-- the interface `Database`, one operation for each statement that the code makes, each with the text
-- of its error, and with what SQLite documents of them. A method that changes the database returns
-- the new one; where it fails, the transaction is rolled back and the old one stays.
use mehoy_malloy_ai_runtime.Common.{
  ℕ, ◌*◌, ◌/◌, String, Option, none, some, [], ◌∷◌, leb, if◌then◌else◌,
}
use mehoy_malloy_ai_runtime.Common.Text.{Text, text_eq}
use mehoy_malloy_ai_runtime.Gguf.{GgufError}
use mehoy_malloy_ai_runtime.Registry.{
  ArtifactFormat, gguf, format_text, format_from_stored, SystemTime, since_epoch, before_epoch,
  DigestAlgorithm, algorithm_from_stored, ArtifactIntegrity, unverified, verified, ModelArtifact,
}

pub data RegistryError : Type 0 where
  not_found : (path : Text) → RegistryError
  not_a_file : (path : Text) (reason : String) → RegistryError
  not_an_artifact : (path : Text) (source : GgufError) → RegistryError
  unknown_artifact : (id : Text) → RegistryError
  storage io : (error : Text) → RegistryError

pub data Registration : Type 0 where
  registered already_registered : ModelArtifact → Registration

-- An integer column of 64 bits, `negsuc n` for `-1 - n`.
pub data ℤ : Type 0 where
  pos negsuc : ℕ → ℤ

abbrev pub i64_max : ℕ
i64_max = 0x7fff_ffff_ffff_ffff

abbrev pub saturated : ℕ → ℕ
saturated n = if leb n i64_max then n else i64_max

abbrev pub to_signed : ℕ → ℤ
to_signed value = pos (saturated value)

abbrev pub from_signed : ℤ → ℕ
from_signed (pos n) = n
from_signed (negsuc n) = 0

abbrev pub nanos_per_second : ℕ
nanos_per_second = 1_000_000_000

abbrev pub to_epoch : SystemTime → ℤ
to_epoch (since_epoch nanos) = pos (saturated (nanos / nanos_per_second))
to_epoch (before_epoch nanos) = pos 0

abbrev pub from_epoch : ℤ → SystemTime
from_epoch seconds = since_epoch (from_signed seconds * nanos_per_second)

abbrev pub to_epoch_nanos : SystemTime → ℤ
to_epoch_nanos (since_epoch nanos) = pos (saturated nanos)
to_epoch_nanos (before_epoch nanos) = pos 0

abbrev pub from_epoch_nanos : ℤ → SystemTime
from_epoch_nanos nanos = since_epoch (from_signed nanos)

abbrev pub mapped {ℓ κ} : {A : Type ℓ} {B : Type κ} → (A → B) → Option A → Option B
mapped f none = none
mapped f (some a) = some (f a)

-- A row of the table `artifacts`.
pub record Row : Type 0 where
  pub id : Text
  pub canonical_path : Text
  pub format : Text
  pub size_bytes : ℤ
  pub container_version : ℕ
  pub tensor_count : ℤ
  pub metadata_count : ℤ
  pub architecture : Option Text
  pub name : Option Text
  pub file_type : Option ℤ
  pub context_length : Option ℤ
  pub embedding_length : Option ℤ
  pub tokenizer_model : Option Text
  pub chat_template : Option Text
  pub registered_at : ℤ
  pub mtime_at_registration : Option ℤ
  pub integrity_state : Text
  pub digest_algorithm : Option Text
  pub digest : Option Text

abbrev pub unverified_word : Text
unverified_word = b'u' ∷ b'n' ∷ b'v' ∷ b'e' ∷ b'r' ∷ b'i' ∷ b'f' ∷ b'i' ∷ b'e' ∷ b'd' ∷ []

abbrev pub verified_word : Text
verified_word = b'v' ∷ b'e' ∷ b'r' ∷ b'i' ∷ b'f' ∷ b'i' ∷ b'e' ∷ b'd' ∷ []

-- The integrity that the last three columns mean.
abbrev pub known_algorithm : Option DigestAlgorithm → Text → ArtifactIntegrity
known_algorithm none digest = unverified
known_algorithm (some algorithm) digest = verified algorithm digest

unfoldable pub integrity_of : Text → Option Text → Option Text → ArtifactIntegrity
unfolding text_eq algorithm_from_stored
integrity_of state (some algorithm) (some digest) =
    if text_eq state verified_word
    then known_algorithm (algorithm_from_stored algorithm) digest
    else unverified
integrity_of state _ _ = unverified

abbrev pub or_gguf : Option ArtifactFormat → ArtifactFormat
or_gguf none = gguf
or_gguf (some format) = format

unfoldable pub row_to_artifact : Row → ModelArtifact
unfolding integrity_of format_from_stored
row_to_artifact row = record {
  id = row.id;
  path = row.canonical_path;
  format = or_gguf (format_from_stored row.format);
  size_bytes = from_signed row.size_bytes;
  metadata = record {
    container_version = row.container_version;
    tensor_count = from_signed row.tensor_count;
    metadata_count = from_signed row.metadata_count;
    architecture = row.architecture;
    name = row.name;
    file_type = mapped from_signed row.file_type;
    context_length = mapped from_signed row.context_length;
    embedding_length = mapped from_signed row.embedding_length;
    tokenizer_model = row.tokenizer_model;
    chat_template = row.chat_template;
  };
  integrity = integrity_of row.integrity_state row.digest_algorithm row.digest;
  fingerprint = record {
    size_bytes = from_signed row.size_bytes;
    modified_at = mapped from_epoch_nanos row.mtime_at_registration;
  };
  registered_at = from_epoch row.registered_at;
}

-- What `insert` writes, given the artifact's path as a text.
unfoldable pub artifact_row : Text → ModelArtifact → Row
artifact_row path a = record {
  id = a.id;
  canonical_path = path;
  format = format_text a.format;
  size_bytes = to_signed a.size_bytes;
  container_version = a.metadata.container_version;
  tensor_count = to_signed a.metadata.tensor_count;
  metadata_count = to_signed a.metadata.metadata_count;
  architecture = a.metadata.architecture;
  name = a.metadata.name;
  file_type = mapped to_signed a.metadata.file_type;
  context_length = mapped to_signed a.metadata.context_length;
  embedding_length = mapped to_signed a.metadata.embedding_length;
  tokenizer_model = a.metadata.tokenizer_model;
  chat_template = a.metadata.chat_template;
  registered_at = to_epoch a.registered_at;
  mtime_at_registration = mapped to_epoch_nanos a.fingerprint.modified_at;
  integrity_state = unverified_word;
  digest_algorithm = none;
  digest = none;
}
