-- ===== src/Registry.antt =====
-- crates/mehoy-registry/src/artifact.rs: what the registry knows of a model file. Paths and texts are
-- bytes, a `SystemTime` its distance from the epoch in nanoseconds. How `f32` and `f64` are displayed
-- are parameters.
pub mod Store
pub mod Operations
pub mod Table
pub mod Registering
pub mod Laws
pub mod Integrity
pub mod Rows
mod Tests
use mehoy_malloy_ai_runtime.Common.{
  ℕ, zero, suc, ◌+◌, ◌-◌, ◌*◌, ◌/◌, ◌%◌, Bool, true, false, not, ◌&&◌, Option, none, some, [], ◌∷◌,
  ◌++◌, ltb, ◌==◌, if◌then◌else◌, Result, ok, err,
}
use mehoy_malloy_ai_runtime.Common.Text.{Text, text_eq}
use mehoy_malloy_ai_runtime.Gguf.{
  MetadataValue, u8, i8, u16, i16, u32, i32, u64, i64, f32, f64, boolean, string, array,
  large_array, MetadataValues, nil, cons,
}
use mehoy_malloy_ai_runtime.Gguf.Header.{
  GgufHeader, text, whole_number, architecture, architecture_number,
}

-- A hexadecimal digit, in lower case.
abbrev pub hex_digit : ℕ → ℕ
hex_digit n = if ltb n 10 then b'0' + n else b'a' + (n - 10)

-- The loop of `ArtifactId::generate` over its random bytes.
unfoldable pub encode_hex : Text → Text
encode_hex [] = []
encode_hex (b ∷ bs) = hex_digit (b / 16) ∷ hex_digit (b % 16) ∷ encode_hex bs

pub data ArtifactFormat : Type 0 where
  gguf : ArtifactFormat

abbrev pub gguf_word : Text
gguf_word = b'g' ∷ b'g' ∷ b'u' ∷ b'f' ∷ []

abbrev pub format_text : ArtifactFormat → Text
format_text gguf = gguf_word

unfoldable pub format_from_stored : Text → Option ArtifactFormat
unfolding text_eq
format_from_stored value = if text_eq value gguf_word then some gguf else none

pub data SystemTime : Type 0 where
  since_epoch before_epoch : (nanos : ℕ) → SystemTime

unfoldable pub time_eq : SystemTime → SystemTime → Bool
time_eq (since_epoch n) (since_epoch m) = n == m
time_eq (since_epoch n) (before_epoch m) = n == 0 && m == 0
time_eq (before_epoch n) (since_epoch m) = n == 0 && m == 0
time_eq (before_epoch n) (before_epoch m) = n == m

pub record ArtifactFingerprint : Type 0 where
  pub size_bytes : ℕ
  pub modified_at : Option SystemTime

pub data DigestAlgorithm : Type 0 where
  sha256 : DigestAlgorithm

abbrev pub sha256_word : Text
sha256_word = b's' ∷ b'h' ∷ b'a' ∷ b'2' ∷ b'5' ∷ b'6' ∷ []

abbrev pub algorithm_text : DigestAlgorithm → Text
algorithm_text sha256 = sha256_word

unfoldable pub algorithm_from_stored : Text → Option DigestAlgorithm
unfolding text_eq
algorithm_from_stored value = if text_eq value sha256_word then some sha256 else none

pub data ArtifactIntegrity : Type 0 where
  unverified : ArtifactIntegrity
  verified : (algorithm : DigestAlgorithm) (digest : Text) → ArtifactIntegrity

abbrev pub is_verified : ArtifactIntegrity → Bool
is_verified unverified = false
is_verified (verified algorithm digest) = true

pub record ArtifactMetadata : Type 0 where
  pub container_version : ℕ
  pub tensor_count : ℕ
  pub metadata_count : ℕ
  pub architecture : Option Text
  pub name : Option Text
  pub file_type : Option ℕ
  pub context_length : Option ℕ
  pub embedding_length : Option ℕ
  pub tokenizer_model : Option Text
  pub chat_template : Option Text

-- `general.`
abbrev general : Text → Text
general t = b'g' ∷ b'e' ∷ b'n' ∷ b'e' ∷ b'r' ∷ b'a' ∷ b'l' ∷ b'.' ∷ t

abbrev name_key : Text
name_key = general (b'n' ∷ b'a' ∷ b'm' ∷ b'e' ∷ [])

abbrev file_type_key : Text
file_type_key = general (b'f' ∷ b'i' ∷ b'l' ∷ b'e' ∷ b'_' ∷ b't' ∷ b'y' ∷ b'p' ∷ b'e' ∷ [])

-- `_length`.
abbrev length_of : Text → Text
length_of t = t ++ (b'_' ∷ b'l' ∷ b'e' ∷ b'n' ∷ b'g' ∷ b't' ∷ b'h' ∷ [])

abbrev context_length_suffix : Text
context_length_suffix = length_of (b'c' ∷ b'o' ∷ b'n' ∷ b't' ∷ b'e' ∷ b'x' ∷ b't' ∷ [])

abbrev embedding_length_suffix : Text
embedding_length_suffix =
    length_of (b'e' ∷ b'm' ∷ b'b' ∷ b'e' ∷ b'd' ∷ b'd' ∷ b'i' ∷ b'n' ∷ b'g' ∷ [])

-- `tokenizer.`
abbrev tokenizer : Text → Text
tokenizer t = b't' ∷ b'o' ∷ b'k' ∷ b'e' ∷ b'n' ∷ b'i' ∷ b'z' ∷ b'e' ∷ b'r' ∷ b'.' ∷ t

abbrev tokenizer_model_key : Text
tokenizer_model_key =
    tokenizer (b'g' ∷ b'g' ∷ b'm' ∷ b'l' ∷ b'.' ∷ b'm' ∷ b'o' ∷ b'd' ∷ b'e' ∷ b'l' ∷ [])

abbrev chat_template_key : Text
chat_template_key =
    tokenizer (
      b'c' ∷ b'h' ∷ b'a' ∷ b't' ∷ b'_' ∷ b't' ∷ b'e' ∷ b'm' ∷ b'p' ∷ b'l' ∷ b'a' ∷ b't' ∷ b'e' ∷ [])

unfoldable pub from_header : GgufHeader → ArtifactMetadata
unfolding text whole_number architecture architecture_number
from_header h = record {
  container_version = h.version;
  tensor_count = h.tensor_count;
  metadata_count = h.metadata_count;
  architecture = architecture h;
  name = text name_key h;
  file_type = whole_number file_type_key h;
  context_length = architecture_number context_length_suffix h;
  embedding_length = architecture_number embedding_length_suffix h;
  tokenizer_model = text tokenizer_model_key h;
  chat_template = text chat_template_key h;
}

pub record ModelArtifact : Type 0 where
  pub id : Text
  pub path : Text
  pub format : ArtifactFormat
  pub size_bytes : ℕ
  pub metadata : ArtifactMetadata
  pub integrity : ArtifactIntegrity
  pub fingerprint : ArtifactFingerprint
  pub registered_at : SystemTime

-- The two reasons for a change, in place of their texts.
pub data Drift : Type 0 where
  size_is_now : (now then_was : ℕ) → Drift
  time_has_changed : Drift

pub data ArtifactState : Type 0 where
  unchanged missing : ArtifactState
  changed : Drift → ArtifactState

-- Two times that are both known and differ.
unfoldable pub has_moved : Option SystemTime → Option SystemTime → Bool
unfolding time_eq
has_moved (some now) (some then_was) = not (time_eq now then_was)
has_moved _ _ = false

-- `detect_drift`, given what `observe` finds at the artifact's path.
unfoldable pub detect_drift : Result ArtifactFingerprint Text → ModelArtifact → ArtifactState
unfolding has_moved
detect_drift (err e) a = missing
detect_drift (ok current) a =
    if not (current.size_bytes == a.fingerprint.size_bytes)
    then changed (size_is_now current.size_bytes a.fingerprint.size_bytes)
    else if has_moved current.modified_at a.fingerprint.modified_at
    then changed time_has_changed
    else unchanged

-- The decimal digits of a number before those that are there: a digit is taken in each round, so
-- twenty are enough for a u64.
unfoldable pub digits_before : ℕ → ℕ → Text → Text
digits_before zero n rest = rest
digits_before (suc fuel) n rest =
    let more = digits_before fuel (n / 10) ((b'0' + n % 10) ∷ rest) in
    if ltb n 10 then (b'0' + n) ∷ rest else more

abbrev pub shown : ℕ → Text
shown n = digits_before 20 n []

-- A signed number of a width, from its bits.
abbrev pub shown_signed : ℕ → ℕ → Text
shown_signed half v = if ltb v half then shown v else b'-' ∷ shown (2 * half - v)

abbrev pub items_text : ℕ → Text
items_text n = b'[' ∷ shown n ++ (b' ' ∷ b'i' ∷ b't' ∷ b'e' ∷ b'm' ∷ b's' ∷ b']' ∷ [])

abbrev pub how_many : MetadataValues → ℕ
how_many nil = 0
how_many (cons v vs) = suc (how_many vs)

abbrev pub shown_bool : Bool → Text
shown_bool true = b't' ∷ b'r' ∷ b'u' ∷ b'e' ∷ []
shown_bool false = b'f' ∷ b'a' ∷ b'l' ∷ b's' ∷ b'e' ∷ []

module _ (f32_text f64_text : ℕ → Text) where
  unfoldable pub render_value : MetadataValue → Text
  unfolding digits_before
  render_value (string t) = t
  render_value (boolean flag) = shown_bool flag
  render_value (u8 v) = shown v
  render_value (i8 v) = shown_signed 0x80 v
  render_value (u16 v) = shown v
  render_value (i16 v) = shown_signed 0x8000 v
  render_value (u32 v) = shown v
  render_value (i32 v) = shown_signed 0x8000_0000 v
  render_value (u64 v) = shown v
  render_value (i64 v) = shown_signed 0x8000_0000_0000_0000 v
  render_value (f32 v) = f32_text v
  render_value (f64 v) = f64_text v
  render_value (array items) = items_text (how_many items)
  render_value (large_array element_type len) = items_text len
