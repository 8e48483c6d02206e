-- ===== src/Gguf/Header.antt =====
-- gguf.rs: the header that a container begins with, and the facts that are looked up in it.
use mehoy_malloy_ai_runtime.Common.{
  ℕ, zero, suc, Bool, Option, none, some, List, [], ◌∷◌, ◌++◌, ltb, if◌then◌else◌, Result, ok, err,
}
use mehoy_malloy_ai_runtime.Common.Text.{Text, text_eq}
use mehoy_malloy_ai_runtime.Gguf.{
  magic, is_supported_version, max_metadata_entries, max_tensor_count, max_header_bytes,
  MetadataValue, u8, i8, u16, i16, u32, i32, u64, i64, string, GgufError, not_gguf,
  unsupported_version, Reader, ◌>>=◌, ◌>>◌, return, refuse, fetch, number, within, read_string,
  read_value,
}

-- `BTreeMap`: the order of the entries means nothing, and a key has one at most.
abbrev pub Metadata : Type 0
Metadata = List (Text × MetadataValue)

unfoldable pub put : Text → MetadataValue → Metadata → Metadata
unfolding text_eq
put key value [] = (key, value) ∷ []
put key value ((other, old) ∷ entries) =
    if text_eq other key then (key, value) ∷ entries else (other, old) ∷ put key value entries

unfoldable pub find : Text → Metadata → Option MetadataValue
unfolding text_eq
find key [] = none
find key ((other, value) ∷ entries) = if text_eq other key then some value else find key entries

pub record GgufHeader : Type 0 where
  pub version : ℕ
  pub tensor_count : ℕ
  pub metadata_count : ℕ
  pub metadata : Metadata

abbrev pub as_str : MetadataValue → Option Text
as_str (string value) = some value
as_str _ = none

-- A signed value of the width is the number itself exactly where its sign bit is not set.
abbrev pub non_negative : ℕ → ℕ → Option ℕ
non_negative half v = if ltb v half then some v else none

abbrev pub as_u64 : MetadataValue → Option ℕ
as_u64 (u8 v) = some v
as_u64 (u16 v) = some v
as_u64 (u32 v) = some v
as_u64 (u64 v) = some v
as_u64 (i8 v) = non_negative 0x80 v
as_u64 (i16 v) = non_negative 0x8000 v
as_u64 (i32 v) = non_negative 0x8000_0000 v
as_u64 (i64 v) = non_negative 0x8000_0000_0000_0000 v
as_u64 _ = none

abbrev pub and_then : {A B : Type 0} → Option A → (A → Option B) → Option B
and_then none f = none
and_then (some a) f = f a

unfoldable pub get : Text → GgufHeader → Option MetadataValue
unfolding find
get key h = find key h.metadata

unfoldable pub text : Text → GgufHeader → Option Text
unfolding get
text key h = and_then (get key h) as_str

unfoldable pub whole_number : Text → GgufHeader → Option ℕ
unfolding get
whole_number key h = and_then (get key h) as_u64

-- `general.architecture`.
abbrev pub architecture_key : Text
architecture_key =
    103 ∷ 101 ∷ 110 ∷ 101 ∷ 114 ∷ 97 ∷ 108 ∷ 46 ∷ 97 ∷ 114 ∷ 99 ∷ 104 ∷ 105 ∷ 116 ∷ 101 ∷ 99 ∷ 116
    ∷ 117 ∷ 114 ∷ 101 ∷ []

unfoldable pub architecture : GgufHeader → Option Text
unfolding text
architecture h = text architecture_key h

-- The key is the architecture, a full stop and the suffix.
unfoldable pub architecture_number : Text → GgufHeader → Option ℕ
unfolding architecture whole_number
architecture_number suffix h =
    and_then (architecture h) (λ family. whole_number (family ++ (46 ∷ suffix)) h)

module _ (is_utf8 : Text → Bool) where
  unfoldable pub read_entry : Reader (Text × MetadataValue)
  unfolding read_string number read_value
  read_entry = do
    key ← read_string is_utf8 "metadata key"
    type_id ← number 4 "metadata value type"
    value ← read_value is_utf8 type_id 0
    return (key, value)

  unfoldable pub read_entries : ℕ → Metadata → Reader Metadata
  unfolding read_entry put
  read_entries zero entries = return entries
  read_entries (suc n) entries = do
    (key, value) ← read_entry
    read_entries n (put key value entries)

  unfoldable pub check_magic : Text → Reader (Unit {0})
  check_magic found = if text_eq magic found then return tt else refuse (not_gguf found)

  unfoldable pub check_version : ℕ → Reader (Unit {0})
  check_version version =
      if is_supported_version version then return tt else refuse (unsupported_version version)

  -- The body of `parse`, on its reader.
  unfoldable pub read_header : Reader GgufHeader
  unfolding fetch number read_entries check_magic check_version
  read_header = do
    found ← fetch 4 "magic" "magic"
    check_magic found
    version ← number 4 "version"
    check_version version
    tensor_count ← number 8 "tensor count"
    within "tensor count" tensor_count max_tensor_count
    metadata_count ← number 8 "metadata count"
    within "metadata count" metadata_count max_metadata_entries
    metadata ← read_entries metadata_count []
    return (record {
      version = version;
      tensor_count = tensor_count;
      metadata_count = metadata_count;
      metadata = metadata;
    })

  -- `parse` of a source: its bytes, and how it ends behind them.
  unfoldable pub parse : Text → Option Text → Result GgufHeader GgufError
  unfolding read_header
  parse bytes failure =
      elim (read_header
        (record { bytes = bytes; failure = failure; remaining = max_header_bytes })) [
          | ok (header, left) ↦ ok header
          | err e ↦ err e
        ]
