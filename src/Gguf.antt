-- ===== src/Gguf.antt =====
-- crates/mehoy-registry/src/gguf.rs: the reader of a container's header and metadata. `std::io::Read`
-- is the bytes that are still to come and how reading ends behind them: the end of the file, or an
-- error of another kind. What `String::from_utf8` accepts is the parameter `is_utf8`. Signed values, floats and
-- Booleans are numbers: a signed value and a float its bit pattern, a Boolean 0 or 1.
pub mod Header
pub mod Layout
pub mod Reading
pub mod Prefix
pub mod Rules
pub mod RoundTrip
mod Tests
use mehoy_malloy_ai_runtime.Common.{
  ℕ, zero, suc, ◌+◌, ◌-◌, ◌*◌, String, Bool, true, not, Option, none, some, [], ◌∷◌, ltb, leb, ◌==◌,
  if◌then◌else◌, Result, ok, err, length, take, drop,
}
use mehoy_malloy_ai_runtime.Common.Text.{Text, text_eq}

-- `GGUF`.
abbrev pub magic : Text
magic = 71 ∷ 71 ∷ 85 ∷ 70 ∷ []

abbrev pub is_supported_version : ℕ → Bool
is_supported_version version = if version == 2 then true else version == 3

abbrev pub max_metadata_entries : ℕ
max_metadata_entries = 1_048_576

abbrev pub max_tensor_count : ℕ
max_tensor_count = 16_777_216

abbrev pub max_string_bytes : ℕ
max_string_bytes = 16_777_216

abbrev pub max_array_len : ℕ
max_array_len = 16_777_216

abbrev pub max_header_bytes : ℕ
max_header_bytes = 67_108_864

abbrev pub max_retained_array_len : ℕ
max_retained_array_len = 64

abbrev pub max_array_depth : ℕ
max_array_depth = 4

mutual
  pub data MetadataValue : Type 0 where
    u8 i8 u16 i16 u32 i32 u64 i64 f32 f64 : ℕ → MetadataValue
    boolean : Bool → MetadataValue
    string : Text → MetadataValue
    array : MetadataValues → MetadataValue
    large_array : (element_type len : ℕ) → MetadataValue

  pub data MetadataValues : Type 0 where
    nil : MetadataValues
    cons : MetadataValue → MetadataValues → MetadataValues

pub data GgufError : Type 0 where
  not_gguf : (found : Text) → GgufError
  unsupported_version : (version : ℕ) → GgufError
  implausible : (what : String) (value limit : ℕ) → GgufError
  truncated : (what : String) → GgufError
  overflow : (what : String) → GgufError
  unknown_value_type : (type_id : ℕ) → GgufError
  invalid_text : (key : String) → GgufError
  io : Text → GgufError

-- A reader that refuses to consume more than a fixed budget.
pub record Budgeted : Type 0 where
  pub bytes : Text
  pub failure : Option Text
  pub remaining : ℕ

-- A computation on the reader that may fail.
abbrev pub Reader : Type 0 → Type 0
Reader A = Budgeted → Result (A × Budgeted) GgufError

infixl 5 ◌>>=◌ ◌>>◌
abbrev pub ◌>>=◌ : {A B : Type 0} → Reader A → (A → Reader B) → Reader B
◌>>=◌ m f s = elim (m s) [ err e ↦ err e | ok (a, s') ↦ f a s' ]

abbrev pub ◌>>◌ : {A B : Type 0} → Reader A → Reader B → Reader B
m >> k = m >>= λ _. k

abbrev pub return : {A : Type 0} → A → Reader A
return a s = ok (a, s)

abbrev pub refuse : {A : Type 0} → GgufError → Reader A
refuse e s = err e

-- `Budgeted::take`.
unfoldable pub take_budget : ℕ → String → Reader (Unit {0})
take_budget amount what s =
    if leb amount s.remaining
    then ok (tt, record s { remaining = s.remaining - amount })
    else err (implausible what amount s.remaining)

abbrev pub end_error : String → Option Text → GgufError
end_error what none = truncated what
end_error what (some e) = io e

unfoldable pub read_exact_or_truncated : ℕ → String → Reader Text
read_exact_or_truncated n what s =
    if leb n (length s.bytes)
    then ok (take n s.bytes, record s { bytes = drop n s.bytes })
    else err (end_error what s.failure)

-- `from_le_bytes`.
unfoldable pub from_le_bytes : Text → ℕ
from_le_bytes [] = 0
from_le_bytes (b ∷ bs) = b + 256 * from_le_bytes bs

-- The budget is taken, then as many bytes are read.
unfoldable pub fetch : ℕ → String → String → Reader Text
unfolding take_budget read_exact_or_truncated
fetch n budgeted what = do take_budget n budgeted; read_exact_or_truncated n what

-- `u8`, `u16`, `u32` and `u64` of the reader, by their widths in bytes.
unfoldable pub number : ℕ → String → Reader ℕ
unfolding fetch from_le_bytes
number width what = do bytes ← fetch width what what; return (from_le_bytes bytes)

abbrev pub within : String → ℕ → ℕ → Reader (Unit {0})
within what value limit =
    if ltb limit value then refuse (implausible what value limit) else return tt

-- The loop over the elements of an array.
unfoldable pub read_elements : Reader MetadataValue → ℕ → Reader MetadataValues
read_elements read zero = return nil
read_elements read (suc n) = do v ← read; vs ← read_elements read n; return (cons v vs)

abbrev pub too_deep : ℕ → Reader MetadataValue
too_deep depth = refuse (implausible "array nesting depth" (depth + 1) max_array_depth)

abbrev pub keep : ℕ → ℕ → MetadataValues → MetadataValue
keep element_type len vs =
    if leb len max_retained_array_len then array vs else large_array element_type len

module _ (is_utf8 : Text → Bool) where
  -- `usize::try_from` of a length within the limit succeeds.
  unfoldable pub read_string : String → Reader Text
  unfolding number
  read_string what = do
    len ← number 8 what
    within "string length" len max_string_bytes
    bytes ← fetch len "string contents" what
    if is_utf8 bytes then return bytes else refuse (invalid_text what)

  -- `read_value`, given how an array is read.
  unfoldable pub read_value_with : Reader MetadataValue → ℕ → Reader MetadataValue
  unfolding read_string
  read_value_with read_array type_id =
      if type_id == 0
      then (do v ← number 1 "uint8"; return (u8 v))
      else if type_id == 1
      then (do v ← number 1 "int8"; return (i8 v))
      else if type_id == 2
      then (do v ← number 2 "uint16"; return (u16 v))
      else if type_id == 3
      then (do v ← number 2 "int16"; return (i16 v))
      else if type_id == 4
      then (do v ← number 4 "uint32"; return (u32 v))
      else if type_id == 5
      then (do v ← number 4 "int32"; return (i32 v))
      else if type_id == 6
      then (do v ← number 4 "float32"; return (f32 v))
      else if type_id == 7
      then (do v ← number 1 "bool"; return (boolean (not (v == 0))))
      else if type_id == 8
      then (do v ← read_string "string"; return (string v))
      else if type_id == 9
      then read_array
      else if type_id == 10
      then (do v ← number 8 "uint64"; return (u64 v))
      else if type_id == 11
      then (do v ← number 8 "int64"; return (i64 v))
      else if type_id == 12
      then (do v ← number 8 "float64"; return (f64 v))
      else refuse (unknown_value_type type_id)

  -- `read_array` at a depth: `levels` is what is left of the greatest depth, so it is zero exactly
  -- where the depth is refused.
  unfoldable pub read_array : ℕ → ℕ → Reader MetadataValue
  unfolding read_value_with read_elements
  read_array zero depth = too_deep depth
  read_array (suc levels) depth = if leb max_array_depth depth then too_deep depth else (do
    element_type ← number 4 "array element type"
    len ← number 8 "array length"
    within "array length" len max_array_len
    vs ← read_elements (read_value_with (read_array levels (depth + 1)) element_type) len
    return (keep element_type len vs))

  unfoldable pub read_value : ℕ → ℕ → Reader MetadataValue
  unfolding read_array
  read_value type_id depth = read_value_with (read_array (max_array_depth - depth) depth) type_id
