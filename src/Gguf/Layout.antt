-- ===== src/Gguf/Layout.antt =====
-- The layout of a GGUF container, written independently of the reader: how a header and its values
-- stand as bytes, and which of them a container can hold within the limits of gguf.rs.
use mehoy_malloy_ai_runtime.Common.{
  ℕ, zero, suc, ◌*◌, ◌/◌, ◌%◌, ◌≤◌, ◌<◌, ◌≡◌, Bool, true, false, [], ◌∷◌, ◌++◌, length, All,
}
use mehoy_malloy_ai_runtime.Common.Text.{Text}
use mehoy_malloy_ai_runtime.Gguf.{
  MetadataValue, u8, i8, u16, i16, u32, i32, u64, i64, f32, f64, boolean, string, array,
  large_array, MetadataValues, nil, cons, magic, max_string_bytes, max_retained_array_len,
  is_supported_version, max_tensor_count, max_metadata_entries, max_array_depth, max_header_bytes,
}
use mehoy_malloy_ai_runtime.Gguf.Header.{Metadata, put}

-- How many values the bytes have.
abbrev pub range : ℕ → ℕ
range zero = 1
range (suc width) = 256 * range width

-- Little-endian.
unfoldable pub le_bytes : ℕ → ℕ → Text
le_bytes zero n = []
le_bytes (suc width) n = (n % 256) ∷ le_bytes width (n / 256)

unfoldable pub string_bytes : Text → Text
unfolding le_bytes
string_bytes t = le_bytes 8 (length t) ++ t

abbrev pub type_id_of : MetadataValue → ℕ
type_id_of (u8 n) = 0
type_id_of (i8 n) = 1
type_id_of (u16 n) = 2
type_id_of (i16 n) = 3
type_id_of (u32 n) = 4
type_id_of (i32 n) = 5
type_id_of (f32 n) = 6
type_id_of (boolean b) = 7
type_id_of (string t) = 8
type_id_of (array vs) = 9
type_id_of (large_array t n) = 9
type_id_of (u64 n) = 10
type_id_of (i64 n) = 11
type_id_of (f64 n) = 12

abbrev pub element_type : MetadataValues → ℕ
element_type nil = 0
element_type (cons v vs) = type_id_of v

abbrev pub count : MetadataValues → ℕ
count nil = 0
count (cons v vs) = suc (count vs)

abbrev pub bit : Bool → ℕ
bit true = 1
bit false = 0

unfoldable mutual
  unfolding le_bytes string_bytes

  pub value_bytes : MetadataValue → Text
  value_bytes (u8 n) = le_bytes 1 n
  value_bytes (i8 n) = le_bytes 1 n
  value_bytes (u16 n) = le_bytes 2 n
  value_bytes (i16 n) = le_bytes 2 n
  value_bytes (u32 n) = le_bytes 4 n
  value_bytes (i32 n) = le_bytes 4 n
  value_bytes (f32 n) = le_bytes 4 n
  value_bytes (boolean b) = le_bytes 1 (bit b)
  value_bytes (string t) = string_bytes t
  value_bytes (array vs) =
      le_bytes 4 (element_type vs) ++ (le_bytes 8 (count vs) ++ values_bytes vs)
  value_bytes (large_array t n) = []
  value_bytes (u64 n) = le_bytes 8 n
  value_bytes (i64 n) = le_bytes 8 n
  value_bytes (f64 n) = le_bytes 8 n

  pub values_bytes : MetadataValues → Text
  values_bytes nil = []
  values_bytes (cons v vs) = value_bytes v ++ values_bytes vs

module _ (is_utf8 : Text → Bool) where
  abbrev pub IsString : Text → Type 0
  IsString t = (length t ≤ max_string_bytes) × (is_utf8 t ≡ true)

  -- A value that a container can hold, with arrays nested at most so many levels deep. An array that
  -- is too long to be kept has no such form.
  unfoldable mutual
    pub IsHeld : ℕ → MetadataValue → Type 0
    IsHeld levels (u8 n) = n < range 1
    IsHeld levels (i8 n) = n < range 1
    IsHeld levels (u16 n) = n < range 2
    IsHeld levels (i16 n) = n < range 2
    IsHeld levels (u32 n) = n < range 4
    IsHeld levels (i32 n) = n < range 4
    IsHeld levels (f32 n) = n < range 4
    IsHeld levels (boolean b) = Unit {0}
    IsHeld levels (string t) = IsString t
    IsHeld zero (array vs) = ⊥
    IsHeld (suc levels) (array vs) =
        (count vs ≤ max_retained_array_len) × AreHeld levels (element_type vs) vs
    IsHeld levels (large_array t n) = ⊥
    IsHeld levels (u64 n) = n < range 8
    IsHeld levels (i64 n) = n < range 8
    IsHeld levels (f64 n) = n < range 8

    pub AreHeld : ℕ → ℕ → MetadataValues → Type 0
    AreHeld levels t nil = Unit {0}
    AreHeld levels t (cons v vs) = (type_id_of v ≡ t) × IsHeld levels v × AreHeld levels t vs

unfoldable pub entries_bytes : Metadata → Text
unfolding le_bytes string_bytes value_bytes
entries_bytes [] = []
entries_bytes ((key, value) ∷ entries) =
    (string_bytes key ++ (le_bytes 4 (type_id_of value) ++ value_bytes value))
    ++ entries_bytes entries

unfoldable pub header_bytes : ℕ → ℕ → Metadata → Text
unfolding le_bytes entries_bytes
header_bytes version tensor_count entries =
    magic
    ++ (le_bytes 4 version
        ++ (le_bytes 8 tensor_count ++ (le_bytes 8 (length entries) ++ entries_bytes entries)))

-- The entries as a map: of two under one key the later one stays.
unfoldable pub put_all : Metadata → Metadata → Metadata
unfolding put
put_all metadata [] = metadata
put_all metadata ((key, value) ∷ entries) = put_all (put key value metadata) entries

-- What a header within the limits is made of.
pub record IsHeader (is_utf8 : Text → Bool) (version tensor_count : ℕ) (entries : Metadata)
    : Type 0 where
  pub supported : is_supported_version version ≡ true
  pub few_tensors : tensor_count ≤ max_tensor_count
  pub few_entries : length entries ≤ max_metadata_entries
  pub held : All (λ e. IsString is_utf8 e.0 × IsHeld is_utf8 max_array_depth e.1) entries
  pub short : length (header_bytes version tensor_count entries) ≤ max_header_bytes
