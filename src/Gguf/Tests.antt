-- ===== src/Gguf/Tests.antt =====
-- Small containers read, and the theorems about the reader at them.
use mehoy_malloy_ai_runtime.Common.{
  ◌≤◌, ◌≡◌, refl, ◌≢◌, Bool, true, ◌&&◌, Option, none, some, [], ◌∷◌, ◌++◌, arith, ltb, ok, err,
  length, drop,
}
use mehoy_malloy_ai_runtime.Common.Text.{Text}
use mehoy_malloy_ai_runtime.Gguf.{
  u8, u16, string, array, nil, cons, not_gguf, implausible, magic, max_header_bytes, read_value,
}
use mehoy_malloy_ai_runtime.Gguf.Header.{
  GgufHeader, Metadata, architecture_number, architecture_key, parse,
}
use mehoy_malloy_ai_runtime.Gguf.Layout.{header_bytes, put_all, IsHeader, IsHeld}
use mehoy_malloy_ai_runtime.Gguf.Prefix.{parse_prefix}
use mehoy_malloy_ai_runtime.Gguf.RoundTrip.{parse-header_bytes, parse_cut}

abbrev is_ascii : Text → Bool
is_ascii [] = true
is_ascii (b ∷ bs) = ltb b 128 && is_ascii bs

-- `bert`, and `bert.n` behind it.
abbrev family : Text
family = 98 ∷ 101 ∷ 114 ∷ 116 ∷ []

abbrev dimension_key : Text
dimension_key = family ++ (46 ∷ 110 ∷ [])

abbrev small : Metadata
small =
    (dimension_key, u8 5)
    ∷ (architecture_key, string family)
    ∷ ([], array (cons (u16 258) (cons (u16 3) nil)))
    ∷ (dimension_key, u16 384)
    ∷ []

abbrev small_header : GgufHeader
small_header = record {
  version = 3;
  tensor_count = 1;
  metadata_count = 4;
  metadata =
      (dimension_key, u16 384)
      ∷ (architecture_key, string family)
      ∷ ([], array (cons (u16 258) (cons (u16 3) nil)))
      ∷ [];
}

small-IsHeader : IsHeader is_ascii 3 1 small
unfolding header_bytes IsHeld
small-IsHeader = record {
  supported = refl;
  few_tensors = omega arith;
  few_entries = omega arith;
  held = (
    ((omega arith, refl), omega arith),
    (
      ((omega arith, refl), (omega arith, refl)),
      (
        ((omega arith, refl), (omega arith, (refl, omega arith, (refl, omega arith, tt)))),
        (((omega arith, refl), omega arith), tt),
      ),
    ),
  );
  short = omega arith;
}

small_put : put_all [] small ≡ small_header.metadata
unfolding put_all
small_put = refl

small_dimension : architecture_number (110 ∷ []) small_header ≡ some 384
unfolding architecture_number
small_dimension = refl

not_a_container : parse is_ascii (1 ∷ 2 ∷ 3 ∷ 4 ∷ 5 ∷ []) none ≡ err (not_gguf (1 ∷ 2 ∷ 3 ∷ 4 ∷ []))
unfolding parse
not_a_container = refl

-- An array of arrays, one level too deep.
abbrev nested : Text
nested = 9 ∷ 0 ∷ 0 ∷ 0 ∷ (1 ∷ 0 ∷ 0 ∷ 0 ∷ 0 ∷ 0 ∷ 0 ∷ 0 ∷ [])

too_deep_refused :
    read_value is_ascii 9 0
      (record { bytes = nested ++ (nested ++ (nested ++ nested)); failure = none; remaining = 100 })
    ≡ err (implausible "array nesting depth" 5 4)
unfolding read_value
too_deep_refused = refl

parse-header_bytes_example :
    parse is_ascii (header_bytes 3 1 small ++ (7 ∷ 7 ∷ [])) none
    ≡ ok (record {
      version = 3;
      tensor_count = 1;
      metadata_count = length small;
      metadata = put_all [] small;
    })
parse-header_bytes_example = parse-header_bytes is_ascii 3 1 small (7 ∷ 7 ∷ []) none small-IsHeader

parse_cut_example : parse is_ascii (magic ++ (3 ∷ 0 ∷ [])) none ≢ ok small_header
unfolding header_bytes
parse_cut_example =
    parse_cut is_ascii 3 1 small (magic ++ (3 ∷ 0 ∷ [])) (drop 6 (header_bytes 3 1 small)) none
      small_header small-IsHeader refl (omega arith)

small_parsed : parse is_ascii (header_bytes 3 1 small ++ (7 ∷ 7 ∷ [])) none ≡ ok small_header
unfolding put_all
small_parsed = parse-header_bytes is_ascii 3 1 small (7 ∷ 7 ∷ []) none small-IsHeader

parse_prefix_example :
    (used : Text) × (behind : Text) × (header_bytes 3 1 small ++ (7 ∷ 7 ∷ []) ≡ used ++ behind)
    × (length used ≤ max_header_bytes)
    × ((other : Text) (ending : Option Text)
        → parse is_ascii (used ++ other) ending ≡ ok small_header)
parse_prefix_example =
    parse_prefix is_ascii (header_bytes 3 1 small ++ (7 ∷ 7 ∷ [])) none small_header small_parsed
