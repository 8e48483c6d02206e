-- ===== src/Gguf/RoundTrip.antt =====
-- gguf.rs: what the layout writes, the reader reads back.
use mehoy_malloy_ai_runtime.Common.{
  ℕ, zero, suc, ◌+◌, ◌≤◌, ◌<◌, ◌≡◌, refl, sym, ap, ◌∙◌, ◌≢◌, Bool, true, false, not, Option, none,
  [], ◌∷◌, ◌++◌, arith, leb, ◌==◌, le→leb, ok, length, All, length-append,
}
use mathlib.Core.List.{append-nil, append_assoc}
use mehoy_malloy_ai_runtime.Common.Text.{Text, text_eq, text_eq_refl}
use mehoy_malloy_ai_runtime.Gguf.{
  Budgeted, Reader, return, refuse, not_gguf, unsupported_version, read_value_with, read_elements,
  read_array, read_value, keep, MetadataValue, u8, i8, u16, i16, u32, i32, u64, i64, f32, f64,
  boolean, string, array, large_array, MetadataValues, nil, cons, magic, is_supported_version,
  max_array_len, max_array_depth, max_retained_array_len, max_header_bytes, max_tensor_count,
  max_metadata_entries,
}
use mehoy_malloy_ai_runtime.Gguf.Header.{
  GgufHeader, Metadata, put, read_entry, read_entries, check_magic, check_version, read_header,
  parse,
}
use mehoy_malloy_ai_runtime.Gguf.Layout.{
  range, le_bytes, string_bytes, type_id_of, element_type, count, value_bytes, values_bytes,
  entries_bytes, header_bytes, put_all, IsHeader, IsString, IsHeld, AreHeld,
}
use mehoy_malloy_ai_runtime.Gguf.Prefix.{fresh, read_header-IsReader, parse-eq-ok, parse_ok}
use mehoy_malloy_ai_runtime.Gguf.Reading.{read_parts}
use mehoy_malloy_ai_runtime.Gguf.Rules.{
  Reads, Reads-check, Reads-return, Reads-bind, Reads-map, Reads-then, Reads-else, fetch-Reads,
  number-Reads, within-Reads, read_string-Reads,
}

not_at_depth :
    (levels depth : ℕ) → suc levels + depth ≡ max_array_depth → leb max_array_depth depth ≡ false
not_at_depth levels depth e = ground arith

keep_all :
    (t : ℕ) (vs : MetadataValues)
    → count vs ≤ max_retained_array_len
    → keep t (count vs) vs ≡ array vs
keep_all t vs h = rw (le→leb (count vs) max_retained_array_len h) refl

type_id_small : (v : MetadataValue) → type_id_of v < range 4
type_id_small (u8 n) = omega arith
type_id_small (i8 n) = omega arith
type_id_small (u16 n) = omega arith
type_id_small (i16 n) = omega arith
type_id_small (u32 n) = omega arith
type_id_small (i32 n) = omega arith
type_id_small (f32 n) = omega arith
type_id_small (boolean b) = omega arith
type_id_small (string t) = omega arith
type_id_small (array vs) = omega arith
type_id_small (large_array t n) = omega arith
type_id_small (u64 n) = omega arith
type_id_small (i64 n) = omega arith
type_id_small (f64 n) = omega arith

element_type_small : (vs : MetadataValues) → element_type vs < range 4
element_type_small nil = omega arith
element_type_small (cons v vs) = type_id_small v

module _ (is_utf8 : Text → Bool) where
  read_at : ℕ → ℕ → ℕ → Reader MetadataValue
  read_at levels depth t = read_value_with is_utf8 (read_array is_utf8 levels depth) t

  along_type :
      (levels depth t t' : ℕ) (x : Text) (v : MetadataValue)
      → t' ≡ t
      → Reads (read_at levels depth t') x v
      → Reads (read_at levels depth t) x v
  along_type levels depth t t' x v e r = rw (← e) r

  mutual
    unfolding read_at read_value_with read_array value_bytes IsHeld read_elements

    read_at-Reads :
        (levels depth : ℕ) (v : MetadataValue)
        → levels + depth ≡ max_array_depth
        → IsHeld is_utf8 levels v
        → Reads (read_at levels depth (type_id_of v)) (value_bytes v) v
    read_at-Reads levels depth (u8 n) e h = Reads-map _ u8 _ n (number-Reads 1 n "uint8" h)
    read_at-Reads levels depth (i8 n) e h = Reads-map _ i8 _ n (number-Reads 1 n "int8" h)
    read_at-Reads levels depth (u16 n) e h = Reads-map _ u16 _ n (number-Reads 2 n "uint16" h)
    read_at-Reads levels depth (i16 n) e h = Reads-map _ i16 _ n (number-Reads 2 n "int16" h)
    read_at-Reads levels depth (u32 n) e h = Reads-map _ u32 _ n (number-Reads 4 n "uint32" h)
    read_at-Reads levels depth (i32 n) e h = Reads-map _ i32 _ n (number-Reads 4 n "int32" h)
    read_at-Reads levels depth (f32 n) e h = Reads-map _ f32 _ n (number-Reads 4 n "float32" h)
    read_at-Reads levels depth (u64 n) e h = Reads-map _ u64 _ n (number-Reads 8 n "uint64" h)
    read_at-Reads levels depth (i64 n) e h = Reads-map _ i64 _ n (number-Reads 8 n "int64" h)
    read_at-Reads levels depth (f64 n) e h = Reads-map _ f64 _ n (number-Reads 8 n "float64" h)
    read_at-Reads levels depth (boolean true) e h =
        Reads-map _ (λ v. boolean (not (v == 0))) _ 1 (number-Reads 1 1 "bool" (omega arith))
    read_at-Reads levels depth (boolean false) e h =
        Reads-map _ (λ v. boolean (not (v == 0))) _ 0 (number-Reads 1 0 "bool" (omega arith))
    read_at-Reads levels depth (string t) e h =
        Reads-map _ string _ t (read_string-Reads is_utf8 "string" t h)
    read_at-Reads zero depth (array vs) e h = absurd h
    read_at-Reads (suc levels) depth (array vs) e (few, held) =
        Reads-else (leb max_array_depth depth) _ _ _ (array vs) (not_at_depth levels depth e) (
          Reads-bind _ _ (le_bytes 4 (element_type vs)) _ (element_type vs) (array vs)
            (number-Reads 4 (element_type vs) "array element type" (element_type_small vs))
            (Reads-bind _ _ (le_bytes 8 (count vs)) (values_bytes vs) (count vs) (array vs)
              (number-Reads 8 (count vs) "array length" (omega arith))
              (Reads-bind _ _ [] (values_bytes vs) tt (array vs)
                (within-Reads "array length" (count vs) max_array_len (omega arith))
                (rw (← keep_all (element_type vs) vs few) (
                  Reads-map _ (keep (element_type vs) (count vs)) (values_bytes vs) vs
                    (read_all-Reads levels (depth + 1) (element_type vs) vs (omega arith) held))))))
    read_at-Reads levels depth (large_array t n) e h = absurd h

    read_all-Reads :
        (levels depth t : ℕ) (vs : MetadataValues)
        → levels + depth ≡ max_array_depth
        → AreHeld is_utf8 levels t vs
        → Reads (read_elements (read_at levels depth t) (count vs)) (values_bytes vs) vs
    read_all-Reads levels depth t nil e h = Reads-return nil
    read_all-Reads levels depth t (cons v vs) e (same, held, others) =
        Reads-bind (read_at levels depth t) _ (value_bytes v) (values_bytes vs) v (cons v vs)
          (along_type levels depth t (type_id_of v) (value_bytes v) v same
            (read_at-Reads levels depth v e held))
          (Reads-map _ (λ ws. cons v ws) (values_bytes vs) vs
            (read_all-Reads levels depth t vs e others))

  read_entry-Reads :
      (key : Text) (value : MetadataValue)
      → IsString is_utf8 key
      → IsHeld is_utf8 max_array_depth value
      → Reads
          (read_entry is_utf8)
          (string_bytes key ++ (le_bytes 4 (type_id_of value) ++ value_bytes value))
          (key, value)
  unfolding read_entry read_value read_at
  read_entry-Reads key value k v =
      Reads-bind _ _ (string_bytes key) _ key (key, value)
        (read_string-Reads is_utf8 "metadata key" key k)
        (Reads-bind _ _ (le_bytes 4 (type_id_of value)) (value_bytes value) (type_id_of value)
          (key, value)
          (number-Reads 4 (type_id_of value) "metadata value type" (type_id_small value))
          (Reads-map _ (λ w. (key, w)) (value_bytes value) value
            (read_at-Reads max_array_depth 0 value refl v)))

  read_entries-Reads :
      (metadata entries : Metadata)
      → All (λ e. IsString is_utf8 e.0 × IsHeld is_utf8 max_array_depth e.1) entries
      → Reads
          (read_entries is_utf8 (length entries) metadata)
          (entries_bytes entries)
          (put_all metadata entries)
  unfolding read_entries entries_bytes put_all
  read_entries-Reads metadata [] h = Reads-return metadata
  read_entries-Reads metadata ((key, value) ∷ entries) h =
      Reads-bind _ _ _ (entries_bytes entries) (key, value)
        (put_all (put key value metadata) entries) (read_entry-Reads key value h.0.0 h.0.1)
        (read_entries-Reads (put key value metadata) entries h.1)

  check_magic-Reads : Reads (check_magic is_utf8 magic) [] tt
  unfolding check_magic
  check_magic-Reads =
      Reads-then (text_eq magic magic) (return tt) (refuse (not_gguf magic)) [] tt
        (text_eq_refl magic) (Reads-return tt)

  check_version-Reads :
      (version : ℕ)
      → is_supported_version version ≡ true
      → Reads (check_version is_utf8 version) [] tt
  unfolding check_version
  check_version-Reads version h =
      Reads-then (is_supported_version version) (return tt) (refuse (unsupported_version version))
        [] tt h (Reads-return tt)

  read_header-Reads :
      (version tensors : ℕ) (entries : Metadata)
      → IsHeader is_utf8 version tensors entries
      → version < range 4
      → Reads (read_header is_utf8) (header_bytes version tensors entries) (record {
        version = version;
        tensor_count = tensors;
        metadata_count = length entries;
        metadata = put_all [] entries;
      })
  unfolding read_header header_bytes
  read_header-Reads version tensors entries v w =
      Reads-bind _ _ magic _ magic _ (fetch-Reads 4 "magic" "magic" magic refl) (
        Reads-check _ _ _ tt _ check_magic-Reads (
          Reads-bind _ _ (le_bytes 4 version) _ version _ (number-Reads 4 version "version" w) (
            Reads-check _ _ _ tt _ (check_version-Reads version v.supported) (
              Reads-bind _ _ (le_bytes 8 tensors) _ tensors _
                (number-Reads 8 tensors "tensor count" (let k = v.few_tensors in omega arith))
                (Reads-check _ _ _ tt _
                  (within-Reads "tensor count" tensors max_tensor_count v.few_tensors)
                  (Reads-bind _ _ (le_bytes 8 (length entries)) _ (length entries) _
                    (number-Reads 8 (length entries) "metadata count"
                      (let k = v.few_entries in omega arith))
                    (Reads-check _ _ _ tt _
                      (within-Reads "metadata count" (length entries) max_metadata_entries
                        v.few_entries)
                      (Reads-map _ _ (entries_bytes entries) (put_all [] entries)
                        (read_entries-Reads [] entries v.held)))))))))

  supported_small : (version : ℕ) → is_supported_version version ≡ true → version < range 4
  supported_small version h = ground arith

  -- A container is read as what was written: a header within the limits, with a supported version and
  -- values that fit their types, comes back whole, its entries as a map in which the later of two
  -- under one key stays, whatever follows the header and however the source ends.
  pub parse-header_bytes :
      (version tensors : ℕ) (entries : Metadata) (behind : Text) (failure : Option Text)
      → IsHeader is_utf8 version tensors entries
      → parse is_utf8 (header_bytes version tensors entries ++ behind) failure
        ≡ ok (record {
          version = version;
          tensor_count = tensors;
          metadata_count = length entries;
          metadata = put_all [] entries;
        })
  parse-header_bytes version tensors entries behind failure v =
      parse_ok is_utf8 (header_bytes version tensors entries ++ behind) failure _ _ (
        (read_header-Reads version tensors entries v (supported_small version v.supported)).reads
          behind failure max_header_bytes v.short)

  -- A container that is cut short is never accepted: no source that is a proper part of the bytes of
  -- a header, from their start, is read as any header, whether it ends or fails there.
  pub parse_cut :
      (version tensors : ℕ) (entries : Metadata) (part rest : Text) (failure : Option Text)
      (h : GgufHeader)
      → IsHeader is_utf8 version tensors entries
      → header_bytes version tensors entries ≡ part ++ rest
      → 0 < length rest
      → parse is_utf8 part failure ≢ ok h
  parse_cut version tensors entries part rest failure h v whole missing accepted =
      let (s, g) = parse-eq-ok is_utf8 part failure h accepted in
      let (used, p, q, r) = (read_header-IsReader is_utf8).took (fresh part failure) h s g in
      let all = header_bytes version tensors entries in
      let same : used ++ (s.bytes ++ rest) ≡ all ++ [] =
        sym (append_assoc used s.bytes rest)
        ∙ ap (λ x. x ++ rest) (sym p)
        ∙ sym whole
        ∙ sym (append-nil all) in
      let back =
        (read_header-Reads version tensors entries v (supported_small version v.supported)).reads []
          none max_header_bytes v.short in
      let cut = r (s.bytes ++ rest) none in
      let left =
        (read_parts _ _ _ _
          (sym cut ∙ ap (λ x. read_header is_utf8 (fresh x none)) same ∙ back)).1 in
      let nothing = ap (λ (x : Budgeted). length x.bytes) left in
      absurd (omega (arith, length-append s.bytes rest))
