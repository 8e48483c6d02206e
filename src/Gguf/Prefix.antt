-- ===== src/Gguf/Prefix.antt =====
-- gguf.rs: an accepted container is decided by a bounded prefix of it.
use mehoy_malloy_ai_runtime.Common.{
  ℕ, zero, suc, ◌≤◌, ◌≡◌, refl, ap, ◌∙◌, inl, inr, Bool, Option, [], ◌++◌, arith, ok, Result-cases,
  ok-injective, length,
}
use mehoy_malloy_ai_runtime.Common.Text.{Text, text_eq}
use mehoy_malloy_ai_runtime.Gguf.{
  Budgeted, max_header_bytes, max_tensor_count, max_metadata_entries, is_supported_version, magic,
}
use mehoy_malloy_ai_runtime.Gguf.Header.{
  GgufHeader, Metadata, put, read_entry, read_entries, check_magic, check_version, read_header,
  parse,
}
use mehoy_malloy_ai_runtime.Gguf.Reading.{
  IsReader, IsReader-bind, IsReader-return, IsReader-refuse, IsReader-if, fetch-IsReader,
  number-IsReader, within-IsReader, read_string-IsReader, read_value-IsReader,
}

-- The reader that `parse` begins with.
abbrev pub fresh : Text → Option Text → Budgeted
fresh bytes failure = record { bytes = bytes; failure = failure; remaining = max_header_bytes }

module _ (is_utf8 : Text → Bool) where
  read_entry-IsReader : IsReader (read_entry is_utf8)
  unfolding read_entry
  read_entry-IsReader = IsReader-bind _ _ (read_string-IsReader is_utf8 "metadata key") (λ key.
      IsReader-bind _ _ (number-IsReader 4 "metadata value type") (λ type_id.
        IsReader-bind _ _ (read_value-IsReader is_utf8 type_id 0)
          (λ value. IsReader-return (key, value))))

  read_entries-IsReader : (n : ℕ) (entries : Metadata) → IsReader (read_entries is_utf8 n entries)
  unfolding read_entries
  read_entries-IsReader zero entries = IsReader-return entries
  read_entries-IsReader (suc n) entries =
      IsReader-bind _ _ read_entry-IsReader (λ e. read_entries-IsReader n (put e.0 e.1 entries))

  pub read_header-IsReader : IsReader (read_header is_utf8)
  unfolding read_header check_magic check_version
  read_header-IsReader = IsReader-bind _ _ (fetch-IsReader 4 "magic" "magic") (λ found.
      IsReader-bind _ _
        (IsReader-if (text_eq magic found) _ _ (IsReader-return tt) (IsReader-refuse _))
        (λ u. IsReader-bind _ _ (number-IsReader 4 "version") (λ version.
          IsReader-bind _ _
            (IsReader-if (is_supported_version version) _ _ (IsReader-return tt)
              (IsReader-refuse _))
            (λ u. IsReader-bind _ _ (number-IsReader 8 "tensor count") (λ tensors.
              IsReader-bind _ _ (within-IsReader "tensor count" tensors max_tensor_count) (λ u.
                IsReader-bind _ _ (number-IsReader 8 "metadata count") (λ count.
                  IsReader-bind _ _ (within-IsReader "metadata count" count max_metadata_entries)
                    (λ u.
                      IsReader-bind _ _ (read_entries-IsReader count [])
                        (λ metadata. IsReader-return _)))))))))

  pub parse-eq-ok :
      (bytes : Text) (failure : Option Text) (h : GgufHeader)
      → parse is_utf8 bytes failure ≡ ok h
      → (s : Budgeted) × (read_header is_utf8 (fresh bytes failure) ≡ ok (h, s))
  unfolding parse
  parse-eq-ok bytes failure h e = elim (Result-cases (read_header is_utf8 (fresh bytes failure))) [
    | inl ((h', s), f) ↦ (s, f ∙ ap (λ x. ok (x, s)) (ok-injective (rw (f, parse) at e)))
    | inr (x, f) ↦ cc (rw (f, parse) at e)
  ]

  pub parse_ok :
      (bytes : Text) (failure : Option Text) (h : GgufHeader) (s : Budgeted)
      → read_header is_utf8 (fresh bytes failure) ≡ ok (h, s)
      → parse is_utf8 bytes failure ≡ ok h
  unfolding parse
  parse_ok bytes failure h s e = rw (e, parse) refl

  -- Only the header of a container is read and paid for: what `parse` accepts begins with some bytes,
  -- no more than the budget, and any source that begins with them is read as the same header,
  -- whatever stands behind them and however the source ends.
  pub parse_prefix :
      (bytes : Text) (failure : Option Text) (h : GgufHeader)
      → parse is_utf8 bytes failure ≡ ok h
      → (used : Text) × (behind : Text) × (bytes ≡ used ++ behind)
        × (length used ≤ max_header_bytes)
        × ((other : Text) (ending : Option Text) → parse is_utf8 (used ++ other) ending ≡ ok h)
  parse_prefix bytes failure h e =
      let (s, f) = parse-eq-ok bytes failure h e in
      let (used, p, q, r) = read_header-IsReader.took (fresh bytes failure) h s f in
      (
        used,
        s.bytes,
        p,
        omega arith,
        λ other ending. parse_ok (used ++ other) ending h _ (r other ending),
      )
