-- ===== src/Sse/Room.antt =====
-- sse.rs: one chunk after the other, and the room that the decoder's limits leave for them.
use mehoy_malloy_ai_runtime.Common.{
  ℕ, zero, suc, ◌+◌, ◌≤◌, ◌<◌, ◌≡◌, refl, ap, ◌⊎◌, inl, inr, Bool, Option, none, some, [], ◌∷◌,
  ◌++◌, arith, ◌==◌, Bool-cases, Option-cases, Result, ok, err, length, length-append,
}
use mehoy_malloy_ai_runtime.Common.Text.{Text, text_eq, text_eq→eq}
use mehoy_malloy_ai_runtime.Sse.{
  SseError, SseDecoder, take_line, split_field, strip_space, data_field, consume, with_event,
  take_events, push,
}
use mehoy_malloy_ai_runtime.Sse.Lines.{take_line-parts}
use mehoy_malloy_ai_runtime.Sse.Chunks.{
  Taken, after_line, with_buffer, take_events-none, take_events-some,
}

-- The bytes that the decoder keeps.
abbrev pub kept : SseDecoder → ℕ
kept d = length d.buffer + length d.data_text

strip_space-length : (t : Text) → length (strip_space t) ≤ length t
strip_space-length [] = omega arith
strip_space-length (b ∷ bs) = ground arith

split_field-length : (t : Text) → length (split_field t).0 + length (split_field t).1 ≤ length t
unfolding split_field
split_field-length [] = omega arith
split_field-length (b ∷ bs) = ground (arith, split_field-length bs, strip_space-length bs)

split_field_value :
    (t : Text)
    → (length (split_field t).1 ≡ 0)
      ⊎ (length (split_field t).0 + length (split_field t).1 < length t)
unfolding split_field
split_field_value [] = inl refl
split_field_value (b ∷ bs) = elim (Bool-cases (b == 58)) [
  | inl e ↦ rw e (inr (let s = strip_space-length bs in omega arith))
  | inr e ↦ rw e (elim (split_field_value bs) [ inl z ↦ inl z | inr z ↦ inr (omega arith) ])
]

module _ (is_utf8 : Text → Bool) where
  consume-length :
      (line : Text) (d : SseDecoder)
      → length (consume is_utf8 line d).0.data_text ≤ length d.data_text + length line
  unfolding consume
  consume-length [] d = ground arith
  consume-length (b ∷ bs) d = elim (Bool-cases (text_eq data_field (split_field (b ∷ bs)).0)) [
    | inl e ↦
        let f = ap length (text_eq→eq data_field (split_field (b ∷ bs)).0 e) in
        let v = split_field_value (b ∷ bs) in
        let l = length-append d.data_text (10 ∷ []) in
        let m = length-append d.data_text (split_field (b ∷ bs)).1 in
        let n = length-append (d.data_text ++ 10 ∷ []) (split_field (b ∷ bs)).1 in ground arith
    | inr e ↦ ground arith
  ]

  after_line-kept :
      (f : SseDecoder → Taken) (left : Text) (c : SseDecoder × Result (Option Text) SseError)
      → ((d : SseDecoder) → kept (f d).0 ≤ kept d)
      → kept (after_line f (with_buffer left c.0, c.1)).0 ≤ length left + length c.0.data_text
  after_line-kept f left (d, err e) go = omega arith
  after_line-kept f left (d, ok none) go = let k = go (with_buffer left d) in omega arith
  after_line-kept f left (d, ok (some event)) go =
      let k = go (with_buffer left d) in
      let e = with_event-kept event (f (with_buffer left d)) in omega arith
    where
      with_event-kept : (event : Text) (t : Taken) → kept (with_event (some event) t).0 ≡ kept t.0
      with_event-kept event (d, ok events) = refl
      with_event-kept event (d, err e) = refl

  take_events-kept : (n : ℕ) (d : SseDecoder) → kept (take_events is_utf8 n d).0 ≤ kept d
  unfolding take_events
  take_events-kept zero d = omega arith
  take_events-kept (suc n) d = elim (Option-cases (take_line d.buffer)) [
    | inl e ↦ rw (take_events-none is_utf8 n d e) (omega arith)
    | inr ((line, left), e) ↦ rw (take_events-some is_utf8 n d line left e) (
        let p = take_line-parts d.buffer line left e in
        let q = consume-length line d in
        let k =
          after_line-kept (take_events is_utf8 n) left (consume is_utf8 line d)
            (take_events-kept n) in
        omega arith)
  ]

  -- What the decoder keeps is at most what was pushed.
  pub push-kept :
      (chunk : Text) (d : SseDecoder) → kept (push is_utf8 chunk d).0 ≤ kept d + length chunk
  unfolding push
  push-kept chunk d =
      let l = length-append d.buffer chunk in
      let k =
        take_events-kept (length (d.buffer ++ chunk) + 1)
          (record d { buffer = d.buffer ++ chunk }) in
      ground arith
