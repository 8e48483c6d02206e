-- ===== src/Sse/RoundTrip.antt =====
-- sse.rs: payloads framed as events, one line of data each, are what the decoder gives back.
use mehoy_malloy_ai_runtime.Common.{
  ℕ, zero, suc, ◌+◌, ◌≤◌, ◌<◌, ◌≡◌, refl, ap, ◌∙◌, Bool, true, false, ◌||◌, some, List, [], ◌∷◌,
  ◌++◌, arith, ◌==◌, ok, length, All, length-append,
}
use mehoy_malloy_ai_runtime.Common.Text.{Text, text_eq}
use mehoy_malloy_ai_runtime.Sse.{
  new_decoder, max_pending_bytes, take_line, split_field, data_field, consume, with_event,
  take_events, push,
}
use mehoy_malloy_ai_runtime.Sse.Lines.{take_line-newline, take_line-other}
use mehoy_malloy_ai_runtime.Sse.Chunks.{
  with_buffer, take_events-none, take_events-some, push-take_events,
}

-- An event as a server writes it: its line of data, and an empty line.
abbrev pub data_line : Text → Text
data_line p = data_field ++ (58 ∷ 32 ∷ p)

abbrev pub events_bytes : List Text → Text
events_bytes [] = []
events_bytes (p ∷ ps) = data_line p ++ (10 ∷ 10 ∷ events_bytes ps)

-- Neither byte that can end a line.
abbrev pub IsLine : Text → Type 0
IsLine = All (λ b. (b == 10) || (b == 13) ≡ false)

-- A payload that stands on one line.
abbrev pub IsPayload : (Text → Bool) → Text → Type 0
IsPayload is_utf8 p = IsLine p × (is_utf8 p ≡ true)

take_line-line : (t rest : Text) → IsLine t → take_line (t ++ (10 ∷ rest)) ≡ some (t, rest)
take_line-line [] rest h = take_line-newline 10 rest refl
take_line-line (b ∷ t) rest (p, h) =
    let n : (b == 10) ≡ false = ground arith in
    let r : (b == 13) ≡ false = ground arith in
    rw (take_line-other b (t ++ (10 ∷ rest)) n r, take_line-line t rest h) refl

data_line-IsLine : (p : Text) → IsLine p → IsLine (data_line p)
data_line-IsLine p h = (refl, (refl, (refl, (refl, (refl, (refl, h))))))

module _ (is_utf8 : Text → Bool) where
  take_events-event :
      (n : ℕ) (p rest : Text)
      → IsPayload is_utf8 p
      → take_events is_utf8
          (suc (suc n))
          (with_buffer (data_line p ++ (10 ∷ 10 ∷ rest)) new_decoder)
        ≡ with_event (some p) (take_events is_utf8 n (with_buffer rest new_decoder))
  unfolding consume split_field text_eq
  take_events-event n p rest (l, u) =
      take_events-some is_utf8 (suc n) (with_buffer (data_line p ++ (10 ∷ 10 ∷ rest)) new_decoder)
        (data_line p) (10 ∷ rest) (take_line-line (data_line p) (10 ∷ rest) (data_line-IsLine p l))
      ∙ rw u (
          take_events-some is_utf8 n (record { buffer = 10 ∷ rest; data_text = p; has_data = true })
            [] rest (take_line-newline 10 rest refl))

  take_events-events :
      (ps : List Text) (n : ℕ)
      → All (IsPayload is_utf8) ps
      → length (events_bytes ps) < n
      → take_events is_utf8 n (with_buffer (events_bytes ps) new_decoder) ≡ (new_decoder, ok ps)
  take_events-events ps zero h l = absurd (omega arith)
  take_events-events [] (suc n) h l =
      take_events-none is_utf8 n new_decoder (unfold take_line in refl)
  take_events-events (p ∷ ps) (suc zero) h l =
      absurd (let k = length-append (data_line p) (10 ∷ 10 ∷ events_bytes ps) in omega arith)
  take_events-events (p ∷ ps) (suc (suc n)) (h, hs) l =
      let k = length-append (data_line p) (10 ∷ 10 ∷ events_bytes ps) in
      take_events-event n p (events_bytes ps) h
      ∙ ap (with_event (some p)) (take_events-events ps n hs (omega arith))

  -- What a server frames is what is decoded: payloads that are UTF-8 and stand on one line each, sent
  -- as events whose bytes are together within the decoder's limit, are the payloads that a new
  -- decoder gives, and it keeps nothing behind them.
  pub push-events_bytes :
      (ps : List Text)
      → All (IsPayload is_utf8) ps
      → length (events_bytes ps) ≤ max_pending_bytes
      → push is_utf8 (events_bytes ps) new_decoder ≡ (new_decoder, ok ps)
  push-events_bytes ps h l =
      push-take_events is_utf8 (events_bytes ps) new_decoder (l, omega arith)
      ∙ take_events-events ps (length (events_bytes ps) + 1) h (omega arith)
