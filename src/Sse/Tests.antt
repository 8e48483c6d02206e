-- ===== src/Sse/Tests.antt =====
-- Runs of the decoder, and its theorem at a cut inside a payload.
use mehoy_malloy_ai_runtime.Common.{
  ◌≡◌, refl, Bool, true, false, ◌&&◌, List, [], ◌∷◌, ◌++◌, arith, ltb, ok,
}
use mehoy_malloy_ai_runtime.Common.Text.{Text, text_eq}
use mehoy_malloy_ai_runtime.Sse.{
  SseDecoder, new_decoder, has_partial_event, push, take_events, consume, split_field, take_line,
}
use mehoy_malloy_ai_runtime.Sse.RoundTrip.{events_bytes, push-events_bytes}

abbrev is_ascii : Text → Bool
is_ascii [] = true
is_ascii (b ∷ bs) = ltb b 128 && is_ascii bs

abbrev data_h : Text
data_h = 100 ∷ 97 ∷ 116 ∷ 97 ∷ 58 ∷ 32 ∷ 104 ∷ []

-- A line ending split between two reads.
abbrev i_return : Text
i_return = 105 ∷ 13 ∷ []

abbrev two_newlines : Text
two_newlines = 10 ∷ 10 ∷ []

abbrev half : SseDecoder
half = record { buffer = data_h; data_text = []; has_data = false }

half_read : push is_ascii data_h new_decoder ≡ (half, ok [])
unfolding push take_events take_line
half_read = refl

whole_read :
    push is_ascii (data_h ++ (i_return ++ two_newlines)) new_decoder
    ≡ (new_decoder, ok ((104 ∷ 105 ∷ []) ∷ []))
unfolding push take_events take_line consume split_field text_eq
whole_read = refl

half_is_partial : has_partial_event half ≡ true
unfolding has_partial_event
half_is_partial = refl

abbrev two_payloads : List Text
two_payloads = (104 ∷ []) ∷ (105 ∷ []) ∷ []

push-events_bytes_example :
    push is_ascii (events_bytes two_payloads) new_decoder ≡ (new_decoder, ok two_payloads)
push-events_bytes_example =
    push-events_bytes is_ascii two_payloads (((refl, tt), refl), (((refl, tt), refl), tt))
      (omega arith)
