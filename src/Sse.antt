-- ===== src/Sse.antt =====
-- crates/mehoy-backend-llama/src/sse.rs: the decoder of server-sent events. Bytes are numbers. What
-- `std::str::from_utf8` accepts is the parameter `is_utf8`; the texts of errors are values.
pub mod Lines
pub mod Chunks
pub mod Room
pub mod Pushes
pub mod RoundTrip
mod Tests
use mehoy_malloy_ai_runtime.Common.{
  ℕ, zero, suc, ◌+◌, Bool, true, false, not, ◌||◌, Option, none, some, List, [], ◌∷◌, ◌++◌, ltb,
  ◌==◌, if◌then◌else◌, Result, ok, err, length, is_empty,
}
use mehoy_malloy_ai_runtime.Common.Text.{Text, text_eq}

abbrev pub max_pending_bytes : ℕ
max_pending_bytes = 8_388_608

pub data SseError : Type 0 where
  event_too_long invalid_utf8 : SseError

pub record SseDecoder : Type 0 where
  pub buffer : Text
  pub data_text : Text
  pub has_data : Bool

abbrev pub new_decoder : SseDecoder
new_decoder = record { buffer = []; data_text = []; has_data = false }

abbrev pub after_return : Text → Option (Text × Text)
after_return [] = none
after_return (b ∷ bs) = some ([], if b == 10 then bs else b ∷ bs)

abbrev pub longer : ℕ → Option (Text × Text) → Option (Text × Text)
longer b none = none
longer b (some (line, left)) = some (b ∷ line, left)

-- `take_line`: the bytes up to the first line ending, and what is left behind it. A carriage return
-- ends a line only once the next byte is known.
unfoldable pub take_line : Text → Option (Text × Text)
take_line [] = none
take_line (b ∷ bs) =
    let rest = take_line bs in
    if b == 10 then some ([], bs) else if b == 13 then after_return bs else longer b rest

abbrev pub strip_space : Text → Text
strip_space [] = []
strip_space (b ∷ bs) = if b == 32 then bs else b ∷ bs

-- The field's name and its value: what stands before and after the first colon, less one space.
unfoldable pub split_field : Text → Text × Text
split_field [] = ([], [])
split_field (b ∷ bs) =
    let (field, value) = split_field bs in
    if b == 58 then ([], strip_space bs) else (b ∷ field, value)

-- The bytes of `data`.
abbrev pub data_field : Text
data_field = 100 ∷ 97 ∷ 116 ∷ 97 ∷ []

unfoldable pub has_partial_event : SseDecoder → Bool
has_partial_event d = not (is_empty d.buffer) || d.has_data

abbrev pub with_event :
    Option Text
    → SseDecoder × Result (List Text) SseError
    → SseDecoder × Result (List Text) SseError
with_event none r = r
with_event (some event) (d, ok events) = (d, ok (event ∷ events))
with_event (some event) (d, err e) = (d, err e)

module _ (is_utf8 : Text → Bool) where
  unfoldable pub consume : Text → SseDecoder → SseDecoder × Result (Option Text) SseError
  unfolding split_field text_eq
  consume [] d =
      if d.has_data
      then (record d { data_text = []; has_data = false }, ok (some d.data_text))
      else (d, ok none)
  consume (b ∷ bs) d =
      let (field, value) = split_field (b ∷ bs) in
      if b == 58
      then (d, ok none)
      else if not (text_eq data_field field)
      then (d, ok none)
      else if is_utf8 value
      then (
        record d {
          data_text = (if d.has_data then d.data_text ++ 10 ∷ [] else d.data_text) ++ value;
          has_data = true;
        },
        ok none,
      )
      else (d, err invalid_utf8)

  -- The loop of `push`. A round takes a byte at least, so more fuel than bytes is enough.
  unfoldable pub take_events : ℕ → SseDecoder → SseDecoder × Result (List Text) SseError
  unfolding take_line consume
  take_events zero d = (d, ok [])
  take_events (suc fuel) d = elim (take_line d.buffer) [
    | none ↦ (d, ok [])
    | some (line, left) ↦
        let (d', r) = consume line (record d { buffer = left }) in
        elim r [ err e ↦ (d', err e) | ok event ↦ with_event event (take_events fuel d') ]
  ]

  unfoldable pub push : Text → SseDecoder → SseDecoder × Result (List Text) SseError
  unfolding take_events
  push chunk d =
      let d' : SseDecoder = record d { buffer = d.buffer ++ chunk } in
      if ltb max_pending_bytes (length d'.buffer) || ltb max_pending_bytes (length d'.data_text)
      then (d', err event_too_long)
      else take_events (length d'.buffer + 1) d'
