-- ===== src/Generate.antt =====
-- crates/mehoy-backend-llama/src/generate.rs: a generation asked of the backend in one answer, and what
-- its answers mean. serde's encoding and parsing are the parameters `encode`, `parse_response` and
-- `parse_error`, each with the text of its error; so is `String::from_utf8_lossy`. What the network
-- does is an argument. Texts are bytes; the headers of a request are not modelled.
pub mod Streaming
pub mod Execution
pub mod Sameness
pub mod Endings
pub mod Outcome
pub mod Rounds
pub mod Payloads
pub mod Cuts
pub mod Whole
mod Tests
use mehoy_malloy_ai_runtime.Common.{
  ℕ, zero, suc, Bool, false, ◌&&◌, ◌||◌, Option, none, some, List, [], ◌∷◌, ltb, leb, ◌==◌,
  if◌then◌else◌, Result, ok, err, ◌>>=◌, length,
}
use mehoy_malloy_ai_runtime.Common.Text.{Text, text_eq}
use mehoy_malloy_ai_runtime.Inference.Generation.{
  TextInput, continuation, FinishReason, stop, length_reached, other, GenerationParameters,
  GenerateTextRequest, GenerationUsage, GenerationResult,
}
use mehoy_malloy_ai_runtime.Inference.Stream.{fixed, figure, quoted, Detail, first}

pub data GenerateError : Type 0 where
  not_supported malformed_response transport : (detail : Detail) → GenerateError
  unauthorised : (status : ℕ) → GenerateError
  rejected : (status : ℕ) (detail : Text) → GenerateError

pub record WireRequest : Type 0 where
  pub prompt : Text
  pub n_predict : Option ℕ
  pub temperature : Option ℕ
  pub seed : Option ℕ
  pub stop : List Text
  pub stream : Bool

pub record WireUsage : Type 0 where
  pub prompt_tokens : ℕ
  pub completion_tokens : ℕ

pub record WireChoice : Type 0 where
  pub text : Text
  pub finish_reason : Option Text

pub record WireResponse : Type 0 where
  pub choices : List WireChoice
  pub usage : Option WireUsage

pub record WireErrorBody : Type 0 where
  pub message : Text
  pub kind : Text

abbrev pub stop_word : Text
stop_word = b's' ∷ b't' ∷ b'o' ∷ b'p' ∷ []

abbrev pub length_word : Text
length_word = b'l' ∷ b'e' ∷ b'n' ∷ b'g' ∷ b't' ∷ b'h' ∷ []

abbrev pub unreported : Text
unreported = b'u' ∷ b'n' ∷ b'r' ∷ b'e' ∷ b'p' ∷ b'o' ∷ b'r' ∷ b't' ∷ b'e' ∷ b'd' ∷ []

-- `not_supported_error`.
abbrev pub not_supported_kind : Text
not_supported_kind =
    b'n' ∷ b'o' ∷ b't' ∷ b'_' ∷ b's' ∷ b'u' ∷ b'p' ∷ b'p' ∷ b'o' ∷ b'r' ∷ b't' ∷ b'e' ∷ b'd' ∷ b'_'
    ∷ b'e' ∷ b'r' ∷ b'r' ∷ b'o' ∷ b'r' ∷ []

unfoldable pub finish_reason_for : Option Text → FinishReason
unfolding text_eq
finish_reason_for none = other unreported
finish_reason_for (some word) =
    if text_eq word stop_word
    then stop
    else if text_eq word length_word
    then length_reached
    else other word

abbrev pub usage_of : Option WireUsage → Option GenerationUsage
usage_of none = none
usage_of (some u) =
    some (record { input_tokens = u.prompt_tokens; output_tokens = u.completion_tokens })

abbrev pub is_success : ℕ → Bool
is_success status = leb 200 status && ltb status 300

abbrev pub is_continuation : ℕ → Bool
is_continuation b = leb 0x80 b && ltb b 0xc0

-- `chars().take(n).collect()`: a character is its first byte and the bytes that continue it.
unfoldable pub take_chars : ℕ → Text → Text
take_chars n [] = []
take_chars zero (b ∷ bs) =
    let rest = take_chars zero bs in if is_continuation b then b ∷ rest else []
take_chars (suc n) (b ∷ bs) =
    let same = take_chars (suc n) bs in
    let rest = take_chars n bs in if is_continuation b then b ∷ same else b ∷ rest

-- `describe`: the error, and an excerpt of what could not be parsed.
unfoldable pub describe : Text → Text → Detail
unfolding take_chars
describe error payload =
    let excerpt = take_chars 120 payload in
    if ltb (length excerpt) (length payload)
    then quoted error ∷ fixed ", in: " ∷ quoted excerpt ∷ fixed "..." ∷ []
    else quoted error ∷ fixed ", in: " ∷ quoted excerpt ∷ []

abbrev pub input_text : TextInput → Text
input_text (continuation t) = t

-- What is sent for a request, in one answer or as a stream.
unfoldable pub wire_request : Bool → GenerateTextRequest → WireRequest
wire_request stream r = record {
  prompt = input_text r.input;
  n_predict = r.parameters.max_output_tokens;
  temperature = r.parameters.temperature;
  seed = r.parameters.seed;
  stop = r.parameters.stop;
  stream = stream;
}

-- The texts of errors, by `Display for GenerateError`.
unfoldable pub error_text : GenerateError → Detail
error_text (not_supported detail) = fixed "the backend does not generate text as started: " ∷ detail
error_text (malformed_response detail) =
    fixed "the backend's generation response was not usable: " ∷ detail
error_text (transport detail) = fixed "the generation request failed: " ∷ detail
error_text (unauthorised status) =
    fixed "the backend refused the runtime's credential (" ∷ figure status ∷ fixed ")" ∷ []
error_text (rejected status detail) =
    fixed "the backend rejected the request (" ∷ figure status ∷ fixed "): " ∷ quoted detail ∷ []

-- What the steps of `post` answer, each with the text of its error: the connection, the handshake,
-- the request that was built, the status of the response, and its collected body.
pub record Exchange : Type 0 where
  pub connects : Result (Unit {0}) Text
  pub shakes_hands : Result (Unit {0}) Text
  pub builds : Result (Unit {0}) Text
  pub responds : Result ℕ Text
  pub collects : Result Text Text

abbrev pub carried {ℓ} : {A : Type ℓ} → Result A Text → Result A GenerateError
carried (ok a) = ok a
carried (err e) = err (transport (quoted e ∷ []))

unfoldable pub post : Exchange → Result (ℕ × Text) GenerateError
post x = do
  _ ← carried x.connects
  _ ← carried x.shakes_hands
  _ ← carried x.builds
  status ← carried x.responds
  bytes ← carried x.collects
  ok (status, bytes)

module _ (parse_error : Text → Option WireErrorBody) (from_utf8_lossy : Text → Text) where
  -- The message and the kind of a refusal.
  abbrev pub error_body : Text → Text × Text
  error_body bytes = elim (parse_error bytes) [
    | none ↦ (from_utf8_lossy bytes, [])
    | some body ↦ (body.message, body.kind)
  ]

  unfoldable pub classify : ℕ → Text → GenerateError
  unfolding text_eq
  classify status bytes =
      let (said, kind) = error_body bytes in
      if status == 401 || status == 403
      then unauthorised status
      else if status == 501
      then not_supported (quoted said ∷ [])
      else if text_eq kind not_supported_kind
      then not_supported (quoted said ∷ [])
      else rejected status said

module _ (encode : WireRequest → Result Text Text)
    (parse_response : Text → Result WireResponse Text) (parse_error : Text → Option WireErrorBody)
    (from_utf8_lossy : Text → Text) where
  abbrev pub first_choice : WireResponse → Result GenerationResult GenerateError
  first_choice wire = elim (first wire.choices) [
    | none ↦ err (malformed_response (fixed "the response contained no choices" ∷ []))
    | some choice ↦ ok (record {
      text = choice.text;
      finish_reason = finish_reason_for choice.finish_reason;
      usage = usage_of wire.usage;
    })
  ]

  abbrev pub understood : Result WireResponse Text → Result WireResponse GenerateError
  understood (ok wire) = ok wire
  understood (err e) = err (malformed_response (quoted e ∷ []))

  abbrev pub encoded : Result Text Text → Result Text GenerateError
  encoded (ok body) = ok body
  encoded (err e) = err (malformed_response (fixed "cannot encode the request: " ∷ quoted e ∷ []))

  abbrev pub in_time : Option Exchange → Result (ℕ × Text) GenerateError
  in_time none = err (transport (fixed "no response within " ∷ figure 300 ∷ fixed "s" ∷ []))
  in_time (some x) = post x

  -- `generate`, given what the exchange of a body gives: nothing where the budget ran out.
  unfoldable pub generate :
      (Text → Option Exchange) → GenerateTextRequest → Result GenerationResult GenerateError
  unfolding wire_request finish_reason_for classify post
  generate exchange r = do
    body ← encoded (encode (wire_request false r))
    (status, bytes) ← in_time (exchange body)
    (if is_success status
        then (do wire ← understood (parse_response bytes); first_choice wire)
        else err (classify parse_error from_utf8_lossy status bytes))
