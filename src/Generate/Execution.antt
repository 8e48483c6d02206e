-- ===== src/Generate/Execution.antt =====
-- generate.rs: the whole task, from the encoded request to the end of its sink, and its start.
use mehoy_malloy_ai_runtime.Common.{
  ℕ, Bool, true, Option, none, some, List, [], ◌∷◌, ◌++◌, if◌then◌else◌, Result, ok, err,
}
use mehoy_malloy_ai_runtime.Common.Text.{Text}
use mehoy_malloy_ai_runtime.Cancel.{CancellationCause, RequestHandle, Op, mark_running}
use mehoy_malloy_ai_runtime.Inference.Generation.{GenerateTextRequest}
use mehoy_malloy_ai_runtime.Inference.Stream.{
  Detail, fixed, quoted, refused, transport, StreamItem, GenerationSink, GenerationStream,
  generation_stream, Ending, ends_cancelled, ends_failed,
}
use mehoy_malloy_ai_runtime.Sse.{new_decoder}
use mehoy_malloy_ai_runtime.Generate.{
  WireRequest, WireResponse, WireErrorBody, is_success, classify, error_text, wire_request,
}
use mehoy_malloy_ai_runtime.Generate.Streaming.{
  Step, with_handle, within, Verdict, Round, Reading, body_loop, ending_of, Sent, end_with,
}

-- What the task meets: the answers of its steps in their order. `collects` is the body of a refusal,
-- `rounds` the waits for the frames of a response, and `late` what the other holders do before the
-- sink is ended.
pub record Course : Type 0 where
  pub connects : Step (Result (Unit {0}) Text)
  pub shakes_hands : Step (Result (Unit {0}) Text)
  pub builds : Result (Unit {0}) Text
  pub responds : Step (Result ℕ Text)
  pub collects : Step (Result Text Text)
  pub rounds : List Round
  pub late : List Op

-- A part of the task: it may leave with how the sink is to be ended.
abbrev pub Task : Type 0 → Type 0
Task A = GenerationSink → GenerationSink × Result A Ending

abbrev pub then_do :
    {A B : Type 0}
    → (A → Task B)
    → GenerationSink × Result A Ending
    → GenerationSink × Result B Ending
then_do f (sink, err ending) = (sink, err ending)
then_do f (sink, ok a) = f a sink

infixl 5 ◌>>=◌ ◌>>◌
abbrev pub ◌>>=◌ : {A B : Type 0} → Task A → (A → Task B) → Task B
◌>>=◌ m f sink = then_do f (m sink)

abbrev pub ◌>>◌ : {A B : Type 0} → Task A → Task B → Task B
m >> k = m >>= λ _. k

abbrev pub yields : {A : Type 0} → Result A Ending → Task A
yields r sink = (sink, r)

abbrev pub given_body : Result Text Detail → Result Text Ending
given_body (ok body) = ok body
given_body (err detail) = err (ends_failed (transport detail))

abbrev pub carried : {A : Type 0} → Result A Text → Result A Ending
carried (ok a) = ok a
carried (err e) = err (ends_failed (transport (quoted e ∷ [])))

abbrev pub arrived : {A : Type 0} → Result (Result A Text) CancellationCause → Result A Ending
arrived (err cause) = err (ends_cancelled cause)
arrived (ok r) = carried r

-- A step of `execute` under `within`.
unfoldable pub awaits : {A : Type 0} → Step (Result A Text) → Task A
unfolding within
awaits step sink = let (sink', r) = within step sink in (sink', arrived r)

abbrev pub marks_running : Task (Unit {0})
marks_running sink = (with_handle (mark_running sink.handle) sink, ok tt)

-- `execute` up to the response, from its last step: the request is sent, and answered by a status.
unfoldable pub send : Course → Task ℕ
unfolding awaits mark_running
send x = do status ← awaits x.responds; marks_running; yields (ok status)

unfoldable pub build : Course → Task ℕ
unfolding send
build x = do yields (carried x.builds); send x

unfoldable pub shake_hands : Course → Task ℕ
unfolding awaits build
shake_hands x = do awaits x.shakes_hands; build x

unfoldable pub connect : Course → Task ℕ
unfolding awaits shake_hands
connect x = do awaits x.connects; shake_hands x

unfoldable pub prepare : Result Text Detail → Course → Task ℕ
unfolding connect
prepare body x = do sent ← yields (given_body body); connect x

-- `read`, behind its loop.
unfoldable pub conclude : List Op → List StreamItem × Reading × Option Verdict → Sent
unfolding ending_of end_with
conclude late (items, r, none) = (items, none)
conclude late (items, r, some verdict) =
    let (last, left) = end_with late (ending_of r verdict) r.sink in (items ++ last, left)

abbrev pub body_of : Result Text Text → Result Text Detail
body_of (ok body) = ok body
body_of (err e) = err (fixed "cannot encode the request: " ∷ quoted e ∷ [])

module _ (parse_response : Text → Result WireResponse Text) (is_utf8 : Text → Bool)
    (parse_error : Text → Option WireErrorBody) (from_utf8_lossy : Text → Text) where
  abbrev pub refusal : ℕ → Result (Result Text Text) CancellationCause → Ending
  refusal status (err cause) = ends_cancelled cause
  refusal status (ok (err e)) = ends_failed (refused (quoted e ∷ []))
  refusal status (ok (ok bytes)) =
      ends_failed (refused (error_text (classify parse_error from_utf8_lossy status bytes)))

  unfoldable pub read : List Round → List Op → GenerationSink → Sent
  unfolding body_loop conclude
  read rounds late sink = conclude late (
      body_loop parse_response is_utf8 rounds
        (record { decoder = new_decoder; terminal = none; sink = sink }))

  -- `execute` behind the response.
  unfoldable pub respond : Course → GenerationSink × Result ℕ Ending → Sent
  unfolding within classify read end_with
  respond x (s, err ending) = end_with x.late ending s
  respond x (s, ok status) =
      if is_success status
      then read x.rounds x.late s
      else (let (s', collected) = within x.collects s in
          end_with x.late (refusal status collected) s')

  unfoldable pub execute : Result Text Detail → Course → GenerationSink → Sent
  unfolding prepare respond
  execute body x sink = respond x (prepare body x sink)

  -- `start_generation`: the consumer's stream, what the channel holds from the start, and what the
  -- task that is spawned sends behind it.
  unfoldable pub start_generation :
      (WireRequest → Result Text Text)
      → GenerateTextRequest
      → RequestHandle
      → Course
      → GenerationStream × StreamItem × Sent
  unfolding wire_request generation_stream execute
  start_generation encode request handle x =
      let (sink, stream, item) = generation_stream handle in
      (stream, item, execute (body_of (encode (wire_request true request))) x sink)
