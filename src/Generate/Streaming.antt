-- ===== src/Generate/Streaming.antt =====
-- generate.rs: the task that runs a streamed generation: it connects, sends the request, reads the
-- body of the response as events and ends the sink. Between two of its steps the other holders of the
-- handle act. What the network does, and whether the consumer is still there, are arguments.
use mehoy_malloy_ai_runtime.Common.{
  ℕ, ◌-◌, Bool, Option, none, some, List, [], ◌∷◌, ◌++◌, ltb, if◌then◌else◌, Result, ok, err,
}
use mehoy_malloy_ai_runtime.Common.Text.{Text, text_eq}
use mehoy_malloy_ai_runtime.Common.Spaces.{trim}
use mehoy_malloy_ai_runtime.Cancel.{
  CancellationCause, stream_idle_timeout, consumer_gone, RequestHandle, Op,
}
use mehoy_malloy_ai_runtime.Cancel.{run, cancel}
use mehoy_malloy_ai_runtime.Inference.Stream.{
  Detail, fixed, figure, quoted, GenerationSummary, GenerationStreamError, malformed_event,
  unexpected_end, transport, StreamItem, GenerationSink, delta, delta_taken, Ending, ends_complete,
  ends_cancelled, ends_failed, end_sink, first, cons_some,
}
use mehoy_malloy_ai_runtime.Sse.{
  SseError, event_too_long, invalid_utf8, SseDecoder, has_partial_event, push, max_pending_bytes,
}
use mehoy_malloy_ai_runtime.Generate.{
  WireChoice, WireResponse, finish_reason_for, usage_of, describe,
}

-- One wait of the task: what the other holders did before it, whether the consumer had gone, and
-- what was awaited, nothing where the budget ran out first.
pub record Step (A : Type 0) : Type 0 where
  pub others : List Op
  pub closed : Bool
  pub outcome : Option A

abbrev pub with_handle : RequestHandle → GenerationSink → GenerationSink
with_handle h sink = record sink { handle = h }

abbrev pub unwrap_or {ℓ} : {A : Type ℓ} → A → Option A → A
unwrap_or a none = a
unwrap_or a (some b) = b

abbrev pub out_of_time : RequestHandle → RequestHandle
out_of_time h = record h { token = (cancel stream_idle_timeout h.token).0 }

-- The select is biased: a cancellation comes first, then the consumer's leaving, then the work.
unfoldable pub within :
    {A : Type 0} → Step A → GenerationSink → GenerationSink × Result A CancellationCause
unfolding run cancel
within step sink =
    let h = run step.others sink.handle in
    elim h.token.signal [
      | some cause ↦ (with_handle h sink, err cause)
      | none ↦ if step.closed then (with_handle h sink, err consumer_gone) else elim step.outcome [
        | some a ↦ (with_handle h sink, ok a)
        | none ↦ (
          with_handle (out_of_time h) sink,
          err (unwrap_or stream_idle_timeout (out_of_time h).token.signal),
        )
      ]
    ]

pub data Interruption : Type 0 where
  cancelled_by : CancellationCause → Interruption
  failed_by : GenerationStreamError → Interruption

pub data EndOfBody : Type 0 where
  marked closed : EndOfBody

-- How the loop over the body ended.
abbrev pub Verdict : Type 0
Verdict = Result EndOfBody Interruption

-- The payload that ends a stream of events.
abbrev pub done_marker : Text
done_marker = b'[' ∷ b'D' ∷ b'O' ∷ b'N' ∷ b'E' ∷ b']' ∷ []

abbrev pub sse_detail : SseError → Detail
sse_detail event_too_long =
    fixed "a single event exceeded " ∷ figure max_pending_bytes ∷ fixed " bytes without ending" ∷ []
sse_detail invalid_utf8 = fixed "a data line was not valid UTF-8" ∷ []

-- The finish reason that a choice reports, with the usage of its response.
abbrev pub summary_of :
    WireResponse → WireChoice → Option GenerationSummary → Option GenerationSummary
summary_of parsed choice terminal = elim choice.finish_reason [
  | none ↦ terminal
  | some word ↦
      some (record { finish_reason = finish_reason_for (some word); usage = usage_of parsed.usage })
]

pub data Frame : Type 0 where
  ended trailers : Frame
  broken : (error : Text) → Frame
  chunk : (bytes : Text) → Frame

-- A round of the loop over the body: its wait, and how many items the channel still takes in it
-- before the consumer leaves.
pub record Round : Type 0 where
  pub step : Step Frame
  pub room : ℕ

pub record Reading : Type 0 where
  pub decoder : SseDecoder
  pub terminal : Option GenerationSummary
  pub sink : GenerationSink

abbrev pub less : Option StreamItem → ℕ → ℕ
less none room = room
less (some item) room = room - 1

abbrev pub Taken : Type 0
Taken = List StreamItem × Option GenerationSummary × Option Verdict

abbrev pub item_first : Option StreamItem → Taken → Taken
item_first item (items, terminal, verdict) = (cons_some item items, terminal, verdict)

-- What a loop over the body has sent, where it stands and how it was left, if it was.
abbrev pub Looped : Type 0
Looped = List StreamItem × Reading × Option Verdict

abbrev pub items_first : List StreamItem → Looped → Looped
items_first items (more, r, verdict) = (items ++ more, r, verdict)

abbrev pub go_on : (Reading → Looped) → List StreamItem → Reading → Option Verdict → Looped
go_on rest items r (some verdict) = (items, r, some verdict)
go_on rest items r none = items_first items (rest r)

-- What the loop does with a meaning, given how it goes on with the next payload.
unfoldable pub pass_on :
    (ℕ → Option GenerationSummary → Taken)
    → ℕ
    → Option GenerationSummary
    → GenerationSink
    → Result (Option Text × Option GenerationSummary) Verdict
    → Taken
unfolding delta delta_taken
pass_on rest room terminal sink (err verdict) = ([], terminal, some verdict)
pass_on rest room terminal sink (ok (none, terminal')) = rest room terminal'
pass_on rest room terminal sink (ok (some text, terminal')) =
    if delta_taken (ltb 0 room) text sink
    then item_first (delta text sink) (rest (less (delta text sink) room) terminal')
    else ([], terminal', some (err (cancelled_by consumer_gone)))

module _ (parse_response : Text → Result WireResponse Text) where
  -- What a payload means: a text to pass on, or none, and the summary so far; or the loop is left.
  unfoldable pub understand :
      Text → Option GenerationSummary → Result (Option Text × Option GenerationSummary) Verdict
  unfolding trim text_eq describe finish_reason_for
  understand payload terminal =
      if text_eq (trim payload) done_marker
      then err (ok marked)
      else elim (parse_response payload) [
        | err e ↦ err (err (failed_by (malformed_event (describe e payload))))
        | ok parsed ↦ elim (first parsed.choices) [
          | none ↦ ok (none, terminal)
          | some choice ↦ ok (some choice.text, summary_of parsed choice terminal)
        ]
      ]

  -- The loop over the payloads of one frame.
  unfoldable pub take_payloads : ℕ → List Text → Option GenerationSummary → GenerationSink → Taken
  unfolding understand pass_on
  take_payloads room [] terminal sink = ([], terminal, none)
  take_payloads room (payload ∷ payloads) terminal sink =
      pass_on (λ room' terminal'. take_payloads room' payloads terminal' sink) room terminal sink
        (understand payload terminal)

  module _ (is_utf8 : Text → Bool) where
    -- The rest of a round behind the decoder, given how the loop goes on.
    unfoldable pub take_pushed :
        (Reading → Looped) → ℕ → Reading → Result (List Text) SseError → Looped
    unfolding take_payloads
    take_pushed rest room r (err e) =
        ([], r, some (err (failed_by (malformed_event (sse_detail e)))))
    take_pushed rest room r (ok payloads) =
        let (items, terminal, left) = take_payloads room payloads r.terminal r.sink in
        go_on rest items (record r { terminal = terminal }) left

    -- A round behind its wait.
    unfoldable pub take_frame :
        (Reading → Looped) → ℕ → Reading → Result Frame CancellationCause → Looped
    unfolding push take_pushed
    take_frame rest room r (err cause) = ([], r, some (err (cancelled_by cause)))
    take_frame rest room r (ok ended) = ([], r, some (ok closed))
    take_frame rest room r (ok (broken e)) =
        ([], r, some (err (failed_by (transport (quoted e ∷ [])))))
    take_frame rest room r (ok trailers) = rest r
    take_frame rest room r (ok (chunk bytes)) =
        let (decoder, pushed) = push is_utf8 bytes r.decoder in
        take_pushed rest room (record r { decoder = decoder }) pushed

    -- The loop over the body. Behind the last of the rounds the task still waits.
    unfoldable pub body_loop : List Round → Reading → Looped
    unfolding within take_frame
    body_loop [] r = ([], r, none)
    body_loop (round ∷ rounds) r =
        let (sink, waited) = within round.step r.sink in
        take_frame (body_loop rounds) round.room (record r { sink = sink }) waited

abbrev pub end_detail : EndOfBody → SseDecoder → Detail
end_detail marked d =
    fixed "the backend ended the stream without reporting why generation stopped" ∷ []
end_detail closed d =
    if has_partial_event d
    then fixed "the backend closed the connection part way through an event" ∷ []
    else fixed "the backend closed the connection before completing" ∷ []

-- How the sink is ended, by how the loop was left.
unfoldable pub ending_of : Reading → Verdict → Ending
unfolding has_partial_event
ending_of r (err (cancelled_by cause)) = ends_cancelled cause
ending_of r (err (failed_by error)) = ends_failed error
ending_of r (ok end) = elim r.terminal [
  | some summary ↦ ends_complete summary
  | none ↦ ends_failed (unexpected_end (end_detail end r.decoder))
]

-- What was sent, and the sink that was ended, if the task has come so far. The other holders act a
-- last time before.
abbrev pub Sent : Type 0
Sent = List StreamItem × Option GenerationSink

unfoldable pub end_with : List Op → Ending → GenerationSink → Sent
unfolding run end_sink
end_with late ending sink =
    let (left, item) = end_sink ending (with_handle (run late sink.handle) sink) in
    (cons_some item [], some left)
