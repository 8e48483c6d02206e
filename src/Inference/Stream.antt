-- ===== src/Inference/Stream.antt =====
-- inference.rs, lines 525 to 975: the events of a streaming generation, the sink that the reading
-- task writes and the stream that a consumer reads. The bounded channel between them is tokio's: of
-- it the model uses what a call of `recv` returns, an argument of `next`, and what a call of `send`
-- is given, a result of the sink's methods. The handle is the one both ends share.
pub mod Delivery
mod Tests
use mehoy_malloy_ai_runtime.Common.Text.{Text}
use mehoy_malloy_ai_runtime.Cancel.{
  CancellationCause, RequestState, completed, cancelled, failed, is_terminal, RequestHandle,
  request_cancellation, finish,
}
use mehoy_malloy_ai_runtime.Inference.Generation.{FinishReason, GenerationUsage, GenerationResult}
use mehoy_malloy_ai_runtime.Common.{
  ℕ, ◌+◌, String, Bool, true, false, ◌&&◌, Option, none, some, List, [], ◌∷◌, ◌++◌, ltb,
  if◌then◌else◌, Result, ok, err, is_empty,
}

pub record GenerationSummary : Type 0 where
  pub finish_reason : FinishReason
  pub usage : Option GenerationUsage

pub data GenerationEvent : Type 0 where
  started : (request_id : ℕ) → GenerationEvent
  text_delta : (request_id : ℕ) → Text → GenerationEvent
  completes : (request_id : ℕ) → GenerationSummary → GenerationEvent
  cancels : (request_id : ℕ) → CancellationCause → GenerationEvent

-- A text as `format!` builds it, piece by piece.
pub data Part : Type 0 where
  fixed : String → Part
  figure : ℕ → Part
  quoted : Text → Part

abbrev pub Detail : Type 0
Detail = List Part

pub data GenerationStreamError : Type 0 where
  refused malformed_event unexpected_end transport : (detail : Detail) → GenerationStreamError

abbrev pub stopped : GenerationStreamError
stopped = unexpected_end (fixed "the backend stream stopped without reporting an outcome" ∷ [])

abbrev pub never_ended : GenerationStreamError
never_ended = unexpected_end (fixed "the stream ended without a terminal event" ∷ [])

abbrev pub StreamItem : Type 0
StreamItem = Result GenerationEvent GenerationStreamError

pub record GenerationSink : Type 0 where
  pub handle : RequestHandle
  pub finished : Bool

pub record GenerationStream : Type 0 where
  pub handle : RequestHandle
  pub deltas : ℕ
  pub completed : Bool
  pub cancelled : Option CancellationCause
  pub finished : Bool

-- `generation_stream`: both ends, and the event that the channel holds from the start.
unfoldable pub generation_stream : RequestHandle → GenerationSink × GenerationStream × StreamItem
generation_stream h = (
  record { handle = h; finished = false },
  record { handle = h; deltas = 0; completed = false; cancelled = none; finished = false },
  ok (started h.id),
)

-- What `delta` sends: nothing for an empty text, and nothing once the sink is finished.
unfoldable pub delta : Text → GenerationSink → Option StreamItem
delta text s =
    if s.finished
    then none
    else if is_empty text
    then none
    else some (ok (text_delta s.handle.id text))

-- What `delta` answers: whether the consumer is still there, given whether the channel took the item.
unfoldable pub delta_taken : Bool → Text → GenerationSink → Bool
delta_taken received text s = if s.finished then false else if is_empty text then true else received

unfoldable pub complete : GenerationSummary → GenerationSink → GenerationSink × Option StreamItem
complete summary s = if s.finished then (s, none) else (
  record { handle = (finish completed s.handle).0; finished = true },
  some (ok (completes s.handle.id summary)),
)

unfoldable pub cancel : CancellationCause → GenerationSink → GenerationSink × Option StreamItem
cancel cause s = if s.finished then (s, none) else (
  record {
    handle = (finish RequestState.cancelled (request_cancellation cause s.handle).0).0;
    finished = true;
  },
  some (ok (cancels s.handle.id cause)),
)

unfoldable pub fail : GenerationStreamError → GenerationSink → GenerationSink × Option StreamItem
fail error s =
    if s.finished
    then (s, none)
    else (record { handle = (finish failed s.handle).0; finished = true }, some (err error))

-- `Drop for GenerationSink`.
unfoldable pub drop_sink : GenerationSink → GenerationSink
drop_sink s = if s.finished then s else record s { handle = (finish failed s.handle).0 }

abbrev pub note_event : GenerationEvent → GenerationStream → GenerationStream
note_event (started id) s = s
note_event (text_delta id text) s = record s { deltas = s.deltas + 1 }
note_event (completes id summary) s = record s { completed = true; finished = true }
note_event (cancels id cause) s = record s { cancelled = some cause; finished = true }

-- `next`, given what `recv` returns: nothing once every sender is gone and the channel is empty.
unfoldable pub next : Option StreamItem → GenerationStream → GenerationStream × Option StreamItem
next received s = if s.finished then (s, none) else elim received [
  | some (ok event) ↦ (note_event event s, some (ok event))
  | some (err error) ↦ (record s { finished = true }, some (err error))
  | none ↦ (record s { finished = true; handle = (finish failed s.handle).0 }, some (err stopped))
]

unfoldable pub demonstrated_generation : GenerationStream → Bool
demonstrated_generation s = s.completed && ltb 0 s.deltas

pub data GenerationOutcome : Type 0 where
  completed_with : GenerationResult → GenerationOutcome
  cancelled_with : Text → CancellationCause → GenerationOutcome

abbrev pub first {ℓ} : {A : Type ℓ} → List A → Option A
first [] = none
first (x ∷ xs) = some x

-- The body of `collect`'s loop on what `next` returned: go on with a text, or leave with a result.
abbrev pub collect_item :
    Option StreamItem → Text → Result Text (Result GenerationOutcome GenerationStreamError)
collect_item none text = err (err never_ended)
collect_item (some (err error)) text = err (err error)
collect_item (some (ok (started id))) text = ok text
collect_item (some (ok (text_delta id piece))) text = ok (text ++ piece)
collect_item (some (ok (completes id summary))) text = err (
    ok (
      completed_with
        (record { text = text; finish_reason = summary.finish_reason; usage = summary.usage })))
collect_item (some (ok (cancels id cause))) text = err (ok (cancelled_with text cause))

-- `collect`, over the items that the channel still delivers; after them `recv` returns nothing. An
-- item is taken in each round, so the rounds are those of the list and one more.
unfoldable pub collect :
    List StreamItem
    → Text
    → GenerationStream
    → GenerationStream × Result GenerationOutcome GenerationStreamError
unfolding next
collect [] text s =
    let (s', item) = next none s in
    elim (collect_item item text) [ ok t ↦ (s', err never_ended) | err r ↦ (s', r) ]
collect (i ∷ items) text s =
    let (s', item) = next (some i) s in
    elim (collect_item item text) [ ok t ↦ collect items t s' | err r ↦ (s', r) ]

-- What the reading task does with its sink: pieces of text, then one ending, which consumes it.
pub data Ending : Type 0 where
  ends_complete : GenerationSummary → Ending
  ends_cancelled : CancellationCause → Ending
  ends_failed : GenerationStreamError → Ending
  ends_dropped : Ending

unfoldable pub end_sink : Ending → GenerationSink → GenerationSink × Option StreamItem
unfolding complete cancel fail drop_sink
end_sink (ends_complete summary) s = complete summary s
end_sink (ends_cancelled cause) s = cancel cause s
end_sink (ends_failed error) s = fail error s
end_sink ends_dropped s = (drop_sink s, none)

abbrev pub cons_some {ℓ} : {A : Type ℓ} → Option A → List A → List A
cons_some none xs = xs
cons_some (some x) xs = x ∷ xs

-- All that the task sends behind the first event.
unfoldable pub sends : List Text → Ending → GenerationSink → List StreamItem
unfolding delta end_sink
sends [] e s = cons_some (end_sink e s).1 []
sends (t ∷ ts) e s = let rest = sends ts e s in cons_some (delta t s) rest
