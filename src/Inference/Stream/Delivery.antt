-- ===== src/Inference/Stream/Delivery.antt =====
-- inference.rs: what reaches the consumer of a stream, for everything that the reading task may do.
use mehoy_malloy_ai_runtime.Common.Text.{Text, joined}
use mehoy_malloy_ai_runtime.Cancel.{
  RequestState, is_terminal, RequestHandle, request_cancellation, finish,
}
use mehoy_malloy_ai_runtime.Inference.Stream.{
  text_delta, GenerationStreamError, stopped, StreamItem, GenerationSink, GenerationStream,
  generation_stream, delta, next, demonstrated_generation, GenerationOutcome, completed_with,
  cancelled_with, collect, Ending, ends_complete, ends_cancelled, ends_failed, ends_dropped,
  end_sink, sends, cons_some,
}
use mehoy_malloy_ai_runtime.Common.{
  ℕ, ◌+◌, ◌≡◌, refl, ap, ◌∙◌, Bool, true, false, not, ◌&&◌, ◌||◌, none, some, List, [], ◌∷◌, ◌++◌,
  arith, ltb, if◌then◌else◌, Result, ok, err, is_empty,
}
use mathlib.Core.List.{append-nil, append_assoc}

-- What a consumer should be told, by how the task ended and the text sent before.
abbrev pub outcome_of : Ending → Text → Result GenerationOutcome GenerationStreamError
outcome_of (ends_complete summary) text = ok (
    completed_with
      (record { text = text; finish_reason = summary.finish_reason; usage = summary.usage }))
outcome_of (ends_cancelled cause) text = ok (cancelled_with text cause)
outcome_of (ends_failed error) text = err error
outcome_of ends_dropped text = err stopped

abbrev pub is_complete : Ending → Bool
is_complete (ends_complete summary) = true
is_complete _ = false

abbrev pub some_text : List Text → Bool
some_text [] = false
some_text (t ∷ ts) = let rest = some_text ts in not (is_empty t) || rest

collect-end :
    (e : Ending) (text : Text) (k : GenerationSink) (s : GenerationStream)
    → k.finished ≡ false
    → s.finished ≡ false
    → (collect (cons_some (end_sink e k).1 []) text s).1 ≡ outcome_of e text
unfolding collect end_sink
collect-end (ends_complete summary) text k s a b = ground arith
collect-end (ends_cancelled cause) text k s a b = ground arith
collect-end (ends_failed error) text k s a b = ground arith
collect-end ends_dropped text k s a b = ground arith

delta-nil : (k : GenerationSink) → delta [] k ≡ none
unfolding delta
delta-nil k = ground arith

delta-cons :
    (c : ℕ) (t : Text) (k : GenerationSink)
    → k.finished ≡ false
    → delta (c ∷ t) k ≡ some (ok (text_delta k.handle.id (c ∷ t)))
unfolding delta
delta-cons c t k a = ground arith

collect-text_delta :
    (id : ℕ) (piece : Text) (items : List StreamItem) (text : Text) (s : GenerationStream)
    → s.finished ≡ false
    → collect (ok (text_delta id piece) ∷ items) text s
      ≡ collect items (text ++ piece) (record s { deltas = s.deltas + 1 })
unfolding collect next
collect-text_delta id piece items text s b = rw b

collect-sends_from :
    (ts : List Text) (e : Ending) (text : Text) (k : GenerationSink) (s : GenerationStream)
    → k.finished ≡ false
    → s.finished ≡ false
    → (collect (sends ts e k) text s).1 ≡ outcome_of e (text ++ joined ts)
unfolding sends
collect-sends_from [] e text k s a b = rw (append-nil text) (collect-end e text k s a b)
collect-sends_from ([] ∷ ts) e text k s a b =
    rw (delta-nil k) (collect-sends_from ts e text k s a b)
collect-sends_from ((c ∷ t) ∷ ts) e text k s a b = rw (delta-cons c t k a) (
    ap (λ r. r.1) (collect-text_delta k.handle.id (c ∷ t) (sends ts e k) text s b)
    ∙ (collect-sends_from ts e (text ++ c ∷ t) k (record s { deltas = s.deltas + 1 }) a b
        ∙ ap (outcome_of e) (append_assoc text (c ∷ t) (joined ts))))

-- What a consumer collects is what happened: whatever pieces of text the task sends through a new
-- stream, empty ones included, and however it then ends, the consumer gets the pieces joined with
-- the summary of a completion or the cause of a cancellation, the error of a failure, and an
-- unexpected end if the sink was dropped.
pub collect-sends :
    (h : RequestHandle) (ts : List Text) (e : Ending)
    → let (sink, stream, first) = generation_stream h in
      (collect (first ∷ sends ts e sink) [] stream).1 ≡ outcome_of e (joined ts)
unfolding generation_stream
collect-sends h ts e =
    unfold collect next in
    collect-sends_from ts e [] (record { handle = h; finished = false })
      (record { handle = h; deltas = 0; completed = false; cancelled = none; finished = false })
      refl refl

demonstrated-end :
    (e : Ending) (text : Text) (k : GenerationSink) (s : GenerationStream)
    → k.finished ≡ false
    → s.finished ≡ false
    → s.completed ≡ false
    → demonstrated_generation (collect (cons_some (end_sink e k).1 []) text s).0
      ≡ (is_complete e && ltb 0 s.deltas)
unfolding collect end_sink demonstrated_generation
demonstrated-end (ends_complete summary) text k s a b c = ground arith
demonstrated-end (ends_cancelled cause) text k s a b c = ground arith
demonstrated-end (ends_failed error) text k s a b c = ground arith
demonstrated-end ends_dropped text k s a b c = ground arith

demonstrated-from :
    (ts : List Text) (e : Ending) (text : Text) (k : GenerationSink) (s : GenerationStream)
    → k.finished ≡ false
    → s.finished ≡ false
    → s.completed ≡ false
    → demonstrated_generation (collect (sends ts e k) text s).0
      ≡ (is_complete e && (ltb 0 s.deltas || some_text ts))
unfolding sends
demonstrated-from [] e text k s a b c = demonstrated-end e text k s a b c ∙ ground arith
demonstrated-from ([] ∷ ts) e text k s a b c =
    rw (delta-nil k) (demonstrated-from ts e text k s a b c)
demonstrated-from ((x ∷ t) ∷ ts) e text k s a b c = rw (delta-cons x t k a) (
    ap (λ r. demonstrated_generation r.0)
      (collect-text_delta k.handle.id (x ∷ t) (sends ts e k) text s b)
    ∙ (demonstrated-from ts e (text ++ x ∷ t) k (record s { deltas = s.deltas + 1 }) a b c
        ∙ ground arith))

-- A drained stream demonstrates generation exactly when the task completed and some piece of text
-- that it sent was not empty; an empty completion and a cut-off stream demonstrate nothing.
pub demonstrated_generation-sends :
    (h : RequestHandle) (ts : List Text) (e : Ending)
    → let (sink, stream, first) = generation_stream h in
      demonstrated_generation (collect (first ∷ sends ts e sink) [] stream).0
      ≡ (is_complete e && some_text ts)
unfolding generation_stream
demonstrated_generation-sends h ts e =
    unfold collect next in
    demonstrated-from ts e [] (record { handle = h; finished = false })
      (record { handle = h; deltas = 0; completed = false; cancelled = none; finished = false })
      refl refl refl

abbrev pub ended_state : Ending → RequestState
ended_state (ends_complete summary) = RequestState.completed
ended_state (ends_cancelled cause) = RequestState.cancelled
ended_state _ = RequestState.failed

-- However the reading task ends a sink that it has not finished, the request is left in a terminal
-- state: the one of that ending, unless the request had already ended, whose state then stays.
pub end_sink-terminal :
    (e : Ending) (k : GenerationSink)
    → k.finished ≡ false
    → (is_terminal (end_sink e k).0.handle.state ≡ true)
      × ((end_sink e k).0.handle.state
          ≡ (if is_terminal k.handle.state then k.handle.state else ended_state e))
unfolding end_sink finish request_cancellation
end_sink-terminal (ends_complete summary) k a = ground arith
end_sink-terminal (ends_cancelled cause) k a = ground arith
end_sink-terminal (ends_failed error) k a = ground arith
end_sink-terminal ends_dropped k a = ground arith
