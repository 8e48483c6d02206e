-- ===== src/Generate/Rounds.antt =====
-- generate.rs: the loop over the body, taken apart between its rounds, and what a cancellation does.
use mehoy_malloy_ai_runtime.Common.{
  ℕ, ◌≡◌, refl, sym, ap, ◌∙◌, Bool, false, Option, none, some, List, [], ◌∷◌, ◌++◌, arith, Result,
  ok, err,
}
use mehoy_malloy_ai_runtime.Common.Text.{Text}
use mathlib.Core.List.{append_assoc}
use mathlib.Core.Path.{subst}
use mehoy_malloy_ai_runtime.Cancel.{CancellationCause, Op}
use mehoy_malloy_ai_runtime.Cancel.{run}
use mehoy_malloy_ai_runtime.Inference.Stream.{
  StreamItem, GenerationSink, cancels, ends_cancelled, end_sink, cons_some,
}
use mehoy_malloy_ai_runtime.Sse.{SseError, new_decoder, push}
use mehoy_malloy_ai_runtime.Generate.{WireResponse, WireErrorBody}
use mehoy_malloy_ai_runtime.Generate.Streaming.{
  Step, with_handle, within, Verdict, cancelled_by, Frame, ended, broken, trailers, chunk, Round,
  Reading, body_loop, take_payloads, take_pushed, take_frame, go_on, items_first, Looped, ending_of,
  end_with,
}
use mehoy_malloy_ai_runtime.Generate.Execution.{conclude, read}
use mehoy_malloy_ai_runtime.Generate.Sameness.{IsSame, run-id}
use mehoy_malloy_ai_runtime.Generate.Endings.{body_loop-IsLooped}

-- The loop goes on behind what it has done.
abbrev pub behind : (Reading → Looped) → Looped → Looped
behind rest (items, r, verdict) = go_on rest items r verdict

items_first-behind :
    (g : Reading → Looped) (items : List StreamItem) (l : Looped)
    → items_first items (behind g l) ≡ behind g (items_first items l)
items_first-behind g items (more, r, some verdict) = refl
items_first-behind g items (more, r, none) =
    ap (λ xs. (xs, (g r).1, (g r).2)) (sym (append_assoc items more (g r).0))

go_on-behind :
    (f g h : Reading → Looped) (items : List StreamItem) (r : Reading) (verdict : Option Verdict)
    → f r ≡ behind g (h r)
    → go_on f items r verdict ≡ behind g (go_on h items r verdict)
go_on-behind f g h items r (some verdict) e = refl
go_on-behind f g h items r none e = ap (items_first items) e ∙ items_first-behind g items (h r)

behind-empty : (g : Reading → Looped) (r : Reading) → behind g ([], r, none) ≡ g r
behind-empty g r = refl

module _ (parse_response : Text → Result WireResponse Text) (is_utf8 : Text → Bool) where
  take_pushed-behind :
      (f g h : Reading → Looped) (room : ℕ) (r : Reading) (pushed : Result (List Text) SseError)
      → ((r' : Reading) → f r' ≡ behind g (h r'))
      → take_pushed parse_response is_utf8 f room r pushed
        ≡ behind g (take_pushed parse_response is_utf8 h room r pushed)
  unfolding take_pushed
  take_pushed-behind f g h room r (err e) go = refl
  take_pushed-behind f g h room r (ok payloads) go =
      let taken = take_payloads parse_response room payloads r.terminal r.sink in
      go_on-behind f g h taken.0 (record r { terminal = taken.1 }) taken.2
        (go (record r { terminal = taken.1 }))

  take_frame-behind :
      (f g h : Reading → Looped) (room : ℕ) (r : Reading) (waited : Result Frame CancellationCause)
      → ((r' : Reading) → f r' ≡ behind g (h r'))
      → take_frame parse_response is_utf8 f room r waited
        ≡ behind g (take_frame parse_response is_utf8 h room r waited)
  unfolding take_frame
  take_frame-behind f g h room r (err cause) go = refl
  take_frame-behind f g h room r (ok ended) go = refl
  take_frame-behind f g h room r (ok (broken e)) go = refl
  take_frame-behind f g h room r (ok trailers) go = go r
  take_frame-behind f g h room r (ok (chunk bytes)) go =
      let pushed = push is_utf8 bytes r.decoder in
      take_pushed-behind f g h room (record r { decoder = pushed.0 }) pushed.1 go

  -- The rounds of a loop can be run one part after the other.
  pub body_loop-append :
      (before after : List Round) (r : Reading)
      → body_loop parse_response is_utf8 (before ++ after) r
        ≡ behind
            (body_loop parse_response is_utf8 after)
            (body_loop parse_response is_utf8 before r)
  unfolding body_loop
  body_loop-append [] after r = refl
  body_loop-append (round ∷ before) after r =
      let waited = within round.step r.sink in
      take_frame-behind (body_loop parse_response is_utf8 (before ++ after))
        (body_loop parse_response is_utf8 after) (body_loop parse_response is_utf8 before)
        round.room (record r { sink = waited.0 }) waited.1 (body_loop-append before after)

  within_cancelled :
      {A : Type 0} (step : Step A) (k : GenerationSink) (c : CancellationCause)
      → (run step.others k.handle).token.signal ≡ some c
      → within step k ≡ (with_handle (run step.others k.handle) k, err c)
  unfolding within
  within_cancelled step k c e = ground arith

  body_loop_cancelled :
      (round : Round) (after : List Round) (r : Reading) (c : CancellationCause)
      → (run round.step.others r.sink.handle).token.signal ≡ some c
      → body_loop parse_response is_utf8 (round ∷ after) r ≡ (
        [],
        record r { sink = with_handle (run round.step.others r.sink.handle) r.sink },
        some (err (cancelled_by c)),
      )
  unfolding body_loop take_frame
  body_loop_cancelled round after r c e = rw (within_cancelled round.step r.sink c e) refl

end_sink_cancelled :
    (k s : GenerationSink) (c : CancellationCause)
    → k.finished ≡ false
    → IsSame k s
    → cons_some (end_sink (ends_cancelled c) s).1 [] ≡ ok (cancels k.handle.id c) ∷ []
unfolding end_sink
end_sink_cancelled k s c fresh (a, b) = ground arith

module _ (parse_response : Text → Result WireResponse Text) (is_utf8 : Text → Bool)
    (parse_error : Text → Option WireErrorBody) (from_utf8_lossy : Text → Text) where
  -- A cancellation ends the reading at its next wait: if the task has read some rounds and still
  -- waits, and the token is cancelled by some cause when it waits again, then what it sends in all is
  -- what it had sent and the cancellation with that cause, whatever the network does and has ready.
  pub read_cancelled :
      (before after : List Round) (round : Round) (late : List Op) (k : GenerationSink)
      (items : List StreamItem) (r : Reading) (c : CancellationCause)
      → k.finished ≡ false
      → body_loop parse_response is_utf8 before
          (record { decoder = new_decoder; terminal = none; sink = k })
        ≡ (items, r, none)
      → (run round.step.others r.sink.handle).token.signal ≡ some c
      → (read parse_response is_utf8 parse_error from_utf8_lossy
          (before ++ (round ∷ after))
          late
          k).0
        ≡ items ++ (ok (cancels k.handle.id c) ∷ [])
  unfolding read conclude end_with ending_of
  read_cancelled before after round late k items r c fresh h e =
      let start : Reading = record { decoder = new_decoder; terminal = none; sink = k } in
      let same : IsSame k r.sink =
        subst (λ (l : Looped). IsSame k l.1.sink) h
          (body_loop-IsLooped parse_response is_utf8 before start).1 in
      let s = with_handle (run round.step.others r.sink.handle) r.sink in
      let s' = with_handle (run late s.handle) s in
      let ids = run-id late s.handle ∙ run-id round.step.others r.sink.handle in
      ap (λ (l : Looped). (conclude late l).0)
        (body_loop-append parse_response is_utf8 before (round ∷ after) start
          ∙ ap (behind (body_loop parse_response is_utf8 (round ∷ after))) h
          ∙ ap (items_first items) (body_loop_cancelled parse_response is_utf8 round after r c e))
      ∙ append_assoc items [] _
      ∙ ap (items ++◌) (end_sink_cancelled k s' c fresh (same.0 ∙ sym ids, same.1))
