-- ===== src/Generate/Outcome.antt =====
-- generate.rs: what a consumer is told of a whole generation, whatever course the task takes.
use mehoy_malloy_ai_runtime.Common.{
  ℕ, ◌≡◌, refl, sym, ap, ◌∙◌, ◌⊎◌, inl, inr, Bool, true, false, Option, none, some, List, [], ◌∷◌,
  ◌++◌, arith, Bool-cases, Result, ok, err,
}
use mehoy_malloy_ai_runtime.Common.Text.{Text, joined}
use mehoy_malloy_ai_runtime.Cancel.{RequestHandle, is_terminal, Op, mark_running}
use mehoy_malloy_ai_runtime.Cancel.{run}
use mehoy_malloy_ai_runtime.Inference.Generation.{GenerateTextRequest}
use mehoy_malloy_ai_runtime.Inference.Stream.{
  Detail, StreamItem, GenerationSink, generation_stream, collect, Ending, end_sink, sends,
  cons_some,
}
use mehoy_malloy_ai_runtime.Inference.Stream.Delivery.{outcome_of, end_sink-terminal, collect-sends}
use mehoy_malloy_ai_runtime.Sse.{new_decoder}
use mehoy_malloy_ai_runtime.Generate.{
  WireRequest, WireResponse, WireErrorBody, is_success, wire_request,
}
use mehoy_malloy_ai_runtime.Generate.Streaming.{
  Step, with_handle, within, Verdict, Round, Reading, body_loop, ending_of, Looped, Sent, end_with,
}
use mehoy_malloy_ai_runtime.Generate.Execution.{
  Course, Task, carried, given_body, arrived, awaits, then_do, send, build, shake_hands, connect,
  prepare, respond, conclude, read, execute, refusal, body_of, start_generation,
}
use mehoy_malloy_ai_runtime.Generate.Sameness.{
  deltas, deltas-IsSame, sends-IsSame, sends-deltas, IsSame, IsSame-trans, end_sink-IsSame,
  within-IsSame, run-id,
}
use mehoy_malloy_ai_runtime.Generate.Endings.{IsLooped, body_loop-IsLooped}

-- The task has ended its sink, once, behind the texts that it sent, with an ending for which there
-- is a reason.
abbrev pub HasEnded : (Ending → Type 0) → Sent → GenerationSink → Type 0
HasEnded Reason sent k =
    (ts : List Text) × (e : Ending) × (left : GenerationSink) × Reason e
    × (sent.0 ≡ sends ts e k)
    × (sent.1 ≡ some left)
    × (is_terminal left.handle.state ≡ true)

-- It still waits, and has sent texts.
abbrev pub StillWaits : Sent → GenerationSink → Type 0
StillWaits sent k = (ts : List Text) × (sent.0 ≡ deltas ts k) × (sent.1 ≡ none)

pub with_handle-IsSame :
    (os : List Op) (k : GenerationSink) → IsSame k (with_handle (run os k.handle) k)
with_handle-IsSame os k = (sym (run-id os k.handle), refl)

end_with-HasEnded :
    (Reason : Ending → Type 0) (ts : List Text) (items : List StreamItem) (late : List Op)
    (e : Ending) (k s : GenerationSink)
    → Reason e
    → k.finished ≡ false
    → IsSame k s
    → items ≡ deltas ts k
    → HasEnded Reason (items ++ (end_with late e s).0, (end_with late e s).1) k
unfolding end_with
end_with-HasEnded Reason ts items late e k s why fresh same h =
    let s' = with_handle (run late s.handle) s in
    (
      ts,
      e,
      (end_sink e s').0,
      why,
      rw h (
          ap (λ o. deltas ts k ++ cons_some o [])
            (sym (end_sink-IsSame e k s' (IsSame-trans k s s' same (with_handle-IsSame late s))))
          ∙ sym (sends-deltas ts e k)),
      refl,
      (end_sink-terminal e s' (sym same.1 ∙ fresh)).0,
    )

-- A part of the task leaves the sink that of the request.
then_do-IsSame :
    {A B : Type 0} (f : A → Task B) (k : GenerationSink) (r : GenerationSink × Result A Ending)
    → IsSame k r.0
    → ((a : A) (s : GenerationSink) → IsSame k s → IsSame k (f a s).0)
    → IsSame k (then_do f r).0
then_do-IsSame f k (s, err ending) p q = p
then_do-IsSame f k (s, ok a) p q = q a s p

awaits-IsSame :
    {A B : Type 0} (step : Step (Result A Text)) (f : A → Task B)
    → ((a : A) (s : GenerationSink) → IsSame s (f a s).0)
    → (k : GenerationSink) → IsSame k (then_do f (awaits step k)).0
unfolding awaits
awaits-IsSame step f go k =
    then_do-IsSame f k ((within step k).0, arrived (within step k).1) (within-IsSame step k)
      (λ a s p. IsSame-trans k s (f a s).0 p (go a s))

mark_running-IsSame : (s : GenerationSink) → IsSame s (with_handle (mark_running s.handle) s)
unfolding mark_running
mark_running-IsSame s = ground arith

send-IsSame : (x : Course) (k : GenerationSink) → IsSame k (send x k).0
unfolding send
send-IsSame x k =
    awaits-IsSame x.responds (λ status s. (with_handle (mark_running s.handle) s, ok status))
      (λ status s. mark_running-IsSame s) k

build-IsSame : (x : Course) (k : GenerationSink) → IsSame k (build x k).0
unfolding build
build-IsSame x k =
    then_do-IsSame (λ _. send x) k (k, carried x.builds) (refl, refl)
      (λ a s p. IsSame-trans k s (send x s).0 p (send-IsSame x s))

shake_hands-IsSame : (x : Course) (k : GenerationSink) → IsSame k (shake_hands x k).0
unfolding shake_hands
shake_hands-IsSame x = awaits-IsSame x.shakes_hands (λ _. build x) (λ _. build-IsSame x)

connect-IsSame : (x : Course) (k : GenerationSink) → IsSame k (connect x k).0
unfolding connect
connect-IsSame x = awaits-IsSame x.connects (λ _. shake_hands x) (λ _. shake_hands-IsSame x)

prepare-IsSame :
    (body : Result Text Detail) (x : Course) (k : GenerationSink) → IsSame k (prepare body x k).0
unfolding prepare
prepare-IsSame body x k =
    then_do-IsSame (λ _. connect x) k (k, given_body body) (refl, refl)
      (λ a s p. IsSame-trans k s (connect x s).0 p (connect-IsSame x s))

HasEnded-from :
    (Reason : Ending → Type 0) (late : List Op) (e : Ending) (k s : GenerationSink)
    → Reason e
    → k.finished ≡ false
    → IsSame k s
    → HasEnded Reason (end_with late e s) k
HasEnded-from Reason late e k s why fresh same =
    end_with-HasEnded Reason [] [] late e k s why fresh same (unfold deltas in refl)

Sent-along :
    (Reason Other : Ending → Type 0) (sent : Sent) (k s : GenerationSink)
    → ((e : Ending) → Reason e → Other e)
    → IsSame k s
    → HasEnded Reason sent s ⊎ StillWaits sent s
    → HasEnded Other sent k ⊎ StillWaits sent k
Sent-along Reason Other sent k s lift same (inl (ts, e, left, why, p, q, t)) =
    inl (ts, e, left, lift e why, p ∙ sends-IsSame ts e s k (sym same.0, sym same.1), q, t)
Sent-along Reason Other sent k s lift same (inr (ts, p, q)) =
    inr (ts, p ∙ deltas-IsSame ts s k (sym same.0, sym same.1), q)

module _ (parse_response : Text → Result WireResponse Text) (is_utf8 : Text → Bool)
    (parse_error : Text → Option WireErrorBody) (from_utf8_lossy : Text → Text) where
  -- The ending is the one that the loop over the body came to.
  abbrev pub IsVerdict : Looped → Ending → Type 0
  IsVerdict l e = (v : Verdict) × (l.2 ≡ some v) × (e ≡ ending_of l.1 v)

  abbrev pub from_start : List Round → GenerationSink → Looped
  from_start rounds k =
      body_loop parse_response is_utf8 rounds
        (record { decoder = new_decoder; terminal = none; sink = k })

  -- Why the task ends as it does, for what its steps up to the response gave: they failed so; or the
  -- backend refused, and its body tells how; or the body of its response came to this verdict.
  abbrev pub EndsFor : Course → GenerationSink × Result ℕ Ending → Ending → Type 0
  EndsFor x r e =
      (r.1 ≡ err e)
      ⊎ ((status : ℕ) × (r.1 ≡ ok status)
          × (is_success status ≡ false)
          × (e
              ≡ refusal parse_response is_utf8 parse_error from_utf8_lossy status
                  (within x.collects r.0).1))
      ⊎ ((status : ℕ) × (r.1 ≡ ok status)
          × (is_success status ≡ true)
          × IsVerdict (from_start x.rounds r.0) e)

  conclude-Sent :
      (late : List Op) (l : Looped) (k : GenerationSink)
      → k.finished ≡ false
      → IsLooped l k
      → HasEnded (IsVerdict l) (conclude late l) k ⊎ StillWaits (conclude late l) k
  unfolding conclude
  conclude-Sent late (items, r, none) k fresh ((ts, e), same) = inr (ts, e, refl)
  conclude-Sent late (items, r, some verdict) k fresh ((ts, e), same) = inl (
      end_with-HasEnded (IsVerdict (items, r, some verdict)) ts items late (ending_of r verdict) k
        r.sink (verdict, refl, refl) fresh same e)

  read-Sent :
      (rounds : List Round) (late : List Op) (k : GenerationSink)
      → k.finished ≡ false
      → HasEnded
          (IsVerdict (from_start rounds k))
          (read parse_response is_utf8 parse_error from_utf8_lossy rounds late k)
          k
        ⊎ StillWaits (read parse_response is_utf8 parse_error from_utf8_lossy rounds late k) k
  unfolding read
  read-Sent rounds late k fresh =
      let r : Reading = record { decoder = new_decoder; terminal = none; sink = k } in
      conclude-Sent late (body_loop parse_response is_utf8 rounds r) k fresh
        (body_loop-IsLooped parse_response is_utf8 rounds r)

  respond-Sent :
      (x : Course) (k : GenerationSink) (r : GenerationSink × Result ℕ Ending)
      → k.finished ≡ false
      → IsSame k r.0
      → HasEnded (EndsFor x r) (respond parse_response is_utf8 parse_error from_utf8_lossy x r) k
        ⊎ StillWaits (respond parse_response is_utf8 parse_error from_utf8_lossy x r) k
  unfolding respond
  respond-Sent x k (s, err ending) fresh same =
      inl (HasEnded-from (EndsFor x (s, err ending)) x.late ending k s (inl refl) fresh same)
  respond-Sent x k (s, ok status) fresh same = elim (Bool-cases (is_success status)) [
    | inl b ↦ rw b (
        Sent-along (IsVerdict (from_start x.rounds s)) (EndsFor x (s, ok status)) _ k s
          (λ e why. inr (inr (status, refl, b, why))) same
          (read-Sent x.rounds x.late s (sym same.1 ∙ fresh)))
    | inr b ↦ rw b (
        inl (
          HasEnded-from (EndsFor x (s, ok status)) x.late
            (refusal parse_response is_utf8 parse_error from_utf8_lossy status
              (within x.collects s).1)
            k (within x.collects s).0 (inr (inl (status, refl, b, refl))) fresh
            (IsSame-trans k s (within x.collects s).0 same (within-IsSame x.collects s))))
  ]

  execute-Sent :
      (body : Result Text Detail) (x : Course) (k : GenerationSink)
      → k.finished ≡ false
      → HasEnded
          (EndsFor x (prepare body x k))
          (execute parse_response is_utf8 parse_error from_utf8_lossy body x k)
          k
        ⊎ StillWaits (execute parse_response is_utf8 parse_error from_utf8_lossy body x k) k
  unfolding execute
  execute-Sent body x k fresh = respond-Sent x k (prepare body x k) fresh (prepare-IsSame body x k)

  -- Whatever course a streamed generation takes, either the task still waits, and has sent nothing
  -- but pieces of text, or what it has sent is some pieces of text with one ending behind them, the
  -- one that its steps up to the response failed with, or the refusal that the backend answered, or
  -- the verdict on the body of its response. The request then has a terminal state, and a consumer that takes every item gets the outcome of that
  -- ending with these very pieces joined: them with a summary or with the cause of a cancellation, or
  -- an error.
  pub start_generation_told :
      (encode : WireRequest → Result Text Text) (request : GenerateTextRequest)
      (handle : RequestHandle) (x : Course)
      → let (stream, item, (items, left)) =
          start_generation parse_response is_utf8 parse_error from_utf8_lossy encode request handle
            x in
        ((ts : List Text) × (e : Ending) × (sink : GenerationSink) × EndsFor x
            (prepare
              (body_of (encode (wire_request true request)))
              x
              (record { handle = handle; finished = false }))
            e
          × (items ≡ sends ts e (record { handle = handle; finished = false }))
          × ((collect (item ∷ items) [] stream).1 ≡ outcome_of e (joined ts))
          × (left ≡ some sink)
          × (is_terminal sink.handle.state ≡ true))
        ⊎ ((ts : List Text) × (items ≡ deltas ts (record { handle = handle; finished = false }))
            × (left ≡ none))
  unfolding start_generation generation_stream
  start_generation_told encode request handle x =
      elim (execute-Sent (body_of (encode (wire_request true request))) x
        (record { handle = handle; finished = false }) refl) [
          | inl (ts, e, sink, why, p, q, t) ↦
              inl (ts, e, sink, why, p, rw p (collect-sends handle ts e), q, t)
          | inr waits ↦ inr waits
        ]
