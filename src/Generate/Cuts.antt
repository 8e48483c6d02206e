-- ===== src/Generate/Cuts.antt =====
-- generate.rs: how the network cuts a body into frames does not change what a consumer is told.
use mehoy_malloy_ai_runtime.Common.{
  ℕ, ◌≤◌, ◌≡◌, refl, sym, ap, ◌∙◌, Bool, false, Option, none, some, List, [], ◌∷◌, ◌++◌, map, arith,
  Result, ok, err, ok-injective, length, length-append,
}
use mehoy_malloy_ai_runtime.Common.Text.{Text, joined}
use mathlib.Core.List.{append_assoc}
use mehoy_malloy_ai_runtime.Cancel.{CancellationCause, Op}
use mehoy_malloy_ai_runtime.Cancel.{run}
use mehoy_malloy_ai_runtime.Inference.Stream.{StreamItem, GenerationSummary, GenerationSink}
use mehoy_malloy_ai_runtime.Sse.{SseDecoder, new_decoder, max_pending_bytes, push}
use mehoy_malloy_ai_runtime.Sse.Chunks.{Taken}
use mehoy_malloy_ai_runtime.Sse.Pushes.{pushes, pushes-push, push_next-ok}
use mehoy_malloy_ai_runtime.Generate.{WireResponse, WireErrorBody}
use mehoy_malloy_ai_runtime.Generate.Streaming.{
  within, Verdict, EndOfBody, marked, Frame, chunk, Round, Reading, body_loop, take_payloads,
  take_pushed, take_frame, go_on, items_first, Looped, Taken as Passed, cancelled_by, failed_by,
  ending_of, Sent, end_with,
}
use mehoy_malloy_ai_runtime.Generate.Execution.{conclude, read}
use mehoy_malloy_ai_runtime.Generate.Payloads.{
  then_take, Leaves, take_payloads-room, take_payloads-append, take_payloads-Leaves,
}

-- A round in which nothing but a frame happens, and the consumer takes what comes.
abbrev pub quiet : ℕ → Text → Round
quiet room bytes = record {
  step = record { others = []; closed = false; outcome = some (chunk bytes) };
  room = room;
}

conclude-items_first :
    (late : List Op) (items : List StreamItem) (l : Looped)
    → conclude late (items_first items l) ≡ (items ++ (conclude late l).0, (conclude late l).1)
unfolding conclude
conclude-items_first late items (more, r, none) = refl
conclude-items_first late items (more, r, some v) =
    ap (λ xs. (xs, (end_with late (ending_of r v) r.sink).1))
      (append_assoc items more (end_with late (ending_of r v) r.sink).0)

-- Where the loop was left inside a frame, what the decoder has kept does not matter.
conclude-decoder :
    (late : List Op) (items : List StreamItem) (d d' : SseDecoder) (t : Option GenerationSummary)
    (k : GenerationSink) (v : Verdict)
    → Leaves (some v)
    → conclude late (items, record { decoder = d; terminal = t; sink = k }, some v)
      ≡ conclude late (items, record { decoder = d'; terminal = t; sink = k }, some v)
unfolding conclude ending_of
conclude-decoder late items d d' t k (err (cancelled_by c)) h = refl
conclude-decoder late items d d' t k (err (failed_by e)) h = refl
conclude-decoder late items d d' t k (ok marked) h = refl
conclude-decoder late items d d' t k (ok EndOfBody.closed) h = cc

go_on-append :
    (rest : Reading → Looped) (xs ys : List StreamItem) (r : Reading) (v : Option Verdict)
    → go_on rest (xs ++ ys) r v ≡ items_first xs (go_on rest ys r v)
go_on-append rest xs ys r (some v) = refl
go_on-append rest xs ys r none =
    ap (λ zs. (zs, (rest r).1, (rest r).2)) (append_assoc xs ys (rest r).0)

-- A frame that is read as events, and then the rest of them: the same as all of them at once.
frame-then :
    (late : List Op) (loop rest : Reading → Looped) (k : GenerationSink) (d d' : SseDecoder)
    (more : Option GenerationSummary → Passed) (taken : Passed)
    → Leaves taken.2
    → ((t : Option GenerationSummary)
        → conclude late (loop (record { decoder = d; terminal = t; sink = k }))
          ≡ conclude late (
              go_on rest
                (more t).0
                (record { decoder = d'; terminal = (more t).1; sink = k })
                (more t).2))
    → conclude late
        (go_on loop taken.0 (record { decoder = d; terminal = taken.1; sink = k }) taken.2)
      ≡ conclude late (
          go_on rest
            (then_take more taken).0
            (record { decoder = d'; terminal = (then_take more taken).1; sink = k })
            (then_take more taken).2)
frame-then late loop rest k d d' more (items, t, some v) h go =
    conclude-decoder late items d d' t k v h
frame-then late loop rest k d d' more (items, t, none) h go =
    conclude-items_first late items (loop (record { decoder = d; terminal = t; sink = k }))
    ∙ (ap (λ (s : Sent). (items ++ s.0, s.1)) (go t)
        ∙ (sym (
              conclude-items_first late items (
                go_on rest (more t).0 (record { decoder = d'; terminal = (more t).1; sink = k })
                  (more t).2))
            ∙ ap (conclude late) (
                sym (
                  go_on-append rest items (more t).0
                    (record { decoder = d'; terminal = (more t).1; sink = k }) (more t).2))))

within-quiet :
    (room : ℕ) (c : Text) (k : GenerationSink)
    → k.handle.token.signal ≡ none
    → within (quiet room c).step k ≡ (k, ok (chunk c))
unfolding within run
within-quiet room c k e = ground arith

-- The loop goes on behind a part that sent these items and was left so.
abbrev pub looped_on : (Reading → Looped) → SseDecoder → GenerationSink → Passed → Looped
looped_on rest d k (items, t, v) =
    go_on rest items (record { decoder = d; terminal = t; sink = k }) v

module _ (parse_response : Text → Result WireResponse Text) (is_utf8 : Text → Bool) where
  -- The events of a quiet part of the body at once, and then the rounds behind it.
  abbrev pub at_once : List Round → ℕ → List Text → SseDecoder → Reading → Looped
  at_once rounds room events d r =
      looped_on (body_loop parse_response is_utf8 rounds) d r.sink
        (take_payloads parse_response room events r.terminal r.sink)

  body_loop-quiet :
      (room : ℕ) (c : Text) (rounds : List Round) (r : Reading) (d : SseDecoder) (es : List Text)
      → r.sink.handle.token.signal ≡ none
      → push is_utf8 c r.decoder ≡ (d, ok es)
      → body_loop parse_response is_utf8 (quiet room c ∷ rounds) r ≡ at_once rounds room es d r
  unfolding body_loop take_frame take_pushed
  body_loop-quiet room c rounds r d es e p =
      let rest = body_loop parse_response is_utf8 rounds in
      ap
        (λ (w : GenerationSink × Result Frame CancellationCause).
          take_frame parse_response is_utf8 rest room (record r { sink = w.0 }) w.1)
        (within-quiet room c r.sink e)
      ∙ ap
          (λ (t : Taken).
            take_pushed parse_response is_utf8 rest room (record r { decoder = t.0 }) t.1)
          p

  pub quiet_frames :
      (cs : List Text) (rounds : List Round) (room : ℕ) (r : Reading) (d : SseDecoder)
      (events : List Text) (late : List Op)
      → r.sink.handle.token.signal ≡ none
      → pushes is_utf8 cs r.decoder ≡ (d, ok events)
      → length events ≤ room
      → conclude late (body_loop parse_response is_utf8 (map (quiet room) cs ++ rounds) r)
        ≡ conclude late (at_once rounds room events d r)
  unfolding pushes take_payloads
  quiet_frames [] rounds room r d events late e p l =
      let a : r.decoder ≡ d = ap (λ (t : Taken). t.0) p in
      let b : [] ≡ events = ok-injective (ap (λ (t : Taken). t.1) p) in
      ap (λ x. conclude late (at_once rounds room [] x r)) a
      ∙ ap (λ xs. conclude late (at_once rounds room xs d r)) b
  quiet_frames (c ∷ cs) rounds room r d events late e p l =
      let (es, fs, d1, a, b, s) =
        push_next-ok (pushes is_utf8 cs) (push is_utf8 c r.decoder) d events p in
      let size = ap length s in
      let size' = length-append es fs in
      let rest = body_loop parse_response is_utf8 rounds in
      ap (conclude late) (body_loop-quiet room c (map (quiet room) cs ++ rounds) r d1 es e a)
      ∙ (frame-then late (body_loop parse_response is_utf8 (map (quiet room) cs ++ rounds)) rest
            r.sink d1 d (λ t. take_payloads parse_response (length fs) fs t r.sink)
            (take_payloads parse_response room es r.terminal r.sink)
            (take_payloads-Leaves parse_response es room r.terminal r.sink)
            (λ t.
              quiet_frames cs rounds room (record { decoder = d1; terminal = t; sink = r.sink }) d
                fs late e b (omega arith)
              ∙ ap (λ x. conclude late (looped_on rest d r.sink x))
                  (take_payloads-room parse_response fs room (length fs) t r.sink (omega arith)
                    (omega arith)))
          ∙ (ap (λ x. conclude late (looped_on rest d r.sink x))
                (sym
                  (take_payloads-append parse_response es fs room r.terminal r.sink (omega arith)))
              ∙ ap (λ xs. conclude late (at_once rounds room xs d r)) (sym s)))

module _ (parse_response : Text → Result WireResponse Text) (is_utf8 : Text → Bool)
    (parse_error : Text → Option WireErrorBody) (from_utf8_lossy : Text → Text) where
  -- How the network cuts a body into frames does not change what the task sends or how it ends: if
  -- the same bytes, within the decoder's limit, come in two sequences of one or more frames that
  -- both decode, in rounds without a cancellation, of a consumer that takes all their events, then
  -- behind either the task sends the same in all, whatever rounds follow.
  pub read_cuts :
      (c c' : Text) (cs cs' : List Text) (rounds : List Round) (room : ℕ) (late : List Op)
      (k : GenerationSink) (d d' : SseDecoder) (events events' : List Text)
      → k.handle.token.signal ≡ none
      → joined (c ∷ cs) ≡ joined (c' ∷ cs')
      → length (joined (c ∷ cs)) ≤ max_pending_bytes
      → pushes is_utf8 (c ∷ cs) new_decoder ≡ (d, ok events)
      → pushes is_utf8 (c' ∷ cs') new_decoder ≡ (d', ok events')
      → length events ≤ room
      → length events' ≤ room
      → read parse_response is_utf8 parse_error from_utf8_lossy
          (map (quiet room) (c ∷ cs) ++ rounds)
          late
          k
        ≡ read parse_response is_utf8 parse_error from_utf8_lossy
            (map (quiet room) (c' ∷ cs') ++ rounds)
            late
            k
  unfolding read
  read_cuts c c' cs cs' rounds room late k d d' events events' q e fits p p' l l' =
      let start : Reading = record { decoder = new_decoder; terminal = none; sink = k } in
      let size = ap length e in
      let a = pushes-push is_utf8 c cs new_decoder d events (omega arith) p in
      let b = pushes-push is_utf8 c' cs' new_decoder d' events' (omega arith) p' in
      let same : (d, ok events) ≡ (d', ok events') =
        sym a ∙ (ap (λ t. push is_utf8 t new_decoder) e ∙ b) in
      let same_d : d ≡ d' = ap (λ (t : Taken). t.0) same in
      let same_events : events ≡ events' = ok-injective (ap (λ (t : Taken). t.1) same) in
      quiet_frames parse_response is_utf8 (c ∷ cs) rounds room start d events late q p l
      ∙ (ap (λ x. conclude late (at_once parse_response is_utf8 rounds room events x start)) same_d
          ∙ (ap (λ xs. conclude late (at_once parse_response is_utf8 rounds room xs d' start))
                same_events
              ∙ sym (
                  quiet_frames parse_response is_utf8 (c' ∷ cs') rounds room start d' events' late q
                    p' l')))
