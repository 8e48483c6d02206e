-- ===== src/Generate/Whole.antt =====
-- generate.rs: a generation that a server streams to its end, from its events to what is sent on.
use mehoy_malloy_ai_runtime.Common.{
  ℕ, suc, ◌+◌, ◌≤◌, ◌<◌, ◌≡◌, refl, sym, ap, ◌∙◌, Bool, false, Option, none, some, List, [], ◌∷◌,
  ◌++◌, map, arith, Result, ok, err, ok-injective, length, All,
}
use mehoy_malloy_ai_runtime.Common.Text.{Text, text_eq, joined}
use mehoy_malloy_ai_runtime.Common.Spaces.{trim}
use mehoy_malloy_ai_runtime.Cancel.{Op}
use mehoy_malloy_ai_runtime.Cancel.{run}
use mehoy_malloy_ai_runtime.Generate.Outcome.{with_handle-IsSame}
use mehoy_malloy_ai_runtime.Inference.Stream.{
  StreamItem, GenerationSummary, GenerationSink, delta, delta_taken, ends_complete, sends,
  cons_some,
}
use mehoy_malloy_ai_runtime.Sse.{SseDecoder, new_decoder, max_pending_bytes, push}
use mehoy_malloy_ai_runtime.Sse.Chunks.{Taken}
use mehoy_malloy_ai_runtime.Sse.Pushes.{pushes, pushes-push}
use mehoy_malloy_ai_runtime.Sse.RoundTrip.{events_bytes, IsPayload, push-events_bytes}
use mehoy_malloy_ai_runtime.Generate.{
  WireUsage, WireResponse, WireErrorBody, finish_reason_for, usage_of,
}
use mehoy_malloy_ai_runtime.Generate.Streaming.{
  marked, done_marker, Round, Reading, body_loop, understand, take_payloads, pass_on, item_first,
  less, Taken as Passed, with_handle, end_with, ending_of,
}
use mehoy_malloy_ai_runtime.Generate.Execution.{conclude, read}
use mehoy_malloy_ai_runtime.Generate.Sameness.{deltas, sends-deltas, end_sink-IsSame}
use mehoy_malloy_ai_runtime.Generate.Cuts.{quiet, quiet_frames, at_once, looped_on}

less-delta : (o : Option StreamItem) (n m : ℕ) → n < m → n ≤ less o m
less-delta none n m h = omega arith
less-delta (some i) n m h = omega arith

module _ (parse_response : Text → Result WireResponse Text) where
  -- A payload that carries a text, and does not end the generation.
  abbrev pub IsPiece : Text × Text → Type 0
  IsPiece (p, t) =
      (text_eq (trim p) done_marker ≡ false)
      × (parse_response p
          ≡ ok (record { choices = record { text = t; finish_reason = none } ∷ []; usage = none }))

  -- A payload that carries the last text, and the reason why the generation ended.
  abbrev pub IsLast : Text → Text → Text → Option WireUsage → Type 0
  IsLast p t reason usage =
      (text_eq (trim p) done_marker ≡ false)
      × (parse_response p
          ≡ ok (record {
            choices = record { text = t; finish_reason = some reason } ∷ [];
            usage = usage;
          }))

  understand-piece :
      (p t : Text) (terminal : Option GenerationSummary)
      → IsPiece (p, t)
      → understand parse_response p terminal ≡ ok (some t, terminal)
  unfolding understand
  understand-piece p t terminal (a, b) = rw (a, b) refl

  understand-last :
      (p t reason : Text) (usage : Option WireUsage) (terminal : Option GenerationSummary)
      → IsLast p t reason usage
      → understand parse_response p terminal
        ≡ ok (
          some t,
          some (record { finish_reason = finish_reason_for (some reason); usage = usage_of usage }),
        )
  unfolding understand
  understand-last p t reason usage terminal (a, b) = rw (a, b) refl

  understand-done :
      (terminal : Option GenerationSummary)
      → understand parse_response done_marker terminal ≡ err (ok marked)
  unfolding understand
  understand-done terminal = refl

  take_payloads-done :
      (room : ℕ) (terminal : Option GenerationSummary) (k : GenerationSink)
      → take_payloads parse_response room (done_marker ∷ []) terminal k
        ≡ ([], terminal, some (ok marked))
  unfolding take_payloads understand pass_on
  take_payloads-done room terminal k = refl

  -- A text is sent on, where the channel has room.
  pass_on-text :
      (rest : ℕ → Option GenerationSummary → Passed) (room : ℕ)
      (terminal terminal' : Option GenerationSummary) (k : GenerationSink) (t : Text)
      → k.finished ≡ false
      → 0 < room
      → pass_on rest room terminal k (ok (some t, terminal'))
        ≡ item_first (delta t k) (rest (less (delta t k) room) terminal')
  unfolding pass_on delta_taken
  pass_on-text rest room terminal terminal' k t fresh h = ground arith

  abbrev pub payloads_of : List (Text × Text) → Text → List Text
  payloads_of [] q = q ∷ done_marker ∷ []
  payloads_of ((p, t) ∷ xs) q = p ∷ payloads_of xs q

  abbrev pub texts_of : List (Text × Text) → Text → List Text
  texts_of [] t = t ∷ []
  texts_of ((p, x) ∷ xs) t = x ∷ texts_of xs t

  payloads_of-length :
      (xs : List (Text × Text)) (q : Text) → length (payloads_of xs q) ≡ length xs + 2
  payloads_of-length [] q = omega arith
  payloads_of-length ((p, t) ∷ xs) q = let k = payloads_of-length xs q in omega arith

  take_payloads-whole :
      (xs : List (Text × Text)) (q t reason : Text) (usage : Option WireUsage) (room : ℕ)
      (terminal : Option GenerationSummary) (k : GenerationSink)
      → All IsPiece xs
      → IsLast q t reason usage
      → k.finished ≡ false
      → length xs < room
      → take_payloads parse_response room (payloads_of xs q) terminal k ≡ (
        deltas (texts_of xs t) k,
        some (record { finish_reason = finish_reason_for (some reason); usage = usage_of usage }),
        some (ok marked),
      )
  unfolding take_payloads deltas
  take_payloads-whole [] q t reason usage room terminal k hs last fresh h =
      rw (understand-last q t reason usage terminal last) (
        pass_on-text (λ i t'. take_payloads parse_response i (done_marker ∷ []) t' k) room terminal
          (some
            (record { finish_reason = finish_reason_for (some reason); usage = usage_of usage }))
          k t fresh (omega arith)
        ∙ ap (item_first (delta t k)) (
            take_payloads-done (less (delta t k) room)
              (some (record {
                finish_reason = finish_reason_for (some reason);
                usage = usage_of usage;
              }))
              k))
  take_payloads-whole ((p, x) ∷ xs) q t reason usage room terminal k (piece, hs) last fresh h =
      rw (understand-piece p x terminal piece) (
        pass_on-text (λ i t'. take_payloads parse_response i (payloads_of xs q) t' k) room terminal
          terminal k x fresh (omega arith)
        ∙ ap (item_first (delta x k)) (
            take_payloads-whole xs q t reason usage (less (delta x k) room) terminal k hs last fresh
              (less-delta (delta x k) (suc (length xs)) room h)))

module _ (parse_response : Text → Result WireResponse Text) (is_utf8 : Text → Bool)
    (parse_error : Text → Option WireErrorBody) (from_utf8_lossy : Text → Text) where
  -- A generation that the server streams to its end reaches the consumer whole: if the server sends,
  -- as events and within the decoder's limit, payloads with a text each, one with the last text and
  -- the reason of the ending, and the marker, in one or more frames that decode, to a consumer that
  -- takes them all, without a cancellation, then the task sends those texts in their order and the
  -- summary with that reason and usage, whatever else would follow.
  pub read-whole :
      (xs : List (Text × Text)) (q t reason : Text) (usage : Option WireUsage) (c : Text)
      (cs : List Text) (d : SseDecoder) (events : List Text) (rounds : List Round) (room : ℕ)
      (late : List Op) (k : GenerationSink)
      → All (IsPiece parse_response) xs
      → IsLast parse_response q t reason usage
      → All (IsPayload is_utf8) (payloads_of parse_response xs q)
      → joined (c ∷ cs) ≡ events_bytes (payloads_of parse_response xs q)
      → length (joined (c ∷ cs)) ≤ max_pending_bytes
      → pushes is_utf8 (c ∷ cs) new_decoder ≡ (d, ok events)
      → length (payloads_of parse_response xs q) ≤ room
      → k.finished ≡ false
      → k.handle.token.signal ≡ none
      → (read parse_response is_utf8 parse_error from_utf8_lossy
          (map (quiet room) (c ∷ cs) ++ rounds)
          late
          k).0
        ≡ sends
            (texts_of parse_response xs t)
            (ends_complete
              (record { finish_reason = finish_reason_for (some reason); usage = usage_of usage }))
            k
  unfolding read conclude end_with ending_of
  read-whole xs q t reason usage c cs d events rounds room late k hs last utf8 whole fits decoded
        enough fresh quiet_token =
      let ps = payloads_of parse_response xs q in
      let texts = texts_of parse_response xs t in
      let summary : GenerationSummary = record {
        finish_reason = finish_reason_for (some reason);
        usage = usage_of usage;
      } in
      let start : Reading = record { decoder = new_decoder; terminal = none; sink = k } in
      let size = ap length whole in
      let a = pushes-push is_utf8 c cs new_decoder d events (omega arith) decoded in
      let b = push-events_bytes is_utf8 ps utf8 (omega arith) in
      let same : (d, ok events) ≡ (new_decoder, ok ps) =
        sym a ∙ (ap (λ x. push is_utf8 x new_decoder) whole ∙ b) in
      let same_events : events ≡ ps = ok-injective (ap (λ (x : Taken). x.1) same) in
      let fewer = ap length same_events in
      ap (λ s. s.0)
        (quiet_frames parse_response is_utf8 (c ∷ cs) rounds room start d events late quiet_token
            decoded (omega arith)
          ∙ (ap (λ es. conclude late (at_once parse_response is_utf8 rounds room es d start))
                same_events
              ∙ ap (λ x. conclude late (looped_on (body_loop parse_response is_utf8 rounds) d k x))
                  (take_payloads-whole parse_response xs q t reason usage room none k hs last fresh
                    (omega (arith, payloads_of-length parse_response xs q)))))
      ∙ (ap (λ o. deltas texts k ++ cons_some o [])
            (sym (
              end_sink-IsSame (ends_complete summary) k (with_handle (run late k.handle) k)
                (with_handle-IsSame late k)))
          ∙ sym (sends-deltas texts (ends_complete summary) k))
