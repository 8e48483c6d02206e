-- ===== src/Generate/Endings.antt =====
-- generate.rs: however the task goes, the consumer is told exactly one ending, behind the texts sent.
use mehoy_malloy_ai_runtime.Common.{
  ℕ, ◌≡◌, refl, sym, ap, ◌∙◌, inl, inr, Bool, Option, none, some, List, [], ◌∷◌, ◌++◌, ltb,
  Bool-cases, Result, ok, err,
}
use mehoy_malloy_ai_runtime.Common.Text.{Text}
use mehoy_malloy_ai_runtime.Cancel.{CancellationCause}
use mehoy_malloy_ai_runtime.Inference.Stream.{
  GenerationSummary, StreamItem, GenerationSink, delta, delta_taken, cons_some,
}
use mehoy_malloy_ai_runtime.Sse.{SseError, push}
use mehoy_malloy_ai_runtime.Generate.{WireResponse}
use mehoy_malloy_ai_runtime.Generate.Streaming.{
  within, Verdict, Frame, ended, broken, trailers, chunk, Round, Reading, body_loop, understand,
  take_payloads, pass_on, take_pushed, take_frame, go_on, Looped, Taken, item_first, less,
}
use mehoy_malloy_ai_runtime.Generate.Sameness.{
  deltas, deltas-append, deltas-IsSame, IsSame, IsSame-trans, within-IsSame,
}

abbrev pub Texts : List StreamItem → GenerationSink → Type 0
Texts items k = (ts : List Text) × (items ≡ deltas ts k)

item_first-Texts :
    (t : Text) (k : GenerationSink) (taken : Taken)
    → Texts taken.0 k
    → Texts (item_first (delta t k) taken).0 k
unfolding deltas
item_first-Texts t k (items, terminal, verdict) (ts, e) = (t ∷ ts, ap (cons_some (delta t k)) e)

pass_on-Texts :
    (rest : ℕ → Option GenerationSummary → Taken) (room : ℕ) (terminal : Option GenerationSummary)
    (k : GenerationSink) (u : Result (Option Text × Option GenerationSummary) Verdict)
    → ((room' : ℕ) (terminal' : Option GenerationSummary) → Texts (rest room' terminal').0 k)
    → Texts (pass_on rest room terminal k u).0 k
unfolding pass_on
pass_on-Texts rest room terminal k (err verdict) go = ([], unfold deltas in refl)
pass_on-Texts rest room terminal k (ok (none, terminal')) go = go room terminal'
pass_on-Texts rest room terminal k (ok (some t, terminal')) go =
    elim (Bool-cases (delta_taken (ltb 0 room) t k)) [
      | inl b ↦ rw b (
          item_first-Texts t k (rest (less (delta t k) room) terminal')
            (go (less (delta t k) room) terminal'))
      | inr b ↦ rw b ([], unfold deltas in refl)
    ]

module _ (parse_response : Text → Result WireResponse Text) where
  pub take_payloads-Texts :
      (room : ℕ) (payloads : List Text) (terminal : Option GenerationSummary) (k : GenerationSink)
      → Texts (take_payloads parse_response room payloads terminal k).0 k
  unfolding take_payloads
  take_payloads-Texts room [] terminal k = ([], unfold deltas in refl)
  take_payloads-Texts room (p ∷ ps) terminal k =
      pass_on-Texts (λ room' terminal'. take_payloads parse_response room' ps terminal' k) room
        terminal k (understand parse_response p terminal)
        (λ room' terminal'. take_payloads-Texts room' ps terminal' k)

-- What a loop has sent are texts, and its sink is still that of the request.
abbrev pub IsLooped : Looped → GenerationSink → Type 0
IsLooped (items, r, verdict) k = Texts items k × IsSame k r.sink

go_on-IsLooped :
    (rest : Reading → Looped) (items : List StreamItem) (r : Reading) (verdict : Option Verdict)
    → Texts items r.sink
    → IsLooped (rest r) r.sink
    → IsLooped (go_on rest items r verdict) r.sink
go_on-IsLooped rest items r (some verdict) t go = (t, (refl, refl))
go_on-IsLooped rest items r none (ts, e) ((us, f), s) =
    ((ts ++ us, rw (e, f) (sym (deltas-append ts us r.sink))), s)

IsLooped-along : (l : Looped) (k k' : GenerationSink) → IsSame k k' → IsLooped l k' → IsLooped l k
IsLooped-along (items, r, verdict) k k' s ((ts, e), t) =
    ((ts, e ∙ sym (deltas-IsSame ts k k' s)), IsSame-trans k k' r.sink s t)

module _ (parse_response : Text → Result WireResponse Text) (is_utf8 : Text → Bool) where
  take_pushed-IsLooped :
      (rest : Reading → Looped) (room : ℕ) (r : Reading) (pushed : Result (List Text) SseError)
      → ((r' : Reading) → IsLooped (rest r') r'.sink)
      → IsLooped (take_pushed parse_response is_utf8 rest room r pushed) r.sink
  unfolding take_pushed
  take_pushed-IsLooped rest room r (err e) go = (([], unfold deltas in refl), (refl, refl))
  take_pushed-IsLooped rest room r (ok payloads) go =
      let taken = take_payloads parse_response room payloads r.terminal r.sink in
      go_on-IsLooped rest taken.0 (record r { terminal = taken.1 }) taken.2
        (take_payloads-Texts parse_response room payloads r.terminal r.sink)
        (go (record r { terminal = taken.1 }))

  take_frame-IsLooped :
      (rest : Reading → Looped) (room : ℕ) (r : Reading) (waited : Result Frame CancellationCause)
      → ((r' : Reading) → IsLooped (rest r') r'.sink)
      → IsLooped (take_frame parse_response is_utf8 rest room r waited) r.sink
  unfolding take_frame
  take_frame-IsLooped rest room r (err cause) go = (([], unfold deltas in refl), (refl, refl))
  take_frame-IsLooped rest room r (ok ended) go = (([], unfold deltas in refl), (refl, refl))
  take_frame-IsLooped rest room r (ok (broken e)) go = (([], unfold deltas in refl), (refl, refl))
  take_frame-IsLooped rest room r (ok trailers) go = go r
  take_frame-IsLooped rest room r (ok (chunk bytes)) go =
      let pushed = push is_utf8 bytes r.decoder in
      take_pushed-IsLooped rest room (record r { decoder = pushed.0 }) pushed.1 go

  pub body_loop-IsLooped :
      (rounds : List Round) (r : Reading)
      → IsLooped (body_loop parse_response is_utf8 rounds r) r.sink
  unfolding body_loop
  body_loop-IsLooped [] r = (([], unfold deltas in refl), (refl, refl))
  body_loop-IsLooped (round ∷ rounds) r =
      let waited = within round.step r.sink in
      IsLooped-along
        (take_frame parse_response is_utf8 (body_loop parse_response is_utf8 rounds) round.room
          (record r { sink = waited.0 }) waited.1)
        r.sink waited.0 (within-IsSame round.step r.sink)
        (take_frame-IsLooped (body_loop parse_response is_utf8 rounds) round.room
          (record r { sink = waited.0 }) waited.1 (body_loop-IsLooped rounds))
