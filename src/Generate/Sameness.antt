-- ===== src/Generate/Sameness.antt =====
-- generate.rs: however the task goes, the consumer is told exactly one ending, behind the texts sent.
use mehoy_malloy_ai_runtime.Common.{
  ◌≡◌, refl, sym, ap, ◌∙◌, Option, none, some, List, [], ◌∷◌, ◌++◌, arith,
}
use mehoy_malloy_ai_runtime.Common.Text.{Text}
use mehoy_malloy_ai_runtime.Cancel.{
  RequestHandle, Op, marks_running, requests, finishes, times_out, mark_running,
  request_cancellation, finish,
}
use mehoy_malloy_ai_runtime.Cancel.{apply, run}
use mehoy_malloy_ai_runtime.Inference.Stream.{
  StreamItem, GenerationSink, delta, Ending, ends_complete, ends_cancelled, ends_failed,
  ends_dropped, end_sink, sends, cons_some,
}
use mehoy_malloy_ai_runtime.Generate.Streaming.{Step, within}

-- The items of texts alone.
unfoldable pub deltas : List Text → GenerationSink → List StreamItem
unfolding delta
deltas [] k = []
deltas (t ∷ ts) k = let rest = deltas ts k in cons_some (delta t k) rest

cons_some-append :
    {A : Type 0} (o : Option A) (xs ys : List A) → cons_some o xs ++ ys ≡ cons_some o (xs ++ ys)
cons_some-append none xs ys = refl
cons_some-append (some x) xs ys = refl

pub deltas-append :
    (ts us : List Text) (k : GenerationSink) → deltas (ts ++ us) k ≡ deltas ts k ++ deltas us k
unfolding deltas
deltas-append [] us k = refl
deltas-append (t ∷ ts) us k =
    ap (cons_some (delta t k)) (deltas-append ts us k)
    ∙ sym (cons_some-append (delta t k) (deltas ts k) (deltas us k))

pub sends-deltas :
    (ts : List Text) (e : Ending) (k : GenerationSink)
    → sends ts e k ≡ deltas ts k ++ cons_some (end_sink e k).1 []
unfolding sends deltas
sends-deltas [] e k = refl
sends-deltas (t ∷ ts) e k =
    ap (cons_some (delta t k)) (sends-deltas ts e k)
    ∙ sym (cons_some-append (delta t k) (deltas ts k) (cons_some (end_sink e k).1 []))

-- The sinks of one request, as far as what is sent through them goes.
abbrev pub IsSame : GenerationSink → GenerationSink → Type 0
IsSame k l = (k.handle.id ≡ l.handle.id) × (k.finished ≡ l.finished)

pub IsSame-trans : (k l m : GenerationSink) → IsSame k l → IsSame l m → IsSame k m
IsSame-trans k l m (a, b) (c, d) = (a ∙ c, b ∙ d)

delta-IsSame : (t : Text) (k l : GenerationSink) → IsSame k l → delta t k ≡ delta t l
unfolding delta
delta-IsSame t k l (a, b) = rw (a, b) refl

pub deltas-IsSame : (ts : List Text) (k l : GenerationSink) → IsSame k l → deltas ts k ≡ deltas ts l
unfolding deltas
deltas-IsSame [] k l s = refl
deltas-IsSame (t ∷ ts) k l s = rw (delta-IsSame t k l s, deltas-IsSame ts k l s) refl

pub end_sink-IsSame :
    (e : Ending) (k l : GenerationSink) → IsSame k l → (end_sink e k).1 ≡ (end_sink e l).1
unfolding end_sink
end_sink-IsSame (ends_complete summary) k l (a, b) = ground arith
end_sink-IsSame (ends_cancelled cause) k l (a, b) = ground arith
end_sink-IsSame (ends_failed error) k l (a, b) = ground arith
end_sink-IsSame ends_dropped k l s = refl

pub sends-IsSame :
    (ts : List Text) (e : Ending) (k l : GenerationSink) → IsSame k l → sends ts e k ≡ sends ts e l
unfolding sends
sends-IsSame [] e k l s = rw (end_sink-IsSame e k l s) refl
sends-IsSame (t ∷ ts) e k l s = rw (delta-IsSame t k l s, sends-IsSame ts e k l s) refl

apply-id : (o : Op) (h : RequestHandle) → (apply o h).id ≡ h.id
unfolding apply mark_running request_cancellation finish
apply-id marks_running h = ground arith
apply-id (requests c) h = ground arith
apply-id (finishes s o) h = ground arith
apply-id (times_out c) h = refl

pub run-id : (os : List Op) (h : RequestHandle) → (run os h).id ≡ h.id
unfolding run
run-id [] h = refl
run-id (o ∷ os) h = run-id os (apply o h) ∙ apply-id o h

pub within-IsSame : {A : Type 0} (step : Step A) (k : GenerationSink) → IsSame k (within step k).0
unfolding within
within-IsSame step k = ground (arith, run-id step.others k.handle)
