-- ===== src/Sse/Pushes.antt =====
-- sse.rs: chunks pushed one after the other, against their bytes pushed at once.
use mehoy_malloy_ai_runtime.Common.{
  ◌+◌, ◌≤◌, ◌≡◌, refl, sym, ap, ◌∙◌, Bool, List, [], ◌∷◌, ◌++◌, arith, ok, err, length,
  length-append,
}
use mehoy_malloy_ai_runtime.Common.Text.{Text, joined}
use mathlib.Core.List.{append-nil}
use mehoy_malloy_ai_runtime.Sse.{SseDecoder, max_pending_bytes, push}
use mehoy_malloy_ai_runtime.Sse.Chunks.{Taken, combine, push-append}
use mehoy_malloy_ai_runtime.Sse.Room.{kept, push-kept}

abbrev pub push_next : (SseDecoder → Taken) → Taken → Taken
push_next f (d, err e) = (d, err e)
push_next f (d, ok events) = combine events (f d)

combine-ok :
    (es : List Text) (t : Taken) (d : SseDecoder) (events : List Text)
    → combine es t ≡ (d, ok events)
    → (fs : List Text) × (t ≡ (d, ok fs)) × (events ≡ es ++ fs)
combine-ok es (d', ok fs) d events h = (fs, cc, cc)
combine-ok es (d', err e) d events h = cc

pub push_next-ok :
    (f : SseDecoder → Taken) (t : Taken) (d : SseDecoder) (events : List Text)
    → push_next f t ≡ (d, ok events)
    → (es : List Text) × (fs : List Text) × (d1 : SseDecoder) × (t ≡ (d1, ok es))
      × (f d1 ≡ (d, ok fs))
      × (events ≡ es ++ fs)
push_next-ok f (d1, ok es) d events h =
    let (fs, e, s) = combine-ok es (f d1) d events h in (es, fs, d1, refl, e, s)
push_next-ok f (d1, err e) d events h = cc

push_next-last :
    (t : Taken) (d : SseDecoder) (events : List Text)
    → push_next (λ d'. (d', ok [])) t ≡ (d, ok events)
    → t ≡ (d, ok events)
push_next-last (d1, ok es) d events h = ap (λ xs. (d1, ok xs)) (sym (append-nil es)) ∙ h
push_next-last (d1, err e) d events h = cc

module _ (is_utf8 : Text → Bool) where
  -- The chunks one after the other, with their events joined.
  unfoldable pub pushes : List Text → SseDecoder → Taken
  unfolding push
  pushes [] d = (d, ok [])
  pushes (c ∷ cs) d = push_next (pushes cs) (push is_utf8 c d)

  pub pushes-push :
      (c : Text) (cs : List Text) (d d' : SseDecoder) (events : List Text)
      → kept d + length (joined (c ∷ cs)) ≤ max_pending_bytes
      → pushes (c ∷ cs) d ≡ (d', ok events)
      → push is_utf8 (joined (c ∷ cs)) d ≡ (d', ok events)
  unfolding pushes
  pushes-push c [] d d' events room h =
      rw (append-nil c) (push_next-last (push is_utf8 c d) d' events h)
  pushes-push c (c2 ∷ cs) d d' events room h =
      let (es, fs, d1, p, q, s) = push_next-ok (pushes (c2 ∷ cs)) (push is_utf8 c d) d' events h in
      let a = length-append c (joined (c2 ∷ cs)) in
      let k : kept d1 ≤ kept d + length c =
        let e = ap (λ (t : Taken). kept t.0) p in let l = push-kept is_utf8 c d in omega arith in
      let b = length-append d.buffer (c ++ joined (c2 ∷ cs)) in
      let b1 = length-append d1.buffer (joined (c2 ∷ cs)) in
      push-append is_utf8 c (joined (c2 ∷ cs)) d d1 es (omega arith, omega arith)
        (omega arith, omega arith) p
      ∙ ap (combine es) (pushes-push c2 cs d1 d' fs (omega arith) q)
      ∙ ap (λ xs. (d', ok xs)) (sym s)
