-- ===== src/Sse/Chunks.antt =====
-- sse.rs: how the bytes are cut into chunks does not change the events.
use mehoy_malloy_ai_runtime.Common.{
  ℕ, zero, suc, ◌+◌, ◌≤◌, ◌<◌, ◌≡◌, refl, sym, ap, ◌∙◌, inl, inr, Bool, false, Option, none, some,
  List, [], ◌∷◌, ◌++◌, arith, ltb, Option-cases, Result, ok, err, ok-injective, length,
  length-append,
}
use mehoy_malloy_ai_runtime.Common.Text.{Text}
use mathlib.Core.List.{append_assoc}
use mehoy_malloy_ai_runtime.Sse.{
  SseError, SseDecoder, take_line, consume, with_event, take_events, push, max_pending_bytes,
}
use mehoy_malloy_ai_runtime.Sse.Lines.{take_line-append, take_line-length}

abbrev pub Taken : Type 0
Taken = SseDecoder × Result (List Text) SseError

-- How a round goes on behind its line.
abbrev pub after_line : (SseDecoder → Taken) → SseDecoder × Result (Option Text) SseError → Taken
after_line rest (d, err e) = (d, err e)
after_line rest (d, ok event) = with_event event (rest d)

abbrev pub with_buffer : Text → SseDecoder → SseDecoder
with_buffer b d = record d { buffer = b }

after_line-along :
    (f g : SseDecoder → Taken) (b : Text) (c : SseDecoder × Result (Option Text) SseError)
    → f (with_buffer b c.0) ≡ g (with_buffer b c.0)
    → after_line f (with_buffer b c.0, c.1) ≡ after_line g (with_buffer b c.0, c.1)
after_line-along f g b (d, err e) h = refl
after_line-along f g b (d, ok event) h = ap (with_event event) h

pub not_over : (a b : ℕ) → a ≤ b → ltb b a ≡ false
not_over a b h = ground arith

module _ (is_utf8 : Text → Bool) where
  consume-buffer :
      (line b : Text) (d : SseDecoder)
      → consume is_utf8 line (with_buffer b d)
        ≡ (with_buffer b (consume is_utf8 line d).0, (consume is_utf8 line d).1)
  unfolding consume
  consume-buffer [] b d = ground arith
  consume-buffer (x ∷ line) b d = ground arith

  pub take_events-none :
      (n : ℕ) (d : SseDecoder)
      → take_line d.buffer ≡ none
      → take_events is_utf8 (suc n) d ≡ (d, ok [])
  unfolding take_events
  take_events-none n d e = rw (e, take_events) refl

  take_events-next :
      (n : ℕ) (d : SseDecoder) (line left : Text)
      → take_line d.buffer ≡ some (line, left)
      → take_events is_utf8 (suc n) d
        ≡ after_line (take_events is_utf8 n) (consume is_utf8 line (with_buffer left d))
  unfolding take_events
  take_events-next n d line left e =
      rw (e, take_events) (go (consume is_utf8 line (with_buffer left d)))
    where
      go :
          (c : SseDecoder × Result (Option Text) SseError)
          → (elim c.1 [
            | err x ↦ (c.0, err x)
            | ok event ↦ with_event event (take_events is_utf8 n c.0)
          ])
            ≡ after_line (take_events is_utf8 n) c
      go (d', ok event) = refl
      go (d', err x) = refl

  pub take_events-some :
      (n : ℕ) (d : SseDecoder) (line left : Text)
      → take_line d.buffer ≡ some (line, left)
      → take_events is_utf8 (suc n) d
        ≡ after_line
            (take_events is_utf8 n)
            (with_buffer left (consume is_utf8 line d).0, (consume is_utf8 line d).1)
  take_events-some n d line left e =
      take_events-next n d line left e
      ∙ ap (after_line (take_events is_utf8 n)) (consume-buffer line left d)

  -- More fuel than bytes is as good as any other.
  take_events-fuel :
      (j k : ℕ) (d : SseDecoder)
      → length d.buffer < j
      → length d.buffer < k
      → take_events is_utf8 j d ≡ take_events is_utf8 k d
  take_events-fuel zero k d p q = absurd (omega arith)
  take_events-fuel (suc j) zero d p q = absurd (omega arith)
  take_events-fuel (suc j) (suc k) d p q = elim (Option-cases (take_line d.buffer)) [
    | inl e ↦ take_events-none j d e ∙ sym (take_events-none k d e)
    | inr ((line, left), e) ↦
        let l = take_line-length d.buffer line left e in
        take_events-some j d line left e
        ∙ after_line-along (take_events is_utf8 j) (take_events is_utf8 k) left
            (consume is_utf8 line d)
            (take_events-fuel j k (with_buffer left (consume is_utf8 line d).0) (omega arith)
              (omega arith))
        ∙ sym (take_events-some k d line left e)
  ]

-- The events of one chunk before what the next one gives.
abbrev pub combine : List Text → Taken → Taken
combine events (d, ok more) = (d, ok (events ++ more))
combine events (d, err e) = (d, err e)

combine-empty : (t : Taken) → combine [] t ≡ t
combine-empty (d, ok more) = refl
combine-empty (d, err e) = refl

combine-nothing : (events : List Text) (t : Taken) → [] ≡ events → t ≡ combine events t
combine-nothing events t e = rw (← e) (sym (combine-empty t))

with_event-combine :
    (event : Text) (events : List Text) (t : Taken)
    → with_event (some event) (combine events t) ≡ combine (event ∷ events) t
with_event-combine event events (d, ok more) = refl
with_event-combine event events (d, err e) = refl

with_event-ok :
    (event : Text) (t : Taken) (d : SseDecoder) (events : List Text)
    → with_event (some event) t ≡ (d, ok events)
    → (rest : List Text) × (t ≡ (d, ok rest)) × (events ≡ event ∷ rest)
with_event-ok event (d', ok rest) d events h = (rest, cc, cc)
with_event-ok event (d', err e) d events h = cc

after_line-append :
    (f g : SseDecoder → Taken) (left more : Text) (c : SseDecoder × Result (Option Text) SseError)
    (d : SseDecoder) (events : List Text) (t : Taken)
    → ((rest : List Text)
        → f (with_buffer left c.0) ≡ (d, ok rest)
        → g (with_buffer (left ++ more) c.0) ≡ combine rest t)
    → after_line f (with_buffer left c.0, c.1) ≡ (d, ok events)
    → after_line g (with_buffer (left ++ more) c.0, c.1) ≡ combine events t
after_line-append f g left more (d', err e) d events t go h = cc
after_line-append f g left more (d', ok none) d events t go h = go events h
after_line-append f g left more (d', ok (some event)) d events t go h =
    let (rest, e, s) = with_event-ok event (f (with_buffer left d')) d events h in
    rw (go rest e, s) (with_event-combine event rest t)

module _ (is_utf8 : Text → Bool) where
  take_events-append :
      (n k m : ℕ) (d d1 : SseDecoder) (events : List Text) (more : Text)
      → length d.buffer < n
      → length (d.buffer ++ more) < k
      → length (d1.buffer ++ more) < m
      → take_events is_utf8 n d ≡ (d1, ok events)
      → take_events is_utf8 k (with_buffer (d.buffer ++ more) d)
        ≡ combine events (take_events is_utf8 m (with_buffer (d1.buffer ++ more) d1))
  take_events-append zero k m d d1 events more p q r h = absurd (omega arith)
  take_events-append (suc n) zero m d d1 events more p q r h = absurd (omega arith)
  take_events-append (suc n) (suc k) m d d1 events more p q r h =
      elim (Option-cases (take_line d.buffer)) [
        | inl e ↦
            let s : (d, ok []) ≡ (d1, ok events) = sym (take_events-none is_utf8 n d e) ∙ h in
            let a : d ≡ d1 = ap (λ (x : Taken). x.0) s in
            let size = ap (λ (x : SseDecoder). length (x.buffer ++ more)) a in
            take_events-fuel is_utf8 (suc k) m (with_buffer (d.buffer ++ more) d) q (omega arith)
            ∙ ap (λ (x : SseDecoder). take_events is_utf8 m (with_buffer (x.buffer ++ more) x)) a
            ∙ combine-nothing events _ (ok-injective (ap (λ (x : Taken). x.1) s))
        | inr ((line, left), e) ↦
            let l = take_line-length d.buffer line left e in
            let more_left : length (left ++ more) < k =
              omega (arith, length-append left more, length-append d.buffer more) in
            take_events-some is_utf8 k (with_buffer (d.buffer ++ more) d) line (left ++ more)
              (take_line-append d.buffer more line left e)
            ∙ ap
                (λ (c : SseDecoder × Result (Option Text) SseError).
                  after_line (take_events is_utf8 k) (with_buffer (left ++ more) c.0, c.1))
                (consume-buffer is_utf8 line (d.buffer ++ more) d)
            ∙ after_line-append (take_events is_utf8 n) (take_events is_utf8 k) left more
                (consume is_utf8 line d) d1 events
                (take_events is_utf8 m (with_buffer (d1.buffer ++ more) d1))
                (λ rest f.
                  take_events-append n k m (with_buffer left (consume is_utf8 line d).0) d1 rest
                    more (omega arith) more_left r f)
                (sym (take_events-some is_utf8 n d line left e) ∙ h)
      ]

  -- Room for a chunk: neither limit is met.
  abbrev pub Fits : Text → SseDecoder → Type 0
  Fits chunk d =
      (length (d.buffer ++ chunk) ≤ max_pending_bytes) × (length d.data_text ≤ max_pending_bytes)

  pub push-take_events :
      (chunk : Text) (d : SseDecoder)
      → Fits chunk d
      → push is_utf8 chunk d
        ≡ take_events is_utf8 (length (d.buffer ++ chunk) + 1) (with_buffer (d.buffer ++ chunk) d)
  unfolding push
  push-take_events chunk d (a, b) =
      rw (not_over _ max_pending_bytes a, not_over _ max_pending_bytes b) refl

  -- How the bytes are cut into chunks does not change the events: with room for them, pushing two
  -- chunks one after the other gives the events, the decoder and the error that pushing them as one
  -- gives, wherever the cut is.
  pub push-append :
      (first second : Text) (d d1 : SseDecoder) (events : List Text)
      → Fits (first ++ second) d
      → Fits second d1
      → push is_utf8 first d ≡ (d1, ok events)
      → push is_utf8 (first ++ second) d ≡ combine events (push is_utf8 second d1)
  push-append first second d d1 events f g h =
      let room : length (d.buffer ++ first) ≤ max_pending_bytes =
        let whole = f.0 in
        omega (
          arith,
          length-append d.buffer first,
          length-append first second,
          length-append d.buffer (first ++ second),
        ) in
      let size = length-append (d.buffer ++ first) second in
      push-take_events (first ++ second) d f
      ∙ ap (λ b. take_events is_utf8 (length (d.buffer ++ (first ++ second)) + 1) (with_buffer b d))
          (sym (append_assoc d.buffer first second))
      ∙ take_events-append (length (d.buffer ++ first) + 1)
          (length (d.buffer ++ (first ++ second)) + 1) (length (d1.buffer ++ second) + 1)
          (with_buffer (d.buffer ++ first) d) d1 events second (omega arith)
          (omega (
            arith,
            length-append d.buffer first,
            length-append first second,
            length-append d.buffer (first ++ second),
          ))
          (omega arith) (sym (push-take_events first d (room, f.1)) ∙ h)
      ∙ ap (combine events) (sym (push-take_events second d1 g))
