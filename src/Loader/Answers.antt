-- ===== src/Loader/Answers.antt =====
-- loader.rs: what an answer to a request means, when a capability is
-- recorded, and what a cancellation achieves.
use mehoy_malloy_ai_runtime.Common.{
  ℕ, ◌≡◌, refl, ap, ◌∙◌, ◌⊎◌, inl, inr, true, false, Option, none, some, List, arith, Bool-cases,
  Result, ok, err, ok-injective, is_some, get_elem?,
}
use mehoy_malloy_ai_runtime.Common.Text.{Text}
use mehoy_malloy_ai_runtime.Capability.{ModelCapability, embeddings}
use mehoy_malloy_ai_runtime.Instance.{ModelInstance, verify_instance}
use mehoy_malloy_ai_runtime.Cancel.{
  CancellationCause, user, cancelling, is_terminal, RequestHandle, request_cancellation,
  cancellation_cause, Op, run,
}
use mehoy_malloy_ai_runtime.Cancel.History.{run-terminal, run-cause}
use mehoy_malloy_ai_runtime.Inference.Embedding.{
  EmbedRequest, EmbeddingResult, ResultDefect, validate,
}
use mehoy_malloy_ai_runtime.Loader.Model.{LoadError, LoadedModel, with_handle}
use mehoy_malloy_ai_runtime.Loader.Requests.{
  Poll, pending, ready, CancelOutcome, requested, already_stopping, already_finished, cause_of,
  judge, to_detail, Between, cancel_handle, poll_request, record_success, poll_embed,
  verify_embeddings,
}

-- The handle as the second look at its state finds it, where the first look found it open.
abbrev pub at_second_look : Between → RequestHandle → RequestHandle
at_second_look b h = run b.after (request_cancellation user (run b.meanwhile (run b.before h))).0

-- What each answer of a cancellation says of the handle `look` of the second look at the state, and
-- of the handle `h` that is left.
abbrev pub Tells : RequestHandle → CancelOutcome → RequestHandle → Type 0
Tells look requested h = (h.state ≡ cancelling) × (cancellation_cause h ≡ some user)
Tells look (already_stopping c) h =
    (is_terminal look.state ≡ false)
    × (cancellation_cause look ≡ some c)
    × (cancellation_cause h ≡ some c)
Tells look (already_finished s) h = (is_terminal h.state ≡ true) × (h.state ≡ s)

is_some_cases :
    (o : Option CancellationCause) → is_some o ≡ true → (c : CancellationCause) × (o ≡ some c)
is_some_cases none e = cc
is_some_cases (some c) e = (c, refl)

claims :
    (look h : RequestHandle)
    → (request_cancellation user h).1 ≡ true
    → Tells look requested (request_cancellation user h).0
unfolding request_cancellation
claims look h e = ground arith

claims_not :
    (h : RequestHandle)
    → (request_cancellation user h).1 ≡ false
    → ((request_cancellation user h).0 ≡ h)
      × ((is_terminal h.state ≡ true) ⊎ (is_some (cancellation_cause h) ≡ true))
unfolding request_cancellation
claims_not h e = ground arith

stopping_later :
    (os : List Op) (h : RequestHandle)
    → (is_terminal h.state ≡ true) ⊎ (is_some (cancellation_cause h) ≡ true)
    → is_terminal (run os h).state ≡ false
    → (c : CancellationCause) × (cancellation_cause (run os h) ≡ some c)
stopping_later os h (inl t) f = cc (run-terminal os h t)
stopping_later os h (inr s) f =
    let (c, e) = is_some_cases (cancellation_cause h) s in (c, run-cause os h c e)

-- A cancellation by a user never fails to stop a request, and its answer is true, whatever the other
-- holders of the handle do between its steps: it was requested, and the request is `cancelling` for
-- the user; or the request had not ended at the second look at its state and was already stopping,
-- then and at the end, for the cause that is named, where it may have ended since that look; or it
-- has ended in the state that is named.
pub cancel_handle_tells :
    (b : Between) (h : RequestHandle)
    → let r = cancel_handle b h in Tells (at_second_look b h) r.1 r.0
unfolding cancel_handle
cancel_handle_tells b h =
    let h1 = run b.before h in
    let h2 = run b.meanwhile h1 in
    let h3 = (request_cancellation user h2).0 in
    let h4 = run b.after h3 in
    elim (Bool-cases (is_terminal h1.state)) [
      | inl t ↦ rw (t, cancel_handle) (ap is_terminal (run-terminal b.meanwhile h1 t) ∙ t, refl)
      | inr t ↦ elim (Bool-cases (request_cancellation user h2).1) [
        | inl e ↦ rw (t, e, cancel_handle) (claims h4 h2 e)
        | inr e ↦
            let (same, why) = claims_not h2 e in
            elim (Bool-cases (is_terminal h4.state)) [
              | inl f ↦
                  rw (t, e, f, cancel_handle) (ap is_terminal (run-terminal b.last h4 f) ∙ f, refl)
              | inr f ↦
                  let (c, k) = stopping_later b.after h3 (rw same why) f in
                  let k' = run-cause b.last h4 c k in rw (t, e, f, cancel_handle, k') (f, k, refl)
            ]
      ]
    ]

ready_injective : {R : Type 0} {x y : Result R LoadError} → ready x ≡ ready y → x ≡ y
ready_injective e = cc

judge_ok :
    {R : Type 0} (v : Result (Unit {0}) Text) (q r : R)
    → (judge v q).1 ≡ ok r
    → (q ≡ r) × (v ≡ ok tt)
judge_ok (ok tt) q r e = (ok-injective e, refl)
judge_ok (err d) q r e = cc

to_detail_ok :
    {E : Type 0} (f : E → Text) (v : Result (Unit {0}) E) → to_detail f v ≡ ok tt → v ≡ ok tt
to_detail_ok f (ok tt) e = refl
to_detail_ok f (err d) e = cc

verify_instance_along :
    {B : Type 0} (now : ℕ) (c : ModelCapability) (x y : Option B) (i j : ModelInstance B)
    → x ≡ y
    → i ≡ j
    → verify_instance now c x i ≡ verify_instance now c y j
verify_instance_along now c x y i j p q = rw (p, q) refl

module _ {W B : Type 0} where
  -- A result that a request delivers was asked for and checked: an `ok` answer means that the request
  -- carried no cause to stop, that the backend sent exactly this response, and that the response
  -- passed the check.
  pub poll_request_ok :
      {R : Type 0} (check : R → Result (Unit {0}) Text) (at : ℕ) (sent : Option (Result R Text))
      (m : LoadedModel W B) (r : R)
      → (poll_request check at sent m).1 ≡ ready (ok r)
      → (cause_of (get_elem? m.handles at) ≡ none) × (sent ≡ some (ok r)) × (check r ≡ ok tt)
  unfolding poll_request
  poll_request_ok {R = R} check at sent m r e = go (cause_of (get_elem? m.handles at)) sent refl e
    where
      go :
          (c : Option CancellationCause) (o : Option (Result R Text))
          → cause_of (get_elem? m.handles at) ≡ c
          → (poll_request check at o m).1 ≡ ready (ok r)
          → (c ≡ none) × (o ≡ some (ok r)) × (check r ≡ ok tt)
      go (some c) o k e = cc (rw (k, poll_request) at e)
      go none none k e = cc (rw (k, poll_request) at e)
      go none (some (err d)) k e = cc (rw (k, poll_request) at e)
      go none (some (ok q)) k e =
          let (a, b) = judge_ok (check q) q r (ready_injective (rw (k, poll_request) at e)) in
          (refl, rw a refl, rw (← a) b)

  poll_request-instance_data :
      {R : Type 0} (check : R → Result (Unit {0}) Text) (at : ℕ) (sent : Option (Result R Text))
      (m : LoadedModel W B)
      → ((poll_request check at sent m).0.instance_data ≡ m.instance_data)
        × ((poll_request check at sent m).0.identity ≡ m.identity)
  unfolding poll_request with_handle
  poll_request-instance_data {R = R} check at sent m =
      go (cause_of (get_elem? m.handles at)) sent refl
    where
      go :
          (c : Option CancellationCause) (o : Option (Result R Text))
          → cause_of (get_elem? m.handles at) ≡ c
          → ((poll_request check at o m).0.instance_data ≡ m.instance_data)
            × ((poll_request check at o m).0.identity ≡ m.identity)
      go (some c) o k = rw (k, poll_request) (refl, refl)
      go none none k = rw (k, poll_request) (refl, refl)
      go none (some (err d)) k = rw (k, poll_request) (refl, refl)
      go none (some (ok q)) k = rw (k, poll_request) (refl, refl)

  record_success_cases :
      {R : Type 0} (now : ℕ) (c : ModelCapability) (p : LoadedModel W B × Poll R)
      → ((record_success now c p).0.instance_data ≡ p.0.instance_data)
        ⊎ ((r : R) × (p.1 ≡ ready (ok r))
            × ((record_success now c p).1 ≡ ready (ok r))
            × ((record_success now c p).0.instance_data
                ≡ verify_instance now c p.0.identity p.0.instance_data))
  record_success_cases now c (m, pending) = inl refl
  record_success_cases now c (m, ready (err e)) = inl refl
  record_success_cases now c (m, ready (ok r)) = inr (r, refl, refl, refl)

  -- A capability is verified by success alone: after a look at an embedding request the evidence of
  -- the instance is what it was before, or the answer is a response that the backend sent and that
  -- is right for the request, to a request that was not told to stop, and the evidence is then the
  -- verification of embeddings by the identity of the loaded model.
  pub verify_embeddings_lem :
      (now : ℕ) (to_text : ResultDefect → Text) (request : EmbedRequest) (at : ℕ)
      (sent : Option (Result EmbeddingResult Text)) (m : LoadedModel W B)
      → let after = verify_embeddings now to_text request at sent m in
        (after.0.instance_data ≡ m.instance_data)
        ⊎ ((r : EmbeddingResult) × (after.1 ≡ ready (ok r))
            × (sent ≡ some (ok r))
            × (cause_of (get_elem? m.handles at) ≡ none)
            × (validate request r ≡ ok tt)
            × (after.0.instance_data ≡ verify_instance now embeddings m.identity m.instance_data))
  unfolding verify_embeddings poll_embed
  verify_embeddings_lem now to_text request at sent m =
      let check : EmbeddingResult → Result (Unit {0}) Text =
        λ r. to_detail to_text (validate request r) in
      let polled = poll_request check at sent m in
      let (same, who) = poll_request-instance_data check at sent m in
      elim (record_success_cases now embeddings polled) [
        | inl e ↦ inl (e ∙ same)
        | inr (r, e, f, g) ↦
            let (c, s, v) = poll_request_ok check at sent m r e in
            inr (
              r,
              f,
              s,
              c,
              to_detail_ok to_text (validate request r) v,
              g ∙ verify_instance_along now embeddings _ m.identity _ m.instance_data who same,
            )
      ]
