-- ===== src/Loader/Requests.antt =====
-- loader.rs, the requests on a loaded model: one that is awaited whole (an embedding, a generation),
-- one that streams, and the cancellation of one by its identifier. What the backend answers is an
-- argument: nothing yet, an error with its text, or a response. `select!` is biased: a request that
-- was told to stop does not look at the answer.
use mehoy_malloy_ai_runtime.Common.{
  ℕ, Bool, true, false, Option, none, some, List, if◌then◌else◌, Result, ok, err, get_elem?, lookup,
}
use mehoy_malloy_ai_runtime.Common.Text.{Text}
use mehoy_malloy_ai_runtime.Cancel.{
  CancellationCause, user, RequestState, completed, cancelled, failed, is_terminal, RequestHandle,
  mark_running, request_cancellation, finish, cancellation_cause, Op, run,
}
use mehoy_malloy_ai_runtime.Capability.{ModelCapability, text_generation, embeddings}
use mehoy_malloy_ai_runtime.Instance.{verify_instance}
use mehoy_malloy_ai_runtime.Inference.Embedding.{
  EmbedRequest, EmbeddingResult, ResultDefect, validate,
}
use mehoy_malloy_ai_runtime.Inference.Generation.{
  GenerationResult, InvalidGenerationParameter, GenerationParameters, validate_parameters,
  GenerationDefect, validate_generation,
}
use mehoy_malloy_ai_runtime.Inference.Stream.{GenerationStream, demonstrated_generation}
use mehoy_malloy_ai_runtime.Loader.Model.{
  LoadError, stopped, invalid_request, inference_error, unusable_result, LoadedModel, retain_active,
  with_handle, admit,
}

-- What one look at an awaited request gives.
pub data Poll (R : Type 0) : Type 0 where
  pending : Poll R
  ready : Result R LoadError → Poll R

pub data CancelOutcome : Type 0 where
  requested : CancelOutcome
  already_stopping : CancellationCause → CancelOutcome
  already_finished : RequestState → CancelOutcome

pub data CancelError : Type 0 where
  unknown_request : (id : ℕ) → CancelError

abbrev pub or_user : Option CancellationCause → CancellationCause
or_user none = user
or_user (some c) = c

-- The cause that the token of a handle carries.
abbrev pub cause_of : Option RequestHandle → Option CancellationCause
cause_of none = none
cause_of (some h) = cancellation_cause h

-- The text of a defect, `defect.to_string()`, is an argument of what reports it.
abbrev pub to_detail {κ} : {E : Type κ} → (E → Text) → Result (Unit {0}) E → Result (Unit {0}) Text
to_detail f (ok u) = ok u
to_detail f (err e) = err (f e)

-- How a check of the response decides: the state that the handle is left in, and the answer.
abbrev pub judge : {R : Type 0} → Result (Unit {0}) Text → R → RequestState × Result R LoadError
judge (ok u) r = (completed, ok r)
judge (err detail) r = (failed, err (unusable_result detail))

-- What the other holders of a handle do to it during a `cancel`: before the first `is_terminal`,
-- between it and the next look at the handle (a read of the state, or `request_cancellation`),
-- between that and the second `is_terminal`, and between this and the last read (of the state or
-- of the cause).
pub record Between : Type 0 where
  pub before : List Op
  pub meanwhile : List Op
  pub after : List Op
  pub last : List Op

-- `cancel`, once the lock of the lifecycle is released and the handle is at hand. Each step locks
-- the handle anew.
unfoldable pub cancel_handle : Between → RequestHandle → RequestHandle × CancelOutcome
cancel_handle b h =
    let h1 = run b.before h in
    let h2 = run b.meanwhile h1 in
    let (h3, claimed) = request_cancellation user h2 in
    let h4 = run b.after h3 in
    let h5 = run b.last h4 in
    if is_terminal h1.state
    then (h2, already_finished h2.state)
    else if claimed
    then (h3, requested)
    else if is_terminal h4.state
    then (h5, already_finished h5.state)
    else (h5, already_stopping (or_user (cancellation_cause h5)))

module _ {W B : Type 0} where
  -- `admit` and `mark_running`, with which `embed` and `generate_text` begin.
  unfoldable pub begin : LoadedModel W B → LoadedModel W B × Result ℕ LoadError
  begin m =
      let (m', r) = admit m in
      elim r [ ok at ↦ (with_handle mark_running at m', ok at) | err e ↦ (m', err e) ]

  -- `generate_text` and `generate_stream_within` check the parameters before they ask for admission;
  -- the stream marks its request running later, when the backend answers.
  unfoldable pub begin_generate :
      (InvalidGenerationParameter → Text)
      → GenerationParameters
      → LoadedModel W B
      → LoadedModel W B × Result ℕ LoadError
  unfolding begin
  begin_generate to_text p m = elim (validate_parameters p) [
    | ok u ↦ begin m
    | err invalid ↦ (m, err (invalid_request (to_text invalid)))
  ]

  unfoldable pub begin_stream :
      (InvalidGenerationParameter → Text)
      → GenerationParameters
      → LoadedModel W B
      → LoadedModel W B × Result ℕ LoadError
  begin_stream to_text p m = elim (validate_parameters p) [
    | ok u ↦ admit m
    | err invalid ↦ (m, err (invalid_request (to_text invalid)))
  ]

  -- One look at a request that was begun: the rest of `embed` and of `generate_text`, with the check
  -- that each makes on its response.
  unfoldable pub poll_request :
      {R : Type 0}
      → (R → Result (Unit {0}) Text)
      → ℕ
      → Option (Result R Text)
      → LoadedModel W B
      → LoadedModel W B × Poll R
  poll_request check at sent m = elim (cause_of (get_elem? m.handles at)) [
    | some cause ↦ (with_handle (λ k. (finish cancelled k).0) at m, ready (err (stopped cause)))
    | none ↦ elim sent [
      | none ↦ (m, pending)
      | some (err detail) ↦
          (with_handle (λ k. (finish failed k).0) at m, ready (err (inference_error detail)))
      | some (ok r) ↦
          let (state, answer) = judge (check r) r in
          (with_handle (λ k. (finish state k).0) at m, ready answer)
    ]
  ]

  -- `verify_embeddings` and `verify_text_generation`: the capability is recorded on success only.
  abbrev pub record_success :
      {R : Type 0} → ℕ → ModelCapability → LoadedModel W B × Poll R → LoadedModel W B × Poll R
  record_success now c (m, ready (ok r)) =
      (record m { instance_data = verify_instance now c m.identity m.instance_data }, ready (ok r))
  record_success now c (m, ready (err e)) = (m, ready (err e))
  record_success now c (m, pending) = (m, pending)

  -- `embed` checks a response against the request, `generate_text` checks it alone.
  unfoldable pub poll_embed :
      (ResultDefect → Text)
      → EmbedRequest
      → ℕ
      → Option (Result EmbeddingResult Text)
      → LoadedModel W B
      → LoadedModel W B × Poll EmbeddingResult
  poll_embed to_text request at sent m =
      poll_request (λ r. to_detail to_text (validate request r)) at sent m

  unfoldable pub poll_generate :
      (GenerationDefect → Text)
      → ℕ
      → Option (Result GenerationResult Text)
      → LoadedModel W B
      → LoadedModel W B × Poll GenerationResult
  poll_generate to_text at sent m =
      poll_request (λ r. to_detail to_text (validate_generation r)) at sent m

  unfoldable pub verify_embeddings :
      ℕ
      → (ResultDefect → Text)
      → EmbedRequest
      → ℕ
      → Option (Result EmbeddingResult Text)
      → LoadedModel W B
      → LoadedModel W B × Poll EmbeddingResult
  unfolding poll_embed
  verify_embeddings now to_text request at sent m =
      record_success now embeddings (poll_embed to_text request at sent m)

  unfoldable pub verify_text_generation :
      ℕ
      → (GenerationDefect → Text)
      → ℕ
      → Option (Result GenerationResult Text)
      → LoadedModel W B
      → LoadedModel W B × Poll GenerationResult
  unfolding poll_generate
  verify_text_generation now to_text at sent m =
      record_success now text_generation (poll_generate to_text at sent m)

  unfoldable pub record_generation_stream :
      ℕ → GenerationStream → LoadedModel W B → LoadedModel W B × Bool
  record_generation_stream now s m =
      if demonstrated_generation s
      then (
        record m { instance_data = verify_instance now text_generation m.identity m.instance_data },
        true,
      )
      else (m, false)

  unfoldable pub cancel_request :
      ℕ → Between → LoadedModel W B → LoadedModel W B × Result CancelOutcome CancelError
  unfolding cancel_handle
  cancel_request id between m =
      let kept = retain_active m.handles m.lifecycle.active in
      let m' : LoadedModel W B = record m {
        lifecycle = record {
          phase = m.lifecycle.phase;
          active = kept;
          worker = m.lifecycle.worker;
        };
      } in
      elim (lookup id kept) [
        | none ↦ (m', err (unknown_request id))
        | some at ↦ elim (get_elem? m.handles at) [
          | none ↦ (m', err (unknown_request id))
          | some h ↦
              let (h', outcome) = cancel_handle between h in
              (with_handle (λ k. h') at m', ok outcome)
        ]
      ]
