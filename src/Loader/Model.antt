-- ===== src/Loader/Model.antt =====
-- loader.rs, the state of a loaded model and the sections of its lifecycle lock. Handles are shared
-- (`Arc`), so they stand in a heap of the model, `handles`, and every holder of one has its place in
-- it; `active` maps a request's identifier to that place. The worker is a parameter `W` that the
-- lifecycle owns until a teardown takes it, and so is the identity `B` of the backend.
use mehoy_malloy_ai_runtime.Common.{
  ℕ, zero, suc, Bool, true, false, not, Option, none, some, List, [], ◌∷◌, ◌++◌, if◌then◌else◌,
  Result, ok, err, length, get_elem?, lookup, insert,
}
use mehoy_malloy_ai_runtime.Common.Words.{wrapping_add}
use mehoy_malloy_ai_runtime.Common.Text.{Text}
use mehoy_malloy_ai_runtime.Cancel.{
  CancellationCause, RequestState, RequestHandle, is_terminal, new_handle, Op, apply,
}
use mehoy_malloy_ai_runtime.Instance.{InstanceState, ModelInstance, is_usable}

pub data LifecyclePhase : Type 0 where
  serving unloading unloaded unload_failed : LifecyclePhase

abbrev pub is_serving : LifecyclePhase → Bool
is_serving serving = true
is_serving _ = false

-- Why an operation on a loaded model failed; the texts of messages are the values that they word.
pub data LoadError : Type 0 where
  unknown_artifact artifact_missing : (id : ℕ) → LoadError
  artifact_changed : (id : ℕ) (reason : Text) → LoadError
  incompatible backend_error registry_error instance_error : (reason : Text) → LoadError
  not_serving : LifecyclePhase → LoadError
  not_usable : InstanceState → LoadError
  stopped : CancellationCause → LoadError
  invalid_request inference_error unusable_result : (detail : Text) → LoadError

pub record Lifecycle (W : Type 0) : Type 0 where
  pub phase : LifecyclePhase
  pub active : List (ℕ × ℕ)
  pub worker : Option W

pub record LoadedModel (W B : Type 0) : Type 0 where
  pub instance_data : ModelInstance B
  pub identity : Option B
  pub next_request : ℕ
  pub lifecycle : Lifecycle W
  pub handles : List RequestHandle

abbrev pub settled_handle : Option RequestHandle → Bool
settled_handle none = true
settled_handle (some h) = is_terminal h.state

-- Whether the handle at a place of the heap has ended.
abbrev pub settled : List RequestHandle → ℕ → Bool
settled hs at = settled_handle (get_elem? hs at)

-- `active.retain(|_, handle| !handle.is_terminal())`.
unfoldable pub retain_active : List RequestHandle → List (ℕ × ℕ) → List (ℕ × ℕ)
retain_active hs [] = []
retain_active hs ((id, at) ∷ m) =
    let rest = retain_active hs m in if settled hs at then rest else (id, at) ∷ rest

abbrev pub apply_at : (RequestHandle → RequestHandle) → List RequestHandle → ℕ → List RequestHandle
apply_at f [] at = []
apply_at f (h ∷ hs) zero = f h ∷ hs
apply_at f (h ∷ hs) (suc at) = h ∷ apply_at f hs at

module _ {W B : Type 0} where
  unfoldable pub with_handle :
      (RequestHandle → RequestHandle) → ℕ → LoadedModel W B → LoadedModel W B
  with_handle f at m = record m { handles = apply_at f m.handles at }

  -- A call on a shared handle by whoever holds a clone of it.
  unfoldable pub handle_op : ℕ × Op → LoadedModel W B → LoadedModel W B
  unfolding with_handle
  handle_op (at, o) m = with_handle (apply o) at m

  unfoldable pub handle_ops : List (ℕ × Op) → LoadedModel W B → LoadedModel W B
  unfolding handle_op
  handle_ops [] m = m
  handle_ops (o ∷ os) m = handle_ops os (handle_op o m)

  -- `admit`: the check and the registration are one section of the lock. The place of the new handle
  -- is the answer.
  unfoldable pub admit : LoadedModel W B → LoadedModel W B × Result ℕ LoadError
  unfolding new_handle
  admit m =
      if not (is_serving m.lifecycle.phase)
      then (m, err (not_serving m.lifecycle.phase))
      else if not (is_usable m.instance_data.state)
      then (m, err (not_usable m.instance_data.state))
      else (let at : ℕ = length m.handles in
          let id : ℕ = m.next_request in
          (
            record m {
              next_request = wrapping_add id 1;
              lifecycle = record {
                phase = m.lifecycle.phase;
                active = insert id at (retain_active m.handles m.lifecycle.active);
                worker = m.lifecycle.worker;
              };
              handles = m.handles ++ new_handle id ∷ [];
            },
            ok at,
          ))

  unfoldable pub active_requests : LoadedModel W B → LoadedModel W B × ℕ
  active_requests m =
      let kept = retain_active m.handles m.lifecycle.active in
      (
        record m {
          lifecycle = record {
            phase = m.lifecycle.phase;
            active = kept;
            worker = m.lifecycle.worker;
          };
        },
        length kept,
      )

  unfoldable pub request_state : ℕ → LoadedModel W B → Option RequestState
  request_state id m = elim (lookup id m.lifecycle.active) [
    | none ↦ none
    | some at ↦ elim (get_elem? m.handles at) [ none ↦ none | some h ↦ some h.state ]
  ]

  -- `finish`: sets the phase and forgets the requests.
  unfoldable pub finish_lifecycle : LifecyclePhase → LoadedModel W B → LoadedModel W B
  finish_lifecycle p m = record m {
    lifecycle = record { phase = p; active = []; worker = m.lifecycle.worker };
  }
