-- ===== src/Loader/Unloading.antt =====
-- loader.rs, the teardown of a loaded model: `unload_within` and `drain`. It is split where the
-- source waits, so that other calls can run between the parts: taking the worker, stopping the
-- outstanding requests, waiting for them, stopping the worker, and the end.
use mehoy_malloy_ai_runtime.Common.{
  ℕ, zero, suc, ◌+◌, Option, none, some, List, [], ◌∷◌, leb, ◌==◌, if◌then◌else◌, Result, ok, err,
  length,
}
use mehoy_malloy_ai_runtime.Common.Text.{Text}
use mehoy_malloy_ai_runtime.Cancel.{instance_unloading, RequestHandle, request_cancellation, Op}
use mehoy_malloy_ai_runtime.Loader.Model.{
  serving, unloading, unloaded, unload_failed, LoadError, backend_error, LoadedModel, settled,
  with_handle, handle_ops, finish_lifecycle,
}

pub data UnloadOutcome : Type 0 where
  drained : (cancelled : ℕ) → UnloadOutcome
  escalated : (cancelled unsettled : ℕ) → UnloadOutcome
  already_unloading already_unloaded already_failed : UnloadOutcome

-- The first section of the lock: either the answer, or the worker with the outstanding requests.
pub data Start (W : Type 0) : Type 0 where
  answered : UnloadOutcome → Start W
  proceeds : (worker : W) (outstanding : List ℕ) → Start W

-- The places of the active requests that have not ended.
unfoldable pub outstanding_of : List RequestHandle → List (ℕ × ℕ) → List ℕ
outstanding_of hs [] = []
outstanding_of hs ((id, at) ∷ m) =
    let rest = outstanding_of hs m in if settled hs at then rest else at ∷ rest

-- How many of the handles have not ended.
unfoldable pub unsettled : List RequestHandle → List ℕ → ℕ
unsettled hs [] = 0
unsettled hs (at ∷ ats) = let rest = unsettled hs ats in if settled hs at then rest else suc rest

abbrev pub or_zero : Option ℕ → ℕ
or_zero none = 0
or_zero (some n) = n

-- What the surroundings of a wait do: the clock in milliseconds and the calls on the handles by their
-- other holders, by rounds.
pub record Surroundings : Type 0 where
  pub now : ℕ → ℕ
  pub during : ℕ → List (ℕ × Op)

module _ {W B : Type 0} where
  -- A model that is serving and has no worker answers as one whose teardown failed.
  unfoldable pub begin_unload : LoadedModel W B → LoadedModel W B × Start W
  unfolding finish_lifecycle
  begin_unload m = elim m.lifecycle.phase [
    | unloading ↦ (m, answered already_unloading)
    | unloaded ↦ (m, answered already_unloaded)
    | unload_failed ↦ (m, answered already_failed)
    | serving ↦
        let taken : LoadedModel W B = record m {
          lifecycle = record { phase = unloading; active = m.lifecycle.active; worker = none };
        } in
        elim m.lifecycle.worker [
          | none ↦ (finish_lifecycle unload_failed taken, answered already_failed)
          | some w ↦ (taken, proceeds w (outstanding_of m.handles m.lifecycle.active))
        ]
  ]

  unfoldable pub cancel_outstanding : List ℕ → LoadedModel W B → LoadedModel W B
  unfolding with_handle
  cancel_outstanding [] m = m
  cancel_outstanding (at ∷ ats) m =
      cancel_outstanding ats (with_handle (λ h. (request_cancellation instance_unloading h).0) at m)

  -- `drain`, from its round `n`: the count of the requests that have not settled when it stops. The
  -- loop ends by the requests or by the clock; nothing stands for fuel that has run out.
  unfoldable pub drain :
      ℕ → ℕ → Surroundings → ℕ → List ℕ → LoadedModel W B → LoadedModel W B × Option ℕ
  unfolding handle_ops
  drain zero n env deadline ats m = (m, none)
  drain (suc fuel) n env deadline ats m =
      let count = unsettled m.handles ats in
      let rest = drain fuel (n + 1) env deadline ats (handle_ops (env.during n) m) in
      if count == 0 then (m, some 0) else if leb deadline (env.now n) then (m, some count) else rest

  -- After `worker.stop()`: the phase by whether the worker was stopped, then the answer.
  unfoldable pub end_unload :
      Result (Unit {0}) Text
      → ℕ
      → ℕ
      → LoadedModel W B
      → LoadedModel W B × Result UnloadOutcome LoadError
  unfolding finish_lifecycle
  end_unload (ok u) cancelled left m = (
    finish_lifecycle unloaded m,
    ok (if left == 0 then drained cancelled else escalated cancelled left),
  )
  end_unload (err detail) cancelled left m =
      (finish_lifecycle unload_failed m, err (backend_error detail))

  -- `unload_within`, whole: `stop` is what the worker answers to being stopped.
  unfoldable pub unload_within :
      ℕ
      → Surroundings
      → ℕ
      → (W → Result (Unit {0}) Text)
      → LoadedModel W B
      → LoadedModel W B × Result UnloadOutcome LoadError
  unfolding cancel_outstanding end_unload
  unload_within fuel env budget stop m =
      let (m1, start) = begin_unload m in
      elim start [
        | answered o ↦ (m1, ok o)
        | proceeds w ats ↦
            let (m2, left) =
              drain fuel 0 env (env.now 0 + budget) ats (cancel_outstanding ats m1) in
            end_unload (stop w) (length ats) (or_zero left) m2
      ]
