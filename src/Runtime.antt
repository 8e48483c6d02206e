-- ===== src/Runtime.antt =====
-- runtime.rs: `load` and `unload_within` of a runtime, which put the ledger and the loader together.
-- `M` names a model that is shared (`Arc`). What the registry declares, what the loader and the
-- teardown answer, and the sections that other callers get in between are arguments.
pub mod Settling
mod Tests
use mehoy_malloy_ai_runtime.Common.{
  ℕ, Bool, true, false, Option, none, some, List, if◌then◌else◌, Result, ok, err,
}
use mehoy_malloy_ai_runtime.Common.Text.{Text}
use mehoy_malloy_ai_runtime.Resources.{
  ResourceFootprint, ResidentLimits, Refusal, too_many_instances, too_many_weight_bytes,
}
use mehoy_malloy_ai_runtime.Ledger.{
  Ledger, Rejection, reserve, fulfil, release, forget, resolve, Event, run,
}
use mehoy_malloy_ai_runtime.Loader.Model.{LifecyclePhase, unloaded, LoadError}
use mehoy_malloy_ai_runtime.Loader.Unloading.{UnloadOutcome}

-- A model that was not kept is given with why, and with the error of stopping it, if there was one.
pub data RuntimeError : Type 0 where
  unknown_instance : (instance_id : ℕ) → RuntimeError
  resident_capacity_reached : (capacity : ℕ) → RuntimeError
  resources_exhausted : (requested committed limit : ℕ) → RuntimeError
  load_failed : LoadError → RuntimeError
  not_kept : Rejection → Option LoadError → RuntimeError

abbrev pub from_refusal : Refusal → RuntimeError
from_refusal (too_many_instances capacity) = resident_capacity_reached capacity
from_refusal (too_many_weight_bytes requested committed limit) =
    resources_exhausted requested committed limit

abbrev pub is_unloaded : LifecyclePhase → Bool
is_unloaded unloaded = true
is_unloaded _ = false

abbrev pub stopping_error : Result UnloadOutcome LoadError → Option LoadError
stopping_error (ok o) = none
stopping_error (err e) = some e

module _ {M : Type 0} where
  -- What follows on the loader's answer, under a claim: the claim is fulfilled or dropped.
  unfoldable pub settle :
      ℕ
      → Result (ℕ × M) LoadError
      → Result UnloadOutcome LoadError
      → Ledger M
      → Ledger M × Result ℕ RuntimeError
  settle id (err e) stopped l = (release id l, err (load_failed e))
  settle id (ok (instance_id, model)) stopped l =
      let (l', r) = fulfil id instance_id model l in
      elim r [ ok i ↦ (l', ok i) | err why ↦ (l', err (not_kept why (stopping_error stopped))) ]

  -- `load`; `stopped` is the answer of the teardown of a model that the ledger hands back.
  unfoldable pub load :
      ResidentLimits
      → Result ResourceFootprint LoadError
      → Result (ℕ × M) LoadError
      → Result UnloadOutcome LoadError
      → List (Event M)
      → Ledger M
      → Ledger M × Result ℕ RuntimeError
  unfolding settle
  load limits (err e) loaded stopped meanwhile l = (l, err (load_failed e))
  load limits (ok f) loaded stopped meanwhile l = elim (reserve limits f l) [
    | err refusal ↦ (l, err (from_refusal refusal))
    | ok (l1, id) ↦ settle id loaded stopped (run limits meanwhile l1)
  ]

  -- `unload_within`: the answer of the model's own teardown, and its phase after that.
  unfoldable pub unload_resident :
      ResidentLimits
      → ℕ
      → Result UnloadOutcome LoadError
      → LifecyclePhase
      → List (Event M)
      → Ledger M
      → Ledger M × Result UnloadOutcome RuntimeError
  unload_resident limits instance_id torn phase meanwhile l = elim (resolve instance_id l) [
    | none ↦ (l, err (unknown_instance instance_id))
    | some model ↦
        let l' = run limits meanwhile l in
        elim torn [
          | ok outcome ↦ (if is_unloaded phase then forget instance_id l' else l', ok outcome)
          | err e ↦ (l', err (load_failed e))
        ]
  ]
