-- ===== src/Runtime/Settling.antt =====
-- runtime.rs: a load settles its claim whatever happens, and stays within the limits.
use mehoy_malloy_ai_runtime.Common.{
  ℕ, ◌≡◌, refl, ap, inl, inr, none, List, Result, ok, err, Result-cases, lookup, lookup-remove_self,
}
use mehoy_malloy_ai_runtime.Resources.{ResourceFootprint, ResidentLimits}
use mehoy_malloy_ai_runtime.Ledger.{
  Ledger, reserve, fulfil, release, after, Event, fulfils, releases, step, run,
}
use mehoy_malloy_ai_runtime.Ledger.Limits.{AreWords, IsWithin, step-IsWithin, run-IsWithin}
use mehoy_malloy_ai_runtime.Ledger.Accounting.{fulfil_clears}
use mehoy_malloy_ai_runtime.Loader.Model.{LoadError}
use mehoy_malloy_ai_runtime.Loader.Unloading.{UnloadOutcome}
use mehoy_malloy_ai_runtime.Runtime.{settle, load}

module _ {M : Type 0} where
  settle_clears :
      (id : ℕ) (loaded : Result (ℕ × M) LoadError) (stopped : Result UnloadOutcome LoadError)
      (l : Ledger M)
      → lookup id (settle id loaded stopped l).0.pending ≡ none
  unfolding settle
  settle_clears id (err e) stopped l = unfold release in lookup-remove_self id l.pending
  settle_clears id (ok (i, model)) stopped l = elim (Result-cases (fulfil id i model l).1) [
    | inl (j, e) ↦ rw (e, settle) (fulfil_clears id i model l)
    | inr (w, e) ↦ rw (e, settle) (fulfil_clears id i model l)
  ]

  -- The section with which a load ends.
  abbrev ending : ℕ → Result (ℕ × M) LoadError → Event M
  ending id (ok (i, model)) = fulfils id i model
  ending id (err e) = releases id

  settle-step :
      (limits : ResidentLimits) (id : ℕ) (loaded : Result (ℕ × M) LoadError)
      (stopped : Result UnloadOutcome LoadError) (l : Ledger M)
      → (settle id loaded stopped l).0 ≡ step limits (ending id loaded) l
  unfolding settle step
  settle-step limits id (err e) stopped l = refl
  settle-step limits id (ok (i, model)) stopped l = elim (Result-cases (fulfil id i model l).1) [
    | inl (j, e) ↦ rw (e, settle) refl
    | inr (w, e) ↦ rw (e, settle) refl
  ]

  -- A load keeps no claim and breaks no limit, whether it succeeds or fails, and whatever other
  -- callers do while the model starts: in a ledger within limits that are u64 values, a load that
  -- is granted a claim ends without it, and the ledger it leaves is within the limits.
  pub load_settles :
      (limits : ResidentLimits) (f : ResourceFootprint) (loaded : Result (ℕ × M) LoadError)
      (stopped : Result UnloadOutcome LoadError) (meanwhile : List (Event M)) (l l1 : Ledger M)
      (id : ℕ)
      → AreWords limits
      → IsWithin limits l
      → reserve limits f l ≡ ok (l1, id)
      → (lookup id (load limits (ok f) loaded stopped meanwhile l).0.pending ≡ none)
        × IsWithin limits (load limits (ok f) loaded stopped meanwhile l).0
  unfolding load
  load_settles limits f loaded stopped meanwhile l l1 id w v e =
      let first : IsWithin limits l1 =
        rw (← ap (after l) e) (unfold step in step-IsWithin limits (Event.reserves f) l w v) in
      let later = run-IsWithin limits meanwhile l1 w first in
      rw (e, load)
        (
          settle_clears id loaded stopped (run limits meanwhile l1),
          rw (settle-step limits id loaded stopped (run limits meanwhile l1))
              (step-IsWithin limits (ending id loaded) (run limits meanwhile l1) w later),
        )
