-- ===== src/Runtime/Tests.antt =====
-- A load that loses its claim meanwhile, and the theorem about loads at it.
use mehoy_malloy_ai_runtime.Common.{
  ℕ, ◌≡◌, refl, none, [], ◌∷◌, arith, Result, ok, err, lookup, insert, remove,
}
use mehoy_malloy_ai_runtime.Resources.{container_size, ResourceFootprint, ResidentLimits, admits}
use mehoy_malloy_ai_runtime.Ledger.{
  Ledger, releases, empty_ledger, reserve, fulfil, release, run, committed, already_released,
}
use mehoy_malloy_ai_runtime.Ledger.Limits.{IsWithin, limits_hold}
use mehoy_malloy_ai_runtime.Loader.Model.{LoadError}
use mehoy_malloy_ai_runtime.Loader.Unloading.{UnloadOutcome, drained}
use mehoy_malloy_ai_runtime.Runtime.{not_kept, load, settle}
use mehoy_malloy_ai_runtime.Runtime.Settling.{load_settles}

abbrev one_model : ResidentLimits
one_model = record { max_instances = 1; max_weight_bytes = none }

abbrev forty : ResourceFootprint
forty = record { weight_bytes = 40; basis = container_size }

abbrev starts : Result (ℕ × ℕ) LoadError
starts = ok (5, 50)

abbrev stops : Result UnloadOutcome LoadError
stops = ok (drained 0)

abbrev claimed : Ledger ℕ
claimed = record { pending = (1, forty) ∷ []; resident = []; next_reservation = 1 }

released_meanwhile :
    (load one_model (ok forty) starts stops (releases 1 ∷ []) empty_ledger).1
    ≡ err (not_kept already_released none)
unfolding load settle reserve fulfil run release admits empty_ledger insert remove lookup committed
released_meanwhile = refl

granted : reserve {M = ℕ} one_model forty empty_ledger ≡ ok (claimed, 1)
unfolding reserve admits committed empty_ledger insert
granted = refl

load_settles_example :
    (lookup 1 (load one_model (ok forty) starts stops [] empty_ledger).0.pending ≡ none)
    × IsWithin one_model (load one_model (ok forty) starts stops [] empty_ledger).0
load_settles_example =
    load_settles one_model forty starts stops [] empty_ledger claimed 1 (omega arith, tt)
      (unfold run in limits_hold one_model [] (omega arith, tt)) granted
