-- ===== src/Ledger/Tests.antt =====
-- Runs of the ledger, and its theorems at concrete ledgers. Models are numbers here.
use mehoy_malloy_ai_runtime.Resources.{
  ResourceFootprint, ResidentLimits, ResidentUsage, too_many_weight_bytes, container_size, admits,
}
use mehoy_malloy_ai_runtime.Resources.Admission.{Fits, admits_iff_Fits}
use mehoy_malloy_ai_runtime.Common.Words.{u64_max}
use mehoy_malloy_ai_runtime.Ledger.{
  Ledger, committed, reserve, fulfil, release, Event, reserves, fulfils, releases, run,
  empty_ledger,
}
use mehoy_malloy_ai_runtime.Ledger.Limits.{IsWithin, limits_hold}
use mehoy_malloy_ai_runtime.Ledger.Accounting.{IsTidy, release_restores, reserve-run}
use mehoy_malloy_ai_runtime.Ledger.Totals.{total_weight}
use mehoy_malloy_ai_runtime.Common.{
  ℕ, ◌+◌, ◌≡◌, ◌≢◌, refl, ◌↔◌, none, some, length, List, [], ◌∷◌, arith, ok, err, lookup, insert,
  remove,
}

abbrev bytes : ℕ → ResourceFootprint
bytes n = record { weight_bytes = n; basis = container_size }

abbrev two_models : ResidentLimits
two_models = record { max_instances = 2; max_weight_bytes = some 100 }

-- Two loads race for the last room; the first one wins, fails, and gives it back.
abbrev contended : List (Event ℕ)
contended =
    reserves (bytes 60)
    ∷ reserves (bytes 60)
    ∷ releases 1
    ∷ reserves (bytes 70)
    ∷ fulfils 2 5 40
    ∷ []

contended_usage :
    committed (run two_models contended empty_ledger)
    ≡ record { instances = 1; loading = 0; weight_bytes = 70 }
unfolding run empty_ledger committed reserve fulfil release admits insert remove lookup
contended_usage = refl

-- A sum that cannot be represented fits no budget, a maximal one included.
overflow_refused :
    admits
      (record { max_instances = 4; max_weight_bytes = some u64_max })
      (record { instances = 1; loading = 0; weight_bytes = u64_max })
      (bytes 1)
    ≡ err (too_many_weight_bytes 1 u64_max u64_max)
unfolding admits
overflow_refused = refl

abbrev busy : ResidentUsage
busy = record { instances = 1; loading = 0; weight_bytes = 60 }

admits_iff_Fits_example :
    (admits two_models busy (bytes 40) ≡ ok tt) ↔ Fits two_models busy (bytes 40)
admits_iff_Fits_example = admits_iff_Fits two_models busy (bytes 40) (omega arith)

abbrev one_resident : Ledger ℕ
one_resident = record {
  pending = (1, bytes 30) ∷ [];
  resident = (5, record { model = 40; footprint = bytes 60 }) ∷ [];
  next_reservation = 1;
}

limits_hold_example : IsWithin two_models (run two_models contended empty_ledger)
limits_hold_example = limits_hold two_models contended (omega arith)

one_resident-IsTidy : IsTidy one_resident
unfolding lookup
one_resident-IsTidy = record {
  below = omega arith;
  distinct = (refl, tt);
  distinct_resident = (refl, tt);
}

abbrev claimed : Ledger ℕ
claimed = record {
  pending = (1, bytes 30) ∷ (2, bytes 10) ∷ [];
  resident = one_resident.resident;
  next_reservation = 2;
}

abbrev three_models : ResidentLimits
three_models = record { max_instances = 3; max_weight_bytes = some 100 }

claimed_lem : reserve three_models (bytes 10) one_resident ≡ ok (claimed, 2)
unfolding reserve admits committed insert
claimed_lem = refl

release_restores_example : committed (release 2 claimed) ≡ committed one_resident
release_restores_example =
    (release_restores three_models (bytes 10) one_resident claimed 2 one_resident-IsTidy
      (omega arith) claimed_lem).1

abbrev third_claim : Ledger ℕ
third_claim = record {
  pending = (3, bytes 10) ∷ [];
  resident = (5, record { model = 40; footprint = bytes 70 }) ∷ [];
  next_reservation = 3;
}

third_claim_lem :
    reserve two_models (bytes 10) (run two_models contended empty_ledger) ≡ ok (third_claim, 3)
unfolding run empty_ledger committed reserve fulfil release admits insert remove lookup
third_claim_lem = refl

reserve-run_example :
    let l = run two_models contended empty_ledger in
    (lookup 3 l.pending ≡ none)
    × (lookup 3 third_claim.pending ≡ some (bytes 10))
    × ((other : ℕ) → other ≢ 3 → lookup other third_claim.pending ≡ lookup other l.pending)
    × (length third_claim.pending ≡ length l.pending + 1)
    × (total_weight third_claim ≡ total_weight l + (bytes 10).weight_bytes)
    × (third_claim.resident ≡ l.resident)
reserve-run_example =
    reserve-run two_models contended (bytes 10) third_claim 3 (omega arith) third_claim_lem
