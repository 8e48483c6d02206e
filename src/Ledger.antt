-- ===== src/Ledger.antt =====
-- crates/mehoy-runtime/src/runtime.rs, the ledger: what is committed against a runtime's limits, the
-- reservation of a load in flight, and its end as a resident model or as nothing. Each function is
-- one critical section of the ledger lock, so a history of a runtime is a list of such sections
-- (`Event`), in the order in which the lock was taken. A resident model is a parameter here; an
-- instance identifier is the 96-bit number that its hexadecimal text spells.
pub mod Totals
pub mod Limits
pub mod Accounting
mod Tests
use mehoy_malloy_ai_runtime.Common.{
  ℕ, Option, none, some, List, [], ◌∷◌, ◌++◌, if◌then◌else◌, Result, ok, err, ◌>>=◌, is_some,
  length, lookup, insert, remove,
}
use mehoy_malloy_ai_runtime.Common.Words.{saturating_add, wrapping_add}
use mehoy_malloy_ai_runtime.Resources.{
  ResourceFootprint, ResidentLimits, ResidentUsage, Refusal, admits,
}

pub record Resident (M : Type 0) : Type 0 where
  pub model : M
  pub footprint : ResourceFootprint

pub record Ledger (M : Type 0) : Type 0 where
  pub pending : List (ℕ × ResourceFootprint)
  pub resident : List (ℕ × Resident M)
  pub next_reservation : ℕ

-- The refusal of `fulfil`: it hands the model back.
pub data Rejection : Type 0 where
  already_released already_resident : Rejection

abbrev pub values : List (ℕ × ResourceFootprint) → List ResourceFootprint
values [] = []
values ((i, f) ∷ m) = f ∷ values m

-- `fold(0u64, |total, footprint| total.saturating_add(..))`, from a given total.
unfoldable pub fold_weights : ℕ → List ResourceFootprint → ℕ
fold_weights total [] = total
fold_weights total (f ∷ fs) = fold_weights (saturating_add total f.weight_bytes) fs

module _ {M : Type 0} where
  unfoldable pub empty_ledger : Ledger M
  empty_ledger = record { pending = []; resident = []; next_reservation = 0 }

  abbrev pub footprints : List (ℕ × Resident M) → List ResourceFootprint
  footprints [] = []
  footprints ((i, r) ∷ m) = r.footprint ∷ footprints m

  unfoldable pub committed : Ledger M → ResidentUsage
  unfolding fold_weights
  committed l = record {
    instances = saturating_add (length l.pending) (length l.resident);
    loading = length l.pending;
    weight_bytes = fold_weights 0 (values l.pending ++ footprints l.resident);
  }

  unfoldable pub allocate : Ledger M → Ledger M × ℕ
  allocate l =
      let next = wrapping_add l.next_reservation 1 in (record l { next_reservation = next }, next)

  -- `Runtime::reserve`: deciding and recording under one lock.
  unfoldable pub reserve :
      ResidentLimits → ResourceFootprint → Ledger M → Result (Ledger M × ℕ) Refusal
  unfolding allocate
  reserve limits f l = do
    _ ← admits limits (committed l) f
    let (l', id) = allocate l
    ok (record l' { pending = insert id f l'.pending }, id)

  -- `Reserved::fulfil`: the claim becomes a resident model, or the model is handed back.
  unfoldable pub fulfil : ℕ → ℕ → M → Ledger M → Ledger M × Result ℕ Rejection
  fulfil id instance_id model l = elim (lookup id l.pending) [
    | none ↦ (l, err already_released)
    | some f ↦
        let l' : Ledger M = record l { pending = remove id l.pending } in
        if is_some (lookup instance_id l.resident) then (l', err already_resident) else (
          record l' {
            resident = insert instance_id (record { model = model; footprint = f }) l.resident;
          },
          ok instance_id,
        )
  ]

  -- `Drop for Reserved` of a claim that is not settled.
  unfoldable pub release : ℕ → Ledger M → Ledger M
  release id l = record l { pending = remove id l.pending }

  -- `unload_within` after a teardown that finished.
  unfoldable pub forget : ℕ → Ledger M → Ledger M
  forget instance_id l = record l { resident = remove instance_id l.resident }

  unfoldable pub footprint : ℕ → Ledger M → Option ResourceFootprint
  footprint instance_id l = elim (lookup instance_id l.resident) [
    | none ↦ none
    | some r ↦ some r.footprint
  ]

  unfoldable pub resolve : ℕ → Ledger M → Option M
  resolve instance_id l = elim (lookup instance_id l.resident) [
    | none ↦ none
    | some r ↦ some r.model
  ]

-- One critical section, of whichever caller comes next.
pub data Event (M : Type 0) : Type 0 where
  reserves : ResourceFootprint → Event M
  fulfils : (id instance_id : ℕ) → M → Event M
  releases : (id : ℕ) → Event M
  forgets : (instance_id : ℕ) → Event M

module _ {M : Type 0} where
  -- A refused reservation leaves the ledger as it was.
  abbrev pub after : Ledger M → Result (Ledger M × ℕ) Refusal → Ledger M
  after l (ok (l', id)) = l'
  after l (err r) = l

  unfoldable pub step : ResidentLimits → Event M → Ledger M → Ledger M
  step limits (reserves f) l = after l (reserve limits f l)
  step limits (fulfils id instance_id model) l = (fulfil id instance_id model l).0
  step limits (releases id) l = release id l
  step limits (forgets instance_id) l = forget instance_id l

  unfoldable pub run : ResidentLimits → List (Event M) → Ledger M → Ledger M
  unfolding step
  run limits [] l = l
  run limits (e ∷ es) l = run limits es (step limits e l)
