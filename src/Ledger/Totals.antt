-- ===== src/Ledger/Totals.antt =====
-- runtime.rs: the committed weights, as the exact sum that the saturating fold stands for.
use mehoy_malloy_ai_runtime.Common.Words.{u64_mod, u64_max, saturating_add}
use mehoy_malloy_ai_runtime.Resources.{ResourceFootprint}
use mehoy_malloy_ai_runtime.Ledger.{Resident, Ledger, footprints, values, fold_weights, committed}
use mehoy_malloy_ai_runtime.Common.{
  ℕ, ◌+◌, ◌≤◌, min, ◌≡◌, refl, inl, inr, none, some, List, [], ◌∷◌, ◌++◌, arith, ltb, ltb→lt,
  le_of_ltb-false, Bool-cases, length, lookup, insert, remove, length-remove-le,
}

-- The sum over the naturals, with no bound.
abbrev pub total : List ResourceFootprint → ℕ
total [] = 0
total (f ∷ fs) = f.weight_bytes + total fs

pub total-append : (xs ys : List ResourceFootprint) → total (xs ++ ys) ≡ total xs + total ys
total-append [] ys = omega arith
total-append (f ∷ xs) ys = omega (arith, total-append xs ys)

fold_weights-min :
    (t : ℕ) (fs : List ResourceFootprint)
    → t ≤ u64_max
    → fold_weights t fs ≡ min (t + total fs) u64_max
unfolding fold_weights
fold_weights-min t [] h = omega arith
fold_weights-min t (f ∷ fs) h = elim (Bool-cases (ltb (t + f.weight_bytes) u64_mod)) [
  | inl e ↦ rw e (omega (arith, ltb→lt _ _ e, fold_weights-min (t + f.weight_bytes) fs))
  | inr e ↦ rw e (omega (arith, fold_weights-min u64_max fs, le_of_ltb-false _ _ e))
]

module _ {M : Type 0} where
  -- The exact sum of what a ledger has committed.
  abbrev pub total_weight : Ledger M → ℕ
  total_weight l = total (values l.pending) + total (footprints l.resident)

  pub committed-instances :
      (l : Ledger M)
      → (committed l).instances ≡ saturating_add (length l.pending) (length l.resident)
  unfolding committed
  committed-instances l = refl

  pub committed-loading : (l : Ledger M) → (committed l).loading ≡ length l.pending
  unfolding committed
  committed-loading l = refl

  -- The committed weights that a ledger reports are the exact sum of every pending and resident
  -- footprint, capped at the greatest u64; so they depend on no order of the two maps.
  pub committed-weight_bytes :
      (l : Ledger M) → (committed l).weight_bytes ≡ min (total_weight l) u64_max
  unfolding committed
  committed-weight_bytes l = omega (
    arith,
    fold_weights-min 0 (values l.pending ++ footprints l.resident),
    total-append (values l.pending) (footprints l.resident),
  )

pub total-insert-le :
    (k : ℕ) (f : ResourceFootprint) (m : List (ℕ × ResourceFootprint))
    → total (values (insert k f m)) ≤ total (values m) + f.weight_bytes
unfolding insert
total-insert-le k f [] = omega arith
total-insert-le k f ((j, g) ∷ m) = ground (arith, total-insert-le k f m)

pub total-insert_new :
    (k : ℕ) (f : ResourceFootprint) (m : List (ℕ × ResourceFootprint))
    → lookup k m ≡ none
    → total (values (insert k f m)) ≡ total (values m) + f.weight_bytes
unfolding insert lookup
total-insert_new k f [] h = omega arith
total-insert_new k f ((j, g) ∷ m) h = ground (arith, total-insert_new k f m)

pub total-remove-le :
    (k : ℕ) (m : List (ℕ × ResourceFootprint)) → total (values (remove k m)) ≤ total (values m)
unfolding remove
total-remove-le k [] = omega arith
total-remove-le k ((j, g) ∷ m) = ground (arith, total-remove-le k m)

-- What is removed is given back.
pub total-remove_present :
    (k : ℕ) (f : ResourceFootprint) (m : List (ℕ × ResourceFootprint))
    → lookup k m ≡ some f
    → (total (values (remove k m)) + f.weight_bytes ≤ total (values m))
      × (length (remove k m) + 1 ≤ length m)
unfolding remove lookup
total-remove_present k f [] h = cc
total-remove_present k f ((j, g) ∷ m) h =
    ground (arith, total-remove_present k f m, total-remove-le k m, length-remove-le k m)

module _ {M : Type 0} where
  pub footprints-insert-le :
      (k : ℕ) (r : Resident M) (m : List (ℕ × Resident M))
      → total (footprints (insert k r m)) ≤ total (footprints m) + r.footprint.weight_bytes
  unfolding insert
  footprints-insert-le k r [] = omega arith
  footprints-insert-le k r ((j, g) ∷ m) = ground (arith, footprints-insert-le k r m)

  pub footprints-insert_new :
      (k : ℕ) (r : Resident M) (m : List (ℕ × Resident M))
      → lookup k m ≡ none
      → total (footprints (insert k r m)) ≡ total (footprints m) + r.footprint.weight_bytes
  unfolding insert lookup
  footprints-insert_new k r [] h = omega arith
  footprints-insert_new k r ((j, g) ∷ m) h = ground (arith, footprints-insert_new k r m)

  pub footprints-remove-le :
      (k : ℕ) (m : List (ℕ × Resident M)) → total (footprints (remove k m)) ≤ total (footprints m)
  unfolding remove
  footprints-remove-le k [] = omega arith
  footprints-remove-le k ((j, g) ∷ m) = ground (arith, footprints-remove-le k m)
