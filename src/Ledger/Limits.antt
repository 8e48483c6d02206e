-- ===== src/Ledger/Limits.antt =====
-- runtime.rs: the limits hold of every ledger that any interleaving of loads and unloads reaches.
use mehoy_malloy_ai_runtime.Common.Words.{u64_mod, u64_max, wrapping_add}
use mehoy_malloy_ai_runtime.Resources.{ResourceFootprint, ResidentLimits, admits}
use mehoy_malloy_ai_runtime.Resources.Admission.{WithinBudget, IsWord, Fits, admits_iff_Fits}
use mehoy_malloy_ai_runtime.Ledger.{
  Ledger, committed, reserve, fulfil, release, forget, Event, reserves, fulfils, releases, forgets,
  after, step, run, empty_ledger,
}
use mehoy_malloy_ai_runtime.Ledger.Totals.{
  total_weight, committed-weight_bytes, total-insert-le, total-remove-le, total-remove_present,
  footprints-insert-le, footprints-remove-le,
}
use mehoy_malloy_ai_runtime.Common.{
  ℕ, ◌+◌, ◌≤◌, ◌<◌, min, inl, inr, Option, none, some, List, [], ◌∷◌, arith, Bool-cases,
  Option-cases, Result-cases, is_some, length, lookup, length-insert-le, length-remove-le,
}

WithinBudget-mono : (b : Option ℕ) (m n : ℕ) → n ≤ m → WithinBudget b m → WithinBudget b n
WithinBudget-mono none m n h w = tt
WithinBudget-mono (some limit) m n h w = omega arith

WithinBudget-zero : (b : Option ℕ) → WithinBudget b 0
WithinBudget-zero none = tt
WithinBudget-zero (some limit) = omega arith

-- The limits are machine words, as their types say in the source.
abbrev pub AreWords : ResidentLimits → Type 0
AreWords limits = (limits.max_instances < u64_mod) × IsWord limits.max_weight_bytes

-- The cap of the reported weight does not matter below a budget that is a u64.
WithinBudget-uncap :
    (b : Option ℕ) (n w : ℕ)
    → IsWord b
    → WithinBudget b (min n u64_max + w)
    → WithinBudget b n
    → WithinBudget b (n + w)
WithinBudget-uncap none n w v h k = tt
WithinBudget-uncap (some limit) n w v h k = omega arith

module _ {M : Type 0} where
  -- Models and loads in flight stay within the count, and their exact weight within the budget.
  pub record IsWithin (limits : ResidentLimits) (l : Ledger M) : Type 0 where
    pub counted : length l.pending + length l.resident ≤ limits.max_instances
    pub weighed : WithinBudget limits.max_weight_bytes (total_weight l)

  IsWithin-shrink :
      (limits : ResidentLimits) (l l' : Ledger M)
      → length l'.pending + length l'.resident ≤ length l.pending + length l.resident
      → total_weight l' ≤ total_weight l
      → IsWithin limits l
      → IsWithin limits l'
  IsWithin-shrink limits l l' c t v = record {
    counted = omega (arith, v.counted);
    weighed =
        WithinBudget-mono limits.max_weight_bytes (total_weight l) (total_weight l') t v.weighed;
  }

  reserve-IsWithin :
      (limits : ResidentLimits) (f : ResourceFootprint) (l : Ledger M)
      → AreWords limits
      → IsWithin limits l
      → IsWithin limits (after l (reserve limits f l))
  unfolding reserve committed
  reserve-IsWithin limits f l w v = elim (Result-cases (admits limits (committed l) f)) [
    | inl (_, e) ↦
        let fits : Fits limits (committed l) f = (admits_iff_Fits limits (committed l) f w.1).0 e in
        let next = wrapping_add l.next_reservation 1 in
        rw (e, reserve)
          (record {
            counted = room fits.0 v.counted (length-insert-le next f l.pending);
            weighed =
                WithinBudget-mono limits.max_weight_bytes (total_weight l + f.weight_bytes) _
                  (omega (arith, total-insert-le next f l.pending))
                  (WithinBudget-uncap limits.max_weight_bytes (total_weight l) f.weight_bytes w.1
                    (rw (committed-weight_bytes l) at fits.1) v.weighed);
          })
    | inr (r, e) ↦ rw (e, reserve) v
  ]
    where
      room :
          {n : ℕ}
          → (committed l).instances < limits.max_instances
          → length l.pending + length l.resident ≤ limits.max_instances
          → n ≤ length l.pending + 1
          → n + length l.resident ≤ limits.max_instances
      room below counted grown = ground (arith, w.0)

  fulfil-IsWithin :
      (limits : ResidentLimits) (id instance_id : ℕ) (model : M) (l : Ledger M)
      → IsWithin limits l
      → IsWithin limits (fulfil id instance_id model l).0
  unfolding fulfil
  fulfil-IsWithin limits id instance_id model l v = elim (Option-cases (lookup id l.pending)) [
    | inl e ↦ rw (e, fulfil) v
    | inr (f, e) ↦ elim (Bool-cases (is_some (lookup instance_id l.resident))) [
      | inl taken ↦
          rw (e, fulfil, taken)
            (IsWithin-shrink limits l _ (omega (arith, length-remove-le id l.pending))
              (omega (arith, total-remove-le id l.pending)) v)
      | inr free ↦
          rw (e, fulfil, free)
            (IsWithin-shrink limits l _
              (omega (
                arith,
                total-remove_present id f l.pending e,
                length-insert-le instance_id (record { model = model; footprint = f }) l.resident,
              ))
              (omega (
                arith,
                total-remove_present id f l.pending e,
                footprints-insert-le instance_id (record { model = model; footprint = f })
                    l.resident,
              ))
              v)
    ]
  ]

  pub step-IsWithin :
      (limits : ResidentLimits) (e : Event M) (l : Ledger M)
      → AreWords limits
      → IsWithin limits l
      → IsWithin limits (step limits e l)
  unfolding step release forget
  step-IsWithin limits (reserves f) l w v = reserve-IsWithin limits f l w v
  step-IsWithin limits (fulfils id instance_id model) l w v =
      fulfil-IsWithin limits id instance_id model l v
  step-IsWithin limits (releases id) l w v =
      IsWithin-shrink limits l _ (omega (arith, length-remove-le id l.pending))
        (omega (arith, total-remove-le id l.pending)) v
  step-IsWithin limits (forgets instance_id) l w v =
      IsWithin-shrink limits l _ (omega (arith, length-remove-le instance_id l.resident))
        (omega (arith, footprints-remove-le instance_id l.resident)) v

  pub run-IsWithin :
      (limits : ResidentLimits) (es : List (Event M)) (l : Ledger M)
      → AreWords limits
      → IsWithin limits l
      → IsWithin limits (run limits es l)
  unfolding run
  run-IsWithin limits [] l w v = v
  run-IsWithin limits (e ∷ es) l w v =
      run-IsWithin limits es (step limits e l) w (step-IsWithin limits e l w v)

  -- No interleaving of loads and unloads exceeds a runtime's limits: starting from the empty
  -- ledger, after any sequence of reservations, fulfilments, releases and removals, by however many
  -- callers and under whatever identifiers, the models and loads in flight number at most
  -- `max_instances`, and the exact sum of their weights is within the byte budget. The two limits
  -- are taken to be u64 values, as their types are.
  pub limits_hold :
      (limits : ResidentLimits) (es : List (Event M))
      → AreWords limits
      → IsWithin limits (run limits es empty_ledger)
  unfolding empty_ledger
  limits_hold limits es w =
      run-IsWithin limits es _ w
        (record { counted = omega arith; weighed = WithinBudget-zero limits.max_weight_bytes })
