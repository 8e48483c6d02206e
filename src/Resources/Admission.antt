-- ===== src/Resources/Admission.antt =====
-- resources.rs: `admits` against the policy that it enforces.
use mehoy_malloy_ai_runtime.Common.Words.{u64_mod}
use mehoy_malloy_ai_runtime.Resources.{
  ResourceFootprint, ResidentLimits, ResidentUsage, Refusal, too_many_instances,
  too_many_weight_bytes, admits,
}
use mehoy_malloy_ai_runtime.Common.{
  ℕ, ◌+◌, ◌≤◌, ◌<◌, ◌≡◌, ◌↔◌, ◌⊎◌, inl, inr, Option, none, some, arith, leb, Bool-cases,
  Option-cases, ok, err,
}

-- The byte budget, where there is one, is at least `n`, and is itself a u64.
abbrev pub WithinBudget : Option ℕ → ℕ → Type 0
WithinBudget none n = Unit {0}
WithinBudget (some limit) n = n ≤ limit

abbrev pub IsWord : Option ℕ → Type 0
IsWord none = Unit {0}
IsWord (some limit) = limit < u64_mod

-- The policy: room for one more instance, and for its bytes.
abbrev pub Fits : ResidentLimits → ResidentUsage → ResourceFootprint → Type 0
Fits l u f =
    (u.instances < l.max_instances)
    × WithinBudget l.max_weight_bytes (u.weight_bytes + f.weight_bytes)

-- For a budget that is a u64, `admits` accepts exactly when there is room for one more instance and
-- the committed bytes with those requested, added without wrap-around, stay within the budget.
pub admits_iff_Fits :
    (l : ResidentLimits) (u : ResidentUsage) (f : ResourceFootprint)
    → IsWord l.max_weight_bytes
    → (admits l u f ≡ ok tt) ↔ Fits l u f
unfolding admits
admits_iff_Fits l u f w = elim (Option-cases l.max_weight_bytes) [
  | inl e ↦ ground arith
  | inr (limit, e) ↦ ground arith
]

-- A runtime over its count reports the count whatever its bytes; a refusal for bytes is given only
-- with room for an instance, and names the request, what is committed and the budget exceeded.
pub admits_refusal :
    (l : ResidentLimits) (u : ResidentUsage) (f : ResourceFootprint) (r : Refusal)
    → IsWord l.max_weight_bytes
    → admits l u f ≡ err r
    → ((l.max_instances ≤ u.instances) × (r ≡ too_many_instances l.max_instances))
      ⊎ ((limit : ℕ) × (u.instances < l.max_instances)
          × (l.max_weight_bytes ≡ some limit)
          × (limit < u.weight_bytes + f.weight_bytes)
          × (r ≡ too_many_weight_bytes f.weight_bytes u.weight_bytes limit))
unfolding admits
admits_refusal l u f r w h = elim (Option-cases l.max_weight_bytes) [
  | inl e ↦ inl (ground arith)
  | inr (limit, e) ↦ elim (Bool-cases (leb l.max_instances u.instances)) [
    | inl full ↦ inl (ground arith)
    | inr room ↦ inr (limit, ground arith, e, ground arith, ground arith)
  ]
]
