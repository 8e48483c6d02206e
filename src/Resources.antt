-- ===== src/Resources.antt =====
-- crates/mehoy-runtime/src/resources.rs: what a resident model is accounted as occupying, what a
-- runtime will hold, and the test that admits one more model. Byte counts are u64 values kept as
-- numbers; the sum is checked at 2 ^ 64 as the source checks it.
pub mod Admission
use mehoy_malloy_ai_runtime.Common.{
  ℕ, Bool, false, Option, none, some, leb, if◌then◌else◌, Result, ok, err,
}
use mehoy_malloy_ai_runtime.Common.Words.{checked_add}

abbrev pub default_resident_capacity : ℕ
default_resident_capacity = 1

pub data FootprintBasis : Type 0 where
  container_size : FootprintBasis

pub record ResourceFootprint : Type 0 where
  pub weight_bytes : ℕ
  pub basis : FootprintBasis

unfoldable pub from_container_size : ℕ → ResourceFootprint
from_container_size size_bytes = record { weight_bytes = size_bytes; basis = container_size }

pub record ResidentLimits : Type 0 where
  pub max_instances : ℕ
  pub max_weight_bytes : Option ℕ

unfoldable pub default_limits : ResidentLimits
default_limits = record { max_instances = default_resident_capacity; max_weight_bytes = none }

unfoldable pub instances_limit : ℕ → ResidentLimits
instances_limit n = record { max_instances = n; max_weight_bytes = none }

unfoldable pub with_weight_budget : ResidentLimits → ℕ → ResidentLimits
with_weight_budget l bytes = record l { max_weight_bytes = some bytes }

pub record ResidentUsage : Type 0 where
  pub instances : ℕ
  pub loading : ℕ
  pub weight_bytes : ℕ

pub data Refusal : Type 0 where
  too_many_instances : ℕ → Refusal
  too_many_weight_bytes : (requested committed limit : ℕ) → Refusal

-- `checked_add(requested).is_some_and(|total| total <= limit)`.
abbrev pub fits_below : Option ℕ → ℕ → Bool
fits_below none limit = false
fits_below (some total) limit = leb total limit

-- The instance count is tested first.
unfoldable pub admits :
    ResidentLimits → ResidentUsage → ResourceFootprint → Result (Unit {0}) Refusal
admits l committed footprint =
    if leb l.max_instances committed.instances
    then err (too_many_instances l.max_instances)
    else elim l.max_weight_bytes [
      | none ↦ ok tt
      | some limit ↦
          if fits_below (checked_add committed.weight_bytes footprint.weight_bytes) limit
          then ok tt
          else err (too_many_weight_bytes footprint.weight_bytes committed.weight_bytes limit)
    ]
