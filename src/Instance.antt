-- ===== src/Instance.antt =====
-- crates/mehoy-runtime/src/instance.rs: a live model instance. Identifiers are the numbers that
-- their hexadecimal texts spell, the identity of a backend is a parameter.
use mehoy_malloy_ai_runtime.Common.{ℕ, ◌≡◌, refl, ◌⊎◌, inl, inr, Bool, true, false, Option, arith}
use mehoy_malloy_ai_runtime.Common.Text.{Text}
use mehoy_malloy_ai_runtime.Capability.{ModelCapability, ModelCapabilities, verify}

pub data InstanceState : Type 0 where
  starting backend_ready : InstanceState
  failed : (reason : Text) → InstanceState

abbrev pub is_usable : InstanceState → Bool
is_usable backend_ready = true
is_usable _ = false

abbrev pub is_terminal : InstanceState → Bool
is_terminal (failed reason) = true
is_terminal _ = false

unfoldable pub can_transition_to : InstanceState → InstanceState → Bool
can_transition_to starting backend_ready = true
can_transition_to starting (failed reason) = true
can_transition_to backend_ready (failed reason) = true
can_transition_to _ _ = false

pub record ModelInstance (B : Type 0) : Type 0 where
  pub id : ℕ
  pub artifact_id : ℕ
  pub backend : Option B
  pub state : InstanceState
  pub capabilities : ModelCapabilities B

module _ {B : Type 0} where
  unfoldable pub new_instance : ℕ → ℕ → Option B → ModelCapabilities B → ModelInstance B
  new_instance id artifact_id backend capabilities = record {
    id = id;
    artifact_id = artifact_id;
    backend = backend;
    state = backend_ready;
    capabilities = capabilities;
  }

  unfoldable pub verify_instance :
      ℕ → ModelCapability → Option B → ModelInstance B → ModelInstance B
  verify_instance now c backend i = record i { capabilities = verify now c backend i.capabilities }

-- Transitions allowed one after another.
pub data Reaches : InstanceState → InstanceState → Type 0 where
  here : (s : InstanceState) → Reaches s s
  step_to : {s t u : InstanceState} → can_transition_to s t ≡ true → Reaches t u → Reaches s u

transition_cases :
    (s t : InstanceState)
    → can_transition_to s t ≡ true
    → ((s ≡ starting) × (t ≡ backend_ready)) ⊎ ((is_terminal s ≡ false) × (is_terminal t ≡ true))
unfolding can_transition_to
transition_cases starting starting h = cc
transition_cases starting backend_ready h = inl (refl, refl)
transition_cases starting (failed f) h = inr (refl, refl)
transition_cases backend_ready starting h = cc
transition_cases backend_ready backend_ready h = cc
transition_cases backend_ready (failed f) h = inr (refl, refl)
transition_cases (failed f) t h = cc

-- A failed instance never restarts, and nothing returns to `starting`: a state that transitions
-- lead to is the one they set out from, or it is `backend_ready` reached from `starting`, or it is a
-- failure reached from a state that is no failure.
pub Reaches-cases :
    {s t : InstanceState}
    → Reaches s t
    → (s ≡ t)
      ⊎ ((s ≡ starting) × (t ≡ backend_ready))
      ⊎ ((is_terminal s ≡ false) × (is_terminal t ≡ true))
Reaches-cases (here s) = inl refl
Reaches-cases (step_to {s} {t} {u} h r) = ground (arith, transition_cases s t h, Reaches-cases r)
