-- ===== src/Worker/Process/States.antt =====
-- state.rs: how a supervised worker's states follow one another.
use mehoy_malloy_ai_runtime.Common.{◌≡◌, refl, true}
use mehoy_malloy_ai_runtime.Worker.{
  WorkerState, absent, starting, ready, draining, stopping, failed, can_transition_to,
}
use mehoy_malloy_ai_runtime.Worker.Process.Ending.{asked_state, stopped_state}

-- Transitions allowed one after another.
pub data Reaches : WorkerState → WorkerState → Type 0 where
  here : {s : WorkerState} → Reaches s s
  step_to : {s t u : WorkerState} → can_transition_to s t ≡ true → Reaches t u → Reaches s u

pub Reaches-asked_state : (s : WorkerState) → Reaches s (asked_state s)
unfolding can_transition_to
Reaches-asked_state ready = step_to {t = draining} refl (step_to refl here)
Reaches-asked_state draining = step_to refl here
Reaches-asked_state absent = here
Reaches-asked_state starting = here
Reaches-asked_state stopping = here
Reaches-asked_state failed = here

pub Reaches-stopped_state : (s : WorkerState) → Reaches s (stopped_state s)
unfolding can_transition_to
Reaches-stopped_state ready =
    step_to {t = draining} refl (step_to {t = stopping} refl (step_to refl here))
Reaches-stopped_state draining = step_to {t = stopping} refl (step_to refl here)
Reaches-stopped_state stopping = step_to refl here
Reaches-stopped_state absent = here
Reaches-stopped_state starting = here
Reaches-stopped_state failed = here
