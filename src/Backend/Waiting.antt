-- ===== src/Backend/Waiting.antt =====
-- lib.rs, `start`: what the wait for readiness is told by the health path.
use mehoy_malloy_ai_runtime.Common.{ℕ, ◌≡◌, refl, Option, some, arith, Result, ok, err}
use mehoy_malloy_ai_runtime.Common.Text.{Text}
use mehoy_malloy_ai_runtime.Worker.{transition_to}
use mehoy_malloy_ai_runtime.Worker.Process.{
  IoError, WorkerReady, probed_ready, Os, WorkerHandle, with_child, flush_output,
}
use mehoy_malloy_ai_runtime.Worker.Process.Startup.{
  Poll, Startup, answered, elapsed, startup_loop, conclude_startup, rounds_within, wait_ready_with,
}
use mehoy_malloy_ai_runtime.Worker.Process.Stopping.{terminate}
use mehoy_malloy_ai_runtime.Backend.Health.{
  StartupPhase, waiting_for_endpoint, loading_model, backend_is_ready, HealthError, timed_out,
  reported, probe, probe_iff,
}
use mehoy_malloy_ai_runtime.Backend.Surroundings.{Surroundings, probe_outcome, polls}

outcome_ready :
    (shows : HealthError → Text) (r : Result StartupPhase HealthError) (report : WorkerReady)
    → probe_outcome shows r ≡ ok (probed_ready report)
    → r ≡ ok backend_is_ready
unfolding probe_outcome
outcome_ready shows (ok waiting_for_endpoint) report h = cc
outcome_ready shows (ok loading_model) report h = cc
outcome_ready shows (ok backend_is_ready) report h = refl
outcome_ready shows (err e) report h = cc

module _ {Child : Type 0} where
  conclude_stop :
      (os : Os Child) (injected : Option IoError) (waited : ℕ) (h : WorkerHandle Child)
      (outcome : Startup)
      → (conclude_startup os injected waited h outcome).0.stop ≡ h.stop
  unfolding conclude_startup transition_to terminate flush_output
  conclude_stop os injected waited h (answered (ok report)) = ground arith
  conclude_stop os injected waited h (answered (err e)) = ground arith
  conclude_stop os injected waited h elapsed = ground arith

  -- A wait for readiness leaves the way in which the worker is to be stopped.
  pub wait_ready_with_stop :
      (os : Os Child) (injected : Option IoError) (waited : ℕ) (probe : ℕ → Poll)
      (h : WorkerHandle Child) (c : Child)
      → h.child ≡ some c
      → (wait_ready_with os injected waited probe h).0.stop ≡ h.stop
  unfolding wait_ready_with
  wait_ready_with_stop os injected waited probe h c held =
      let budget : ℕ = h.deadlines.startup in
      let run = startup_loop os budget probe (rounds_within budget) 0 0 c in
      rw held (conclude_stop os injected waited (with_child (some run.0) h) run.1)

  -- The health path said ready at some call, with an answer 200 in time.
  abbrev pub SaidReady : Surroundings Child → Type 0
  SaidReady s = (n : ℕ) × (reported (s.health n).exchange ≡ some 200)

  pub poll_ready :
      (s : Surroundings Child) (n : ℕ) (report : WorkerReady)
      → (polls s.shows s.health n).answer ≡ ok (probed_ready report)
      → SaidReady s
  unfolding polls
  poll_ready s n report h =
      let x = (s.health n).exchange in
      let ((said, _), _) = probe_iff x (timed_out "") in
      (n, said (outcome_ready s.shows (probe x) report h))
