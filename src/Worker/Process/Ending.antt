-- ===== src/Worker/Process/Ending.antt =====
-- process.rs: what a stop leaves of a worker.
use mehoy_malloy_ai_runtime.Common.{
  ℕ, ◌≡◌, refl, ◌∙◌, ◌⊎◌, inl, inr, true, Option, none, some, arith, Result, ok, err, is_some,
}
use mehoy_malloy_ai_runtime.Worker.{
  WorkerState, absent, ready, draining, stopping, can_transition_to, transition_to,
}
use mehoy_malloy_ai_runtime.Worker.Process.{
  StopProtocol, shutdown_line, terminate_only, requested, WorkerExit, IoError, WorkerError,
  shutdown_timeout, io, ExitStatus, Os, WorkerHandle, Answer, with_child, in_state, flush_output,
}
use mehoy_malloy_ai_runtime.Worker.Process.Stopping.{
  after_terminate, after_request, shutdown_command, after_wait_within, to_absent, terminate, kill,
  reap, end_child, stop_by, shutdown,
}

-- The state of a worker that has been asked to stop.
abbrev pub asked_state : WorkerState → WorkerState
asked_state ready = stopping
asked_state draining = stopping
asked_state s = s

-- The state of a worker that has stopped.
abbrev pub stopped_state : WorkerState → WorkerState
stopped_state ready = absent
stopped_state draining = absent
stopped_state stopping = absent
stopped_state s = s

module _ {Child : Type 0} (os : Os Child) (injected : Option IoError) where
  pub shutdown-asked :
      (h : WorkerHandle Child)
      → shutdown os injected h ≡ stop_by os h.stop injected (in_state (asked_state h.state) h)
  unfolding shutdown transition_to can_transition_to
  shutdown-asked h = ground arith

  -- How a child is left by a termination: gone, or refusing to be killed.
  abbrev HasEnded : Option Child × Result (Unit {0}) WorkerError → Type 0
  HasEnded (left, answer) =
      ((left ≡ none) × (answer ≡ ok tt))
      ⊎ ((c : Child) × (e : IoError) × (left ≡ some c) × (answer ≡ err (io e)))

  waited-HasEnded :
      (e : IoError) (w : Child × Option (Result ExitStatus IoError))
      → HasEnded (after_wait_within os e w)
  waited-HasEnded e (c, some (ok status)) = inl (refl, refl)
  waited-HasEnded e (c, some (err _)) = inr (c, e, refl, refl)
  waited-HasEnded e (c, none) = inr (c, e, refl, refl)

  reap-HasEnded : (budget : ℕ) (k : Child × Option IoError) → HasEnded (reap os budget k)
  reap-HasEnded budget (c, none) = inl (refl, refl)
  reap-HasEnded budget (c, some e) = waited-HasEnded e (os.wait_within budget c)

  end_child-HasEnded :
      (budget : ℕ) (child : Option Child) → HasEnded (end_child os budget injected child)
  end_child-HasEnded budget none = inl (refl, refl)
  end_child-HasEnded budget (some c) = reap-HasEnded budget (kill os injected c)

  -- A termination never touches the state of the worker, and it says truly whether it ended it: it
  -- answers `ok` and the handle has no child, or it answers an error of the system and the handle
  -- keeps the child.
  pub terminate_cases :
      (h : WorkerHandle Child)
      → ((terminate os injected h).0.state ≡ h.state)
        × HasEnded ((terminate os injected h).0.child, (terminate os injected h).1)
  unfolding terminate flush_output
  terminate_cases h = (refl, end_child-HasEnded h.deadlines.shutdown h.child)

  reap-keeps :
      (budget : ℕ) (k : Child × Option IoError)
      → ((reap os budget k).0 ≡ none) ⊎ (is_some k.1 ≡ true)
  reap-keeps budget (c, none) = inl refl
  reap-keeps budget (c, some e) = inr refl

  -- A process outlives its termination only where the kill was refused.
  pub terminate_keeps :
      (h : WorkerHandle Child) (c : Child)
      → h.child ≡ some c
      → ((terminate os injected h).0.child ≡ none) ⊎ (is_some (kill os injected c).1 ≡ true)
  unfolding terminate flush_output
  terminate_keeps h c held = rw held (reap-keeps h.deadlines.shutdown (kill os injected c))

  -- How a stop ends, given the state the worker was in when asked: stopped, killed because its time
  -- was up, or not stopped.
  abbrev pub EndsIn : WorkerState → StopProtocol → ℕ → Answer Child WorkerExit → Type 0
  EndsIn s stop budget r =
      ((r.1 ≡ ok (record { cause = requested }))
        × (r.0.child ≡ none)
        × (r.0.state ≡ stopped_state s))
      ⊎ ((r.1 ≡ err (shutdown_timeout budget))
          × (stop ≡ shutdown_line)
          × (r.0.child ≡ none)
          × (r.0.state ≡ asked_state s))
      ⊎ ((c : Child) × (e : IoError) × (r.1 ≡ err (io e))
          × (r.0.child ≡ some c)
          × (r.0.state ≡ asked_state s))

  pub to_absent_lem :
      (s : WorkerState) (h : WorkerHandle Child)
      → h.state ≡ asked_state s
      → to_absent os h ≡ (in_state (stopped_state s) h, ok (record { cause = requested }))
  unfolding transition_to can_transition_to
  to_absent_lem s h e = ground arith

  to_absent-EndsIn :
      (s : WorkerState) (stop : StopProtocol) (budget : ℕ) (h : WorkerHandle Child)
      → h.state ≡ asked_state s
      → h.child ≡ none
      → EndsIn s stop budget (to_absent os h)
  to_absent-EndsIn s stop budget h e gone = rw (to_absent_lem s h e) (inl (refl, gone, refl))

  -- A worker stopped by termination, given how the termination left its child.
  terminated-EndsIn :
      (s : WorkerState) (stop : StopProtocol) (budget : ℕ) (h : WorkerHandle Child)
      (answer : Result (Unit {0}) WorkerError)
      → h.state ≡ asked_state s
      → HasEnded (h.child, answer)
      → EndsIn s stop budget (after_terminate os (h, answer) (to_absent os))
  terminated-EndsIn s stop budget h answer e (inl (gone, said)) =
      rw said (to_absent-EndsIn s stop budget h e gone)
  terminated-EndsIn s stop budget h answer e (inr (c, error, left, said)) =
      rw said (inr (inr (c, error, refl, left, e)))

  timed_out-EndsIn :
      (s : WorkerState) (budget : ℕ) (h : WorkerHandle Child)
      (answer : Result (Unit {0}) WorkerError)
      → h.state ≡ asked_state s
      → HasEnded (h.child, answer)
      → EndsIn s shutdown_line budget
          (after_terminate os (h, answer) (λ h'. (h', err (shutdown_timeout budget))))
  timed_out-EndsIn s budget h answer e (inl (gone, said)) =
      rw said (inr (inl (refl, refl, gone, e)))
  timed_out-EndsIn s budget h answer e (inr (c, error, left, said)) =
      rw said (inr (inr (c, error, refl, left, e)))

  after_request-EndsIn :
      (s : WorkerState) (h : WorkerHandle Child) (w : Child × Option (Result ExitStatus IoError))
      → h.state ≡ asked_state s
      → EndsIn s shutdown_line h.deadlines.shutdown (after_request os injected h w)
  unfolding flush_output
  after_request-EndsIn s h (c, some (ok status)) e =
      to_absent-EndsIn s shutdown_line h.deadlines.shutdown (flush_output (with_child none h)) e
        refl
  after_request-EndsIn s h (c, some (err error)) e = inr (inr (c, error, refl, refl, e))
  after_request-EndsIn s h (c, none) e =
      let h' = with_child (some c) h in
      let (kept, ended) = terminate_cases h' in
      timed_out-EndsIn s h.deadlines.shutdown (terminate os injected h').0
        (terminate os injected h').1 (kept ∙ e) ended

  stop_by-EndsIn :
      (s : WorkerState) (stop : StopProtocol) (h : WorkerHandle Child) (c : Child)
      → h.state ≡ asked_state s
      → h.child ≡ some c
      → EndsIn s stop h.deadlines.shutdown (stop_by os stop injected h)
  unfolding stop_by
  stop_by-EndsIn s terminate_only h c e held =
      let (kept, ended) = terminate_cases h in
      terminated-EndsIn s terminate_only h.deadlines.shutdown (terminate os injected h).0
        (terminate os injected h).1 (kept ∙ e) ended
  stop_by-EndsIn s shutdown_line h c e held = rw held (
      after_request-EndsIn s h
        (os.wait_within h.deadlines.shutdown (os.send_line shutdown_command c)) e)

  -- A worker that has a process and is asked to stop ends in one of three ways. The answer is `ok`,
  -- the handle has no process left, and a worker that was ready, draining or stopping is absent. Or it
  -- was to stop by itself, the answer says that its time was up, and the handle has no process left
  -- either. Or the answer is an error of the system and the handle keeps the process. In the last two
  -- a worker that was ready or draining is stopping.
  pub shutdown_cases :
      (h : WorkerHandle Child) (c : Child)
      → h.child ≡ some c
      → EndsIn h.state h.stop h.deadlines.shutdown (shutdown os injected h)
  shutdown_cases h c held =
      rw (shutdown-asked h)
        (stop_by-EndsIn h.state h.stop (in_state (asked_state h.state) h) c refl held)

  stop_none :
      (s : WorkerState) (stop : StopProtocol) (h : WorkerHandle Child)
      → h.state ≡ asked_state s
      → h.child ≡ none
      → ((stop_by os stop injected h).0.child ≡ none)
        × (((stop_by os stop injected h).0.state ≡ asked_state s)
            ⊎ ((stop_by os stop injected h).0.state ≡ stopped_state s))
  unfolding stop_by terminate flush_output
  stop_none s shutdown_line h e none_left = rw none_left (refl, inl e)
  stop_none s terminate_only h e none_left =
      rw none_left (rw (to_absent_lem s (flush_output (with_child none h)) e) (refl, inr refl))

  -- A worker that has no process and is asked to stop is only moved: to absent, or, where it would be
  -- sent a line, no further than stopping.
  pub shutdown_none :
      (h : WorkerHandle Child)
      → h.child ≡ none
      → ((shutdown os injected h).0.child ≡ none)
        × (((shutdown os injected h).0.state ≡ asked_state h.state)
            ⊎ ((shutdown os injected h).0.state ≡ stopped_state h.state))
  shutdown_none h gone =
      rw (shutdown-asked h) (stop_none h.state h.stop (in_state (asked_state h.state) h) refl gone)
