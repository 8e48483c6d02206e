-- ===== src/Worker/Process/Stopping.antt =====
-- process.rs, `terminate`, `shutdown` and `wait`: how a worker is stopped. `injected` is a refusal to
-- kill that a test asked for, `none` where the feature is off. Waiting for a killed child returns.
use mehoy_malloy_ai_runtime.Common.{
  ℕ, Bool, true, false, Option, none, some, [], ◌∷◌, if◌then◌else◌, Result, ok, err,
}
use mehoy_malloy_ai_runtime.Common.Text.{Text}
use mehoy_malloy_ai_runtime.Worker.{absent, ready, draining, stopping, failed, can_transition_to}
use mehoy_malloy_ai_runtime.Worker.Process.{
  StopProtocol, shutdown_line, terminate_only, requested, unexpected, WorkerExit, IoError,
  WorkerError, shutdown_timeout, io, ExitStatus, Os, WorkerHandle, Answer, with_child, move,
  move_from, flush_output,
}

-- `matches!(child.try_wait(), Ok(Some(_)))`.
abbrev pub is_gone : Result (Option ExitStatus) IoError → Bool
is_gone (ok (some status)) = true
is_gone _ = false

abbrev pub shutdown_command : Text
shutdown_command = b's' ∷ b'h' ∷ b'u' ∷ b't' ∷ b'd' ∷ b'o' ∷ b'w' ∷ b'n' ∷ b'\n' ∷ []

module _ {Child : Type 0} (os : Os Child) where
  abbrev pub after_kill : Child × Result (Unit {0}) IoError → Child × Option IoError
  after_kill (c, ok _) = (c, none)
  after_kill (c, err e) =
      let (c', seen) = os.try_wait c in (c', if is_gone seen then none else some e)

  -- A kill that is tried, or refused by a test.
  abbrev pub try_kill : Option IoError → Child → Child × Option IoError
  try_kill (some e) c = (c, some e)
  try_kill none c = after_kill (os.start_kill c)

  -- The child is killed unless it has gone already; the answer is the refusal, if there is one.
  unfoldable pub kill : Option IoError → Child → Child × Option IoError
  kill injected c =
      let (c', seen) = os.try_wait c in if is_gone seen then (c', none) else try_kill injected c'

  abbrev pub after_wait_within :
      IoError
      → Child × Option (Result ExitStatus IoError)
      → Option Child × Result (Unit {0}) WorkerError
  after_wait_within e (c, some (ok status)) = (none, ok tt)
  after_wait_within e (c, _) = (some c, err (io e))

  -- A child behind its kill is waited for: within the budget where the kill was refused.
  abbrev pub reap : ℕ → Child × Option IoError → Option Child × Result (Unit {0}) WorkerError
  reap budget (c, none) = (none, ok tt)
  reap budget (c, some e) = after_wait_within e (os.wait_within budget c)

  abbrev pub end_child :
      ℕ → Option IoError → Option Child → Option Child × Result (Unit {0}) WorkerError
  end_child budget injected none = (none, ok tt)
  end_child budget injected (some c) = reap budget (kill injected c)

  unfoldable pub terminate : Option IoError → WorkerHandle Child → Answer Child (Unit {0})
  unfolding kill flush_output
  terminate injected h =
      let (left, answer) = end_child h.deadlines.shutdown injected h.child in
      (flush_output (with_child left h), answer)

  abbrev pub to_absent : WorkerHandle Child → Answer Child WorkerExit
  to_absent h = move_from stopping absent h (λ h'. (h', ok (record { cause = requested })))

  abbrev pub after_terminate :
      {A : Type 0}
      → Answer Child (Unit {0})
      → (WorkerHandle Child → Answer Child A)
      → Answer Child A
  after_terminate (h, err e) next = (h, err e)
  after_terminate (h, ok _) next = next h

  abbrev pub after_request :
      Option IoError
      → WorkerHandle Child
      → Child × Option (Result ExitStatus IoError)
      → Answer Child WorkerExit
  after_request injected h (c, some (ok status)) = to_absent (flush_output (with_child none h))
  after_request injected h (c, some (err e)) = (with_child (some c) h, err (io e))
  after_request injected h (c, none) =
      after_terminate (terminate injected (with_child (some c) h))
        (λ h'. (h', err (shutdown_timeout h.deadlines.shutdown)))

  -- How a worker that is asked to stop, or that never had to be, is stopped.
  unfoldable pub stop_by :
      StopProtocol → Option IoError → WorkerHandle Child → Answer Child WorkerExit
  unfolding terminate flush_output
  stop_by terminate_only injected h = after_terminate (terminate injected h) to_absent
  stop_by shutdown_line injected h = elim h.child [
    | none ↦ (h, ok (record { cause = requested }))
    | some c ↦
        after_request injected h
          (os.wait_within h.deadlines.shutdown (os.send_line shutdown_command c))
  ]

  unfoldable pub shutdown : Option IoError → WorkerHandle Child → Answer Child WorkerExit
  unfolding stop_by
  shutdown injected h =
      move_from ready draining h
        (λ h1. move_from draining stopping h1 (λ h2. stop_by h2.stop injected h2))

  abbrev pub after_wait :
      WorkerHandle Child → Child × Result ExitStatus IoError → Answer Child WorkerExit
  after_wait h (c, err e) = (with_child (some c) h, err (io e))
  after_wait h (c, ok status) =
      let exit : WorkerExit = record { cause = unexpected status.code } in
      let h' = flush_output (with_child none h) in
      if can_transition_to h'.state failed
      then move failed h' (λ h''. (h'', ok exit))
      else (h', ok exit)

  -- `wait`: for an exit that nothing asked for.
  unfoldable pub wait : WorkerHandle Child → Answer Child WorkerExit
  unfolding flush_output
  wait h = elim h.child [
    | none ↦ (h, ok (record { cause = requested }))
    | some c ↦ after_wait h (os.wait c)
  ]
