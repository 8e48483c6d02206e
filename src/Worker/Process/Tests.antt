-- ===== src/Worker/Process/Tests.antt =====
-- Workers of the small system, and the theorems at them.
use mehoy_malloy_ai_runtime.Common.{
  ℕ, ◌≡◌, refl, none, some, List, [], ◌∷◌, arith, ◌==◌, if◌then◌else◌, ok, err,
}
use mehoy_malloy_ai_runtime.Common.Text.{starts_with}
use mehoy_malloy_ai_runtime.Common.Spaces.{trim_start}
use mehoy_malloy_ai_runtime.Worker.{
  starting, ready, with_capacity, stdout, stderr, transition_to, can_transition_to, LogLine,
}
use mehoy_malloy_ai_runtime.Worker.Process.{
  shutdown_line, shutdown_timeout, startup_timeout, io, reported, WorkerHandle, WorkerReady,
  not_yet, probed_ready, spawn, spawned,
}
use mehoy_malloy_ai_runtime.Worker.Process.Toy.{
  Process, obedient, stubborn, toy, short_deadlines, toy_spec, runs_obedient,
}
use mehoy_malloy_ai_runtime.Worker.Process.Startup.{
  Poll, startup_loop, rounds_within, wait_ready_with, conclude_startup, scan_feed, line_fed, lagged,
  ready_marker,
}
use mehoy_malloy_ai_runtime.Worker.Process.Stopping.{shutdown, stop_by, terminate, kill}
use mehoy_malloy_ai_runtime.Worker.Process.Ending.{EndsIn, shutdown_cases}
use mehoy_malloy_ai_runtime.Worker.Process.Polling.{
  StartsAs, wait_ready_with-StartsAs, wait_ready_with-rounds,
}
use mehoy_malloy_ai_runtime.Worker.Process.Life.{
  AreSound, Call, ready_marked, awaited_ready, shut_down, spawn-AreSound,
}

abbrev handle : Process → WorkerHandle Process
handle p = record {
  id = 3;
  state = starting;
  child = some p;
  log = record { capacity = 4; lines = []; total = 0 };
  drains = stdout ∷ stderr ∷ [];
  deadlines = short_deadlines;
  stop = shutdown_line;
}

abbrev serving : Process → WorkerHandle Process
serving p = record (handle p) { state = ready }

abbrev report : WorkerReady
report = record { announcement = b'u' ∷ b'p' ∷ [] }

-- Ready at the call of the number `n`.
abbrev ready_at : ℕ → ℕ → Poll
ready_at n call = record {
  answer = ok (if call == n then probed_ready report else not_yet);
  took = 5;
  overslept = 0;
}

ready_third : (wait_ready_with toy none 0 (ready_at 2) (handle obedient)).1 ≡ ok report
unfolding wait_ready_with startup_loop conclude_startup transition_to can_transition_to
ready_third = refl

too_late :
    (wait_ready_with toy none 130 (ready_at 9) (handle obedient)).1 ≡ err (startup_timeout 130)
unfolding wait_ready_with startup_loop conclude_startup transition_to can_transition_to
too_late = refl

killed_late : (shutdown toy none (serving obedient)).1 ≡ err (shutdown_timeout 10)
unfolding shutdown stop_by terminate kill transition_to can_transition_to
killed_late = refl

never_killed : (shutdown toy none (serving stubborn)).1 ≡ err (io (reported (b'E' ∷ [])))
unfolding shutdown stop_by terminate kill transition_to can_transition_to
never_killed = refl

abbrev fed : LogLine
fed = record { stream = stdout; at = 0; text = b' ' ∷ ready_marker }

announced :
    scan_feed
      (lagged ∷ line_fed (record { stream = stdout; at = 0; text = [] }) ∷ line_fed fed ∷ [])
    ≡ probed_ready (record { announcement = b' ' ∷ ready_marker })
unfolding scan_feed starts_with trim_start
announced = refl

shutdown_cases_example :
    EndsIn toy none ready shutdown_line 10 (shutdown toy none (serving stubborn))
shutdown_cases_example = shutdown_cases toy none (serving stubborn) stubborn refl

wait_ready_with-StartsAs_example :
    StartsAs toy none 0
      (ready_at 2)
      120
      (startup_loop toy 120 (ready_at 2) (rounds_within 120) 0 0 obedient)
      (wait_ready_with toy none 0 (ready_at 2) (handle obedient))
wait_ready_with-StartsAs_example =
    wait_ready_with-StartsAs toy none 0 (ready_at 2) (handle obedient) obedient refl refl

wait_ready_with-rounds_example :
    startup_loop toy 120 (ready_at 9) 100 0 0 obedient
    ≡ startup_loop toy 120 (ready_at 9) (rounds_within 120) 0 0 obedient
wait_ready_with-rounds_example =
    wait_ready_with-rounds toy none 0 (ready_at 9) (handle obedient) obedient 100 (omega arith)

abbrev calls : List (Call Process)
calls = awaited_ready toy none 0 (ready_at 2) ∷ shut_down toy none ∷ ready_marked ∷ []

spawn-AreSound_example : ((handle obedient).state ≡ starting) × AreSound calls (handle obedient)
unfolding spawn spawned transition_to can_transition_to with_capacity
spawn-AreSound_example =
    spawn-AreSound runs_obedient (toy_spec shutdown_line) (handle obedient) calls refl
