-- ===== src/Worker/Process/Toy.antt =====
-- A small system for tests: a process runs, or has exited with a code, and it obeys a kill or
-- refuses it.
use mehoy_malloy_ai_runtime.Common.{Option, none, some, List, [], ◌∷◌, Result, ok, err}
use mehoy_malloy_ai_runtime.Common.Text.{Text}
use mehoy_malloy_ai_runtime.Worker.Process.{
  ExitStatus, IoError, reported, StopProtocol, WorkerSpec, Deadlines, Os,
}

pub data Process : Type 0 where
  obedient stubborn exited : Process

abbrev status : ExitStatus
status = record { code = some 0 }

abbrev looks : Process → Process × Result (Option ExitStatus) IoError
looks exited = (exited, ok (some status))
looks p = (p, ok none)

abbrev killed_by : Process → Process × Result (Unit {0}) IoError
killed_by stubborn = (stubborn, err (reported (b'E' ∷ [])))
killed_by p = (exited, ok tt)

-- A running process does not end by itself.
abbrev waited_for : Process → Process × Option (Result ExitStatus IoError)
waited_for exited = (exited, some (ok status))
waited_for p = (p, none)

abbrev pub toy : Os Process
toy = record {
  id = λ p. some 7;
  try_wait = looks;
  start_kill = killed_by;
  wait = λ p. (exited, ok status);
  wait_within = λ budget p. waited_for p;
  send_line = λ line p. p;
}

abbrev pub short_deadlines : Deadlines
short_deadlines = record { startup = 120; shutdown = 10; health = 5 }

abbrev pub toy_spec : StopProtocol → WorkerSpec
toy_spec stop = record {
  id = 3;
  program = b'/' ∷ b'w' ∷ [];
  args = [];
  deadlines = short_deadlines;
  capture_lines = 4;
  stop = stop;
}

abbrev pub runs_obedient : Text → List Text → Result Process IoError
runs_obedient program args = ok obedient
