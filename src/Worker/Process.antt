-- ===== src/Worker/Process.antt =====
-- crates/mehoy-core/src/worker/mod.rs and process.rs: a worker that is a child process, on Unix. A
-- child of the system is the parameter `Child`, and what the system answers for it the record `Os`,
-- with the text of an error; times are milliseconds, and an exit code the 32 bits of an `i32`. The
-- tasks that read a worker's streams are the streams they read.
pub mod Startup
pub mod Stopping
pub mod Polling
pub mod Ending
pub mod States
pub mod Life
pub mod Toy
mod Tests
use mehoy_malloy_ai_runtime.Common.{
  ℕ, Bool, true, false, Option, none, some, List, [], ◌∷◌, if◌then◌else◌, Result, ok, err,
}
use mehoy_malloy_ai_runtime.Common.Text.{Text}
use mehoy_malloy_ai_runtime.Worker.{
  WorkerState, absent, starting, ready, draining, stopping, failed, WorkerStateError,
  can_transition_to, transition_to, LogStream, stdout, stderr, WorkerLog, with_capacity,
}

pub data StopProtocol : Type 0 where
  shutdown_line terminate_only : StopProtocol

pub record Deadlines : Type 0 where
  pub startup : ℕ
  pub shutdown : ℕ
  pub health : ℕ

abbrev pub default_deadlines : Deadlines
default_deadlines = record { startup = 30000; shutdown = 10000; health = 5000 }

pub record WorkerSpec : Type 0 where
  pub id : ℕ
  pub program : Text
  pub args : List Text
  pub deadlines : Deadlines
  pub capture_lines : ℕ
  pub stop : StopProtocol

pub record WorkerReady : Type 0 where
  pub announcement : Text

pub data ExitCause : Type 0 where
  requested startup_timed_out killed : ExitCause
  unexpected : (code : Option ℕ) → ExitCause

pub record WorkerExit : Type 0 where
  pub cause : ExitCause

-- An error of the system, or one that the code words itself.
pub data IoError : Type 0 where
  no_process refusal_injected : IoError
  reported other_error : (detail : Text) → IoError

pub data WorkerError : Type 0 where
  spawn_failed : (program : Text) (source : IoError) → WorkerError
  startup_timeout shutdown_timeout : (waited : ℕ) → WorkerError
  exited_during_startup : (code : Option ℕ) → WorkerError
  invalid_state : (source : WorkerStateError) → WorkerError
  io : (source : IoError) → WorkerError

pub data ProbeOutcome : Type 0 where
  not_yet : ProbeOutcome
  probed_ready : (report : WorkerReady) → ProbeOutcome

pub record ExitStatus : Type 0 where
  pub code : Option ℕ

-- The calls made on a child. `wait_within` is `timeout(budget, child.wait())`, with `none` when the
-- budget runs out; `send_line` takes the child's standard input, if it is still there, writes the
-- line, flushes it and closes it.
pub record Os (Child : Type 0) : Type 0 where
  pub id : Child → Option ℕ
  pub try_wait : Child → Child × Result (Option ExitStatus) IoError
  pub start_kill : Child → Child × Result (Unit {0}) IoError
  pub wait : Child → Child × Result ExitStatus IoError
  pub wait_within : ℕ → Child → Child × Option (Result ExitStatus IoError)
  pub send_line : Text → Child → Child

pub record WorkerHandle (Child : Type 0) : Type 0 where
  pub id : ℕ
  pub state : WorkerState
  pub child : Option Child
  pub log : WorkerLog
  pub drains : List LogStream
  pub deadlines : Deadlines
  pub stop : StopProtocol

abbrev pub same_state : WorkerState → WorkerState → Bool
same_state absent absent = true
same_state starting starting = true
same_state ready ready = true
same_state draining draining = true
same_state stopping stopping = true
same_state failed failed = true
same_state _ _ = false

-- A call on a handle: the handle it leaves, and its answer.
abbrev pub Answer : Type 0 → Type 0 → Type 0
Answer Child A = WorkerHandle Child × Result A WorkerError

module _ {Child : Type 0} where
  abbrev pub in_state : WorkerState → WorkerHandle Child → WorkerHandle Child
  in_state s h = record h { state = s }

  abbrev pub with_child : Option Child → WorkerHandle Child → WorkerHandle Child
  with_child c h = record h { child = c }

  abbrev pub continue_in :
      {A : Type 0}
      → WorkerHandle Child
      → Result WorkerState WorkerStateError
      → (WorkerHandle Child → Answer Child A)
      → Answer Child A
  continue_in h (ok s) next = next (in_state s h)
  continue_in h (err e) next = (h, err (invalid_state e))

  -- `handle.state = handle.state.transition_to(target)?`, and what follows it.
  abbrev pub move :
      {A : Type 0}
      → WorkerState
      → WorkerHandle Child
      → (WorkerHandle Child → Answer Child A)
      → Answer Child A
  move target h next = continue_in h (transition_to h.state target) next

  -- The same, if the handle is in the state `from_state`.
  abbrev pub move_from :
      {A : Type 0}
      → (from_state target : WorkerState) → WorkerHandle Child
      → (WorkerHandle Child → Answer Child A)
      → Answer Child A
  move_from from_state target h next =
      if same_state h.state from_state then move target h next else next h

  unfoldable pub mark_ready : WorkerHandle Child → Answer Child (Unit {0})
  mark_ready h = move ready h (λ h'. (h', ok tt))

  unfoldable pub mark_failed : WorkerHandle Child → Answer Child (Unit {0})
  mark_failed h = move failed h (λ h'. (h', ok tt))

  -- Every task that reads a stream is awaited, within its budget, and forgotten.
  unfoldable pub flush_output : WorkerHandle Child → WorkerHandle Child
  flush_output h = record h { drains = [] }

  unfoldable pub pid : Os Child → WorkerHandle Child → Option ℕ
  pid os h = elim h.child [ none ↦ none | some c ↦ os.id c ]

  unfoldable pub spawned :
      WorkerSpec → WorkerState → Result Child IoError → Result (WorkerHandle Child) WorkerError
  unfolding with_capacity
  spawned spec state (err source) = err (spawn_failed spec.program source)
  spawned spec state (ok c) = ok (record {
    id = spec.id;
    state = state;
    child = some c;
    log = with_capacity spec.capture_lines;
    drains = stdout ∷ stderr ∷ [];
    deadlines = spec.deadlines;
    stop = spec.stop;
  })

  -- `spawn`, given what the system answers when the program is run.
  unfoldable pub spawn :
      (Text → List Text → Result Child IoError)
      → WorkerSpec
      → Result (WorkerHandle Child) WorkerError
  unfolding transition_to spawned
  spawn run spec = elim (transition_to absent starting) [
    | ok state ↦ spawned spec state (run spec.program spec.args)
    | err e ↦ err (invalid_state e)
  ]
