-- ===== src/Backend/Surroundings.antt =====
-- crates/mehoy-backend-llama/src/lib.rs: what a start of a backend is told, and what it leaves.
use mehoy_malloy_ai_runtime.Common.{ℕ, Option, none, some, List, [], ◌∷◌, ◌++◌, Result, ok, err}
use mehoy_malloy_ai_runtime.Common.Text.{Text}
use mehoy_malloy_ai_runtime.Registry.{shown}
use mehoy_malloy_ai_runtime.Worker.{WorkerLog}
use mehoy_malloy_ai_runtime.Worker.Process.{
  IoError, other_error, WorkerError, io, ProbeOutcome, not_yet, probed_ready, Os, WorkerHandle,
}
use mehoy_malloy_ai_runtime.Worker.Process.Startup.{Poll}
use mehoy_malloy_ai_runtime.Backend.Channel.{BackendChannel, SocketAddr, FileAnswers, FileEffect}
use mehoy_malloy_ai_runtime.Backend.Health.{
  Readiness, StartupPhase, backend_is_ready, HealthError, StatusExchange, probe,
}
use mehoy_malloy_ai_runtime.Backend.Identity.{BackendIdentity}
use mehoy_malloy_ai_runtime.Backend.Launch.{BackendError, VersionOutput}

pub record RunningBackend (Child : Type 0) : Type 0 where
  pub handle : WorkerHandle Child
  pub channel : BackendChannel
  pub identity : Option BackendIdentity
  pub readiness : Readiness

-- What the probe of the health path is told at one call, and how long that takes.
pub record HealthRound : Type 0 where
  pub exchange : Option StatusExchange
  pub took : ℕ
  pub overslept : ℕ

-- `b"backend ready"`, which the phase is shown as.
abbrev pub ready_text : Text
ready_text =
    b'b' ∷ b'a' ∷ b'c' ∷ b'k' ∷ b'e' ∷ b'n' ∷ b'd' ∷ b' ' ∷ b'r' ∷ b'e' ∷ b'a' ∷ b'd' ∷ b'y' ∷ []

-- The closure that `start` gives the supervisor; an error of the health path is shown by `shows`.
unfoldable pub probe_outcome :
    (HealthError → Text) → Result StartupPhase HealthError → Result ProbeOutcome WorkerError
probe_outcome shows (ok backend_is_ready) = ok (probed_ready (record { announcement = ready_text }))
probe_outcome shows (ok _) = ok not_yet
probe_outcome shows (err e) = err (io (other_error (shows e)))

unfoldable pub polls : (HealthError → Text) → (ℕ → HealthRound) → ℕ → Poll
unfolding probe probe_outcome
polls shows health call = record {
  answer = probe_outcome shows (probe (health call).exchange);
  took = (health call).took;
  overslept = (health call).overslept;
}

abbrev pub to_option {ℓ κ} : {A : Type ℓ} {E : Type κ} → Result A E → Option A
to_option (ok a) = some a
to_option (err e) = none

abbrev pub failure {ℓ κ} : {A : Type ℓ} {E : Type κ} → Result A E → Option E
failure (ok a) = none
failure (err e) = some e

-- A directory of the user's own.
unfoldable pub secret_directory : Text → ℕ → Text
secret_directory temp_dir euid =
    temp_dir
    ++ (b'/'
        ∷ b'm'
        ∷ b'e'
        ∷ b'h'
        ∷ b'o'
        ∷ b'y'
        ∷ b'-'
        ∷ b'b'
        ∷ b'a'
        ∷ b'c'
        ∷ b'k'
        ∷ b'e'
        ∷ b'n'
        ∷ b'd'
        ∷ b'-'
        ∷ shown euid)

-- What happens around a start: the backend's answer to `--version`, the address and the randomness of
-- the channel, the temporary directory, the program that is run, the system's answers for its process, the
-- rounds of the health path, the check of the credential, and what the worker has printed by the end.
pub record Surroundings (Child : Type 0) : Type 0 where
  pub version : Result VersionOutput Text
  pub bound : Result SocketAddr Text
  pub random : Result Text Text
  pub files : FileAnswers
  pub temp_dir : Text
  pub run : Text → List Text → Result Child IoError
  pub os : Os Child
  pub injected_at_startup : Option IoError
  pub injected_at_shutdown : Option IoError
  pub waited : ℕ
  pub health : ℕ → HealthRound
  pub credential : Option StatusExchange
  pub printed : WorkerLog
  pub display : Text → Text
  pub shows : HealthError → Text

-- What a start leaves: what it did to the file system, the handle that is dropped with an error, and
-- its answer.
pub record Started (Child : Type 0) : Type 0 where
  pub effects : List FileEffect
  pub dropped_handle : Option (WorkerHandle Child)
  pub answer : Result (RunningBackend Child) BackendError

-- `DEFAULT_CAPTURE_LINES`.
abbrev pub default_capture_lines : ℕ
default_capture_lines = 512
