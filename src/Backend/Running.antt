-- ===== src/Backend/Running.antt =====
-- crates/mehoy-backend-llama/src/lib.rs, `start` and `stop`: a backend is started, watched until its
-- health path says ready, and taken only if it accepts the runtime's credential.
use mehoy_malloy_ai_runtime.Common.{ℕ, Option, none, some, List, [], ◌++◌, Result, ok, err}
use mehoy_malloy_ai_runtime.Worker.{WorkerLog}
use mehoy_malloy_ai_runtime.Worker.Rendering.{render}
use mehoy_malloy_ai_runtime.Worker.Process.{
  WorkerSpec, terminate_only, IoError, WorkerError, WorkerReady, WorkerExit, Os, WorkerHandle,
  Answer, spawn, flush_output,
}
use mehoy_malloy_ai_runtime.Worker.Process.Startup.{wait_ready_with}
use mehoy_malloy_ai_runtime.Worker.Process.Stopping.{shutdown}
use mehoy_malloy_ai_runtime.Backend.Channel.{
  ChannelError, BackendChannel, reserve, FileEffect, Filed, SecretFile, create, drop_file,
}
use mehoy_malloy_ai_runtime.Backend.Health.{
  backend_ready, CredentialState, accepted, refused, HealthError, probe_credential,
}
use mehoy_malloy_ai_runtime.Backend.Identity.{BackendIdentity}
use mehoy_malloy_ai_runtime.Backend.Launch.{
  LlamaCppWorkerSpec, LlamaCppBackend, GiveUp, refused_with, not_confirmed, BackendError,
  channel_failed, rejected, worker_failed, identify, command_line,
}
use mehoy_malloy_ai_runtime.Backend.Surroundings.{
  RunningBackend, polls, to_option, failure, secret_directory, Surroundings, Started,
  default_capture_lines,
}

module _ {Child : Type 0} where
  abbrev pub with_log : WorkerLog → WorkerHandle Child → WorkerHandle Child
  with_log printed h = record h { log = printed }

  -- A backend that serves and is given up: it is shut down, and the error says if that failed.
  unfoldable pub give_up :
      Surroundings Child → List FileEffect → WorkerHandle Child → GiveUp → Started Child
  unfolding shutdown
  give_up s effects h cause =
      let (h', stopped) = shutdown s.os s.injected_at_shutdown h in
      record {
        effects = effects;
        dropped_handle = some h';
        answer = err (rejected cause (failure stopped));
      }

  -- Behind the check of the credential.
  unfoldable pub take_or_give_up :
      Surroundings Child
      → List FileEffect
      → BackendChannel
      → Option BackendIdentity
      → WorkerHandle Child
      → Result CredentialState HealthError
      → Started Child
  unfolding give_up
  take_or_give_up s effects channel identity h (ok accepted) = record {
    effects = effects;
    dropped_handle = none;
    answer =
        ok (record {
          handle = h;
          channel = channel;
          identity = identity;
          readiness = backend_ready;
        });
  }
  take_or_give_up s effects channel identity h (ok (refused status)) =
      give_up s effects h (refused_with status)
  take_or_give_up s effects channel identity h (err e) = give_up s effects h (not_confirmed e)

  -- Behind the wait for readiness.
  unfoldable pub after_ready :
      Surroundings Child
      → List FileEffect
      → BackendChannel
      → Option BackendIdentity
      → Answer Child WorkerReady
      → Started Child
  unfolding take_or_give_up probe_credential flush_output render
  after_ready s effects channel identity (h, ok report) =
      take_or_give_up s effects channel identity h (probe_credential s.credential)
  after_ready s effects channel identity (h, err source) = record {
    effects = effects;
    dropped_handle = some (with_log s.printed (flush_output h));
    answer = err (
        worker_failed (record { source = source; identity = identity; output = render s.printed }));
  }

  -- Behind the spawn.
  unfoldable pub after_spawn :
      Surroundings Child
      → List FileEffect
      → BackendChannel
      → Option BackendIdentity
      → Result (WorkerHandle Child) WorkerError
      → Started Child
  unfolding after_ready wait_ready_with polls
  after_spawn s effects channel identity (err source) = record {
    effects = effects;
    dropped_handle = none;
    answer = err (worker_failed (record { source = source; identity = identity; output = [] }));
  }
  after_spawn s effects channel identity (ok h) =
      after_ready s effects channel identity
        (wait_ready_with s.os s.injected_at_startup s.waited (polls s.shows s.health) h)

  abbrev pub worker_spec :
      Surroundings Child
      → LlamaCppBackend
      → ℕ
      → LlamaCppWorkerSpec
      → BackendChannel
      → SecretFile
      → WorkerSpec
  worker_spec s b id spec channel secret_file = record {
    id = id;
    program = b.executable;
    args = command_line s.display spec channel secret_file;
    deadlines = spec.deadlines;
    capture_lines = default_capture_lines;
    stop = terminate_only;
  }

  -- Behind the secret file, which is removed when `start` returns.
  unfoldable pub after_file :
      Surroundings Child
      → LlamaCppBackend
      → ℕ
      → LlamaCppWorkerSpec
      → BackendChannel
      → Option BackendIdentity
      → Filed SecretFile
      → Started Child
  unfolding after_spawn spawn command_line
  after_file s b id spec channel identity (effects, err e) = record {
    effects = effects;
    dropped_handle = none;
    answer = err (channel_failed e);
  }
  after_file s b id spec channel identity (effects, ok file) =
      after_spawn s (effects ++ drop_file file) channel identity
        (spawn s.run (worker_spec s b id spec channel file))

  abbrev pub after_reserve :
      Surroundings Child
      → LlamaCppBackend
      → ℕ
      → LlamaCppWorkerSpec
      → Option BackendIdentity
      → Result BackendChannel ChannelError
      → Started Child
  after_reserve s b id spec identity (err e) = record {
    effects = [];
    dropped_handle = none;
    answer = err (channel_failed e);
  }
  after_reserve s b id spec identity (ok channel) =
      after_file s b id spec channel identity
        (create s.files (secret_directory s.temp_dir s.files.euid) channel.secret)

  unfoldable pub start :
      Surroundings Child → LlamaCppBackend → ℕ → LlamaCppWorkerSpec → Started Child
  unfolding identify reserve create after_file secret_directory
  start s b id spec =
      after_reserve s b id spec (to_option (identify b s.version)) (reserve s.bound s.random)

  abbrev pub after_stop :
      WorkerLog
      → RunningBackend Child
      → Answer Child WorkerExit
      → RunningBackend Child × Result (Unit {0}) BackendError
  after_stop printed b (h, ok exit) = (record b { handle = h }, ok tt)
  after_stop printed b (h, err source) = (
    record b { handle = h },
    err (
        worker_failed (record { source = source; identity = b.identity; output = render printed })),
  )

  -- `RunningBackend::stop`, given what the worker has printed by then.
  unfoldable pub stop :
      Os Child
      → Option IoError
      → WorkerLog
      → RunningBackend Child
      → RunningBackend Child × Result (Unit {0}) BackendError
  unfolding shutdown render
  stop os injected printed b = after_stop printed b (shutdown os injected b.handle)
