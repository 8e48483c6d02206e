-- ===== src/Backend/Starting.antt =====
-- lib.rs: how a start of a backend ends, whatever the system and the network do.
use mehoy_malloy_ai_runtime.Common.{
  ℕ, ◌+◌, ◌≡◌, refl, sym, ap, ◌∙◌, ◌⊎◌, inl, inr, true, Option, none, some, List, [], ◌∷◌, Result,
  ok, err, is_some,
}
use mehoy_malloy_ai_runtime.Worker.{
  stdout, stderr, with_capacity, WorkerState, absent, starting, ready, failed, can_transition_to,
  transition_to,
}
use mehoy_malloy_ai_runtime.Worker.Process.{
  StopProtocol, terminate_only, WorkerSpec, IoError, WorkerError, io, WorkerReady, WorkerExit, Os,
  WorkerHandle, Answer, spawn, spawned, flush_output,
}
use mehoy_malloy_ai_runtime.Worker.Process.Startup.{
  Startup, startup_loop, rounds_within, wait_ready_with,
}
use mehoy_malloy_ai_runtime.Worker.Process.Stopping.{shutdown}
use mehoy_malloy_ai_runtime.Worker.Process.Ending.{EndsIn, stopped_state, shutdown_cases}
use mehoy_malloy_ai_runtime.Worker.Process.Polling.{StartsAs, wait_ready_with-StartsAs}
use mehoy_malloy_ai_runtime.Backend.Channel.{
  FileEffect, ChannelError, BackendChannel, Filed, SecretFile, create, reserve,
}
use mehoy_malloy_ai_runtime.Backend.Health.{
  backend_ready, CredentialState, accepted, refused, HealthError, reported, is_accepting,
  probe_credential, probe_credential_iff,
}
use mehoy_malloy_ai_runtime.Backend.Identity.{BackendIdentity}
use mehoy_malloy_ai_runtime.Backend.Launch.{
  LlamaCppBackend, LlamaCppWorkerSpec, identify, GiveUp, refused_with, not_confirmed, BackendError,
  WorkerFailure, rejected, worker_failed,
}
use mehoy_malloy_ai_runtime.Backend.Surroundings.{
  RunningBackend, Surroundings, Started, polls, failure, to_option, secret_directory,
}
use mehoy_malloy_ai_runtime.Backend.Running.{
  give_up, take_or_give_up, after_ready, after_spawn, after_file, after_reserve, start, worker_spec,
}
use mehoy_malloy_ai_runtime.Backend.Waiting.{SaidReady, poll_ready, wait_ready_with_stop}

module _ {Child : Type 0} where
  -- Whether an error tells the truth of a worker that was given up: it names no failure to stop it
  -- and the worker is gone, or it names one and the worker still has its process.
  abbrev pub IsTold : Option WorkerError → WorkerHandle Child → Type 0
  IsTold leak h =
      ((leak ≡ none) × (h.child ≡ none) × (h.state ≡ absent))
      ⊎ ((e : WorkerError) × (leak ≡ some e) × (is_some h.child ≡ true))

  abbrev pub IsServing : Surroundings Child → RunningBackend Child → Type 0
  IsServing s b =
      (b.handle.state ≡ ready)
      × (is_some b.handle.child ≡ true)
      × (b.handle.stop ≡ terminate_only)
      × SaidReady s
      × (is_accepting (reported s.credential) ≡ true)

  abbrev pub Ends : Surroundings Child → Started Child → Type 0
  Ends s r =
      ((b : RunningBackend Child) × (r.answer ≡ ok b) × (r.dropped_handle ≡ none) × IsServing s b)
      ⊎ ((e : BackendError) × (r.answer ≡ err e) × (r.dropped_handle ≡ none))
      ⊎ ((h : WorkerHandle Child) × (cause : GiveUp) × (leak : Option WorkerError) × (r.answer
            ≡ err (rejected cause leak))
          × (r.dropped_handle ≡ some h)
          × IsTold leak h)
      ⊎ ((h : WorkerHandle Child) × (f : WorkerFailure) × (r.answer ≡ err (worker_failed f))
          × (r.dropped_handle ≡ some h)
          × (h.state ≡ failed))

  -- A worker that is ready and stopped by termination is gone, or the failure is there to be told.
  pub ended-IsTold :
      (os : Os Child) (injected : Option IoError) (r : Answer Child WorkerExit) (budget : ℕ)
      (was : WorkerState) (stop : StopProtocol)
      → was ≡ ready
      → stop ≡ terminate_only
      → EndsIn os injected was stop budget r
      → IsTold (failure r.1) r.0
  ended-IsTold os injected (h, answer) budget was stop e t (inl (said, gone, away)) =
      rw said (inl (refl, gone, away ∙ ap stopped_state e))
  ended-IsTold os injected (h, answer) budget was stop e t (inr (inl (said, t', gone, away))) =
      cc (sym t ∙ t')
  ended-IsTold os injected (h, answer) budget was stop e t
        (inr (inr (c, error, said, held, kept))) =
      rw said (inr (io error, refl, rw held refl))

  given_up :
      (s : Surroundings Child) (effects : List FileEffect) (h : WorkerHandle Child) (c : Child)
      (cause : GiveUp)
      → h.state ≡ ready
      → h.stop ≡ terminate_only
      → h.child ≡ some c
      → Ends s (give_up s effects h cause)
  unfolding give_up
  given_up s effects h c cause is_ready stop held =
      let r = shutdown s.os s.injected_at_shutdown h in
      let ends = shutdown_cases s.os s.injected_at_shutdown h c held in
      let told : IsTold (failure r.1) r.0 =
        ended-IsTold s.os s.injected_at_shutdown r h.deadlines.shutdown h.state h.stop is_ready stop
          ends in
      inr (inr (inl (r.0, cause, failure r.1, refl, refl, told)))

  credential_checked :
      (s : Surroundings Child) (effects : List FileEffect) (channel : BackendChannel)
      (identity : Option BackendIdentity) (h : WorkerHandle Child) (c : Child)
      (r : Result CredentialState HealthError)
      → r ≡ probe_credential s.credential
      → h.state ≡ ready
      → h.stop ≡ terminate_only
      → h.child ≡ some c
      → SaidReady s
      → Ends s (take_or_give_up s effects channel identity h r)
  unfolding take_or_give_up
  credential_checked s effects channel identity h c (ok accepted) e is_ready stop held said =
      let ((takes, _), _) = probe_credential_iff s.credential 0 in
      inl (
        record { handle = h; channel = channel; identity = identity; readiness = backend_ready },
        refl,
        refl,
        (is_ready, rw held refl, stop, said, takes (sym e)),
      )
  credential_checked s effects channel identity h c (ok (refused n)) e is_ready stop held said =
      given_up s effects h c (refused_with n) is_ready stop held
  credential_checked s effects channel identity h c (err e') e is_ready stop held said =
      given_up s effects h c (not_confirmed e') is_ready stop held

  readiness_waited :
      (s : Surroundings Child) (effects : List FileEffect) (channel : BackendChannel)
      (identity : Option BackendIdentity) (budget : ℕ) (last : Child × Startup)
      (r : Answer Child WorkerReady)
      → r.0.stop ≡ terminate_only
      → StartsAs s.os s.injected_at_startup s.waited (polls s.shows s.health) budget last r
      → Ends s (after_ready s effects channel identity r)
  unfolding after_ready flush_output
  readiness_waited s effects channel identity budget last (h, answer) stop
        (inl (report, said, is_ready, held, (n, before, at_last))) =
      rw said (
        credential_checked s effects channel identity h last.0 (probe_credential s.credential) refl
          is_ready stop held (poll_ready s (0 + n) report at_last))
  readiness_waited s effects channel identity budget last (h, answer) stop
        (inr (inl (e, said, has_failed, _, _, _))) =
      rw said (inr (inr (inr (_, _, refl, refl, has_failed))))
  readiness_waited s effects channel identity budget last (h, answer) stop
        (inr (inr (n, said, late, has_failed, _, _))) =
      rw said (inr (inr (inr (_, _, refl, refl, has_failed))))

  spawn_ended :
      (s : Surroundings Child) (effects : List FileEffect) (channel : BackendChannel)
      (identity : Option BackendIdentity) (spec : WorkerSpec) (r : Result Child IoError)
      → spec.stop ≡ terminate_only
      → Ends s (after_spawn s effects channel identity (spawned spec starting r))
  unfolding after_spawn spawned
  spawn_ended s effects channel identity spec (err e) stop = inr (inl (_, refl, refl))
  spawn_ended s effects channel identity spec (ok c) stop =
      let h : WorkerHandle Child = record {
        id = spec.id;
        state = starting;
        child = some c;
        log = with_capacity spec.capture_lines;
        drains = stdout ∷ stderr ∷ [];
        deadlines = spec.deadlines;
        stop = spec.stop;
      } in
      let probe = polls s.shows s.health in
      readiness_waited s effects channel identity spec.deadlines.startup
        (startup_loop s.os spec.deadlines.startup probe (rounds_within spec.deadlines.startup) 0 0
          c)
        (wait_ready_with s.os s.injected_at_startup s.waited probe h)
        (wait_ready_with_stop s.os s.injected_at_startup s.waited probe h c refl ∙ stop)
        (wait_ready_with-StartsAs s.os s.injected_at_startup s.waited probe h c refl refl)

  file_ended :
      (s : Surroundings Child) (b : LlamaCppBackend) (id : ℕ) (spec : LlamaCppWorkerSpec)
      (channel : BackendChannel) (identity : Option BackendIdentity) (f : Filed SecretFile)
      → Ends s (after_file s b id spec channel identity f)
  unfolding after_file spawn transition_to can_transition_to
  file_ended s b id spec channel identity (effects, err e) = inr (inl (_, refl, refl))
  file_ended s b id spec channel identity (effects, ok file) =
      let w = worker_spec s b id spec channel file in
      spawn_ended s _ channel identity w (s.run w.program w.args) refl

  -- A start of a backend ends in one of four ways, whatever the system and the network do. It gives a
  -- backend that is ready and has its process, whose health path answered 200 and which accepted the
  -- runtime's credential; or an error, with no process started; or an error that a backend which
  -- serves was given up, and then either it names no failure to stop it and the worker is gone, or it
  -- names the failure and the worker has its process still; or an error of a worker that failed before
  -- it was ready.
  pub start-Ends :
      (s : Surroundings Child) (b : LlamaCppBackend) (id : ℕ) (spec : LlamaCppWorkerSpec)
      → Ends s (start s b id spec)
  unfolding start
  start-Ends s b id spec = reserved (to_option (identify b s.version)) (reserve s.bound s.random)
    where
      reserved :
          (identity : Option BackendIdentity) (r : Result BackendChannel ChannelError)
          → Ends s (after_reserve s b id spec identity r)
      reserved identity (err e) = inr (inl (_, refl, refl))
      reserved identity (ok channel) =
          file_ended s b id spec channel identity
            (create s.files (secret_directory s.temp_dir s.files.euid) channel.secret)
