-- ===== src/Loader/Loads.antt =====
-- loader.rs, `load`: how a load ends, whatever the registry, the system and the network answer.
use mehoy_malloy_ai_runtime.Common.{
  ℕ, ◌≡◌, refl, sym, ap, ◌∙◌, ◌⊎◌, inl, inr, true, false, Option, none, some, [], Result, ok, err,
  ◌>>=◌, is_some, Result-cases, Option-cases,
}
use mehoy_malloy_ai_runtime.Common.Text.{Text}
use mehoy_malloy_ai_runtime.Capability.{ModelCapability, is_verified}
use mehoy_malloy_ai_runtime.Capability.Evidence.{indicated-not_verified}
use mehoy_malloy_ai_runtime.Instance.{backend_ready, new_instance}
use mehoy_malloy_ai_runtime.Registry.{ArtifactFingerprint, ModelArtifact}
use mehoy_malloy_ai_runtime.Registry.Operations.{Database}
use mehoy_malloy_ai_runtime.Worker.{absent, failed}
use mehoy_malloy_ai_runtime.Worker.Process.{
  Deadlines, WorkerHandle, WorkerError, WorkerExit, Answer,
}
use mehoy_malloy_ai_runtime.Worker.Process.Stopping.{shutdown}
use mehoy_malloy_ai_runtime.Worker.Process.Ending.{EndsIn, shutdown_cases, stopped_state}
use mehoy_malloy_ai_runtime.Backend.Launch.{
  LlamaCppBackend, GiveUp, rejected, worker_failed, WorkerFailure,
}
use mehoy_malloy_ai_runtime.Backend.Surroundings.{RunningBackend, Surroundings, Started}
use mehoy_malloy_ai_runtime.Backend.Running.{start, stop, after_stop}
use mehoy_malloy_ai_runtime.Backend.Identity.{BackendIdentity}
use mehoy_malloy_ai_runtime.Backend.Starting.{Ends, IsServing, IsTold, start-Ends}
use mehoy_malloy_ai_runtime.Loader.Model.{serving}
use mehoy_malloy_ai_runtime.Loader.Loading.{
  CommitFault, LoadFailure, backend_failed, instance_failed, resolve, preflight, Loaded,
  CommitAnswers, LoadResult, instance_number, instance_made, commit, roll_back, after_commit,
  given_back, after_start, load_model, spec_of, has_chat_template,
}
use mehoy_malloy_ai_runtime.Loader.Checks.{IsSound, checks_ok}

module _ {Child : Type 0} where
  -- A model that was loaded: its artifact passed the checks, its one worker is a backend that serves,
  -- no request is active, and nothing of what it may be able to do counts as demonstrated.
  abbrev pub IsLoaded :
      {Db : Type 0}
      → Database Db
      → (Text → Result ArtifactFingerprint Text)
      → Surroundings Child
      → Text
      → Db
      → Loaded Child
      → Type 0
  IsLoaded database observe s id db m =
      ((a : ModelArtifact) × IsSound database observe id db a)
      × ((b : RunningBackend Child) × (m.lifecycle
            ≡ record { phase = serving; active = []; worker = some b })
          × IsServing s b)
      × (m.instance_data.state ≡ backend_ready)
      × ((c : ModelCapability) → is_verified c m.instance_data.capabilities ≡ false)

  -- The ways in which a load ends that started a worker and gives no model.
  abbrev pub IsGivenUp : LoadFailure → WorkerHandle Child → Type 0
  IsGivenUp e h =
      ((cause : GiveUp) × (leak : Option WorkerError) × (e ≡ backend_failed (rejected cause leak))
        × IsTold leak h)
      ⊎ ((f : WorkerFailure) × (e ≡ backend_failed (worker_failed f)) × (h.state ≡ failed))
      ⊎ ((fault : CommitFault) × (e ≡ instance_failed fault none)
          × (h.child ≡ none)
          × (h.state ≡ absent))
      ⊎ ((fault : CommitFault) × (f : WorkerFailure) × (e
            ≡ instance_failed fault (some (worker_failed f)))
          × (is_some h.child ≡ true))

  abbrev pub LoadEnds :
      {Db : Type 0}
      → Database Db
      → (Text → Result ArtifactFingerprint Text)
      → Surroundings Child
      → Text
      → Db
      → LoadResult Child
      → Type 0
  LoadEnds database observe s id db r =
      ((m : Loaded Child) × (r.answer ≡ ok m)
        × (r.dropped_handle ≡ none)
        × IsLoaded database observe s id db m)
      ⊎ ((e : LoadFailure) × (r.answer ≡ err e) × (r.dropped_handle ≡ none))
      ⊎ ((e : LoadFailure) × (h : WorkerHandle Child) × (r.answer ≡ err e)
          × (r.dropped_handle ≡ some h)
          × IsGivenUp e h)

  module _ {Db : Type 0} (database : Database Db) (observe : Text → Result ArtifactFingerprint Text)
      (s : Surroundings Child) (id : Text) (db : Db) where
    stopped_ended :
        (fault : CommitFault) (b : RunningBackend Child) (r : Answer Child WorkerExit) (budget : ℕ)
        → EndsIn s.os s.injected_at_shutdown b.handle.state b.handle.stop budget r
        → IsServing s b
        → LoadEnds database observe s id db (given_back fault (after_stop s.printed b r))
    stopped_ended fault b (h, answer) budget (inl (said, gone, away)) (is_ready, _, _, _, _) =
        rw said (
          inr (
            inr (
              _,
              _,
              refl,
              refl,
              inr (inr (inl (fault, refl, gone, away ∙ ap stopped_state is_ready))),
            )))
    stopped_ended fault b (h, answer) budget (inr (inl (said, by_line, _, _)))
          (_, _, by_termination, _, _) =
        cc (sym by_termination ∙ by_line)
    stopped_ended fault b (h, answer) budget (inr (inr (c, e, said, left, kept))) serves =
        rw said (inr (inr (_, _, refl, refl, inr (inr (inr (fault, _, refl, rw left refl))))))

    rolled_back :
        (fault : CommitFault) (b : RunningBackend Child) (c : Child)
        → b.handle.child ≡ some c
        → IsServing s b
        → LoadEnds database observe s id db (roll_back s fault b)
    unfolding roll_back stop
    rolled_back fault b c held serves =
        stopped_ended fault b (shutdown s.os s.injected_at_shutdown b.handle)
          b.handle.deadlines.shutdown (shutdown_cases s.os s.injected_at_shutdown b.handle c held)
          serves

    commit_ended :
        (a : ModelArtifact) (b : RunningBackend Child) (c : Child) (number : Result ℕ CommitFault)
        → IsSound database observe id db a
        → b.handle.child ≡ some c
        → IsServing s b
        → LoadEnds database observe s id db (after_commit s (instance_made a b number))
    unfolding instance_made new_instance
    commit_ended a b c (ok n) sound held serves = inl (
      _,
      refl,
      refl,
      (
        (a, sound),
        (b, refl, serves),
        refl,
        λ cap.
            indicated-not_verified BackendIdentity cap a.metadata.architecture
              a.metadata.embedding_length (has_chat_template a),
      ),
    )
    commit_ended a b c (err fault) sound held serves = rolled_back fault b c held serves

    start_ended :
        (answers : CommitAnswers) (a : ModelArtifact) (r : Started Child)
        → IsSound database observe id db a
        → Ends s r
        → LoadEnds database observe s id db (after_start s answers a r)
    unfolding commit
    start_ended answers a r sound (inl (b, said, none_left, serves)) =
        elim (Option-cases b.handle.child) [
          | inl gone ↦ absurd (cc (sym serves.1 ∙ ap is_some gone))
          | inr (c, held) ↦ rw said (commit_ended a b c (instance_number answers) sound held serves)
        ]
    start_ended answers a r sound (inr (inl (e, said, none_left))) =
        rw (said, none_left) (inr (inl (_, refl, refl)))
    start_ended answers a r sound (inr (inr (inl (h, cause, leak, said, left, told)))) =
        rw (said, left) (inr (inr (_, h, refl, refl, inl (cause, leak, refl, told))))
    start_ended answers a r sound (inr (inr (inr (h, f, said, left, has_failed)))) =
        rw (said, left) (inr (inr (_, h, refl, refl, inr (inl (f, refl, has_failed)))))

    -- A load ends in one of three ways, whatever the registry, the system and the network answer. It
    -- gives a model, and then the artifact is the registered one, its file has not changed since, the
    -- backend may be started for it, the one worker of the model is a backend that is ready, answered
    -- 200 and accepted the credential, no request is active and no capability counts as demonstrated.
    -- Or it gives an error and no worker was started. Or a worker was started and given up: it failed
    -- before it was ready; or it is gone; or it still has its process and the error names the failure
    -- to stop it.
    pub load_model-LoadEnds :
        (answers : CommitAnswers) (backend : LlamaCppBackend) (worker : ℕ) (deadlines : Deadlines)
        → LoadEnds database observe s id db
            (load_model database observe s answers backend id worker deadlines db)
    unfolding load_model
    load_model-LoadEnds answers backend worker deadlines =
        elim (Result-cases (resolve database observe id db >>= preflight)) [
          | inl (a, e) ↦ rw e (
              start_ended answers a (start s backend worker (spec_of deadlines a))
                (checks_ok database observe id db a e)
                (start-Ends s backend worker (spec_of deadlines a)))
          | inr (fault, e) ↦ rw e (inr (inl (_, refl, refl)))
        ]
