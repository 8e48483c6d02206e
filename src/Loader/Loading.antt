-- ===== src/Loader/Loading.antt =====
-- loader.rs, `ModelLoader`: a model is loaded. The artifact is looked up and checked again, the
-- backend started and, if the instance cannot be made then, stopped again. The identifier of an
-- artifact is the number that its hexadecimal text spells.
use mehoy_malloy_ai_runtime.Common.{
  ℕ, ◌+◌, ◌*◌, ◌-◌, Bool, not, Option, none, some, [], ◌∷◌, ltb, if◌then◌else◌, Result, ok, err,
  ◌>>=◌, is_some,
}
use mehoy_malloy_ai_runtime.Common.Text.{Text}
use mehoy_malloy_ai_runtime.Capability.{indicated_by_metadata}
use mehoy_malloy_ai_runtime.Compatibility.{ModelDescriptor, Compatibility, assess, permits_start}
use mehoy_malloy_ai_runtime.Instance.{new_instance}
use mehoy_malloy_ai_runtime.Registry.{
  ArtifactFingerprint, ModelArtifact, Drift, ArtifactState, unchanged, missing, changed,
  detect_drift,
}
use mehoy_malloy_ai_runtime.Registry.Store.{RegistryError}
use mehoy_malloy_ai_runtime.Registry.Operations.{Database, get}
use mehoy_malloy_ai_runtime.Worker.Process.{Deadlines, WorkerHandle}
use mehoy_malloy_ai_runtime.Backend.Identity.{BackendIdentity}
use mehoy_malloy_ai_runtime.Backend.Launch.{LlamaCppWorkerSpec, LlamaCppBackend, BackendError}
use mehoy_malloy_ai_runtime.Backend.Surroundings.{RunningBackend, Surroundings, Started, failure}
use mehoy_malloy_ai_runtime.Backend.Running.{start, stop}
use mehoy_malloy_ai_runtime.Loader.Model.{serving, LoadedModel}

-- Why an instance could not be made.
pub data CommitFault : Type 0 where
  injected_fault : CommitFault
  no_identifier : (detail : Text) → CommitFault

-- Why a load failed. `leak` is a failure to stop the backend again, which the reason then words.
pub data LoadFailure : Type 0 where
  registry_failed : (source : RegistryError) → LoadFailure
  unknown_artifact : (id : Text) → LoadFailure
  artifact_missing : (id path : Text) → LoadFailure
  artifact_changed : (id : Text) (reason : Drift) → LoadFailure
  incompatible : (reason : Compatibility) → LoadFailure
  backend_failed : (source : BackendError) → LoadFailure
  instance_failed : (reason : CommitFault) (leak : Option BackendError) → LoadFailure

abbrev pub has_chat_template : ModelArtifact → Bool
has_chat_template a = is_some a.metadata.chat_template

unfoldable pub describe : ModelArtifact → ModelDescriptor
describe a = record {
  architecture = a.metadata.architecture;
  context_length = a.metadata.context_length;
  embedding_length = a.metadata.embedding_length;
  tokenizer_model = a.metadata.tokenizer_model;
  has_chat_template = has_chat_template a;
}

abbrev pub as_found : Text → Option ModelArtifact → Result ModelArtifact LoadFailure
as_found id none = err (unknown_artifact id)
as_found id (some a) = ok a

abbrev pub from_registry {ℓ} : {A : Type ℓ} → Result A RegistryError → Result A LoadFailure
from_registry (ok a) = ok a
from_registry (err e) = err (registry_failed e)

abbrev pub if_unchanged : Text → ModelArtifact → ArtifactState → Result ModelArtifact LoadFailure
if_unchanged id a unchanged = ok a
if_unchanged id a missing = err (artifact_missing id a.path)
if_unchanged id a (changed reason) = err (artifact_changed id reason)

-- `resolve`, given what is observed at a path now.
unfoldable pub resolve :
    {Db : Type 0}
    → Database Db
    → (Text → Result ArtifactFingerprint Text)
    → Text
    → Db
    → Result ModelArtifact LoadFailure
unfolding get detect_drift
resolve database observe id db = do
  row ← from_registry (get database id db)
  artifact ← as_found id row
  if_unchanged id artifact (detect_drift (observe artifact.path) artifact)

-- The checks before anything is started.
unfoldable pub preflight : ModelArtifact → Result ModelArtifact LoadFailure
unfolding assess permits_start describe
preflight a =
    let compatibility = assess (describe a) in
    if not (permits_start compatibility) then err (incompatible compatibility) else ok a

-- What a text of hexadecimal digits spells.
unfoldable pub spelled : ℕ → Text → ℕ
spelled n [] = n
spelled n (d ∷ ds) = spelled (n * 16 + (if ltb d 58 then d - 48 else d - 87)) ds

abbrev pub spec_of : Deadlines → ModelArtifact → LlamaCppWorkerSpec
spec_of deadlines a = record {
  model_path = a.path;
  descriptor = describe a;
  context_size = none;
  gpu_layers = none;
  deadlines = deadlines;
}

abbrev pub Loaded : Type 0 → Type 0
Loaded Child = LoadedModel (RunningBackend Child) BackendIdentity

-- What a commit is told: a fault that a test asked for, and the identifier of the instance.
pub record CommitAnswers : Type 0 where
  pub injected : Bool
  pub instance_id : Result ℕ Text

abbrev pub instance_number : CommitAnswers → Result ℕ CommitFault
instance_number s =
    if s.injected
    then err injected_fault
    else elim s.instance_id [ ok id ↦ ok id | err e ↦ err (no_identifier e) ]

-- A load's result, and the handle of the worker that a failed load leaves to be dropped.
pub record LoadResult (Child : Type 0) : Type 0 where
  pub dropped_handle : Option (WorkerHandle Child)
  pub answer : Result (Loaded Child) LoadFailure

module _ {Child : Type 0} where
  -- The instance, once it has its number.
  unfoldable pub instance_made :
      ModelArtifact
      → RunningBackend Child
      → Result ℕ CommitFault
      → Result (Loaded Child) (CommitFault × RunningBackend Child)
  unfolding spelled new_instance indicated_by_metadata
  instance_made a backend (err fault) = err (fault, backend)
  instance_made a backend (ok id) = ok (record {
    instance_data = new_instance id (spelled 0 a.id) backend.identity (
        indicated_by_metadata a.metadata.architecture a.metadata.embedding_length
          (has_chat_template a));
    identity = backend.identity;
    next_request = 1;
    lifecycle = record { phase = serving; active = []; worker = some backend };
    handles = [];
  })

  unfoldable pub commit :
      CommitAnswers
      → ModelArtifact
      → RunningBackend Child
      → Result (Loaded Child) (CommitFault × RunningBackend Child)
  unfolding instance_made
  commit s a backend = instance_made a backend (instance_number s)

  abbrev pub given_back :
      CommitFault → RunningBackend Child × Result (Unit {0}) BackendError → LoadResult Child
  given_back fault (backend, stopped) = record {
    dropped_handle = some backend.handle;
    answer = err (instance_failed fault (failure stopped));
  }

  -- A backend whose instance could not be made is stopped.
  unfoldable pub roll_back :
      Surroundings Child → CommitFault → RunningBackend Child → LoadResult Child
  unfolding stop
  roll_back s fault backend = given_back fault (stop s.os s.injected_at_shutdown s.printed backend)

  abbrev pub after_commit :
      Surroundings Child
      → Result (Loaded Child) (CommitFault × RunningBackend Child)
      → LoadResult Child
  after_commit s (ok loaded) = record { dropped_handle = none; answer = ok loaded }
  after_commit s (err (fault, backend)) = roll_back s fault backend

  abbrev pub after_start :
      Surroundings Child → CommitAnswers → ModelArtifact → Started Child → LoadResult Child
  after_start s c a started = elim started.answer [
    | err e ↦ record { dropped_handle = started.dropped_handle; answer = err (backend_failed e) }
    | ok backend ↦ after_commit s (commit c a backend)
  ]

  abbrev pub after_preflight :
      Surroundings Child
      → CommitAnswers
      → LlamaCppBackend
      → ℕ
      → Deadlines
      → Result ModelArtifact LoadFailure
      → LoadResult Child
  after_preflight s c backend worker deadlines (err e) = record {
    dropped_handle = none;
    answer = err e;
  }
  after_preflight s c backend worker deadlines (ok a) =
      after_start s c a (start s backend worker (spec_of deadlines a))

  -- `load`.
  unfoldable pub load_model :
      {Db : Type 0}
      → Database Db
      → (Text → Result ArtifactFingerprint Text)
      → Surroundings Child
      → CommitAnswers
      → LlamaCppBackend
      → Text
      → ℕ
      → Deadlines
      → Db
      → LoadResult Child
  unfolding resolve preflight start commit roll_back
  load_model database observe s c backend id worker deadlines db =
      after_preflight s c backend worker deadlines
        (do a ← resolve database observe id db; preflight a)
