-- ===== src/Backend/Launch.antt =====
-- crates/mehoy-backend-llama/src/lib.rs: a llama.cpp backend, how it is asked who it is, and the
-- command line it is started with. Paths are texts, and `display` is what a path is shown as.
use mehoy_malloy_ai_runtime.Common.{
  ℕ, String, Bool, false, not, Option, none, some, List, [], ◌∷◌, ◌++◌, if◌then◌else◌, Result, ok,
  err, is_empty,
}
use mehoy_malloy_ai_runtime.Common.Text.{Text, contains}
use mehoy_malloy_ai_runtime.Registry.{shown}
use mehoy_malloy_ai_runtime.Compatibility.{
  ModelDescriptor, LaunchMode, general, embedding, launch_mode,
}
use mehoy_malloy_ai_runtime.Worker.Process.{Deadlines, default_deadlines, WorkerError}
use mehoy_malloy_ai_runtime.Backend.Channel.{ChannelError, BackendChannel, host, SecretFile}
use mehoy_malloy_ai_runtime.Backend.Health.{HealthError}
use mehoy_malloy_ai_runtime.Backend.Identity.{BackendIdentity, parse_banner, version_word}

pub data GpuLayerPolicy : Type 0 where
  cpu_only : GpuLayerPolicy
  layers : (count : ℕ) → GpuLayerPolicy

pub record LlamaCppWorkerSpec : Type 0 where
  pub model_path : Text
  pub descriptor : ModelDescriptor
  pub context_size : Option ℕ
  pub gpu_layers : Option GpuLayerPolicy
  pub deadlines : Deadlines

abbrev pub new_spec : Text → LlamaCppWorkerSpec
new_spec model_path = record {
  model_path = model_path;
  descriptor = record {
    architecture = none;
    context_length = none;
    embedding_length = none;
    tokenizer_model = none;
    has_chat_template = false;
  };
  context_size = none;
  gpu_layers = none;
  deadlines = default_deadlines;
}

pub record WorkerFailure : Type 0 where
  pub source : WorkerError
  pub identity : Option BackendIdentity
  pub output : Text

-- Why a backend that serves was given up.
pub data GiveUp : Type 0 where
  refused_with : (status : ℕ) → GiveUp
  not_confirmed : (source : HealthError) → GiveUp

-- `leak` is what `describe_leak` words: the failure to stop the worker that was given up.
pub data BackendError : Type 0 where
  unavailable : (reason : String) → BackendError
  unidentifiable : (executable reason : Text) → BackendError
  channel_failed : (source : ChannelError) → BackendError
  rejected : (cause : GiveUp) (leak : Option WorkerError) → BackendError
  worker_failed : WorkerFailure → BackendError

pub record LlamaCppBackend : Type 0 where
  pub executable : Text

unfoldable pub new_backend : (Text → Bool) → Text → Result LlamaCppBackend BackendError
new_backend is_file executable =
    if not (is_file executable)
    then err (unavailable "is not an existing file")
    else ok (record { executable = executable })

-- `from_env`, given the value of the variable.
unfoldable pub from_env : (Text → Bool) → Option Text → Result LlamaCppBackend BackendError
unfolding new_backend
from_env is_file none = err (unavailable "is not set")
from_env is_file (some configured) =
    if is_empty configured then err (unavailable "is empty") else new_backend is_file configured

-- What running `--version` gives: standard error and standard output, in lossy UTF-8.
pub record VersionOutput : Type 0 where
  pub on_stderr : Text
  pub on_stdout : Text

-- The banner goes to standard error; standard output is taken where only it has one.
unfoldable pub banner_of : VersionOutput → Text
unfolding contains
banner_of o =
    if contains version_word o.on_stderr
    then o.on_stderr
    else if contains version_word o.on_stdout
    then o.on_stdout
    else o.on_stderr

unfoldable pub identify :
    LlamaCppBackend → Result VersionOutput Text → Result BackendIdentity BackendError
unfolding banner_of parse_banner
identify b (err e) = err (unidentifiable b.executable e)
identify b (ok output) = ok (parse_banner b.executable (banner_of output))

-- The options of the command line.
abbrev pub model_flag : Text
model_flag = b'-' ∷ b'-' ∷ b'm' ∷ b'o' ∷ b'd' ∷ b'e' ∷ b'l' ∷ []

abbrev pub host_flag : Text
host_flag = b'-' ∷ b'-' ∷ b'h' ∷ b'o' ∷ b's' ∷ b't' ∷ []

abbrev pub port_flag : Text
port_flag = b'-' ∷ b'-' ∷ b'p' ∷ b'o' ∷ b'r' ∷ b't' ∷ []

abbrev pub key_flag : Text
key_flag =
    b'-' ∷ b'-' ∷ b'a' ∷ b'p' ∷ b'i' ∷ b'-' ∷ b'k' ∷ b'e' ∷ b'y' ∷ b'-' ∷ b'f' ∷ b'i' ∷ b'l' ∷ b'e'
    ∷ []

abbrev pub no_webui_flag : Text
no_webui_flag = b'-' ∷ b'-' ∷ b'n' ∷ b'o' ∷ b'-' ∷ b'w' ∷ b'e' ∷ b'b' ∷ b'u' ∷ b'i' ∷ []

abbrev pub embedding_flag : Text
embedding_flag = b'-' ∷ b'-' ∷ b'e' ∷ b'm' ∷ b'b' ∷ b'e' ∷ b'd' ∷ b'd' ∷ b'i' ∷ b'n' ∷ b'g' ∷ []

abbrev pub context_flag : Text
context_flag = b'-' ∷ b'-' ∷ b'c' ∷ b't' ∷ b'x' ∷ b'-' ∷ b's' ∷ b'i' ∷ b'z' ∷ b'e' ∷ []

abbrev pub gpu_flag : Text
gpu_flag =
    b'-' ∷ b'-' ∷ b'n' ∷ b'-' ∷ b'g' ∷ b'p' ∷ b'u' ∷ b'-' ∷ b'l' ∷ b'a' ∷ b'y' ∷ b'e' ∷ b'r' ∷ b's'
    ∷ []

abbrev pub mode_args : LaunchMode → List Text
mode_args embedding = embedding_flag ∷ []
mode_args general = []

abbrev pub context_args : Option ℕ → List Text
context_args none = []
context_args (some context) = context_flag ∷ shown context ∷ []

abbrev pub gpu_args : Option GpuLayerPolicy → List Text
gpu_args none = []
gpu_args (some cpu_only) = gpu_flag ∷ shown 0 ∷ []
gpu_args (some (layers count)) = gpu_flag ∷ shown count ∷ []

unfoldable pub command_line :
    (Text → Text) → LlamaCppWorkerSpec → BackendChannel → SecretFile → List Text
unfolding launch_mode host
command_line display spec channel secret_file =
    (model_flag
      ∷ display spec.model_path
      ∷ host_flag
      ∷ host channel
      ∷ port_flag
      ∷ shown channel.address.port
      ∷ key_flag
      ∷ display secret_file.path
      ∷ no_webui_flag
      ∷ [])
    ++ (mode_args (launch_mode spec.descriptor)
        ++ (context_args spec.context_size ++ gpu_args spec.gpu_layers))
