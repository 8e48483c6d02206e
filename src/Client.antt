-- ===== src/Client.antt =====
-- crates/mehoy-cli/src: the client of the daemon (lib.rs) and its command line (main.rs). serde's
-- parsing is the parameters `parse_health`, `parse_info` and `parse_error`, and `from_utf8_lossy` is
-- another; what the transport answers is an argument. What is printed is left out.
pub mod Commands
pub mod Talking
mod Tests
use mehoy_malloy_ai_runtime.Common.{
  ℕ, Option, none, some, List, [], ◌∷◌, if◌then◌else◌, Result, ok, err, ◌>>=◌,
}
use mehoy_malloy_ai_runtime.Common.Text.{Text, text_eq, starts_with}
use mehoy_malloy_ai_runtime.Protocol.{RuntimeInfo, Health, ErrorBody, path_health, path_runtime}
use mehoy_malloy_ai_runtime.Generate.{is_success}
use mehoy_malloy_ai_runtime.Daemon.{Response}

pub data EndpointError : Type 0 where
  not_running unreachable : (detail : Text) → EndpointError

pub data ClientError : Type 0 where
  transport : EndpointError → ClientError
  protocol malformed : (detail : Text) → ClientError
  daemon : (status : ℕ) (code message : Text) → ClientError

-- What the steps of a request answer; the daemon's response to a path, and its collected body.
pub record Conversation : Type 0 where
  pub connects : Result (Unit {0}) EndpointError
  pub shakes_hands : Result (Unit {0}) Text
  pub builds : Result (Unit {0}) Text
  pub responds : Text → Result Response Text
  pub collects : Response → Result Text Text

abbrev pub as_transport {ℓ} : {A : Type ℓ} → Result A EndpointError → Result A ClientError
as_transport (ok a) = ok a
as_transport (err e) = err (transport e)

abbrev pub as_protocol {ℓ} : {A : Type ℓ} → Result A Text → Result A ClientError
as_protocol (ok a) = ok a
as_protocol (err e) = err (protocol e)

abbrev pub as_malformed {ℓ} : {A : Type ℓ} → Result A Text → Result A ClientError
as_malformed (ok a) = ok a
as_malformed (err e) = err (malformed e)

-- `unknown`
abbrev pub unknown_code : Text
unknown_code = b'u' ∷ b'n' ∷ b'k' ∷ b'n' ∷ b'o' ∷ b'w' ∷ b'n' ∷ []

module _ (parse_error : Text → Option ErrorBody) (from_utf8_lossy : Text → Text) where
  abbrev pub refusal_of : ℕ → Text → Option ErrorBody → ClientError
  refusal_of status bytes none = daemon status unknown_code (from_utf8_lossy bytes)
  refusal_of status bytes (some body) = daemon status body.code body.message

  unfoldable pub raw_get : Conversation → Text → Result Text ClientError
  raw_get c path = do
    _ ← as_transport c.connects
    _ ← as_protocol c.shakes_hands
    _ ← as_protocol c.builds
    response ← as_protocol (c.responds path)
    bytes ← as_protocol (c.collects response)
    (if is_success response.status
        then ok bytes
        else err (refusal_of response.status bytes (parse_error bytes)))

  unfoldable pub get_health : (Text → Result Health Text) → Conversation → Result Health ClientError
  unfolding raw_get
  get_health parse_health c = do bytes ← raw_get c path_health; as_malformed (parse_health bytes)

  unfoldable pub get_runtime :
      (Text → Result RuntimeInfo Text) → Conversation → Result RuntimeInfo ClientError
  unfolding raw_get
  get_runtime parse_info c = do bytes ← raw_get c path_runtime; as_malformed (parse_info bytes)

pub data Command : Type 0 where
  health runtime : Command

pub data Invocation : Type 0 where
  run : (command : Command) (endpoint : Option Text) → Invocation
  help version : Invocation

pub data UsageError : Type 0 where
  endpoint_needs_address no_command : UsageError
  unrecognised_option unrecognised_command : (argument : Text) → UsageError

-- The words of the command line.
abbrev pub short_help : Text
short_help = b'-' ∷ b'h' ∷ []

abbrev pub long_help : Text
long_help = b'-' ∷ b'-' ∷ b'h' ∷ b'e' ∷ b'l' ∷ b'p' ∷ []

abbrev pub short_version : Text
short_version = b'-' ∷ b'V' ∷ []

abbrev pub long_version : Text
long_version = b'-' ∷ b'-' ∷ b'v' ∷ b'e' ∷ b'r' ∷ b's' ∷ b'i' ∷ b'o' ∷ b'n' ∷ []

abbrev pub endpoint_flag : Text
endpoint_flag = b'-' ∷ b'-' ∷ b'e' ∷ b'n' ∷ b'd' ∷ b'p' ∷ b'o' ∷ b'i' ∷ b'n' ∷ b't' ∷ []

abbrev pub health_word : Text
health_word = b'h' ∷ b'e' ∷ b'a' ∷ b'l' ∷ b't' ∷ b'h' ∷ []

abbrev pub runtime_word : Text
runtime_word = b'r' ∷ b'u' ∷ b'n' ∷ b't' ∷ b'i' ∷ b'm' ∷ b'e' ∷ []

-- What an argument is to the parser.
pub data Argument : Type 0 where
  asks_help asks_version names_endpoint : Argument
  is_command : Command → Argument
  is_option is_other : Argument

unfoldable pub classify_argument : Text → Argument
unfolding text_eq starts_with
classify_argument arg =
    if text_eq arg short_help
    then asks_help
    else if text_eq arg long_help
    then asks_help
    else if text_eq arg short_version
    then asks_version
    else if text_eq arg long_version
    then asks_version
    else if text_eq arg endpoint_flag
    then names_endpoint
    else if text_eq arg health_word
    then is_command health
    else if text_eq arg runtime_word
    then is_command runtime
    else if starts_with (b'-' ∷ []) arg
    then is_option
    else is_other

-- A second command is refused as a command that is not known.
abbrev pub on_command :
    Text
    → Command
    → Option Command
    → (Option Command → Result Invocation UsageError)
    → Result Invocation UsageError
on_command arg command none next = next (some command)
on_command arg command (some first) next = err (unrecognised_command arg)

-- What an argument does: `next` goes on with the argument behind it, `valued` takes that for the
-- address of an endpoint.
abbrev pub on_argument :
    Argument
    → Text
    → Option Command
    → (Option Command → Result Invocation UsageError)
    → Result Invocation UsageError
    → Result Invocation UsageError
on_argument asks_help arg command next valued = ok help
on_argument asks_version arg command next valued = ok version
on_argument names_endpoint arg command next valued = valued
on_argument (is_command c) arg command next valued = on_command arg c command next
on_argument is_option arg command next valued = err (unrecognised_option arg)
on_argument is_other arg command next valued = err (unrecognised_command arg)

-- The loop of `parse_args`, with the endpoint and the command so far.
unfoldable pub parse_from : List Text → Option Text → Option Command → Result Invocation UsageError
unfolding classify_argument
parse_from [] endpoint none = err no_command
parse_from [] endpoint (some command) = ok (run command endpoint)
parse_from (arg ∷ []) endpoint command =
    on_argument (classify_argument arg) arg command (λ command'. parse_from [] endpoint command')
      (err endpoint_needs_address)
parse_from (arg ∷ value ∷ args) endpoint command =
    on_argument (classify_argument arg) arg command
      (λ command'. parse_from (value ∷ args) endpoint command')
      (parse_from args (some value) command)

unfoldable pub parse_args : List Text → Result Invocation UsageError
unfolding parse_from
parse_args args = parse_from args none none

-- The exit code of a command, for the error that its request gave, if it gave one.
unfoldable pub exit_code : Option ClientError → ℕ
exit_code none = 0
exit_code (some (transport (not_running detail))) = 3
exit_code (some e) = 1
