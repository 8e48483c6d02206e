-- ===== src/Client/Tests.antt =====
-- Command lines, versions and a small encoding of what the daemon says, and the theorems at them.
use mehoy_malloy_ai_runtime.Common.{
  ◌≡◌, refl, ap, true, false, Option, none, some, List, [], ◌∷◌, ◌++◌, ◌==◌, if◌then◌else◌, Result,
  ok, err, length, take, drop,
}
use mehoy_malloy_ai_runtime.Common.Text.{Text, text_eq}
use mehoy_malloy_ai_runtime.Protocol.{
  current, is_compatible_with, RuntimeInfo, HealthStatus, healthy, shutting_down, Health, ErrorBody,
  path_health, path_runtime,
}
use mehoy_malloy_ai_runtime.Daemon.{
  Payload, health, info, error_body, no_route, not_found_code, runtime_info, asked_to_stop,
  accepted, finished, accept_failed, interrupted, ServeEvent, serve, nothing_served,
}
use mehoy_malloy_ai_runtime.Daemon.Serving.{EndsAs, serve-EndsAs}
use mehoy_malloy_ai_runtime.Client.{
  run, no_command, unrecognised_command, parse_args, classify_argument, parse_from, daemon, raw_get,
  get_health, get_runtime, health_word, runtime_word, endpoint_flag,
}
use mehoy_malloy_ai_runtime.Client
use mehoy_malloy_ai_runtime.Client.Commands.{parse_args-command}
use mehoy_malloy_ai_runtime.Client.Talking.{IsFaithful, spoken, client-understands}

second_refused :
    parse_args (health_word ∷ runtime_word ∷ []) ≡ err (unrecognised_command runtime_word)
unfolding parse_args
second_refused = refl

parse_args-command_example :
    parse_args (endpoint_flag ∷ endpoint_flag ∷ health_word ∷ endpoint_flag ∷ (b'x' ∷ []) ∷ [])
    ≡ ok (run Client.health (some (b'x' ∷ [])))
parse_args-command_example =
    parse_args-command Client.health (endpoint_flag ∷ []) ((b'x' ∷ []) ∷ [])

abbrev rounds : List ServeEvent
rounds = accepted ∷ accept_failed interrupted ∷ accepted ∷ finished ∷ asked_to_stop ∷ []

serve-EndsAs_example : EndsAs 0 rounds (serve 0 rounds nothing_served)
serve-EndsAs_example = serve-EndsAs 0 rounds

-- Two texts as one.
abbrev pair_text : Text → Text → Text
pair_text xs ys = length xs ∷ (xs ++ ys)

abbrev status_text : HealthStatus → Text
status_text healthy = 1 ∷ []
status_text shutting_down = 2 ∷ []

abbrev written : Payload → Result Text Text
written (health h) = ok (status_text h.status)
written (info i) =
    ok (i.protocol.major ∷ i.protocol.minor ∷ pair_text i.runtime.name i.runtime.version)
written (error_body e) = ok (pair_text e.code e.message)

abbrev read_health : Text → Result Health Text
read_health (n ∷ []) = ok (record { status = if n == 1 then healthy else shutting_down })
read_health _ = err []

abbrev read_info : Text → Result RuntimeInfo Text
read_info (major ∷ minor ∷ n ∷ rest) = ok (record {
  protocol = record { major = major; minor = minor };
  runtime = record { name = take n rest; version = drop n rest };
})
read_info _ = err []

abbrev read_error : Text → Option ErrorBody
read_error (n ∷ rest) = some (record { code = take n rest; message = drop n rest })
read_error [] = none

take-length : (xs ys : Text) → take (length xs) (xs ++ ys) ≡ xs
take-length [] ys = refl
take-length (x ∷ xs) ys = ap (◌∷◌ x) (take-length xs ys)

drop-length : (xs ys : Text) → drop (length xs) (xs ++ ys) ≡ ys
drop-length [] ys = refl
drop-length (x ∷ xs) ys = drop-length xs ys

abbrev package_version : Text
package_version = b'0' ∷ b'.' ∷ b'1' ∷ []

status_read : (s : HealthStatus) → read_health (status_text s) ≡ ok (record { status = s })
status_read healthy = refl
status_read shutting_down = refl

faithful : IsFaithful written read_health read_info read_error
faithful = record {
  health_read = λ h. (_, refl, status_read h.status);
  info_read = λ i. (
    _,
    refl,
    rw (take-length i.runtime.name i.runtime.version, drop-length i.runtime.name i.runtime.version)
        refl,
  );
  error_read = λ e. (_, refl, rw (take-length e.code e.message, drop-length e.code e.message) refl);
}

-- A text up to its first question mark.
abbrev before_query : Text → Text
before_query [] = []
before_query (c ∷ cs) = let rest = before_query cs in if c == b'?' then [] else c ∷ rest

client-understands_example :
    (get_health read_error
        (λ bytes. bytes)
        read_health
        (spoken before_query written package_version)
      ≡ ok (record { status = healthy }))
    × (get_runtime read_error
          (λ bytes. bytes)
          read_info
          (spoken before_query written package_version)
        ≡ ok (runtime_info written package_version))
    × (is_compatible_with current (runtime_info written package_version).protocol ≡ true)
    × ((uri : Text)
        → text_eq (before_query uri) path_health ≡ false
        → text_eq (before_query uri) path_runtime ≡ false
        → raw_get read_error (λ bytes. bytes) (spoken before_query written package_version) uri
          ≡ err (daemon 404 not_found_code (no_route (before_query uri))))
client-understands_example =
    client-understands before_query written package_version read_health read_info read_error
      (λ bytes. bytes) faithful refl refl
