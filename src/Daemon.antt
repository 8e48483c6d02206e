-- ===== src/Daemon.antt =====
-- crates/mehoy-daemon/src: the routes of the daemon (service.rs) and its loop (server.rs). serde's
-- encoding is the parameter `encode`; the version of the package is another. Connections are counted.
pub mod Serving
use mehoy_malloy_ai_runtime.Common.{
  ℕ, zero, suc, ◌+◌, Bool, true, false, Option, none, some, List, [], ◌∷◌, if◌then◌else◌, Result,
  ok, err,
}
use mehoy_malloy_ai_runtime.Common.Text.{Text, text_eq}
use mehoy_malloy_ai_runtime.Protocol.{
  current, RuntimeInfo, HealthStatus, healthy, Health, ErrorBody, path_health, path_runtime,
}

pub data Method : Type 0 where
  get : Method
  other_method : (name : Text) → Method

pub data Payload : Type 0 where
  health : Health → Payload
  info : RuntimeInfo → Payload
  error_body : ErrorBody → Payload

-- `allow` is the header of that name; the content type is JSON in all of them.
pub record Response : Type 0 where
  pub status : ℕ
  pub allow : Option Method
  pub body : Text

-- `mehoyd`
abbrev pub runtime_name : Text
runtime_name = b'm' ∷ b'e' ∷ b'h' ∷ b'o' ∷ b'y' ∷ b'd' ∷ []

abbrev pub not_found_code : Text
not_found_code = b'n' ∷ b'o' ∷ b't' ∷ b'_' ∷ b'f' ∷ b'o' ∷ b'u' ∷ b'n' ∷ b'd' ∷ []

abbrev pub not_allowed_code : Text
not_allowed_code =
    b'm' ∷ b'e' ∷ b't' ∷ b'h' ∷ b'o' ∷ b'd' ∷ b'_' ∷ b'n' ∷ b'o' ∷ b't' ∷ b'_' ∷ b'a' ∷ b'l' ∷ b'l'
    ∷ b'o' ∷ b'w' ∷ b'e' ∷ b'd' ∷ []

-- `this route accepts GET only`
abbrev pub get_only : Text
get_only =
    b't' ∷ b'h' ∷ b'i' ∷ b's' ∷ b' ' ∷ b'r' ∷ b'o' ∷ b'u' ∷ b't' ∷ b'e' ∷ b' ' ∷ b'a' ∷ b'c' ∷ b'c'
    ∷ b'e' ∷ b'p' ∷ b't' ∷ b's' ∷ b' ' ∷ b'G' ∷ b'E' ∷ b'T' ∷ b' ' ∷ b'o' ∷ b'n' ∷ b'l' ∷ b'y' ∷ []

-- `no route for {path}`
abbrev pub no_route : Text → Text
no_route path =
    b'n' ∷ b'o' ∷ b' ' ∷ b'r' ∷ b'o' ∷ b'u' ∷ b't' ∷ b'e' ∷ b' ' ∷ b'f' ∷ b'o' ∷ b'r' ∷ b' ' ∷ path

-- The body of a response that cannot be encoded.
abbrev pub encoding_failed : Text
encoding_failed =
    b'{' ∷ b'"' ∷ b'e' ∷ b'r' ∷ b'r' ∷ b'o' ∷ b'r' ∷ b'"' ∷ b':' ∷ b'{' ∷ b'"' ∷ b'c' ∷ b'o' ∷ b'd'
    ∷ b'e' ∷ b'"' ∷ b':' ∷ b'"' ∷ b'e' ∷ b'n' ∷ b'c' ∷ b'o' ∷ b'd' ∷ b'i' ∷ b'n' ∷ b'g' ∷ b'_'
    ∷ b'f' ∷ b'a' ∷ b'i' ∷ b'l' ∷ b'e' ∷ b'd' ∷ b'"' ∷ b',' ∷ b'"' ∷ b'm' ∷ b'e' ∷ b's' ∷ b's'
    ∷ b'a' ∷ b'g' ∷ b'e' ∷ b'"' ∷ b':' ∷ b'"' ∷ b'r' ∷ b'e' ∷ b's' ∷ b'p' ∷ b'o' ∷ b'n' ∷ b's'
    ∷ b'e' ∷ b' ' ∷ b'c' ∷ b'o' ∷ b'u' ∷ b'l' ∷ b'd' ∷ b' ' ∷ b'n' ∷ b'o' ∷ b't' ∷ b' ' ∷ b'b'
    ∷ b'e' ∷ b' ' ∷ b'e' ∷ b'n' ∷ b'c' ∷ b'o' ∷ b'd' ∷ b'e' ∷ b'd' ∷ b'"' ∷ b'}' ∷ b'}' ∷ []

module _ (encode : Payload → Result Text Text) (version : Text) where
  abbrev pub build : ℕ → Text → Response
  build status bytes = record { status = status; allow = none; body = bytes }

  abbrev pub built : ℕ → Result Text Text → Response
  built status (ok bytes) = build status bytes
  built status (err e) = build 500 encoding_failed

  unfoldable pub json : ℕ → Payload → Response
  json status payload = built status (encode payload)

  unfoldable pub runtime_info : RuntimeInfo
  runtime_info = record {
    protocol = current;
    runtime = record { name = runtime_name; version = version };
  }

  unfoldable pub method_not_allowed : Response
  unfolding json
  method_not_allowed =
      record (json 405 (error_body (record { code = not_allowed_code; message = get_only }))) {
        allow = some get;
      }

  abbrev pub on_get : Method → Response → Response
  on_get get response = response
  on_get (other_method name) response = method_not_allowed

  unfoldable pub route : Method → Text → Response
  unfolding json runtime_info method_not_allowed text_eq
  route method path =
      if text_eq path path_health
      then on_get method (json 200 (health (record { status = healthy })))
      else if text_eq path path_runtime
      then on_get method (json 200 (info runtime_info))
      else json 404 (error_body (record { code = not_found_code; message = no_route path }))

pub data ErrorKind : Type 0 where
  connection_aborted connection_reset interrupted broken_pipe another : ErrorKind

abbrev pub is_transient : ErrorKind → Bool
is_transient another = false
is_transient _ = true

-- What a round of the loop selects; `finished` is a connection that is joined.
pub data ServeEvent : Type 0 where
  asked_to_stop accepted finished : ServeEvent
  accept_failed : ErrorKind → ServeEvent

-- The connections that are open, and how the others ended. Those that are `told_to_abort` are no
-- longer in the set, and may still run until the runtime gets to their abort.
pub record Served : Type 0 where
  pub taken : ℕ
  pub running : ℕ
  pub ended : ℕ
  pub aborted : ℕ
  pub told_to_abort : ℕ

abbrev pub nothing_served : Served
nothing_served = record { taken = 0; running = 0; ended = 0; aborted = 0; told_to_abort = 0 }

abbrev pub take : Served → Served
take s = record s { taken = suc s.taken; running = suc s.running }

-- `join_next`, which gives nothing where no connection is open.
abbrev pub join_next : ℕ → Served → Served
join_next zero s = s
join_next (suc left) s = record s { running = left; ended = suc s.ended }

-- A set of tasks that is dropped tells them to abort, and waits for none.
abbrev pub drop_tasks : Served → Served
drop_tasks s = record s { running = 0; told_to_abort = s.told_to_abort + s.running }

-- `abort_all` and the joins behind it.
abbrev pub abort_all : Served → Served
abort_all s = record s { running = 0; aborted = s.aborted + s.running }

-- `drain`, given how many connections are joined before the deadline.
unfoldable pub drain_connections : ℕ → Served → Served
drain_connections zero s = abort_all s
drain_connections (suc more) s = drain_connections more (join_next s.running s)

pub data Stopped : Type 0 where
  still_serving : Stopped
  returned : Result (Unit {0}) ErrorKind → Stopped

abbrev pub on_failure : ErrorKind → Bool → Served → Served × Stopped → Served × Stopped
on_failure kind true s rest = rest
on_failure kind false s rest = (drop_tasks s, returned (err kind))

-- `serve`, for what its rounds select one after another.
unfoldable pub serve : ℕ → List ServeEvent → Served → Served × Stopped
unfolding drain_connections
serve in_time [] s = (s, still_serving)
serve in_time (asked_to_stop ∷ events) s = (drain_connections in_time s, returned (ok tt))
serve in_time (accepted ∷ events) s = serve in_time events (take s)
serve in_time (finished ∷ events) s = serve in_time events (join_next s.running s)
serve in_time (accept_failed kind ∷ events) s =
    on_failure kind (is_transient kind) s (serve in_time events s)
