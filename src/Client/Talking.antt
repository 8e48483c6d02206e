-- ===== src/Client/Talking.antt =====
-- What a client understands of what the daemon answers it.
use mehoy_malloy_ai_runtime.Common.{◌≡◌, refl, true, false, Option, some, Result, ok, err, arith}
use mehoy_malloy_ai_runtime.Common.Text.{Text, text_eq}
use mehoy_malloy_ai_runtime.Protocol.{
  ProtocolVersion, current, is_compatible_with, RuntimeInfo, healthy, Health, ErrorBody,
  path_health, path_runtime,
}
use mehoy_malloy_ai_runtime.Daemon.{
  get, Payload, health, info, error_body, no_route, not_found_code, json, route, runtime_info,
}
use mehoy_malloy_ai_runtime.Client.{daemon, Conversation, raw_get, get_health, get_runtime}

-- A client can talk to the daemons of its major version whose minor version is no less: an order on
-- versions, so that a client that can talk to a daemon can talk to every daemon that the clients of
-- that daemon's version can talk to.
pub is_compatible_with_lem :
    (a b c : ProtocolVersion)
    → (is_compatible_with a a ≡ true)
      × (is_compatible_with a b ≡ true
          → is_compatible_with b c ≡ true
          → is_compatible_with a c ≡ true)
      × (is_compatible_with a b ≡ true → is_compatible_with b a ≡ true → a ≡ b)
unfolding is_compatible_with
is_compatible_with_lem a b c = ground arith

-- A conversation in which the daemon answers and nothing fails. `path_of` is `Uri::path`, by which
-- the daemon routes: it leaves out the query of the text that the client sent.
abbrev pub spoken : (Text → Text) → (Payload → Result Text Text) → Text → Conversation
spoken path_of encode version = record {
  connects = ok tt;
  shakes_hands = ok tt;
  builds = ok tt;
  responds = λ uri. ok (route encode version get (path_of uri));
  collects = λ response. ok response.body;
}

-- What serde promises: whatever is encoded is parsed again, and these values are.
pub record IsFaithful (encode : Payload → Result Text Text)
    (parse_health : Text → Result Health Text) (parse_info : Text → Result RuntimeInfo Text)
    (parse_error : Text → Option ErrorBody) : Type 0 where
  pub health_read :
      (h : Health) → (bytes : Text) × (encode (health h) ≡ ok bytes) × (parse_health bytes ≡ ok h)
  pub info_read :
      (i : RuntimeInfo) → (bytes : Text) × (encode (info i) ≡ ok bytes) × (parse_info bytes ≡ ok i)
  pub error_read :
      (e : ErrorBody)
      → (bytes : Text) × (encode (error_body e) ≡ ok bytes) × (parse_error bytes ≡ some e)

module _ (path_of : Text → Text) (encode : Payload → Result Text Text) (version : Text)
    (parse_health : Text → Result Health Text) (parse_info : Text → Result RuntimeInfo Text)
    (parse_error : Text → Option ErrorBody) (from_utf8_lossy : Text → Text) where
  route_health :
      route encode version get path_health
      ≡ json encode version 200 (health (record { status = healthy }))
  unfolding route text_eq
  route_health = refl

  route_runtime :
      route encode version get path_runtime
      ≡ json encode version 200 (info (runtime_info encode version))
  unfolding route text_eq
  route_runtime = refl

  route_other :
      (path : Text)
      → text_eq path path_health ≡ false
      → text_eq path path_runtime ≡ false
      → route encode version get path
        ≡ json encode version 404
            (error_body (record { code = not_found_code; message = no_route path }))
  unfolding route
  route_other path h r = rw (h, r) refl

  -- What a client of this version asks of the daemon it understands, where nothing fails between
  -- the two, serde reads back what it wrote, and the two paths that the client asks for are their own
  -- paths as URIs: the health that the daemon reports, the daemon's name and version with a protocol
  -- that the client can talk, and, of every text whose path as a URI is neither of the two, that
  -- there is no route for that path.
  pub client-understands :
      IsFaithful encode parse_health parse_info parse_error
      → path_of path_health ≡ path_health
      → path_of path_runtime ≡ path_runtime
      → (get_health parse_error from_utf8_lossy parse_health (spoken path_of encode version)
          ≡ ok (record { status = healthy }))
        × (get_runtime parse_error from_utf8_lossy parse_info (spoken path_of encode version)
            ≡ ok (runtime_info encode version))
        × (is_compatible_with current (runtime_info encode version).protocol ≡ true)
        × ((uri : Text)
            → text_eq (path_of uri) path_health ≡ false
            → text_eq (path_of uri) path_runtime ≡ false
            → raw_get parse_error from_utf8_lossy (spoken path_of encode version) uri
              ≡ err (daemon 404 not_found_code (no_route (path_of uri))))
  unfolding get_health get_runtime raw_get json runtime_info is_compatible_with
  client-understands faithful p q = (
    (let (bytes, written, read) = faithful.health_read (record { status = healthy }) in
        rw (p, route_health, written, read) refl),
    (let (bytes, written, read) = faithful.info_read (runtime_info encode version) in
        rw (q, route_runtime, written, read) refl),
    refl,
    λ uri h r.
        let e : ErrorBody = record { code = not_found_code; message = no_route (path_of uri) } in
        let (bytes, written, read) = faithful.error_read e in
        rw (route_other (path_of uri) h r, written, read) refl,
  )
