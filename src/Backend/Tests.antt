-- ===== src/Backend/Tests.antt =====
-- A backend on the small system, and the theorems at it.
use mehoy_malloy_ai_runtime.Common.{
  ℕ, ◌*◌, ◌≡◌, refl, ◌↔◌, ◌⊎◌, true, false, none, some, [], ◌∷◌, arith, ◌==◌, if◌then◌else◌, ok,
  err, length,
}
use mehoy_malloy_ai_runtime.Common.Text.{Text}
use mehoy_malloy_ai_runtime.Registry.{encode_hex, digits_before}
use mehoy_malloy_ai_runtime.Worker.Process.Toy.{Process, toy, runs_obedient, short_deadlines}
use mehoy_malloy_ai_runtime.Backend.Channel.{
  ChannelSecret, generate_secret, found, FileAnswers, opened_file, wrote, create,
}
use mehoy_malloy_ai_runtime.Backend.Secrecy.{decode_hex, generate_secret_lem}
use mehoy_malloy_ai_runtime.Backend.Health.{
  StatusExchange, backend_is_ready, rejected, reported, probe, probe_iff,
}
use mehoy_malloy_ai_runtime.Backend.Identity.{parse_banner}
use mehoy_malloy_ai_runtime.Backend.Launch.{LlamaCppBackend, new_spec}
use mehoy_malloy_ai_runtime.Backend.Surroundings.{HealthRound, Surroundings}
use mehoy_malloy_ai_runtime.Backend.Running.{start}
use mehoy_malloy_ai_runtime.Backend.Starting.{Ends, start-Ends}

abbrev answers_with : ℕ → StatusExchange
answers_with status = record {
  connects = ok tt;
  shakes_hands = ok tt;
  builds = ok tt;
  responds = ok status;
}

abbrev files : FileAnswers
files = record {
  euid = 1000;
  process_id = 42;
  directory = found (record { is_symlink = false; is_dir = true; uid = 1000; mode = 0o40700 });
  made = ok tt;
  random = ok (0xab ∷ 0x01 ∷ []);
  occupied = λ path. false;
  exists = b'e' ∷ [];
  opened = ok tt;
  written = ok tt;
  flushed = ok tt;
}

-- It loads at first and is ready at the second look.
abbrev rounds : ℕ → HealthRound
rounds call = record {
  exchange = some (answers_with (if call == 0 then 503 else 200));
  took = 3;
  overslept = 0;
}

abbrev pub around : ℕ → Surroundings Process
around credential = record {
  version = ok (record { on_stderr = []; on_stdout = [] });
  bound = ok (record { a = 127; b = 0; c = 0; d = 1; port = 8080 });
  random = ok (0xff ∷ 0x00 ∷ []);
  files = files;
  temp_dir = b'/' ∷ b't' ∷ [];
  run = runs_obedient;
  os = toy;
  injected_at_startup = none;
  injected_at_shutdown = none;
  waited = 0;
  health = rounds;
  credential = some (answers_with credential);
  printed = record { capacity = 512; lines = []; total = 0 };
  display = λ path. path;
  shows = λ e. [];
}

abbrev pub llama : LlamaCppBackend
llama = record { executable = b'/' ∷ b'l' ∷ [] }

start-Ends_example :
    Ends
      (around 401)
      (start (around 401) llama 5 (record (new_spec (b'm' ∷ [])) { deadlines = short_deadlines }))
start-Ends_example =
    start-Ends (around 401) llama 5 (record (new_spec (b'm' ∷ [])) { deadlines = short_deadlines })

abbrev secret : ChannelSecret
secret = record { text = b'0' ∷ b'f' ∷ [] }

secret_file_written :
    (create files (b'/' ∷ b'd' ∷ []) secret).0
    ≡ opened_file
        (b'/' ∷ b'd' ∷ b'/' ∷ b'b' ∷ b'a' ∷ b'c' ∷ b'k' ∷ b'e' ∷ b'n' ∷ b'd' ∷ b'-' ∷ b'4' ∷ b'2'
          ∷ b'-' ∷ b'a' ∷ b'b' ∷ b'0' ∷ b'1' ∷ b'.' ∷ b'k' ∷ b'e' ∷ b'y' ∷ [])
        (record { write = true; create_new = true; mode = 0o600 })
      ∷ wrote
          (b'/' ∷ b'd' ∷ b'/' ∷ b'b' ∷ b'a' ∷ b'c' ∷ b'k' ∷ b'e' ∷ b'n' ∷ b'd' ∷ b'-' ∷ b'4' ∷ b'2'
            ∷ b'-' ∷ b'a' ∷ b'b' ∷ b'0' ∷ b'1' ∷ b'.' ∷ b'k' ∷ b'e' ∷ b'y' ∷ [])
          (b'0' ∷ b'f' ∷ [])
      ∷ []
unfolding create digits_before
secret_file_written = refl

abbrev randomness : Text
randomness = 0xff ∷ 0x0a ∷ []

abbrev spelling : Text
spelling = b'f' ∷ b'f' ∷ b'0' ∷ b'a' ∷ []

generate_secret_lem_example :
    (length spelling ≡ 2 * length randomness) × (decode_hex spelling ≡ randomness)
unfolding generate_secret encode_hex
generate_secret_lem_example =
    generate_secret_lem randomness (record { text = spelling }) (omega arith, (omega arith, tt))
      refl

probe_iff_example :
    ((probe (some (answers_with 401)) ≡ ok backend_is_ready)
      ↔ (reported (some (answers_with 401)) ≡ some 200))
    × ((probe (some (answers_with 401)) ≡ err (rejected 401)) ↔ (
        ((reported (some (answers_with 401)) ≡ some 401) × (rejected 401 ≡ rejected 401))
        ⊎ ((reported (some (answers_with 401)) ≡ some 403) × (rejected 401 ≡ rejected 403))))
probe_iff_example = probe_iff (some (answers_with 401)) (rejected 401)

-- `version: 9010 (d05)`.
abbrev banner : Text
banner =
    b'v' ∷ b'e' ∷ b'r' ∷ b's' ∷ b'i' ∷ b'o' ∷ b'n' ∷ b':' ∷ b' ' ∷ b'9' ∷ b'0' ∷ b'1' ∷ b'0' ∷ b' '
    ∷ b'(' ∷ b'd' ∷ b'0' ∷ b'5' ∷ b')' ∷ b'\n' ∷ []

build_named : (parse_banner [] banner).build ≡ some (b'9' ∷ b'0' ∷ b'1' ∷ b'0' ∷ [])
unfolding parse_banner
build_named = refl

commit_named : (parse_banner [] banner).commit ≡ some (b'd' ∷ b'0' ∷ b'5' ∷ [])
unfolding parse_banner
commit_named = refl
