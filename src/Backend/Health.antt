-- ===== src/Backend/Health.antt =====
-- crates/mehoy-backend-llama/src/health.rs: what a backend's status says during its startup, and
-- whether it takes the runtime's credential. What the network does is an argument, with the text of
-- an error; `none` is a budget that ran out.
use mehoy_malloy_ai_runtime.Common.{
  ℕ, ◌≤◌, ◌<◌, String, ◌≡◌, refl, ◌↔◌, ◌⊎◌, inl, inr, Bool, true, false, ◌||◌, ◌&&◌, leb, ltb,
  Option, none, some, arith, ◌==◌, if◌then◌else◌, Result, ok, err, ◌>>=◌,
}
use mehoy_malloy_ai_runtime.Common.Text.{Text}
use mehoy_malloy_ai_runtime.Generate.{is_success}

pub data Readiness : Type 0 where
  backend_ready inference_verified : Readiness

pub data CredentialState : Type 0 where
  accepted : CredentialState
  refused : (status : ℕ) → CredentialState

pub data StartupPhase : Type 0 where
  waiting_for_endpoint loading_model backend_is_ready : StartupPhase

abbrev pub phase_text : StartupPhase → String
phase_text waiting_for_endpoint = "waiting for endpoint"
phase_text loading_model = "loading model"
phase_text backend_is_ready = "backend ready"

pub data HealthError : Type 0 where
  rejected : (status : ℕ) → HealthError
  transport : (detail : Text) → HealthError
  timed_out : (what : String) → HealthError

-- What the steps of `status_of` answer.
pub record StatusExchange : Type 0 where
  pub connects : Result (Unit {0}) Text
  pub shakes_hands : Result (Unit {0}) Text
  pub builds : Result (Unit {0}) Text
  pub responds : Result ℕ Text

abbrev pub carried {ℓ} : {A : Type ℓ} → Result A Text → Result A HealthError
carried (ok a) = ok a
carried (err e) = err (transport e)

unfoldable pub status_of : StatusExchange → Result ℕ HealthError
status_of x = do
  _ ← carried x.connects
  _ ← carried x.shakes_hands
  _ ← carried x.builds
  carried x.responds

unfoldable pub phase_for_status : ℕ → Result StartupPhase HealthError
phase_for_status status =
    if status == 200
    then ok backend_is_ready
    else if status == 503
    then ok loading_model
    else if status == 401 || status == 403
    then err (rejected status)
    else ok loading_model

-- `request`: the status of the health path.
unfoldable pub request_phase : StatusExchange → Result StartupPhase HealthError
unfolding phase_for_status status_of
request_phase x = do status ← status_of x; phase_for_status status

-- Not listening yet, and no answer in time, are the normal early state.
abbrev pub early : Result StartupPhase HealthError → Result StartupPhase HealthError
early (err (transport detail)) = ok waiting_for_endpoint
early other = other

unfoldable pub probe : Option StatusExchange → Result StartupPhase HealthError
unfolding request_phase
probe none = ok waiting_for_endpoint
probe (some x) = early (request_phase x)

abbrev pub in_time : String → Option StatusExchange → Result ℕ HealthError
in_time what none = err (timed_out what)
in_time what (some x) = status_of x

unfoldable pub probe_credential : Option StatusExchange → Result CredentialState HealthError
unfolding status_of
probe_credential x = do
  status ← in_time "credential check timed out" x
  ok (if is_success status then accepted else refused status)

unfoldable pub status_without_credential : Option StatusExchange → Result ℕ HealthError
unfolding status_of
status_without_credential x = in_time "request timed out" x

-- The status that was answered in time, if one was.
abbrev status_in : Result ℕ HealthError → Option ℕ
status_in (ok n) = some n
status_in (err e) = none

abbrev pub reported : Option StatusExchange → Option ℕ
reported none = none
reported (some x) = status_in (status_of x)

status_of_cases :
    (x : StatusExchange)
    → ((n : ℕ) × (status_of x ≡ ok n)) ⊎ ((t : Text) × (status_of x ≡ err (transport t)))
unfolding status_of
status_of_cases x = cases x.connects x.shakes_hands x.builds x.responds
  where
    cases :
        (a b c : Result (Unit {0}) Text) (d : Result ℕ Text)
        → let r : Result ℕ HealthError = do _ ← carried a; _ ← carried b; _ ← carried c; carried d
          in ((n : ℕ) × (r ≡ ok n)) ⊎ ((t : Text) × (r ≡ err (transport t)))
    cases (err t) b c d = inr (t, refl)
    cases (ok _) (err t) c d = inr (t, refl)
    cases (ok _) (ok _) (err t) d = inr (t, refl)
    cases (ok _) (ok _) (ok _) (err t) = inr (t, refl)
    cases (ok _) (ok _) (ok _) (ok n) = inl (n, refl)

-- A probe of the health path says ready exactly for an answer 200 in time, and fails exactly for an
-- answer 401 or 403 in time; whatever else the network or the backend does, the wait goes on.
pub probe_iff :
    (x : Option StatusExchange) (e : HealthError)
    → ((probe x ≡ ok backend_is_ready) ↔ (reported x ≡ some 200))
      × ((probe x ≡ err e) ↔ (
          ((reported x ≡ some 401) × (e ≡ rejected 401))
          ⊎ ((reported x ≡ some 403) × (e ≡ rejected 403))))
unfolding probe request_phase phase_for_status
probe_iff none e = ground arith
probe_iff (some x) e = elim (status_of_cases x) [
  | inl (n, h) ↦ rw h (ground arith)
  | inr (t, h) ↦ rw h (ground arith)
]

-- Whether a status was answered, and was one of success.
abbrev pub is_accepting : Option ℕ → Bool
is_accepting none = false
is_accepting (some n) = leb 200 n && ltb n 300

-- A credential is taken to be accepted exactly where a status from 200 to 299 was answered in time,
-- and refused exactly where another was; with no status in time, neither is claimed.
pub probe_credential_iff :
    (x : Option StatusExchange) (n : ℕ)
    → ((probe_credential x ≡ ok accepted) ↔ (is_accepting (reported x) ≡ true))
      × ((probe_credential x ≡ ok (refused n)) ↔ ((reported x ≡ some n) × ((n < 200) ⊎ (300 ≤ n))))
unfolding probe_credential
probe_credential_iff none n = ground arith
probe_credential_iff (some x) n = elim (status_of_cases x) [
  | inl (m, h) ↦ rw h (ground arith)
  | inr (t, h) ↦ rw h (ground arith)
]
