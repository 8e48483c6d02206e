-- ===== src/Cancel/History.antt =====
-- cancel.rs: what holds of a request's handle over every interleaving of its holders' calls.
use mehoy_malloy_ai_runtime.Cancel.{
  RequestState, CancellationCause, cancelling, is_terminal, RequestHandle, new_handle,
  cancellation_cause, request_cancellation, completes, cancels, fails, Op, marks_running, requests,
  finishes, times_out, apply, run, reported, all_reported,
}
use mehoy_malloy_ai_runtime.Common.{
  if◌then◌else◌, ℕ, ◌≡◌, refl, ap, ◌∙◌, ◌⊎◌, inl, inr, true, false, none, some, List, [], ◌∷◌,
  arith, Bool-cases, is_some,
}

apply-terminal :
    (o : Op) (h : RequestHandle) → is_terminal h.state ≡ true → (apply o h).state ≡ h.state
unfolding apply
apply-terminal marks_running h t = ground arith
apply-terminal (requests c) h t = ground arith
apply-terminal (finishes s o) h t = ground arith
apply-terminal (times_out c) h t = refl

-- The first terminal state wins: once a request has ended, no history of calls by any holder of
-- its handle changes the state that it ended in.
pub run-terminal :
    (os : List Op) (h : RequestHandle) → is_terminal h.state ≡ true → (run os h).state ≡ h.state
unfolding run
run-terminal [] h t = refl
run-terminal (o ∷ os) h t =
    let e = apply-terminal o h t in run-terminal os (apply o h) (ap is_terminal e ∙ t) ∙ e

apply-cause :
    (o : Op) (h : RequestHandle) (c : CancellationCause)
    → cancellation_cause h ≡ some c
    → cancellation_cause (apply o h) ≡ some c
unfolding apply
apply-cause marks_running h c e = ground arith
apply-cause (requests d) h c e = ground arith
apply-cause (finishes s o) h c e = ground arith
apply-cause (times_out d) h c e = ground arith

-- The first cause wins and the signal never clears: once a request's token carries a cause, it
-- carries that cause after any history of calls.
pub run-cause :
    (os : List Op) (h : RequestHandle) (c : CancellationCause)
    → cancellation_cause h ≡ some c
    → cancellation_cause (run os h) ≡ some c
unfolding run
run-cause [] h c e = e
run-cause (o ∷ os) h c e = run-cause os (apply o h) c (apply-cause o h c e)

-- A request in the state `cancelling` has a cause.
abbrev pub IsCoherent : RequestHandle → Type 0
IsCoherent h = h.state ≡ cancelling → is_some (cancellation_cause h) ≡ true

apply-IsCoherent : (o : Op) (h : RequestHandle) → IsCoherent h → IsCoherent (apply o h)
unfolding apply
apply-IsCoherent marks_running h v = ground arith
apply-IsCoherent (requests c) h v = ground arith
apply-IsCoherent (finishes s completes) h v = ground arith
apply-IsCoherent (finishes s cancels) h v = ground arith
apply-IsCoherent (finishes s fails) h v = ground arith
apply-IsCoherent (times_out c) h v = ground arith

run-IsCoherent : (os : List Op) (h : RequestHandle) → IsCoherent h → IsCoherent (run os h)
unfolding run
run-IsCoherent [] h v = v
run-IsCoherent (o ∷ os) h v = run-IsCoherent os (apply o h) (apply-IsCoherent o h v)

-- Every request that any history of calls leaves in the state `cancelling` carries the cause for
-- which it is being stopped.
pub cancelling_has_cause :
    (id : ℕ) (os : List Op)
    → (run os (new_handle id)).state ≡ cancelling
    → is_some (cancellation_cause (run os (new_handle id))) ≡ true
unfolding new_handle
cancelling_has_cause id os = run-IsCoherent os (new_handle id) (λ e. cc)

-- `request_cancellation` answers true exactly when the request had not ended and carried no cause;
-- it then moves to `cancelling` under the cause given, and otherwise changes nothing.
pub request_cancellation_lem :
    (c : CancellationCause) (h : RequestHandle)
    → (((request_cancellation c h).1 ≡ true)
        × (is_terminal h.state ≡ false)
        × (cancellation_cause h ≡ none)
        × ((request_cancellation c h).0
            ≡ record { id = h.id; state = cancelling; token = record { signal = some c } }))
      ⊎ (((request_cancellation c h).1 ≡ false)
          × ((is_terminal h.state ≡ true) ⊎ (is_some (cancellation_cause h) ≡ true))
          × ((request_cancellation c h).0 ≡ h))
unfolding request_cancellation
request_cancellation_lem c h = ground arith

-- The state alone where it is terminal, nothing before.
abbrev pub expected_report : RequestState → List RequestState
expected_report s = if is_terminal s then s ∷ [] else []

-- A call on an open request reports the state that it ends the request in, and nothing where it
-- leaves the request open.
reported-open :
    (o : Op) (h : RequestHandle)
    → is_terminal h.state ≡ false
    → reported o h ≡ expected_report (apply o h).state
unfolding apply reported
reported-open marks_running h u = ground arith
reported-open (requests c) h u = ground arith
reported-open (finishes s completes) h u = ground arith
reported-open (finishes s cancels) h u = ground arith
reported-open (finishes s fails) h u = ground arith
reported-open (times_out c) h u = ground arith

reported-ended : (o : Op) (h : RequestHandle) → is_terminal h.state ≡ true → reported o h ≡ []
unfolding reported
reported-ended marks_running h t = refl
reported-ended (requests c) h t = refl
reported-ended (finishes s o) h t = rw t refl
reported-ended (times_out c) h t = refl

all_reported-ended :
    (os : List Op) (h : RequestHandle) → is_terminal h.state ≡ true → all_reported os h ≡ []
unfolding all_reported
all_reported-ended [] h t = refl
all_reported-ended (o ∷ os) h t =
    rw (reported-ended o h t)
      (all_reported-ended os (apply o h) (ap is_terminal (apply-terminal o h t) ∙ t))

all_reported_lem :
    (os : List Op) (h : RequestHandle)
    → is_terminal h.state ≡ false
    → all_reported os h ≡ expected_report (run os h).state
unfolding all_reported run
all_reported_lem [] h u = rw u refl
all_reported_lem (o ∷ os) h u = elim (Bool-cases (is_terminal (apply o h).state)) [
  | inl t ↦
      rw
        (reported-open o h u, t, all_reported-ended os (apply o h) t, run-terminal os (apply o h) t)
        (rw t refl)
  | inr f ↦ rw (reported-open o h u, f) (all_reported_lem os (apply o h) f)
]

-- A request reports exactly one outcome, and it is the one it ends in: over any history of calls on a
-- new handle, the outcomes that the calls of `finish` answer to have recorded are the final state
-- alone if the request has ended, and none as long as it has not.
pub one_outcome :
    (id : ℕ) (os : List Op)
    → all_reported os (new_handle id) ≡ expected_report (run os (new_handle id)).state
unfolding new_handle
one_outcome id os = all_reported_lem os (new_handle id) refl
