-- ===== src/Cancel.antt =====
-- crates/mehoy-core/src/cancel.rs: why a request stops, where it has got to, the one-way token and
-- the handle that every holder of a request shares. A method that mutates returns the new value.
-- The watch channel of the token holds `Option CancellationCause`; the mutex makes each method one
-- step, so a shared handle is the run of a list of steps (`Op`) of whoever holds a clone.
pub mod History
mod Tests
use mehoy_malloy_ai_runtime.Common.{
  ℕ, Bool, true, false, Option, none, some, List, [], ◌∷◌, ◌++◌, if◌then◌else◌, is_some,
}

pub data CancellationCause : Type 0 where
  user stream_idle_timeout consumer_gone instance_unloading : CancellationCause

pub data RequestState : Type 0 where
  starting running cancelling completed cancelled failed : RequestState

abbrev pub is_terminal : RequestState → Bool
is_terminal completed = true
is_terminal cancelled = true
is_terminal failed = true
is_terminal _ = false

abbrev pub is_starting : RequestState → Bool
is_starting starting = true
is_starting _ = false

pub record CancellationToken : Type 0 where
  pub signal : Option CancellationCause

unfoldable pub new_token : CancellationToken
new_token = record { signal = none }

-- `CancellationToken::cancel`: the first cause wins; the flag says whether this call claimed it.
unfoldable pub cancel : CancellationCause → CancellationToken → CancellationToken × Bool
cancel c t = elim t.signal [ none ↦ (record { signal = some c }, true) | some d ↦ (t, false) ]

unfoldable pub is_cancelled : CancellationToken → Bool
is_cancelled t = is_some t.signal

pub record RequestHandle : Type 0 where
  pub id : ℕ
  pub state : RequestState
  pub token : CancellationToken

unfoldable pub new_handle : ℕ → RequestHandle
unfolding new_token
new_handle id = record { id = id; state = starting; token = new_token }

abbrev pub cancellation_cause : RequestHandle → Option CancellationCause
cancellation_cause h = h.token.signal

unfoldable pub mark_running : RequestHandle → RequestHandle
mark_running h = if is_starting h.state then record h { state = running } else h

unfoldable pub request_cancellation : CancellationCause → RequestHandle → RequestHandle × Bool
unfolding cancel
request_cancellation c h =
    if is_terminal h.state
    then (h, false)
    else (let (t, claimed) = cancel c h.token in
        if claimed then (record h { token = t; state = cancelling }, true) else (h, false))

-- The source asserts in debug builds that the outcome is terminal.
unfoldable pub finish : RequestState → RequestHandle → RequestHandle × Bool
finish outcome h = if is_terminal h.state then (h, false) else (record h { state = outcome }, true)

pub data Outcome : RequestState → Type 0 where
  completes : Outcome completed
  cancels : Outcome cancelled
  fails : Outcome failed

-- What a holder of a clone may do. `times_out` is the token cancelled directly, past the handle, as
-- the streaming task does when the idle budget runs out.
pub data Op : Type 0 where
  marks_running : Op
  requests : CancellationCause → Op
  finishes : (s : RequestState) → Outcome s → Op
  times_out : CancellationCause → Op

unfoldable pub apply : Op → RequestHandle → RequestHandle
unfolding mark_running request_cancellation finish cancel
apply marks_running h = mark_running h
apply (requests c) h = (request_cancellation c h).0
apply (finishes s o) h = (finish s h).0
apply (times_out c) h = record h { token = (cancel c h.token).0 }

unfoldable pub run : List Op → RequestHandle → RequestHandle
unfolding apply
run [] h = h
run (o ∷ os) h = run os (apply o h)

-- The outcome that a call answers to have recorded: that of a `finish` that answers true.
unfoldable pub reported : Op → RequestHandle → List RequestState
unfolding finish
reported (finishes s o) h = if (finish s h).1 then s ∷ [] else []
reported _ h = []

-- The outcomes that the calls of a history answer to have recorded, in their order.
unfoldable pub all_reported : List Op → RequestHandle → List RequestState
unfolding apply reported
all_reported [] h = []
all_reported (o ∷ os) h = reported o h ++ all_reported os (apply o h)
