-- ===== src/Worker.antt =====
-- crates/mehoy-core/src/worker: the states of a supervised worker (state.rs) and the bounded record
-- of its output (log.rs). The time of a line is a number.
pub mod Record
pub mod Rendering
pub mod Process
mod Tests
use mehoy_malloy_ai_runtime.Common.{
  ℕ, ◌-◌, max, Bool, true, false, List, [], ◌∷◌, ◌++◌, ◌==◌, if◌then◌else◌, Result, ok, err, length,
  drop, keep_if,
}
use mehoy_malloy_ai_runtime.Common.Text.{Text}
use mehoy_malloy_ai_runtime.Common.Words.{u64_max, saturating_add}

pub data WorkerState : Type 0 where
  absent starting ready draining stopping failed : WorkerState

pub record WorkerStateError : Type 0 where
  pub from_state : WorkerState
  pub to_state : WorkerState

abbrev pub is_usable : WorkerState → Bool
is_usable ready = true
is_usable _ = false

abbrev pub is_terminal : WorkerState → Bool
is_terminal failed = true
is_terminal _ = false

unfoldable pub can_transition_to : WorkerState → WorkerState → Bool
can_transition_to absent starting = true
can_transition_to starting ready = true
can_transition_to starting failed = true
can_transition_to ready draining = true
can_transition_to ready failed = true
can_transition_to draining stopping = true
can_transition_to draining failed = true
can_transition_to stopping absent = true
can_transition_to stopping failed = true
can_transition_to _ _ = false

unfoldable pub transition_to : WorkerState → WorkerState → Result WorkerState WorkerStateError
transition_to s t =
    if can_transition_to s t then ok t else err (record { from_state = s; to_state = t })

pub data LogStream : Type 0 where
  stdout stderr : LogStream

pub record LogLine : Type 0 where
  pub stream : LogStream
  pub at : ℕ
  pub text : Text

abbrev pub same_stream : LogStream → LogStream → Bool
same_stream stdout stdout = true
same_stream stderr stderr = true
same_stream _ _ = false

pub record WorkerLog : Type 0 where
  pub capacity : ℕ
  pub lines : List LogLine
  pub total : ℕ

unfoldable pub with_capacity : ℕ → WorkerLog
with_capacity capacity = record { capacity = max capacity 1; lines = []; total = 0 }

unfoldable pub record_line : LogLine → WorkerLog → WorkerLog
record_line line l = record l {
  lines = (if length l.lines == l.capacity then drop 1 l.lines else l.lines) ++ line ∷ [];
  total = saturating_add l.total 1;
}

unfoldable pub lines_from : LogStream → WorkerLog → List LogLine
lines_from s l = keep_if (λ line. same_stream line.stream s) l.lines

-- `saturating_sub`, which stops at zero.
unfoldable pub dropped : WorkerLog → ℕ
dropped l = l.total - length l.lines

unfoldable pub record_all : List LogLine → WorkerLog → WorkerLog
unfolding record_line
record_all [] l = l
record_all (line ∷ lines) l = record_all lines (record_line line l)
