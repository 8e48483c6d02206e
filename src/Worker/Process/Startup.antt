-- ===== src/Worker/Process/Startup.antt =====
-- process.rs, `wait_ready_with` and `wait_ready`: a worker is polled until it is ready, has exited, or
-- its deadline is over. The answers of a probe are indexed by the number of its call.
use mehoy_malloy_ai_runtime.Common.{
  ℕ, zero, suc, ◌+◌, max, ◌/◌, Option, none, some, List, [], ◌∷◌, leb, if◌then◌else◌, Result, ok,
  err,
}
use mehoy_malloy_ai_runtime.Common.Text.{Text, starts_with}
use mehoy_malloy_ai_runtime.Common.Spaces.{trim_start}
use mehoy_malloy_ai_runtime.Worker.{ready, failed, LogLine}
use mehoy_malloy_ai_runtime.Worker.Process.{
  WorkerReady, ProbeOutcome, not_yet, probed_ready, ExitStatus, IoError, no_process, WorkerError,
  startup_timeout, exited_during_startup, io, Os, WorkerHandle, Answer, with_child, move,
}
use mehoy_malloy_ai_runtime.Worker.Process.Stopping.{terminate}

abbrev pub probe_interval : ℕ
probe_interval = 50

-- One call of the probe: its answer, how long it takes, and how much longer than asked the sleep
-- after it is.
pub record Poll : Type 0 where
  pub answer : Result ProbeOutcome WorkerError
  pub took : ℕ
  pub overslept : ℕ

pub data Startup : Type 0 where
  answered : (answer : Result WorkerReady WorkerError) → Startup
  elapsed : Startup

-- Every round sleeps for the interval at least, so a deadline has this many.
abbrev pub rounds_within : ℕ → ℕ
rounds_within budget = suc (budget / probe_interval)

module _ {Child : Type 0} where
  abbrev pub after_probe :
      Child → Result ProbeOutcome WorkerError → Child × Startup → Child × Startup
  after_probe c (err e) next = (c, answered (err e))
  after_probe c (ok (probed_ready report)) next = (c, answered (ok report))
  after_probe c (ok not_yet) next = next

  abbrev pub after_look :
      Child × Result (Option ExitStatus) IoError → (Child → Child × Startup) → Child × Startup
  after_look (c, err e) next = (c, answered (err (io e)))
  after_look (c, ok (some status)) next = (c, answered (err (exited_during_startup status.code)))
  after_look (c, ok none) next = next c

  -- What a deadline lets happen by the time `now`.
  abbrev pub by_deadline : ℕ → ℕ → Child → Child × Startup → Child × Startup
  by_deadline budget now c next = if leb now budget then next else (c, elapsed)

  -- The loop inside the deadline `budget`: the number of rounds it may still have, the number of the
  -- next call of the probe, and the time since the wait began.
  unfoldable pub startup_loop : Os Child → ℕ → (ℕ → Poll) → ℕ → ℕ → ℕ → Child → Child × Startup
  startup_loop os budget probe zero call now c = (c, elapsed)
  startup_loop os budget probe (suc rounds) call now c =
      let rest : ℕ → Child → Child × Startup = startup_loop os budget probe rounds (suc call) in
      after_look (os.try_wait c) (λ c'.
        let later : ℕ = now + (probe call).took in
        let woken : ℕ = later + (probe_interval + (probe call).overslept) in
        by_deadline budget later c'
          (after_probe c' (probe call).answer (by_deadline budget woken c' (rest woken c'))))

  -- What the end of the wait makes of the handle; `waited` is the time since it began.
  unfoldable pub conclude_startup :
      Os Child → Option IoError → ℕ → WorkerHandle Child → Startup → Answer Child WorkerReady
  unfolding terminate
  conclude_startup os injected waited h (answered (ok report)) =
      move ready h (λ h'. (h', ok report))
  conclude_startup os injected waited h (answered (err e)) = move failed h (λ h'. (h', err e))
  conclude_startup os injected waited h elapsed =
      move failed h (λ h'.
        ((terminate os injected h').0, err (startup_timeout (max waited h.deadlines.startup))))

  unfoldable pub wait_ready_with :
      Os Child → Option IoError → ℕ → (ℕ → Poll) → WorkerHandle Child → Answer Child WorkerReady
  unfolding startup_loop conclude_startup
  wait_ready_with os injected waited probe h = elim h.child [
    | none ↦ (h, err (io no_process))
    | some c ↦
        let budget : ℕ = h.deadlines.startup in
        let (c', outcome) = startup_loop os budget probe (rounds_within budget) 0 0 c in
        conclude_startup os injected waited (with_child (some c') h) outcome
  ]

-- An entry of the live feed: a line, or a gap where the receiver fell behind.
pub data FeedEntry : Type 0 where
  line_fed : (line : LogLine) → FeedEntry
  lagged : FeedEntry

abbrev pub ready_marker : Text
ready_marker =
    b'M' ∷ b'E' ∷ b'H' ∷ b'O' ∷ b'Y' ∷ b'-' ∷ b'W' ∷ b'O' ∷ b'R' ∷ b'K' ∷ b'E' ∷ b'R' ∷ b'-' ∷ b'R'
    ∷ b'E' ∷ b'A' ∷ b'D' ∷ b'Y' ∷ []

unfoldable pub scan_feed : List FeedEntry → ProbeOutcome
scan_feed [] = not_yet
scan_feed (lagged ∷ feed) = scan_feed feed
scan_feed (line_fed line ∷ feed) =
    let rest : ProbeOutcome = scan_feed feed in
    if starts_with ready_marker (trim_start line.text)
    then probed_ready (record { announcement = line.text })
    else rest

-- `wait_ready`: the probe looks through what stands in the feed at its call.
unfoldable pub wait_ready :
    {Child : Type 0}
    → Os Child
    → Option IoError
    → ℕ
    → (ℕ → List FeedEntry)
    → (ℕ → ℕ)
    → WorkerHandle Child
    → Answer Child WorkerReady
unfolding scan_feed wait_ready_with
wait_ready os injected waited feed overslept h =
    wait_ready_with os injected waited
      (λ call. record { answer = ok (scan_feed (feed call)); took = 0; overslept = overslept call })
      h
