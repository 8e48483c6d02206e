-- ===== src/Worker/Process/Polling.antt =====
-- process.rs, `wait_ready_with`: the rounds of its loop, and what its answer says of the probe.
use mehoy_malloy_ai_runtime.Common.{
  ℕ, zero, suc, ◌+◌, ◌*◌, ◌≤◌, ◌<◌, max, ◌≡◌, refl, sym, ap, ◌∙◌, ◌⊎◌, inl, inr, true, Option, none,
  some, arith, is_some, leb, Result, ok, err, Bool-cases, leb→le,
}
use mehoy_malloy_ai_runtime.Worker.{starting, ready, failed, can_transition_to, transition_to}
use mehoy_malloy_ai_runtime.Worker.Process.{
  WorkerReady, ProbeOutcome, not_yet, probed_ready, ExitStatus, IoError, WorkerError,
  startup_timeout, exited_during_startup, io, Os, WorkerHandle, Answer, with_child, in_state,
}
use mehoy_malloy_ai_runtime.Worker.Process.Stopping.{kill}
use mehoy_malloy_ai_runtime.Worker.Process.Startup.{
  probe_interval, Poll, Startup, answered, elapsed, after_probe, after_look, by_deadline,
  startup_loop, conclude_startup, rounds_within, wait_ready_with,
}
use mehoy_malloy_ai_runtime.Worker.Process.Ending.{terminate_cases, terminate_keeps}

module _ {Child : Type 0} (os : Os Child) (budget : ℕ) (probe : ℕ → Poll) where
  look_same :
      (seen : Child × Result (Option ExitStatus) IoError) (f g : Child → Child × Startup)
      → ((c : Child) → f c ≡ g c)
      → after_look seen f ≡ after_look seen g
  look_same (c, err e) f g h = refl
  look_same (c, ok none) f g h = h c
  look_same (c, ok (some status)) f g h = refl

  probe_same :
      (c : Child) (answer : Result ProbeOutcome WorkerError) (f g : Child × Startup)
      → f ≡ g
      → after_probe c answer f ≡ after_probe c answer g
  probe_same c (err e) f g h = refl
  probe_same c (ok (probed_ready report)) f g h = refl
  probe_same c (ok not_yet) f g h = h

  deadline_same :
      (now : ℕ) (c : Child) (f g : Child × Startup)
      → (now ≤ budget → f ≡ g)
      → by_deadline budget now c f ≡ by_deadline budget now c g
  deadline_same now c f g h = elim (Bool-cases (leb now budget)) [
    | inl within ↦ rw within (h (leb→le now budget within))
    | inr over ↦ rw over refl
  ]

  -- A loop that may have as many rounds as its deadline has sleeps is not ended by its rounds: any
  -- other such number gives the same.
  pub startup_loop-rounds :
      (rounds others call now : ℕ) (c : Child)
      → now ≤ budget
      → budget < now + rounds * 50
      → budget < now + others * 50
      → startup_loop os budget probe rounds call now c
        ≡ startup_loop os budget probe others call now c
  unfolding startup_loop
  startup_loop-rounds zero others call now c within enough also = absurd (omega arith)
  startup_loop-rounds (suc rounds) zero call now c within enough also = absurd (omega arith)
  startup_loop-rounds (suc rounds) (suc others) call now c within enough also =
      let later : ℕ = now + (probe call).took in
      let woken : ℕ = later + (probe_interval + (probe call).overslept) in
      look_same (os.try_wait c) _ _ (λ c'. deadline_same later c' _ _ (λ _.
        probe_same c' (probe call).answer _ _ (
          deadline_same woken c' _ _ (λ in_time.
            startup_loop-rounds rounds others (suc call) woken c' in_time (omega arith)
              (omega arith)))))

  -- From the call `call` on, the first answer of the probe that is not "not yet" is the report.
  abbrev pub IsFirstReady : ℕ → WorkerReady → Type 0
  IsFirstReady call report =
      (n : ℕ) × ((i : ℕ) → i < n → (probe (call + i)).answer ≡ ok not_yet)
      × ((probe (call + n)).answer ≡ ok (probed_ready report))

  look_ready :
      (seen : Child × Result (Option ExitStatus) IoError) (f : Child → Child × Startup) {c' : Child}
      {report : WorkerReady}
      → after_look seen f ≡ (c', answered (ok report))
      → (c : Child) × (seen.1 ≡ ok none) × (f c ≡ (c', answered (ok report)))
  look_ready (c, err e) f h = cc
  look_ready (c, ok none) f h = (c, refl, h)
  look_ready (c, ok (some status)) f h = cc

  deadline_ready :
      (now : ℕ) (c : Child) (f : Child × Startup) {c' : Child}
      {answer : Result WorkerReady WorkerError}
      → by_deadline budget now c f ≡ (c', answered answer)
      → f ≡ (c', answered answer)
  deadline_ready now c f h = ground arith

  probe_ready :
      (c : Child) (answer : Result ProbeOutcome WorkerError) (f : Child × Startup) {c' : Child}
      {report : WorkerReady}
      → after_probe c answer f ≡ (c', answered (ok report))
      → (answer ≡ ok (probed_ready report))
        ⊎ ((answer ≡ ok not_yet) × (f ≡ (c', answered (ok report))))
  probe_ready c (err e) f h = cc
  probe_ready c (ok (probed_ready other)) f h = inl cc
  probe_ready c (ok not_yet) f h = inr (refl, h)

  first_now :
      (call : ℕ) (report : WorkerReady)
      → (probe call).answer ≡ ok (probed_ready report)
      → IsFirstReady call report
  first_now call report h =
      (0, λ i lt. absurd (omega arith), ap (λ k. (probe k).answer) (omega arith) ∙ h)

  first_later :
      (call : ℕ) (report : WorkerReady)
      → (probe call).answer ≡ ok not_yet
      → IsFirstReady (suc call) report
      → IsFirstReady call report
  first_later call report h (n, before, last) =
      (suc n, earlier, ap (λ k. (probe k).answer) (omega arith) ∙ last)
    where
      earlier : (i : ℕ) → i < suc n → (probe (call + i)).answer ≡ ok not_yet
      earlier zero lt = ap (λ k. (probe k).answer) (omega arith) ∙ h
      earlier (suc i) lt = ap (λ k. (probe k).answer) (omega arith) ∙ before i (omega arith)

  pub startup_loop-IsFirstReady :
      (rounds call now : ℕ) (c : Child) {c' : Child} {report : WorkerReady}
      → startup_loop os budget probe rounds call now c ≡ (c', answered (ok report))
      → IsFirstReady call report
  unfolding startup_loop
  startup_loop-IsFirstReady zero call now c h = cc
  startup_loop-IsFirstReady (suc rounds) call now c {c'} {report} h =
      let (c1, _, looked) = look_ready (os.try_wait c) _ h in
      let in_time = deadline_ready _ c1 _ looked in
      elim (probe_ready c1 (probe call).answer _ in_time) [
        | inl said ↦ first_now call report said
        | inr (waits, slept) ↦
            first_later call report waits
              (startup_loop-IsFirstReady rounds (suc call) _ c1 (deadline_ready _ c1 _ slept))
      ]

  -- What can end the wait early: the worker has exited, the system refuses to say whether it has, or
  -- the probe answers an error.
  abbrev pub IsCause : WorkerError → Type 0
  IsCause e =
      ((c : Child) × (status : ExitStatus) × ((os.try_wait c).1 ≡ ok (some status))
        × (e ≡ exited_during_startup status.code))
      ⊎ ((c : Child) × (x : IoError) × ((os.try_wait c).1 ≡ err x) × (e ≡ io x))
      ⊎ ((n : ℕ) × ((probe n).answer ≡ err e))

  err_same :
      {c c' : Child} {e e' : WorkerError}
      → ◌≡◌ {A = Child × Startup} (c, answered (err e)) (c', answered (err e'))
      → e' ≡ e
  err_same h = cc

  look_error :
      (c : Child) (seen : Child × Result (Option ExitStatus) IoError) (f : Child → Child × Startup)
      {c' : Child} {e : WorkerError}
      → os.try_wait c ≡ seen
      → after_look seen f ≡ (c', answered (err e))
      → IsCause e ⊎ ((c1 : Child) × (f c1 ≡ (c', answered (err e))))
  look_error c (c1, err x) f said h = inl (inr (inl (c, x, ap (λ r. r.1) said, err_same h)))
  look_error c (c1, ok none) f said h = inr (c1, h)
  look_error c (c1, ok (some status)) f said h =
      inl (inl (c, status, ap (λ r. r.1) said, err_same h))

  probe_error :
      (call : ℕ) (c : Child) (answer : Result ProbeOutcome WorkerError) (f : Child × Startup)
      {c' : Child} {e : WorkerError}
      → (probe call).answer ≡ answer
      → after_probe c answer f ≡ (c', answered (err e))
      → IsCause e ⊎ (f ≡ (c', answered (err e)))
  probe_error call c (err x) f {c'} {e} said h =
      inl (inr (inr (call, said ∙ ap err (sym (err_same h)))))
  probe_error call c (ok (probed_ready report)) f said h = cc
  probe_error call c (ok not_yet) f said h = inr h

  pub startup_loop-IsCause :
      (rounds call now : ℕ) (c : Child) {c' : Child} {e : WorkerError}
      → startup_loop os budget probe rounds call now c ≡ (c', answered (err e))
      → IsCause e
  unfolding startup_loop
  startup_loop-IsCause zero call now c h = cc
  startup_loop-IsCause (suc rounds) call now c h = elim (look_error c (os.try_wait c) _ refl h) [
    | inl cause ↦ cause
    | inr (c1, looked) ↦
        elim (probe_error call c1 (probe call).answer _ refl (deadline_ready _ c1 _ looked)) [
          | inl cause ↦ cause
          | inr slept ↦ startup_loop-IsCause rounds (suc call) _ c1 (deadline_ready _ c1 _ slept)
        ]
  ]

module _ {Child : Type 0} (os : Os Child) (injected : Option IoError) (waited : ℕ) where
  -- How a wait for readiness ends, for what its loop leaves and gives, in the order of the code:
  -- ready, for the first report of the probe; failed, with the process kept, because the worker has
  -- exited or because the system or the probe answered an error; failed, and terminated, because the
  -- deadline is over.
  abbrev pub StartsAs : (ℕ → Poll) → ℕ → Child × Startup → Answer Child WorkerReady → Type 0
  StartsAs probe budget run r =
      ((report : WorkerReady) × (r.1 ≡ ok report)
        × (r.0.state ≡ ready)
        × (r.0.child ≡ some run.0)
        × IsFirstReady os budget probe 0 report)
      ⊎ ((e : WorkerError) × (r.1 ≡ err e)
          × (r.0.state ≡ failed)
          × (r.0.child ≡ some run.0)
          × (run.1 ≡ answered (err e))
          × IsCause os budget probe e)
      ⊎ ((n : ℕ) × (r.1 ≡ err (startup_timeout n))
          × (budget ≤ n)
          × (r.0.state ≡ failed)
          × ((r.0.child ≡ none) ⊎ (is_some (kill os injected run.0).1 ≡ true))
          × (run.1 ≡ elapsed))

  conclude-StartsAs :
      (probe : ℕ → Poll) (h : WorkerHandle Child) (c : Child) (outcome : Startup)
      → h.state ≡ starting
      → h.child ≡ some c
      → ((report : WorkerReady)
          → outcome ≡ answered (ok report)
          → IsFirstReady os h.deadlines.startup probe 0 report)
      → ((e : WorkerError) → outcome ≡ answered (err e) → IsCause os h.deadlines.startup probe e)
      → StartsAs probe h.deadlines.startup
          (c, outcome)
          (conclude_startup os injected waited h outcome)
  unfolding conclude_startup transition_to can_transition_to
  conclude-StartsAs probe h c (answered (ok report)) s held first cause =
      rw s (inl (report, refl, refl, held, first report refl))
  conclude-StartsAs probe h c (answered (err e)) s held first cause =
      rw s (inr (inl (e, refl, refl, held, refl, cause e refl)))
  conclude-StartsAs probe h c elapsed s held first cause =
      let budget : ℕ = h.deadlines.startup in
      let dead : WorkerHandle Child = in_state failed h in
      let (kept, _) = terminate_cases os injected dead in
      rw s (
        inr (
          inr (
            max waited budget,
            refl,
            omega arith,
            kept,
            terminate_keeps os injected dead c held,
            refl,
          )))

  -- A worker that is starting and has a process becomes ready only for a report of the probe, the
  -- first answer of it that is not "not yet"; every other end of the wait makes it failed. Where the
  -- loop ended early, the answer is its error (the worker has exited, the system refused to say, or
  -- the probe answered this error) and the process is kept; where the loop ran out of its deadline,
  -- the answer says so with a time no shorter than the deadline, and the process that the loop left
  -- is gone unless the kill of it was refused.
  pub wait_ready_with-StartsAs :
      (probe : ℕ → Poll) (h : WorkerHandle Child) (c : Child)
      → h.state ≡ starting
      → h.child ≡ some c
      → StartsAs probe h.deadlines.startup
          (startup_loop os h.deadlines.startup probe (rounds_within h.deadlines.startup) 0 0 c)
          (wait_ready_with os injected waited probe h)
  unfolding wait_ready_with
  wait_ready_with-StartsAs probe h c s held =
      let budget : ℕ = h.deadlines.startup in
      let run = startup_loop os budget probe (rounds_within budget) 0 0 c in
      rw held (
        conclude-StartsAs probe (with_child (some run.0) h) run.0 run.1 s refl
          (λ report e.
            startup_loop-IsFirstReady os budget probe (rounds_within budget) 0 0 c
              (ap (λ o. (run.0, o)) e))
          (λ e' e.
            startup_loop-IsCause os budget probe (rounds_within budget) 0 0 c
              (ap (λ o. (run.0, o)) e)))

  -- The rounds that the wait allows itself are enough: it is ended by its deadline, never by them, for
  -- any greater number of rounds gives the same.
  pub wait_ready_with-rounds :
      (probe : ℕ → Poll) (h : WorkerHandle Child) (c : Child) (rounds : ℕ)
      → rounds_within h.deadlines.startup ≤ rounds
      → startup_loop os h.deadlines.startup probe rounds 0 0 c
        ≡ startup_loop os h.deadlines.startup probe (rounds_within h.deadlines.startup) 0 0 c
  wait_ready_with-rounds probe h c rounds more =
      startup_loop-rounds os h.deadlines.startup probe rounds (rounds_within h.deadlines.startup) 0
        0 c (omega arith) (omega arith) (omega arith)
