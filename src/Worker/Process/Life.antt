-- ===== src/Worker/Process/Life.antt =====
-- process.rs: the calls on a worker's handle, in any order, each with what the system answers it.
use mehoy_malloy_ai_runtime.Common.{
  ℕ, ◌≡◌, refl, sym, ap, ◌∙◌, ◌≢◌, ◌⊎◌, inl, inr, true, false, Option, none, some, List, [], ◌∷◌,
  Result, ok, err, Option-cases, Bool-cases,
}
use mehoy_malloy_ai_runtime.Common.Text.{Text}
use mehoy_malloy_ai_runtime.Worker.{
  WorkerState, absent, starting, ready, draining, stopping, failed, can_transition_to,
  transition_to,
}
use mehoy_malloy_ai_runtime.Worker.Process.{
  WorkerSpec, ExitStatus, IoError, WorkerError, Os, WorkerHandle, Answer, with_child, in_state,
  move, flush_output, mark_ready, mark_failed, spawn, spawned,
}
use mehoy_malloy_ai_runtime.Worker.Process.Startup.{
  Poll, Startup, answered, elapsed, startup_loop, conclude_startup, rounds_within, wait_ready_with,
}
use mehoy_malloy_ai_runtime.Worker.Process.Stopping.{after_wait, shutdown, wait}
use mehoy_malloy_ai_runtime.Worker.Process.Ending.{
  asked_state, stopped_state, terminate_cases, shutdown_cases, shutdown_none,
}
use mehoy_malloy_ai_runtime.Worker.Process.States.{
  Reaches, Reaches-asked_state, Reaches-stopped_state,
}

absent_only : (s : WorkerState) → asked_state s ≡ absent → s ≡ absent
absent_only absent e = refl
absent_only starting e = cc
absent_only ready e = cc
absent_only draining e = cc
absent_only stopping e = cc
absent_only failed e = cc

-- A call on a handle, with what the system and the probe answer it.
pub data Call (Child : Type 0) : Type 0 where
  ready_marked failed_marked flushed : Call Child
  awaited_ready :
      (os : Os Child) (injected : Option IoError) (waited : ℕ) (probe : ℕ → Poll) → Call Child
  shut_down : (os : Os Child) (injected : Option IoError) → Call Child
  awaited : (os : Os Child) → Call Child

-- The change to the state `target`, if it is allowed from `s`, and no change otherwise.
abbrev Goes : (target s t : WorkerState) → Type 0
Goes target s t =
    ((can_transition_to s target ≡ true) × (t ≡ target))
    ⊎ ((can_transition_to s target ≡ false) × (t ≡ s))

module _ {Child : Type 0} where
  -- The changes of state that each call may make. A shutdown goes as far as `stopping`, or to
  -- `absent`, by transitions that are allowed.
  abbrev pub Moves : Call Child → (s t : WorkerState) → Type 0
  Moves ready_marked s t = Goes ready s t
  Moves failed_marked s t = Goes failed s t
  Moves flushed s t = t ≡ s
  Moves (awaited_ready os injected waited probe) s t =
      (t ≡ s)
      ⊎ ((can_transition_to s ready ≡ true) × (t ≡ ready))
      ⊎ ((can_transition_to s failed ≡ true) × (t ≡ failed))
  Moves (shut_down os injected) s t = Reaches s t × ((t ≡ asked_state s) ⊎ (t ≡ stopped_state s))
  Moves (awaited os) s t = (t ≡ s) ⊎ ((can_transition_to s failed ≡ true) × (t ≡ failed))

  -- What a call may do to a handle that was in the state `s`.
  pub record IsSound (call : Call Child) (s : WorkerState) (h : WorkerHandle Child) : Type 0 where
    pub made : Moves call s h.state
    pub tidy : h.state ≡ absent → h.child ≡ none

  pub run_call : Call Child → WorkerHandle Child → WorkerHandle Child
  run_call ready_marked h = (mark_ready h).0
  run_call failed_marked h = (mark_failed h).0
  run_call flushed h = flush_output h
  run_call (awaited_ready os injected waited probe) h =
      (wait_ready_with os injected waited probe h).0
  run_call (shut_down os injected) h = (shutdown os injected h).0
  run_call (awaited os) h = (wait os h).0

  -- Every call of a history does what it may, from where the calls before it left the handle.
  abbrev pub AreSound : List (Call Child) → WorkerHandle Child → Type 0
  AreSound [] h = Unit {0}
  AreSound (c ∷ cs) h = IsSound c h.state (run_call c h) × AreSound cs (run_call c h)

  moved :
      {A : Type 0} (Holds : WorkerHandle Child → Type 0) (target : WorkerState)
      (h : WorkerHandle Child) (next : WorkerHandle Child → Answer Child A)
      → (can_transition_to h.state target ≡ true → Holds (next (in_state target h)).0)
      → (can_transition_to h.state target ≡ false → Holds h)
      → Holds (move target h next).0
  unfolding transition_to
  moved Holds target h next after stays = elim (Bool-cases (can_transition_to h.state target)) [
    | inl can ↦ rw can (after can)
    | inr cannot ↦ rw cannot (stays cannot)
  ]

  asked_IsSound :
      (os : Os Child) (injected : Option IoError) (s : WorkerState) (h : WorkerHandle Child)
      → h.state ≡ asked_state s
      → (h.state ≡ absent → h.child ≡ none)
      → IsSound (shut_down os injected) s h
  asked_IsSound os injected s h e t = record {
    made = (rw e (Reaches-asked_state s), inl e);
    tidy = t;
  }

  gone_IsSound :
      (os : Os Child) (injected : Option IoError) (s : WorkerState) (h : WorkerHandle Child)
      → (h.state ≡ asked_state s) ⊎ (h.state ≡ stopped_state s)
      → h.child ≡ none
      → IsSound (shut_down os injected) s h
  gone_IsSound os injected s h (inl e) gone = asked_IsSound os injected s h e (λ _. gone)
  gone_IsSound os injected s h (inr e) gone = record {
    made = (rw e (Reaches-stopped_state s), inr e);
    tidy = λ _. gone;
  }

  shutdown-IsSound :
      (os : Os Child) (injected : Option IoError) (h : WorkerHandle Child)
      → (h.state ≡ absent → h.child ≡ none)
      → IsSound (shut_down os injected) h.state (shutdown os injected h).0
  shutdown-IsSound os injected h t = elim (Option-cases h.child) [
    | inl gone ↦
        let (left, e) = shutdown_none os injected h gone in
        gone_IsSound os injected h.state (shutdown os injected h).0 e left
    | inr (c, held) ↦ elim (shutdown_cases os injected h c held) [
      | inl (_, left, e) ↦ gone_IsSound os injected h.state (shutdown os injected h).0 (inr e) left
      | inr (inl (_, _, left, e)) ↦
          gone_IsSound os injected h.state (shutdown os injected h).0 (inl e) left
      | inr (inr (c', _, _, _, e)) ↦
          asked_IsSound os injected h.state (shutdown os injected h).0 e (λ is_absent.
            let was : h.state ≡ absent = absent_only h.state (sym e ∙ is_absent) in
            cc (sym held ∙ t was))
    ]
  ]

  started-IsSound :
      (os : Os Child) (injected : Option IoError) (waited : ℕ) (probe : ℕ → Poll)
      (h : WorkerHandle Child) (outcome : Startup)
      → (h.state ≡ absent → h.child ≡ none)
      → IsSound
          (awaited_ready os injected waited probe)
          h.state
          (conclude_startup os injected waited h outcome).0
  unfolding conclude_startup
  started-IsSound os injected waited probe h outcome t = go outcome
    where
      go :
          (outcome : Startup)
          → IsSound
              (awaited_ready os injected waited probe)
              h.state
              (conclude_startup os injected waited h outcome).0
      go (answered (ok report)) =
          moved (IsSound (awaited_ready os injected waited probe) h.state) ready h _
            (λ can. record { made = inr (inl (can, refl)); tidy = λ e. cc })
            (λ _. record { made = inl refl; tidy = t })
      go (answered (err error)) =
          moved (IsSound (awaited_ready os injected waited probe) h.state) failed h _
            (λ can. record { made = inr (inr (can, refl)); tidy = λ e. cc })
            (λ _. record { made = inl refl; tidy = t })
      go elapsed =
          moved (IsSound (awaited_ready os injected waited probe) h.state) failed h _
            (λ can.
              let (kept, _) = terminate_cases os injected (in_state failed h) in
              record { made = inr (inr (can, kept)); tidy = λ e. cc (sym kept ∙ e) })
            (λ _. record { made = inl refl; tidy = t })

  wait_ready_with-IsSound :
      (os : Os Child) (injected : Option IoError) (waited : ℕ) (probe : ℕ → Poll)
      (h : WorkerHandle Child)
      → (h.state ≡ absent → h.child ≡ none)
      → IsSound
          (awaited_ready os injected waited probe)
          h.state
          (wait_ready_with os injected waited probe h).0
  unfolding wait_ready_with
  wait_ready_with-IsSound os injected waited probe h t = elim (Option-cases h.child) [
    | inl gone ↦ rw gone (record { made = inl refl; tidy = λ _. refl })
    | inr (c, held) ↦
        let budget : ℕ = h.deadlines.startup in
        let run = startup_loop os budget probe (rounds_within budget) 0 0 c in
        rw held (
          started-IsSound os injected waited probe (with_child (some run.0) h) run.1
            (λ e. cc (sym held ∙ t e)))
  ]

  waited-IsSound :
      (os : Os Child) (h : WorkerHandle Child) (w : Child × Result ExitStatus IoError)
      → (h.state ≢ absent)
      → IsSound (awaited os) h.state (after_wait os h w).0
  unfolding flush_output
  waited-IsSound os h (c, err e) busy = record { made = inl refl; tidy = λ e'. absurd (busy e') }
  waited-IsSound os h (c, ok status) busy = elim (Bool-cases (can_transition_to h.state failed)) [
    | inl can ↦ rw can (
        moved (IsSound (awaited os) h.state) failed (flush_output (with_child none h)) _
          (λ c. record { made = inr (c, refl); tidy = λ _. refl })
          (λ _. record { made = inl refl; tidy = λ _. refl }))
    | inr cannot ↦ rw cannot (record { made = inl refl; tidy = λ _. refl })
  ]

  wait-IsSound :
      (os : Os Child) (h : WorkerHandle Child)
      → (h.state ≡ absent → h.child ≡ none)
      → IsSound (awaited os) h.state (wait os h).0
  unfolding wait
  wait-IsSound os h t = elim (Option-cases h.child) [
    | inl gone ↦ rw gone (record { made = inl refl; tidy = λ _. refl })
    | inr (c, held) ↦ rw held (waited-IsSound os h (os.wait c) (λ e. cc (sym held ∙ t e)))
  ]

  run_call-IsSound :
      (call : Call Child) (h : WorkerHandle Child)
      → (h.state ≡ absent → h.child ≡ none)
      → IsSound call h.state (run_call call h)
  unfolding run_call mark_ready mark_failed flush_output
  run_call-IsSound ready_marked h t =
      moved (IsSound ready_marked h.state) ready h _
        (λ can. record { made = inl (can, refl); tidy = λ e. cc })
        (λ cannot. record { made = inr (cannot, refl); tidy = t })
  run_call-IsSound failed_marked h t =
      moved (IsSound failed_marked h.state) failed h _
        (λ can. record { made = inl (can, refl); tidy = λ e. cc })
        (λ cannot. record { made = inr (cannot, refl); tidy = t })
  run_call-IsSound flushed h t = record { made = refl; tidy = t }
  run_call-IsSound (awaited_ready os injected waited probe) h t =
      wait_ready_with-IsSound os injected waited probe h t
  run_call-IsSound (shut_down os injected) h t = shutdown-IsSound os injected h t
  run_call-IsSound (awaited os) h t = wait-IsSound os h t

  calls-AreSound :
      (calls : List (Call Child)) (h : WorkerHandle Child)
      → (h.state ≡ absent → h.child ≡ none)
      → AreSound calls h
  calls-AreSound [] h t = tt
  calls-AreSound (call ∷ calls) h t =
      let first = run_call-IsSound call h t in
      (first, calls-AreSound calls (run_call call h) first.tidy)

  spawned_starting :
      (spec : WorkerSpec) (r : Result Child IoError) (h : WorkerHandle Child)
      → spawned spec starting r ≡ ok h
      → h.state ≡ starting
  unfolding spawned
  spawned_starting spec (ok c) h e = ap (λ r. state_of r) (sym e)
    where
      state_of : Result (WorkerHandle Child) WorkerError → WorkerState
      state_of (ok h) = h.state
      state_of (err e) = starting
  spawned_starting spec (err source) h e = cc

  -- A worker that was spawned begins as starting, and in any history of calls on it, whatever the
  -- system answers them, each single call moves it only as that call may: a mark of readiness or of
  -- failure to that state exactly where the transition is allowed, a wait for readiness to ready or
  -- failed, a shutdown towards absent, a wait to failed, and each only by transitions that the states
  -- allow; and whenever it is absent after a call, it has no process.
  pub spawn-AreSound :
      (run : Text → List Text → Result Child IoError) (spec : WorkerSpec) (h : WorkerHandle Child)
      (calls : List (Call Child))
      → spawn run spec ≡ ok h
      → (h.state ≡ starting) × AreSound calls h
  unfolding spawn transition_to can_transition_to
  spawn-AreSound run spec h calls e =
      let s : h.state ≡ starting = spawned_starting spec (run spec.program spec.args) h e in
      (s, calls-AreSound calls h (λ is_absent. cc (sym s ∙ is_absent)))
